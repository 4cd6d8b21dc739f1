-- ===== src/AddressPool/Visits.antt =====
-- The loops over a range do their body at each address of the range.
use klevret_english_ver.Base.{
  ℕ, zero, suc, ◌^◌, ◌≡◌, refl, ap, ◌∙◌, inl, inr, false, ◌||◌, List, [], ◌∷◌, if◌then◌else◌, ok,
  arith, Bool-cases,
}
use klevret_english_ver.SortedMap.{Order, same, Set, contains, erase}
use klevret_english_ver.SortedMap.Laws.{contains-assign, contains-lookup, lookup-erase}
use klevret_english_ver.Endian.{Endianness}
use klevret_english_ver.IpAddress.{IPv4Address, increment, address_eq}
use klevret_english_ver.IpAddress.Network.{IsAddress}
use klevret_english_ver.AddressPool.Range.{for_range_ends}
use klevret_english_ver.HardwareAddress.{MacAddress}
use klevret_english_ver.AddressPool.{
  AddressPool, is_address_included, for_range, include_ip, exclude_ip, include_ip_range,
  exclude_ip_range,
}
use klevret_english_ver.AddressPool.History.{includes_range, excludes_range}
use klevret_english_ver.AddressPool.View.{
  view, IsRange, is_listed, KeepsLeases, KeepsReservations, Spec,
}

module _ ⦃ips : Order IPv4Address⦄ ⦃macs : Order MacAddress⦄ where
  pub contains-erase :
      (k j : IPv4Address) (s : Set IPv4Address)
      → contains j (erase k s) ≡ (if same k j then false else contains j s)
  contains-erase k j s =
      ground (arith, contains-lookup j (erase k s), contains-lookup j s, lookup-erase k j s)

  abbrev pub visit :
      (AddressPool → IPv4Address → AddressPool) → AddressPool → List IPv4Address → AddressPool
  visit act p [] = p
  visit act p (x ∷ rest) = visit act (act p x) rest

  for_range_visits :
      (fuel : ℕ) (e : Endianness) (act : AddressPool → IPv4Address → AddressPool) (p : AddressPool)
      (current end : IPv4Address) (q : AddressPool)
      → for_range fuel e act p current end ≡ ok q
      → (range : List IPv4Address) × IsRange e current end range × (q ≡ visit act p range)
  unfolding for_range
  for_range_visits zero e act p current end q returns = cc
  for_range_visits (suc fuel) e act p current end q returns =
      elim (Bool-cases (address_eq current end)) [
        | inl at_end ↦ (end ∷ [], inl (at_end, refl, refl), ground arith)
        | inr before_end ↦
            let (range, is_range, visits) =
              for_range_visits fuel e act (act p current) (increment e current) end q
                (rw before_end at returns) in
            (current ∷ range, inr (before_end, refl, is_range), visits)
      ]

  -- A loop over a range whose ends have four octets ends, whatever its body is, also where the range
  -- wraps around the address space, and it does its body at each address of the range, in order: from
  -- the first on, each the one behind the one before, up to the first that is the end.
  pub for_range_does :
      (e : Endianness) (act : AddressPool → IPv4Address → AddressPool) (p : AddressPool)
      (start end : IPv4Address)
      → IsAddress start
      → IsAddress end
      → (range : List IPv4Address) × IsRange e start end range
        × (for_range (2 ^ 32) e act p start end ≡ ok (visit act p range))
  for_range_does e act p start end vs ve =
      let (q, ends) = for_range_ends e act p start end vs ve in
      let (range, is_range, visits) = for_range_visits _ e act p start end q ends in
      (range, is_range, ends ∙ ap (λ q. ok q) visits)

  visit_includes :
      (p : AddressPool) (range : List IPv4Address) (j : IPv4Address)
      → is_address_included (visit include_ip p range) j
        ≡ (is_listed j range || is_address_included p j)
  unfolding include_ip
  visit_includes p [] j = refl
  visit_includes p (x ∷ range) j = ground (
    arith,
    visit_includes (include_ip p x) range j,
    contains-assign x j tt p.included_ip_addresses,
  )

  visit_excludes :
      (p : AddressPool) (range : List IPv4Address) (j : IPv4Address)
      → is_address_included (visit exclude_ip p range) j
        ≡ (if is_listed j range then false else is_address_included p j)
  unfolding exclude_ip
  visit_excludes p [] j = refl
  visit_excludes p (x ∷ range) j =
      ground
        (arith, visit_excludes (exclude_ip p x) range j, contains-erase x j p.included_ip_addresses)

  abbrev KeepsClients : AddressPool → AddressPool → Type 0
  KeepsClients p q = KeepsLeases (view p) (view q) × KeepsReservations (view p) (view q)

  visit_include_keeps :
      (p : AddressPool) (range : List IPv4Address) → KeepsClients p (visit include_ip p range)
  unfolding view include_ip
  visit_include_keeps p [] = ((λ m. refl, λ j. refl), (λ m. refl, λ j. refl))
  visit_include_keeps p (x ∷ range) = visit_include_keeps (include_ip p x) range

  visit_exclude_keeps :
      (p : AddressPool) (range : List IPv4Address) → KeepsClients p (visit exclude_ip p range)
  unfolding view exclude_ip
  visit_exclude_keeps p [] = ((λ m. refl, λ j. refl), (λ m. refl, λ j. refl))
  visit_exclude_keeps p (x ∷ range) = visit_exclude_keeps (exclude_ip p x) range

  pub include_range-Spec :
      (e : Endianness) (p : AddressPool) (a b : IPv4Address) (q : AddressPool)
      → include_ip_range e p a b ≡ ok q
      → Spec e (view p) (includes_range a b) (view q)
  unfolding include_ip_range view
  include_range-Spec e p a b q returns =
      let (range, is_range, visits) = for_range_visits _ e include_ip p a b q returns in
      let (leases, reservations) = visit_include_keeps p range in
      rw visits ((range, is_range, λ j. visit_includes p range j), leases, reservations)

  pub exclude_range-Spec :
      (e : Endianness) (p : AddressPool) (a b : IPv4Address) (q : AddressPool)
      → exclude_ip_range e p a b ≡ ok q
      → Spec e (view p) (excludes_range a b) (view q)
  unfolding exclude_ip_range view
  exclude_range-Spec e p a b q returns =
      let (range, is_range, visits) = for_range_visits _ e exclude_ip p a b q returns in
      let (leases, reservations) = visit_exclude_keeps p range in
      rw visits ((range, is_range, λ j. visit_excludes p range j), leases, reservations)
