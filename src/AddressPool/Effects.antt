-- ===== src/AddressPool/Effects.antt =====
-- Each call of the pool that goes by its maps, against what it may do to the view.
use klevret_english_ver.Base.{
  ◌≡◌, refl, sym, ◌∙◌, inl, inr, Bool, true, false, Option, none, some, if◌then◌else◌, ok, arith,
  Bool-cases, Option-cases,
}
use klevret_english_ver.SortedMap.{Order, same, lookup, assign, erase}
use klevret_english_ver.SortedMap.Laws.{lookup-assign, lookup-erase, contains-lookup}
use klevret_english_ver.Endian.{Endianness}
use klevret_english_ver.IpAddress.{IPv4Address}
use klevret_english_ver.HardwareAddress.{MacAddress}
use klevret_english_ver.AddressPool.{
  AddressPool, is_ip_taken, is_ip_reserved, is_address_included, reserve_ip, unreserve_ip,
  take_address, get_address,
}
use klevret_english_ver.AddressPool.Leases.{
  Inv, owns-same, owns_unique, contains_of_owns, owns_of_lookup,
}
use klevret_english_ver.AddressPool.History.{reserves, unreserves, gets}
use klevret_english_ver.AddressPool.Assignment.{
  is_busy, first_free_found, by_reservation, by_lease, by_cache, by_search, get_address-Got,
}
use klevret_english_ver.AddressPool.View.{view, IsFree, Leases, Spec}

module _ ⦃ips : Order IPv4Address⦄ ⦃macs : Order MacAddress⦄ where
  not_erased :
      (b : Bool) {o : Option IPv4Address} {j : IPv4Address}
      → (if b then none else o) ≡ some j
      → (b ≡ false) × (o ≡ some j)
  not_erased true h = cc
  not_erased false h = (refl, h)

  module _ (p : AddressPool) (i : Inv p) where
    idle-IsFree : (ip : IPv4Address) → is_busy p ip ≡ false → IsFree (view p) ip
    unfolding view
    idle-IsFree ip idle = record {
      not_taken = ground (arith, contains-lookup ip p.taken_ip_addresses);
      not_reserved = ground (arith, contains-lookup ip p.reserved_ip_addresses);
      unleased = λ m j leased. elim (Bool-cases (same j ip)) [
        | inr other ↦ other
        | inl equal ↦ absurd (
            let held =
              contains_of_owns ip m p.taken_ip_addresses
                (sym (owns-same j ip m p.taken_ip_addresses equal) ∙ i.taken m j leased) in
            ground arith)
      ];
      unreserved = λ m j reserved. elim (Bool-cases (same j ip)) [
        | inr other ↦ other
        | inl equal ↦ absurd (
            let held =
              contains_of_owns ip m p.reserved_ip_addresses
                (sym (owns-same j ip m p.reserved_ip_addresses equal) ∙ i.reserved m j reserved) in
            ground arith)
      ];
    }

    -- Handing an address out changes leases only.
    take_address-Leases :
        (mac : MacAddress) (ip : IPv4Address)
        → Leases (view p) mac ip (view (take_address p mac ip))
    unfolding view
    take_address-Leases mac ip = (
      λ m. lookup-assign mac m ip p.taken_mac_addresses,
      λ j. lookup-assign ip j mac p.taken_ip_addresses,
      (λ m. refl, λ j. refl),
      λ j. refl,
    )

    pub get_address-Spec :
        (e : Endianness) (mac : MacAddress) (ip : IPv4Address) (q : AddressPool)
        → get_address p mac ≡ ok (ip, q)
        → Spec e (view p) (gets mac) (view q)
    unfolding view lookup
    get_address-Spec e mac ip q returns = elim (get_address-Got p mac returns) [
      | by_reservation a takes ↦ rw takes (inr (ip, inl a, take_address-Leases mac ip))
      | by_lease a b keeps ↦
          rw keeps (inl ((a, (ip, b)), ((λ m. refl, λ j. refl), (λ m. refl, λ j. refl), λ j. refl)))
      | by_cache a b c takes ↦ absurd (ground (arith, i.nothing_cached))
      | by_search a b s ↦
          let (takes, idle, found) = first_free_found p mac p.included_ip_addresses s in
          rw takes (inr (ip, inr (a, b, found, idle-IsFree ip idle), take_address-Leases mac ip))
    ]

    pub reserve_ip-Spec :
        (e : Endianness) (ip : IPv4Address) (mac : MacAddress) (q : AddressPool)
        → reserve_ip p ip mac ≡ ok q
        → Spec e (view p) (reserves ip mac) (view q)
    unfolding view reserve_ip
    reserve_ip-Spec e ip mac q returns =
        let inside : is_address_included p ip ≡ true = ground arith in
        let unreserved : is_ip_reserved p ip ≡ false = ground arith in
        let unleased : is_ip_taken p ip ≡ false = ground arith in
        let same_pool : q ≡ record p {
          reserved_ip_addresses = assign ip mac p.reserved_ip_addresses;
          reserved_mac_addresses = assign mac ip p.reserved_mac_addresses;
        } =
          ground arith in
        rw same_pool (
          inside,
          idle-IsFree ip (rw (unreserved, unleased) refl),
          λ m. lookup-assign mac m ip p.reserved_mac_addresses,
          λ j. lookup-assign ip j mac p.reserved_ip_addresses,
          (λ m. refl, λ j. refl),
          λ j. refl,
        )

    pub unreserve_ip-Spec :
        (e : Endianness) (ip : IPv4Address) (q : AddressPool)
        → unreserve_ip p ip ≡ ok q
        → Spec e (view p) (unreserves ip) (view q)
    unfolding view unreserve_ip
    unreserve_ip-Spec e ip q returns = elim (Option-cases (lookup ip p.reserved_ip_addresses)) [
      | inl none_there ↦ absurd (ground arith)
      | inr (mac, found) ↦
          let same_pool : q ≡ record p {
            reserved_mac_addresses = erase mac p.reserved_mac_addresses;
            reserved_ip_addresses = erase ip p.reserved_ip_addresses;
          } =
            ground arith in
          let erased : (m : MacAddress)
              → lookup m (erase mac p.reserved_mac_addresses)
                ≡ (if same mac m then none else lookup m p.reserved_mac_addresses) =
            λ m. lookup-erase mac m p.reserved_mac_addresses in
          rw same_pool (
            λ m j reserved. elim (Bool-cases (same j ip)) [
              | inr other ↦ other
              | inl equal ↦
                  let (other, was) = not_erased (same mac m) (sym (erased m) ∙ reserved) in
                  let owner =
                    sym (owns-same j ip m p.reserved_ip_addresses equal) ∙ i.reserved m j was in
                  let one =
                    owns_unique ip mac m p.reserved_ip_addresses
                      (owns_of_lookup ip mac p.reserved_ip_addresses found) owner in
                  absurd (ground arith)
            ],
            (mac, found, erased),
            λ j. lookup-erase ip j p.reserved_ip_addresses,
            (λ m. refl, λ j. refl),
            λ j. refl,
          )
    ]
