-- ===== src/AddressPool/Reservations.antt =====
-- Reserving and unreserving keep the invariant, and the loops over a range keep what their body keeps.
use klevret_english_ver.Base.{
  ℕ, suc, zero, ◌≡◌, true, false, some, ok, arith, Bool-cases, Option-cases, inl, inr,
}
use klevret_english_ver.SortedMap.{Order, same, lookup, assign, erase}
use klevret_english_ver.SortedMap.Laws.{same_refl, lookup-assign, lookup-erase}
use klevret_english_ver.Endian.{Endianness}
use klevret_english_ver.IpAddress.{IPv4Address, increment, address_eq}
use klevret_english_ver.HardwareAddress.{MacAddress}
use klevret_english_ver.AddressPool.{
  AddressPool, is_ip_taken, is_ip_reserved, for_range, reserve_ip, unreserve_ip,
}
use klevret_english_ver.AddressPool.Leases.{
  owns, owns-assign, owns-erase, owns-same, owns_unique, owns_of_lookup, contains_of_owns, Inv,
}

module _ ⦃ips : Order IPv4Address⦄ ⦃macs : Order MacAddress⦄ where
  module _ (p : AddressPool) (ip : IPv4Address) (mac : MacAddress) (v : Inv p) where
    reserved_by :
        is_ip_reserved p ip ≡ false
        → (m : MacAddress) (i : IPv4Address)
        → lookup m (assign mac ip p.reserved_mac_addresses) ≡ some i
        → owns i m (assign ip mac p.reserved_ip_addresses) ≡ true
    reserved_by free m i h = ground (
      arith,
      lookup-assign mac m ip p.reserved_mac_addresses,
      owns-assign i ip m mac p.reserved_ip_addresses,
      same_refl ip,
      v.reserved m i,
      owns-same ip i m p.reserved_ip_addresses,
      contains_of_owns ip m p.reserved_ip_addresses,
    )

    agree_reserved :
        is_ip_taken p ip ≡ false
        → (i : IPv4Address) (a b : MacAddress) → owns i a p.taken_ip_addresses ≡ true
        → owns i b (assign ip mac p.reserved_ip_addresses) ≡ true
        → same a b ≡ true
    agree_reserved free i a b h k = ground (
      arith,
      owns-assign i ip b mac p.reserved_ip_addresses,
      owns-same ip i a p.taken_ip_addresses,
      contains_of_owns ip a p.taken_ip_addresses,
      v.agree i a b,
    )

    pub reserve_ip-Inv : {q : AddressPool} → reserve_ip p ip mac ≡ ok q → Inv q
    unfolding reserve_ip
    reserve_ip-Inv {q} h = elim (Bool-cases (is_ip_reserved p ip)) [
      | inl r ↦ absurd (ground arith)
      | inr r ↦ elim (Bool-cases (is_ip_taken p ip)) [
        | inl t ↦ absurd (ground arith)
        | inr t ↦
            let e : q ≡ record p {
              reserved_ip_addresses = assign ip mac p.reserved_ip_addresses;
              reserved_mac_addresses = assign mac ip p.reserved_mac_addresses;
            } =
              ground arith in
            rw e (record {
              taken = v.taken;
              reserved = reserved_by r;
              agree = agree_reserved t;
              nothing_cached = v.nothing_cached;
              in_order = v.in_order;
            })
      ]
    ]

    reserved_without :
        lookup ip p.reserved_ip_addresses ≡ some mac
        → (m : MacAddress) (i : IPv4Address)
        → lookup m (erase mac p.reserved_mac_addresses) ≡ some i
        → owns i m (erase ip p.reserved_ip_addresses) ≡ true
    reserved_without e m i h = ground (
      arith,
      lookup-erase mac m p.reserved_mac_addresses,
      owns-erase i ip m p.reserved_ip_addresses,
      v.reserved m i,
      owns-same ip i m p.reserved_ip_addresses,
      owns_of_lookup ip mac p.reserved_ip_addresses e,
      owns_unique ip mac m p.reserved_ip_addresses,
    )

    agree_without :
        (i : IPv4Address) (a b : MacAddress)
        → owns i a p.taken_ip_addresses ≡ true
        → owns i b (erase ip p.reserved_ip_addresses) ≡ true
        → same a b ≡ true
    agree_without i a b h k =
        ground (arith, owns-erase i ip b p.reserved_ip_addresses, v.agree i a b)

  pub unreserve_ip-Inv :
      (p : AddressPool) (ip : IPv4Address) (v : Inv p) {q : AddressPool}
      → unreserve_ip p ip ≡ ok q
      → Inv q
  unfolding unreserve_ip
  unreserve_ip-Inv p ip v {q} h = elim (Option-cases (lookup ip p.reserved_ip_addresses)) [
    | inl e ↦ absurd (ground arith)
    | inr (mac, e) ↦
        let eq : q ≡ record p {
          reserved_mac_addresses = erase mac p.reserved_mac_addresses;
          reserved_ip_addresses = erase ip p.reserved_ip_addresses;
        } =
          ground arith in
        rw eq (record {
          taken = v.taken;
          reserved = reserved_without p ip mac v e;
          agree = agree_without p ip mac v;
          nothing_cached = v.nothing_cached;
          in_order = v.in_order;
        })
  ]

  -- What holds of a pool and is kept by the body holds after the loop.
  pub for_range_keeps {κ} :
      (P : AddressPool → Type κ) (act : AddressPool → IPv4Address → AddressPool)
      → ((p : AddressPool) (ip : IPv4Address) → P p → P (act p ip))
      → (fuel : ℕ) (e : Endianness) (p : AddressPool) (current end : IPv4Address) {q : AddressPool}
      → for_range fuel e act p current end ≡ ok q
      → P p
      → P q
  unfolding for_range
  for_range_keeps P act keep zero e p current end h v = cc
  for_range_keeps P act keep (suc fuel) e p current end {q} h v =
      elim (Bool-cases (address_eq current end)) [
        | inl t ↦ let eq : q ≡ act p end = ground arith in rw eq (keep p end v)
        | inr t ↦
            for_range_keeps P act keep fuel e (act p current) (increment e current) end (rw t at h)
              (keep p current v)
      ]
