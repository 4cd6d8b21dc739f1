-- ===== src/AddressPool/Leases.antt =====
-- The invariant of the four maps of leases and reservations, and what it gives: no two clients hold
-- one address.
use klevret_english_ver.Base.{
  ◌≡◌, Bool, true, false, ◌||◌, [], ◌∷◌, none, some, if◌then◌else◌, ok, arith, Bool-cases,
  Option-cases, inl, inr,
}
use klevret_english_ver.SortedMap.{Order, same, Map, Set, lookup, contains, assign, erase}
use klevret_english_ver.SortedMap.Laws.{
  same_refl, same_sym, same_trans, same_of_same, lookup-assign, lookup-erase, lookup-same,
  contains-lookup,
}
use klevret_english_ver.SortedMap.Sorted.{IsSorted}
use klevret_english_ver.IpAddress.{IPv4Address}
use klevret_english_ver.HardwareAddress.{MacAddress}
use klevret_english_ver.AddressPool.{
  AddressPool, is_ip_taken, is_ip_reserved, take_address, first_free, get_cached, get_taken,
  get_address,
}

module _ ⦃ips : Order IPv4Address⦄ ⦃macs : Order MacAddress⦄ where
  -- The map gives the address to the client.
  unfoldable pub owns : IPv4Address → MacAddress → Map IPv4Address MacAddress → Bool
  owns ip mac m = elim (lookup ip m) [ none ↦ false | some mac' ↦ same mac' mac ]

  pub owns-assign :
      (i k : IPv4Address) (mac v : MacAddress) (m : Map IPv4Address MacAddress)
      → owns i mac (assign k v m) ≡ (if same k i then same v mac else owns i mac m)
  unfolding owns
  owns-assign i k mac v m = ground (arith, lookup-assign k i v m)

  pub owns-erase :
      (i k : IPv4Address) (mac : MacAddress) (m : Map IPv4Address MacAddress)
      → owns i mac (erase k m) ≡ (if same k i then false else owns i mac m)
  unfolding owns
  owns-erase i k mac m = ground (arith, lookup-erase k i m)

  pub owns-same :
      (i j : IPv4Address) (mac : MacAddress) (m : Map IPv4Address MacAddress)
      → same i j ≡ true
      → owns i mac m ≡ owns j mac m
  unfolding owns
  owns-same i j mac m h = ground (arith, lookup-same i j m h)

  pub owns_unique :
      (i : IPv4Address) (a b : MacAddress) (m : Map IPv4Address MacAddress)
      → owns i a m ≡ true
      → owns i b m ≡ true
      → same a b ≡ true
  unfolding owns
  owns_unique i a b m h k = elim (Option-cases (lookup i m)) [
    | inl e ↦ absurd (ground arith)
    | inr (c, e) ↦ ground (arith, same_sym c a, same_trans a c b)
  ]

  pub contains_of_owns :
      (i : IPv4Address) (a : MacAddress) (m : Map IPv4Address MacAddress)
      → owns i a m ≡ true
      → contains i m ≡ true
  unfolding owns
  contains_of_owns i a m h = ground (arith, contains-lookup i m)

  pub owns_of_lookup :
      (i : IPv4Address) (a : MacAddress) (m : Map IPv4Address MacAddress)
      → lookup i m ≡ some a
      → owns i a m ≡ true
  unfolding owns
  owns_of_lookup i a m h = ground (arith, same_refl a)

  -- A lease and a reservation of a client are entered under the address too, an address that is
  -- both leased and reserved has one client, nothing is cached, and the included addresses stand in
  -- their order.
  pub record Inv (p : AddressPool) : Type 0 where
    pub taken :
        (m : MacAddress) (ip : IPv4Address)
        → lookup m p.taken_mac_addresses ≡ some ip
        → owns ip m p.taken_ip_addresses ≡ true
    pub reserved :
        (m : MacAddress) (ip : IPv4Address)
        → lookup m p.reserved_mac_addresses ≡ some ip
        → owns ip m p.reserved_ip_addresses ≡ true
    pub agree :
        (ip : IPv4Address) (a b : MacAddress)
        → owns ip a p.taken_ip_addresses ≡ true
        → owns ip b p.reserved_ip_addresses ≡ true
        → same a b ≡ true
    pub nothing_cached : p.cache ≡ []
    pub in_order : IsSorted p.included_ip_addresses

  -- The address is nobody else's.
  record IsFor (p : AddressPool) (mac : MacAddress) (ip : IPv4Address) : Type 0 where
    by_reservation : (m : MacAddress) → owns ip m p.reserved_ip_addresses ≡ true → same m mac ≡ true
    by_lease : (m : MacAddress) → owns ip m p.taken_ip_addresses ≡ true → same m mac ≡ true

  module _ (p : AddressPool) (mac : MacAddress) (ip : IPv4Address) (v : Inv p)
      (f : IsFor p mac ip) where
    take_address-taken :
        (m : MacAddress) (i : IPv4Address)
        → lookup m (assign mac ip p.taken_mac_addresses) ≡ some i
        → owns i m (assign ip mac p.taken_ip_addresses) ≡ true
    take_address-taken m i h = elim (Bool-cases (same mac m)) [
      | inl s ↦ ground (
        arith,
        lookup-assign mac m ip p.taken_mac_addresses,
        owns-assign i ip m mac p.taken_ip_addresses,
        same_refl ip,
      )
      | inr s ↦ ground (
        arith,
        lookup-assign mac m ip p.taken_mac_addresses,
        owns-assign i ip m mac p.taken_ip_addresses,
        v.taken m i,
        owns-same ip i m p.taken_ip_addresses,
        f.by_lease m,
        same_sym mac m,
      )
    ]

    take_address-agree :
        (i : IPv4Address) (a b : MacAddress)
        → owns i a (assign ip mac p.taken_ip_addresses) ≡ true
        → owns i b p.reserved_ip_addresses ≡ true
        → same a b ≡ true
    take_address-agree i a b h k = ground (
      arith,
      owns-assign i ip a mac p.taken_ip_addresses,
      owns-same ip i b p.reserved_ip_addresses,
      f.by_reservation b,
      v.agree i a b,
      same_of_same mac a b,
      same_sym mac b,
      same_sym a mac,
      same_of_same a mac b,
    )

    take_address-Inv : Inv (take_address p mac ip)
    take_address-Inv = record {
      taken = take_address-taken;
      reserved = v.reserved;
      agree = take_address-agree;
      nothing_cached = v.nothing_cached;
      in_order = v.in_order;
    }

  reserved-IsFor :
      (p : AddressPool) (mac : MacAddress) (ip : IPv4Address)
      → Inv p
      → lookup mac p.reserved_mac_addresses ≡ some ip
      → IsFor p mac ip
  reserved-IsFor p mac ip v h =
      let mine = v.reserved mac ip h in
      record {
        by_reservation = λ m o. owns_unique ip m mac p.reserved_ip_addresses o mine;
        by_lease = λ m o. v.agree ip m mac o mine;
      }

  free-IsFor :
      (p : AddressPool) (mac : MacAddress) (ip : IPv4Address)
      → (is_ip_reserved p ip || is_ip_taken p ip) ≡ false
      → IsFor p mac ip
  free-IsFor p mac ip h = record {
    by_reservation = λ m o. ground (arith, contains_of_owns ip m p.reserved_ip_addresses);
    by_lease = λ m o. ground (arith, contains_of_owns ip m p.taken_ip_addresses);
  }

  first_free-Inv :
      (p : AddressPool) (mac : MacAddress) (l : Set IPv4Address) {ip : IPv4Address}
      {q : AddressPool}
      → Inv p
      → first_free p mac l ≡ ok (ip, q)
      → Inv q
  unfolding first_free
  first_free-Inv p mac [] v h = cc
  first_free-Inv p mac ((i, u) ∷ l) {ip} {q} v h =
      elim (Bool-cases (is_ip_reserved p i || is_ip_taken p i)) [
        | inl t ↦ first_free-Inv p mac l v (rw t at h)
        | inr t ↦
            let e : q ≡ take_address p mac i = ground arith in
            rw e (take_address-Inv p mac i v (free-IsFor p mac i t))
      ]

  -- `get_address` keeps the maps consistent, whichever branch it takes.
  pub get_address-Inv :
      (p : AddressPool) (mac : MacAddress) {ip : IPv4Address} {q : AddressPool}
      → Inv p
      → get_address p mac ≡ ok (ip, q)
      → Inv q
  unfolding get_address get_taken get_cached
  get_address-Inv p mac {ip} {q} v h = elim (Option-cases (lookup mac p.reserved_mac_addresses)) [
    | inr (i, e) ↦
        let eq : q ≡ take_address p mac i = ground arith in
        rw eq (take_address-Inv p mac i v (reserved-IsFor p mac i v e))
    | inl e ↦ elim (Option-cases (lookup mac p.taken_mac_addresses)) [
      | inr (i, f) ↦ let eq : q ≡ p = ground arith in rw eq v
      | inl f ↦
          first_free-Inv p mac p.included_ip_addresses {ip = ip} {q = q} v
            (unfold lookup in ground (arith, v.nothing_cached))
    ]
  ]
