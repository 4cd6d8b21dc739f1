-- ===== src/AddressPool/Smallest.antt =====
-- Which address a new client gets: the smallest that is free.
use klevret_english_ver.Base.{
  ◌≡◌, sym, ◌∙◌, true, false, [], ◌∷◌, none, ok, err, arith, Bool-cases, inl, inr, no_free_address,
  Error,
}
use klevret_english_ver.SortedMap.{Order, same, Set, lookup, contains}
use klevret_english_ver.SortedMap.Sorted.{IsSorted, lt_of_contains}
use klevret_english_ver.IpAddress.{IPv4Address}
use klevret_english_ver.HardwareAddress.{MacAddress}
use klevret_english_ver.AddressPool.{
  AddressPool, is_address_included, first_free, get_cached, get_taken, get_address,
}
use klevret_english_ver.AddressPool.Leases.{Inv}
use klevret_english_ver.AddressPool.Assignment.{is_busy, first_free_found}
use klevret_english_ver.SortedMap.Laws.{contains-same}

module _ ⦃ips : Order IPv4Address⦄ ⦃macs : Order MacAddress⦄ where
  is_busy-same : (p : AddressPool) (i j : IPv4Address) → same i j ≡ true → is_busy p i ≡ is_busy p j
  is_busy-same p i j h =
      rw (contains-same i j p.reserved_ip_addresses h, contains-same i j p.taken_ip_addresses h)

  -- The search passes over busy addresses only.
  first_free_least :
      (p : AddressPool) (mac : MacAddress) (l : Set IPv4Address) {ip : IPv4Address}
      {q : AddressPool}
      → IsSorted l
      → first_free p mac l ≡ ok (ip, q)
      → (x : IPv4Address) → contains x l ≡ true
      → ips.lt x ip ≡ true
      → is_busy p x ≡ true
  unfolding first_free contains
  first_free_least p mac [] s h x c lt = cc
  first_free_least p mac ((i, u) ∷ l) {ip} {q} (a, s) h x c lt = elim (Bool-cases (is_busy p i)) [
    | inl t ↦ elim (Bool-cases (same i x)) [
      | inl e ↦ sym (is_busy-same p i x e) ∙ t
      | inr n ↦ first_free_least p mac l {ip = ip} {q = q} s (rw t at h) x (rw n at c) lt
    ]
    | inr t ↦
        let e : ip ≡ i = ground arith in
        ground (arith, lt_of_contains i x l a, ips.trans x i x, ips.irrefl x)
  ]

  -- It fails only if every address is busy.
  pub first_free_none :
      (p : AddressPool) (mac : MacAddress) (l : Set IPv4Address) {cause : Error}
      → first_free p mac l ≡ err cause
      → (x : IPv4Address) → contains x l ≡ true
      → is_busy p x ≡ true
  unfolding first_free contains
  first_free_none p mac [] h x c = cc
  first_free_none p mac ((i, u) ∷ l) h x c = elim (Bool-cases (is_busy p i)) [
    | inl t ↦ elim (Bool-cases (same i x)) [
      | inl e ↦ sym (is_busy-same p i x e) ∙ t
      | inr n ↦ first_free_none p mac l (rw t at h) x (rw n at c)
    ]
    | inr t ↦ absurd (ground arith)
  ]

  module _ (p : AddressPool) (mac : MacAddress) (v : Inv p)
      (unreserved : lookup mac p.reserved_mac_addresses ≡ none)
      (new : lookup mac p.taken_mac_addresses ≡ none) where
    pub searched : get_address p mac ≡ first_free p mac p.included_ip_addresses
    unfolding get_address get_taken get_cached lookup
    searched = ground (arith, v.nothing_cached)

    -- A client with neither a reservation nor a lease gets an included address that is free, and
    -- every included address below it is busy.
    pub get_address_smallest :
        (ip : IPv4Address) (q : AddressPool)
        → get_address p mac ≡ ok (ip, q)
        → (is_address_included p ip ≡ true)
          × (is_busy p ip ≡ false)
          × ((x : IPv4Address)
              → is_address_included p x ≡ true
              → ips.lt x ip ≡ true
              → is_busy p x ≡ true)
    get_address_smallest ip q h =
        let found = sym searched ∙ h in
        let (_, free, member) = first_free_found p mac p.included_ip_addresses found in
        (member, free, first_free_least p mac p.included_ip_addresses v.in_order found)

    -- A client with neither a reservation nor a lease is refused only when every included address is
    -- busy.
    pub get_address_exhausted :
        get_address p mac ≡ err no_free_address
        → (x : IPv4Address) → is_address_included p x ≡ true
        → is_busy p x ≡ true
    get_address_exhausted h = first_free_none p mac p.included_ip_addresses (sym searched ∙ h)
