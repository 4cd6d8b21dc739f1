-- ===== src/AddressPool/Assignment.antt =====
-- What `get_address` returns, branch by branch, and what it leaves alone.
use klevret_english_ver.Base.{
  ◌≡◌, refl, ap, ◌∙◌, Bool, true, false, ◌||◌, List, [], ◌∷◌, none, some, if◌then◌else◌, Result, ok,
  err, arith, Bool-cases, Option-cases, inl, inr,
}
use klevret_english_ver.SortedMap.{Order, same, Set, lookup, contains}
use klevret_english_ver.SortedMap.Laws.{
  same_refl, lookup-assign, lookup-same, contains-lookup, contains-assign,
}
use klevret_english_ver.SortedMap.Sorted.{assign-assign}
use klevret_english_ver.Endian.{Endianness}
use klevret_english_ver.IpAddress.{IPv4Address}
use klevret_english_ver.HardwareAddress.{MacAddress}
use klevret_english_ver.AddressPool.{
  AddressPool, is_ip_taken, is_ip_reserved, include_ip, exclude_ip, include_ip_range,
  exclude_ip_range, reserve_ip, unreserve_ip, take_address, first_free, get_cached, get_taken,
  get_address, release_address, set_option, remove_option,
}
use klevret_english_ver.AddressPool.History.{
  Call, includes, excludes, includes_range, excludes_range, reserves, unreserves, gets, releases,
  sets_option, removes_option, call, after, run, pool_of,
}
use klevret_english_ver.AddressPool.Reservations.{for_range_keeps}

module _ ⦃ips : Order IPv4Address⦄ ⦃macs : Order MacAddress⦄ where
  -- The address is neither reserved nor leased.
  abbrev pub is_busy : AddressPool → IPv4Address → Bool
  is_busy p ip = is_ip_reserved p ip || is_ip_taken p ip

  pub first_free_found :
      (p : AddressPool) (mac : MacAddress) (l : Set IPv4Address) {ip : IPv4Address}
      {q : AddressPool}
      → first_free p mac l ≡ ok (ip, q)
      → (q ≡ take_address p mac ip) × (is_busy p ip ≡ false) × (contains ip l ≡ true)
  unfolding first_free contains
  first_free_found p mac [] h = cc
  first_free_found p mac ((i, u) ∷ l) {ip} {q} h = elim (Bool-cases (is_busy p i)) [
    | inl t ↦
        let (a, b, c) = first_free_found p mac l {ip = ip} {q = q} (rw t at h) in
        (a, b, ground arith)
    | inr t ↦ let e : ip ≡ i = ground arith in (ground arith, rw e t, ground (arith, same_refl i))
  ]

  -- How a successful call went: by the reservation, by the lease, by the cache, or by the search.
  pub data Got (p : AddressPool) (mac : MacAddress) (ip : IPv4Address) (q : AddressPool)
      : Type 0 where
    by_reservation :
        lookup mac p.reserved_mac_addresses ≡ some ip → q ≡ take_address p mac ip → Got p mac ip q
    by_lease :
        lookup mac p.reserved_mac_addresses ≡ none
        → lookup mac p.taken_mac_addresses ≡ some ip
        → q ≡ p
        → Got p mac ip q
    by_cache :
        lookup mac p.reserved_mac_addresses ≡ none
        → lookup mac p.taken_mac_addresses ≡ none
        → lookup mac p.cache ≡ some ip
        → q ≡ take_address p mac ip
        → Got p mac ip q
    by_search :
        lookup mac p.reserved_mac_addresses ≡ none
        → lookup mac p.taken_mac_addresses ≡ none
        → first_free p mac p.included_ip_addresses ≡ ok (ip, q)
        → Got p mac ip q

  pub get_address-Got :
      (p : AddressPool) (mac : MacAddress) {ip : IPv4Address} {q : AddressPool}
      → get_address p mac ≡ ok (ip, q)
      → Got p mac ip q
  unfolding get_address get_taken get_cached
  get_address-Got p mac {ip} {q} h = elim (Option-cases (lookup mac p.reserved_mac_addresses)) [
    | inr (i, e) ↦ by_reservation (ground arith) (ground arith)
    | inl e ↦ elim (Option-cases (lookup mac p.taken_mac_addresses)) [
      | inr (i, f) ↦ by_lease e (ground arith) (ground arith)
      | inl f ↦ elim (Option-cases (lookup mac p.cache)) [
        | inr (i, g) ↦
            by_cache e f (ground (arith, contains-lookup mac p.taken_mac_addresses))
              (ground (arith, contains-lookup mac p.taken_mac_addresses))
        | inl g ↦ by_search e f (ground arith)
      ]
    ]
  ]

  took :
      (p : AddressPool) (mac : MacAddress) (ip : IPv4Address) {q : AddressPool}
      → q ≡ take_address p mac ip
      → (m : MacAddress)
      → lookup m q.taken_mac_addresses
        ≡ (if same mac m then some ip else lookup m p.taken_mac_addresses)
  took p mac ip e m = rw e (lookup-assign mac m ip p.taken_mac_addresses)

  -- After a successful call the client holds the address, and the lease of every other client is
  -- as before.
  pub get_address-lookup :
      (p : AddressPool) (mac m : MacAddress) {ip : IPv4Address} {q : AddressPool}
      → get_address p mac ≡ ok (ip, q)
      → lookup m q.taken_mac_addresses
        ≡ (if same mac m then some ip else lookup m p.taken_mac_addresses)
  get_address-lookup p mac m {ip} {q} h = by (get_address-Got p mac h)
    where
      by :
          Got p mac ip q
          → lookup m q.taken_mac_addresses
            ≡ (if same mac m then some ip else lookup m p.taken_mac_addresses)
      by (by_reservation a e) = took p mac ip e m
      by (by_lease a b e) = rw e (ground (arith, lookup-same mac m p.taken_mac_addresses))
      by (by_cache a b c e) = took p mac ip e m
      by (by_search a b s) = took p mac ip (first_free_found p mac _ s).0 m

  take_twice :
      (p : AddressPool) (mac : MacAddress) (ip : IPv4Address)
      → take_address (take_address p mac ip) mac ip ≡ take_address p mac ip
  take_twice p mac ip = λ i. record p {
    taken_mac_addresses = assign-assign mac ip p.taken_mac_addresses i;
    taken_ip_addresses = assign-assign ip mac p.taken_ip_addresses i;
  }

  repeat_reserved :
      (p : AddressPool) (mac : MacAddress) (ip : IPv4Address)
      → lookup mac p.reserved_mac_addresses ≡ some ip
      → get_address (take_address p mac ip) mac ≡ ok (ip, take_address p mac ip)
  unfolding get_address
  repeat_reserved p mac ip a =
      rw (a, get_address) (ap (λ (r : AddressPool). ok (ip, r)) (take_twice p mac ip))

  repeat_leased :
      (p : AddressPool) (mac : MacAddress) (ip : IPv4Address)
      → lookup mac p.reserved_mac_addresses ≡ none
      → lookup mac p.taken_mac_addresses ≡ some ip
      → get_address p mac ≡ ok (ip, p)
  unfolding get_address get_taken
  repeat_leased p mac ip a b = ground arith

  repeat_taken :
      (p : AddressPool) (mac : MacAddress) (ip : IPv4Address)
      → lookup mac p.reserved_mac_addresses ≡ none
      → get_address (take_address p mac ip) mac ≡ ok (ip, take_address p mac ip)
  repeat_taken p mac ip a =
      repeat_leased (take_address p mac ip) mac ip a
        (took p mac ip refl mac ∙ ground (arith, same_refl mac))

  -- A client that asks again gets the same address, and the pool does not change.
  pub get_address_again :
      (p : AddressPool) (mac : MacAddress) {ip : IPv4Address} {q : AddressPool}
      → get_address p mac ≡ ok (ip, q)
      → get_address q mac ≡ ok (ip, q)
  get_address_again p mac {ip} {q} h = by (get_address-Got p mac h)
    where
      by : Got p mac ip q → get_address q mac ≡ ok (ip, q)
      by (by_reservation a e) = rw e (repeat_reserved p mac ip a)
      by (by_lease a b e) = rw e (repeat_leased p mac ip a b)
      by (by_cache a b c e) = rw e (repeat_taken p mac ip a)
      by (by_search a b s) = rw (first_free_found p mac _ s).0 (repeat_taken p mac ip a)

  -- The address has a lease.
  abbrev pub Holds : IPv4Address → AddressPool → Type 0
  Holds ip p = is_ip_taken p ip ≡ true

  take_address-Holds :
      (p : AddressPool) (mac : MacAddress) (i ip : IPv4Address) {q : AddressPool}
      → q ≡ take_address p mac i
      → Holds ip p
      → Holds ip q
  take_address-Holds p mac i ip e h =
      rw e (ground (arith, contains-assign i ip mac p.taken_ip_addresses))

  get_address-Holds :
      (p : AddressPool) (mac : MacAddress) (i ip : IPv4Address) (q : AddressPool)
      → Holds ip p
      → get_address p mac ≡ ok (i, q)
      → Holds ip q
  get_address-Holds p mac i ip q h k = by (get_address-Got p mac k)
    where
      by : Got p mac i q → Holds ip q
      by (by_reservation a e) = take_address-Holds p mac i ip e h
      by (by_lease a b e) = rw e h
      by (by_cache a b c e) = take_address-Holds p mac i ip e h
      by (by_search a b s) = take_address-Holds p mac i ip (first_free_found p mac _ s).0 h

  get_call-Holds :
      (ip : IPv4Address) (r : Result (IPv4Address × AddressPool)) (q : AddressPool)
      → ((i : IPv4Address) (q' : AddressPool) → r ≡ ok (i, q') → Holds ip q')
      → pool_of r ≡ ok q
      → Holds ip q
  get_call-Holds ip (ok (i, q')) q h e = let eq : q ≡ q' = ground arith in rw eq (h i q' refl)
  get_call-Holds ip (err x) q h e = cc

  call-Holds :
      (e : Endianness) (p : AddressPool) (c : Call) (ip : IPv4Address) (q : AddressPool)
      → Holds ip p
      → call e p c ≡ ok q
      → Holds ip q
  unfolding call include_ip exclude_ip include_ip_range exclude_ip_range reserve_ip unreserve_ip
      release_address set_option remove_option
  call-Holds e p (includes i) ip q h k = ground arith
  call-Holds e p (excludes i) ip q h k = ground arith
  call-Holds e p (includes_range a b) ip q h k =
      for_range_keeps (Holds ip) include_ip (λ p' i v. v) _ e p a b k h
  call-Holds e p (excludes_range a b) ip q h k =
      for_range_keeps (Holds ip) exclude_ip (λ p' i v. v) _ e p a b k h
  call-Holds e p (reserves i mac) ip q h k = ground arith
  call-Holds e p (unreserves i) ip q h k = ground arith
  call-Holds e p (gets mac) ip q h k =
      get_call-Holds ip (get_address p mac) q (λ i q' g. get_address-Holds p mac i ip q' h g) k
  call-Holds e p (releases i) ip q h k = ground arith
  call-Holds e p (sets_option o) ip q h k = ground arith
  call-Holds e p (removes_option n) ip q h k = ground arith

  after-Holds :
      (ip : IPv4Address) (p : AddressPool) (r : Result AddressPool)
      → Holds ip p
      → ((q : AddressPool) → r ≡ ok q → Holds ip q)
      → Holds ip (after p r)
  after-Holds ip p (ok q) h k = k q refl
  after-Holds ip p (err x) h k = h

  -- An address that was once handed out stays leased under every later call, `release_address`
  -- included: the pool never gets an address back.
  pub run-Holds :
      (e : Endianness) (p : AddressPool) (cs : List Call) (ip : IPv4Address)
      → is_ip_taken p ip ≡ true
      → is_ip_taken (run e p cs) ip ≡ true
  unfolding run
  run-Holds e p [] ip h = h
  run-Holds e p (c ∷ cs) ip h =
      run-Holds e (after p (call e p c)) cs ip
        (after-Holds ip p (call e p c) h (λ q k. call-Holds e p c ip q h k))
