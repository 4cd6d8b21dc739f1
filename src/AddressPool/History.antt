-- ===== src/AddressPool/History.antt =====
-- Every operation keeps the invariant, so it holds after any history of calls, and no two clients
-- ever hold one address.
use klevret_english_ver.Base.{
  ℕ, ◌≡◌, refl, sym, ◌∙◌, true, List, [], ◌∷◌, some, Result, ok, err, arith,
}
use klevret_english_ver.SortedMap.{Order, same, Map, Set, lookup}
use klevret_english_ver.SortedMap.Sorted.{IsSorted, assign-IsSorted, erase-IsSorted}
use klevret_english_ver.Endian.{Endianness}
use klevret_english_ver.IpAddress.{IPv4Address}
use klevret_english_ver.HardwareAddress.{MacAddress}
use klevret_english_ver.DhcpOption.Codec.{DhcpOption}
use klevret_english_ver.AddressPool.{
  AddressPool, empty_pool, include_ip, exclude_ip, include_ip_range, exclude_ip_range,
  insert_included, make_pool, reserve_ip, unreserve_ip, get_address, release_address, set_option,
  remove_option,
}
use klevret_english_ver.AddressPool.Leases.{owns, owns-same, owns_unique, Inv, get_address-Inv}
use klevret_english_ver.AddressPool.Reservations.{reserve_ip-Inv, unreserve_ip-Inv, for_range_keeps}

-- The calls of the pool's interface.
pub data Call : Type 0 where
  includes : IPv4Address → Call
  excludes : IPv4Address → Call
  includes_range : IPv4Address → IPv4Address → Call
  excludes_range : IPv4Address → IPv4Address → Call
  reserves : IPv4Address → MacAddress → Call
  unreserves : IPv4Address → Call
  gets : MacAddress → Call
  releases : IPv4Address → Call
  sets_option : DhcpOption → Call
  removes_option : ℕ → Call

module _ ⦃ips : Order IPv4Address⦄ ⦃macs : Order MacAddress⦄ where
  abbrev pub pool_of : Result (IPv4Address × AddressPool) → Result AddressPool
  pool_of (ok (ip, q)) = ok q
  pool_of (err x) = err x

  unfoldable pub call : Endianness → AddressPool → Call → Result AddressPool
  call e p (includes ip) = ok (include_ip p ip)
  call e p (excludes ip) = ok (exclude_ip p ip)
  call e p (includes_range a b) = include_ip_range e p a b
  call e p (excludes_range a b) = exclude_ip_range e p a b
  call e p (reserves ip mac) = reserve_ip p ip mac
  call e p (unreserves ip) = unreserve_ip p ip
  call e p (gets mac) = pool_of (get_address p mac)
  call e p (releases ip) = ok (release_address p ip)
  call e p (sets_option o) = ok (set_option p o)
  call e p (removes_option n) = ok (remove_option p n)

  -- A caller that catches the exceptions goes on with the pool as it was.
  abbrev pub after : AddressPool → Result AddressPool → AddressPool
  after p (ok q) = q
  after p (err x) = p

  unfoldable pub run : Endianness → AddressPool → List Call → AddressPool
  run e p [] = p
  run e p (c ∷ cs) = run e (after p (call e p c)) cs

  -- The sets and the options have no part in the invariant.
  others-Inv :
      (p : AddressPool) (included excluded : Set IPv4Address) (options : Map ℕ DhcpOption)
      → Inv p
      → IsSorted included
      → Inv (record p {
        included_ip_addresses = included;
        excluded_ip_addresses = excluded;
        options = options;
      })
  others-Inv p included excluded options v sorted = record {
    taken = v.taken;
    reserved = v.reserved;
    agree = v.agree;
    nothing_cached = v.nothing_cached;
    in_order = sorted;
  }

  include_ip-Inv : (p : AddressPool) (ip : IPv4Address) → Inv p → Inv (include_ip p ip)
  unfolding include_ip
  include_ip-Inv p ip v =
      others-Inv p _ _ _ v (assign-IsSorted ip tt p.included_ip_addresses v.in_order)

  exclude_ip-Inv : (p : AddressPool) (ip : IPv4Address) → Inv p → Inv (exclude_ip p ip)
  unfolding exclude_ip
  exclude_ip-Inv p ip v =
      others-Inv p _ _ _ v (erase-IsSorted ip p.included_ip_addresses v.in_order)

  insert_included-Inv : (p : AddressPool) (ip : IPv4Address) → Inv p → Inv (insert_included p ip)
  unfolding insert_included
  insert_included-Inv p ip v =
      others-Inv p _ _ _ v (assign-IsSorted ip tt p.included_ip_addresses v.in_order)

  set_option-Inv : (p : AddressPool) (o : DhcpOption) → Inv p → Inv (set_option p o)
  unfolding set_option
  set_option-Inv p o v = others-Inv p _ _ _ v v.in_order

  remove_option-Inv : (p : AddressPool) (n : ℕ) → Inv p → Inv (remove_option p n)
  unfolding remove_option
  remove_option-Inv p n v = others-Inv p _ _ _ v v.in_order

  empty_pool-Inv : Inv empty_pool
  unfolding lookup owns
  empty_pool-Inv = record {
    taken = λ m ip h. cc;
    reserved = λ m ip h. cc;
    agree = λ ip a b h k. cc;
    nothing_cached = refl;
    in_order = tt;
  }

  pub after-Inv :
      (p : AddressPool) (r : Result AddressPool)
      → Inv p
      → ((q : AddressPool) → r ≡ ok q → Inv q)
      → Inv (after p r)
  after-Inv p (ok q) v h = h q refl
  after-Inv p (err x) v h = v

  get_call-Inv :
      (p : AddressPool) (r : Result (IPv4Address × AddressPool)) (q : AddressPool)
      → ((ip : IPv4Address) (q' : AddressPool) → r ≡ ok (ip, q') → Inv q')
      → pool_of r ≡ ok q
      → Inv q
  get_call-Inv p (ok (ip, q')) q h e = let eq : q ≡ q' = ground arith in rw eq (h ip q' refl)
  get_call-Inv p (err x) q h e = cc

  -- A call that ends without an exception keeps the maps consistent.
  pub call-Inv :
      (e : Endianness) (p : AddressPool) (c : Call) (q : AddressPool)
      → Inv p
      → call e p c ≡ ok q
      → Inv q
  unfolding call include_ip_range exclude_ip_range release_address
  call-Inv e p (includes ip) q v h =
      let eq : q ≡ include_ip p ip = ground arith in rw eq (include_ip-Inv p ip v)
  call-Inv e p (excludes ip) q v h =
      let eq : q ≡ exclude_ip p ip = ground arith in rw eq (exclude_ip-Inv p ip v)
  call-Inv e p (includes_range a b) q v h =
      for_range_keeps Inv include_ip include_ip-Inv _ e p a b h v
  call-Inv e p (excludes_range a b) q v h =
      for_range_keeps Inv exclude_ip exclude_ip-Inv _ e p a b h v
  call-Inv e p (reserves ip mac) q v h = reserve_ip-Inv p ip mac v h
  call-Inv e p (unreserves ip) q v h = unreserve_ip-Inv p ip v h
  call-Inv e p (gets mac) q v h =
      get_call-Inv p (get_address p mac) q (λ ip q' k. get_address-Inv p mac v k) h
  call-Inv e p (releases ip) q v h = let eq : q ≡ p = ground arith in rw eq v
  call-Inv e p (sets_option o) q v h =
      let eq : q ≡ set_option p o = ground arith in rw eq (set_option-Inv p o v)
  call-Inv e p (removes_option n) q v h =
      let eq : q ≡ remove_option p n = ground arith in rw eq (remove_option-Inv p n v)

  pub run-Inv : (e : Endianness) (p : AddressPool) (cs : List Call) → Inv p → Inv (run e p cs)
  unfolding run
  run-Inv e p [] v = v
  run-Inv e p (c ∷ cs) v =
      run-Inv e (after p (call e p c)) cs (after-Inv p (call e p c) v (λ q h. call-Inv e p c q v h))

  pub make_pool-Inv :
      (e : Endianness) (a b : IPv4Address) (p : AddressPool) → make_pool e a b ≡ ok p → Inv p
  unfolding make_pool
  make_pool-Inv e a b p h =
      for_range_keeps Inv insert_included insert_included-Inv _ e empty_pool a b h empty_pool-Inv

  -- Two clients whose leases are for one address are one client.
  pub one_client :
      (p : AddressPool) (m n : MacAddress) (i j : IPv4Address)
      → Inv p
      → lookup m p.taken_mac_addresses ≡ some i
      → lookup n p.taken_mac_addresses ≡ some j
      → same i j ≡ true
      → same m n ≡ true
  one_client p m n i j v h k s =
      owns_unique j m n p.taken_ip_addresses
        (sym (owns-same i j m p.taken_ip_addresses s) ∙ v.taken m i h) (v.taken n j k)

  -- After any calls on a new pool, whether they fail or not, two clients whose leases are for one
  -- address are one client.
  pub run-make_pool_one_client :
      (e : Endianness) (a b : IPv4Address) (p : AddressPool) (cs : List Call)
      → make_pool e a b ≡ ok p
      → (m n : MacAddress) (i j : IPv4Address) → lookup m (run e p cs).taken_mac_addresses ≡ some i
      → lookup n (run e p cs).taken_mac_addresses ≡ some j
      → same i j ≡ true
      → same m n ≡ true
  run-make_pool_one_client e a b p cs h m n i j =
      one_client (run e p cs) m n i j (run-Inv e p cs (make_pool-Inv e a b p h))
