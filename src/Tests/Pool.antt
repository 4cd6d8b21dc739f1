-- ===== src/Tests/Pool.antt =====
-- The pool on two addresses and two clients.
use klevret_english_ver.Base.{
  ◌≤◌, ◌≡◌, refl, true, false, none, some, [], ◌∷◌, ok, err, no_free_address, if◌then◌else◌, arith,
}
use klevret_english_ver.SortedMap.{same, lookup, contains, assign, erase}
use klevret_english_ver.SortedMap.Laws.{lookup-assign, lookup-erase}
use klevret_english_ver.Endian.{little, network_array_to_host_endian, host_to_network_endian_array}
use klevret_english_ver.IpAddress.{
  IPv4Address, increment, address_eq, address_lt, array_eq, to_uint32, of_uint32,
}
use klevret_english_ver.IpAddress.Order.{address_order}
use klevret_english_ver.HardwareAddress.{MacAddress, mac_lt, lt_from}
use klevret_english_ver.HardwareAddress.Mac.{mac_order}
use klevret_english_ver.AddressPool.{
  AddressPool, code_order, for_range, insert_included, make_pool, get_address, get_taken,
  get_cached, first_free, is_address_included, is_ip_taken, release_address,
}
use klevret_english_ver.AddressPool.Leases.{Inv, get_address-Inv}
use klevret_english_ver.AddressPool.History.{
  gets, releases, call, run, make_pool-Inv, run-make_pool_one_client,
}
use klevret_english_ver.AddressPool.Assignment.{is_busy, run-Holds}
use klevret_english_ver.Base.{List}
use klevret_english_ver.AddressPool.History.{Call, reserves}
use klevret_english_ver.AddressPool.View.{IsRange}
use klevret_english_ver.AddressPool.Visits.{visit, for_range_does}
use klevret_english_ver.AddressPool.{for_range, include_ip}
use klevret_english_ver.Base.{◌^◌}
use klevret_english_ver.AddressPool.Smallest.{get_address_smallest, get_address_exhausted}
use klevret_english_ver.AddressPool.Range.{is_between, make_pool-included}
use klevret_english_ver.Tests.{
  ip_10, ip_11, mac_a, mac_b, small_pool, leased_pool, full_pool, ip_10-IsAddress, ip_11-IsAddress,
}

abbrev mac_c : MacAddress
mac_c = record { octets = 2 ∷ 0 ∷ 0 ∷ 0 ∷ 0 ∷ 3 ∷ [] }

pub small_pool_made :
    make_pool ⦃ips = address_order little⦄ ⦃macs = mac_order⦄ little ip_10 ip_11 ≡ ok small_pool
unfolding make_pool for_range insert_included address_order mac_order increment address_eq array_eq
    address_lt to_uint32 of_uint32 network_array_to_host_endian host_to_network_endian_array assign
small_pool_made = refl

pub small_pool-Inv : Inv ⦃ips = address_order little⦄ ⦃macs = mac_order⦄ small_pool
small_pool-Inv =
    make_pool-Inv ⦃ips = address_order little⦄ ⦃macs = mac_order⦄ little ip_10 ip_11 small_pool
      small_pool_made

pub first_lease :
    get_address ⦃ips = address_order little⦄ ⦃macs = mac_order⦄ small_pool mac_a
    ≡ ok (ip_10, leased_pool)
unfolding get_address get_taken get_cached first_free lookup contains assign
first_lease = refl

second_lease :
    get_address ⦃ips = address_order little⦄ ⦃macs = mac_order⦄ leased_pool mac_b
    ≡ ok (ip_11, full_pool)
unfolding get_address get_taken get_cached first_free lookup contains assign address_order mac_order
    mac_lt lt_from address_lt to_uint32 network_array_to_host_endian
second_lease = refl

no_lease :
    get_address ⦃ips = address_order little⦄ ⦃macs = mac_order⦄ full_pool mac_c
    ≡ err no_free_address
unfolding get_address get_taken get_cached first_free lookup contains assign address_order mac_order
    mac_lt lt_from address_lt to_uint32 network_array_to_host_endian
no_lease = refl

leased_pool-Inv : Inv ⦃ips = address_order little⦄ ⦃macs = mac_order⦄ leased_pool
leased_pool-Inv =
    get_address-Inv ⦃ips = address_order little⦄ ⦃macs = mac_order⦄ small_pool mac_a small_pool-Inv
      first_lease

full_pool-Inv : Inv ⦃ips = address_order little⦄ ⦃macs = mac_order⦄ full_pool
full_pool-Inv =
    get_address-Inv ⦃ips = address_order little⦄ ⦃macs = mac_order⦄ leased_pool mac_b
      leased_pool-Inv second_lease

after_run :
    lookup ⦃o = mac_order⦄ mac_a
      (run ⦃ips = address_order little⦄ ⦃macs = mac_order⦄ little small_pool
        (gets mac_a ∷ gets mac_b ∷ releases ip_10 ∷ [])).taken_mac_addresses
    ≡ some ip_10
unfolding run call release_address get_address get_taken get_cached first_free lookup contains
    assign address_order mac_order mac_lt lt_from address_lt to_uint32 network_array_to_host_endian
after_run = refl

one_address : same ⦃o = address_order little⦄ ip_10 ip_10 ≡ true
unfolding address_order address_lt to_uint32 network_array_to_host_endian
one_address = refl

run-make_pool_one_client_example : same ⦃o = mac_order⦄ mac_a mac_a ≡ true
run-make_pool_one_client_example =
    run-make_pool_one_client ⦃ips = address_order little⦄ ⦃macs = mac_order⦄ little ip_10 ip_11
      small_pool (gets mac_a ∷ gets mac_b ∷ releases ip_10 ∷ []) small_pool_made mac_a mac_a ip_10
      ip_10 after_run after_run one_address

first_call :
    call ⦃ips = address_order little⦄ ⦃macs = mac_order⦄ little small_pool (gets mac_a)
    ≡ ok leased_pool
unfolding call get_address get_taken get_cached first_free lookup contains assign
first_call = refl

new_b :
    (lookup ⦃o = mac_order⦄ mac_b leased_pool.reserved_mac_addresses ≡ none)
    × (lookup ⦃o = mac_order⦄ mac_b leased_pool.taken_mac_addresses ≡ none)
unfolding lookup mac_order mac_lt lt_from
new_b = (refl, refl)

new_c :
    (lookup ⦃o = mac_order⦄ mac_c full_pool.reserved_mac_addresses ≡ none)
    × (lookup ⦃o = mac_order⦄ mac_c full_pool.taken_mac_addresses ≡ none)
unfolding lookup mac_order mac_lt lt_from
new_c = (refl, refl)

get_address_smallest_example :
    (is_address_included ⦃ips = address_order little⦄ ⦃macs = mac_order⦄ leased_pool ip_11 ≡ true)
    × (is_busy ⦃ips = address_order little⦄ ⦃macs = mac_order⦄ leased_pool ip_11 ≡ false)
    × ((x : IPv4Address)
        → is_address_included ⦃ips = address_order little⦄ ⦃macs = mac_order⦄ leased_pool x ≡ true
        → (address_order little).lt x ip_11 ≡ true
        → is_busy ⦃ips = address_order little⦄ ⦃macs = mac_order⦄ leased_pool x ≡ true)
get_address_smallest_example =
    get_address_smallest ⦃ips = address_order little⦄ ⦃macs = mac_order⦄ leased_pool mac_b
      leased_pool-Inv new_b.0 new_b.1 ip_11 full_pool second_lease

ip_11_included :
    is_address_included ⦃ips = address_order little⦄ ⦃macs = mac_order⦄ full_pool ip_11 ≡ true
unfolding contains address_order address_lt to_uint32 network_array_to_host_endian
ip_11_included = refl

get_address_exhausted_example :
    is_busy ⦃ips = address_order little⦄ ⦃macs = mac_order⦄ full_pool ip_11 ≡ true
get_address_exhausted_example =
    get_address_exhausted ⦃ips = address_order little⦄ ⦃macs = mac_order⦄ full_pool mac_c
      full_pool-Inv new_c.0 new_c.1 no_lease ip_11 ip_11_included

ip_10_taken : is_ip_taken ⦃ips = address_order little⦄ ⦃macs = mac_order⦄ leased_pool ip_10 ≡ true
unfolding contains address_order address_lt to_uint32 network_array_to_host_endian
ip_10_taken = refl

run-Holds_example :
    is_ip_taken ⦃ips = address_order little⦄ ⦃macs = mac_order⦄
      (run ⦃ips = address_order little⦄ ⦃macs = mac_order⦄ little leased_pool (releases ip_10 ∷ []))
      ip_10
    ≡ true
run-Holds_example =
    run-Holds ⦃ips = address_order little⦄ ⦃macs = mac_order⦄ little leased_pool
      (releases ip_10 ∷ []) ip_10 ip_10_taken

ordered : to_uint32 little ip_10 ≤ to_uint32 little ip_11
unfolding to_uint32 network_array_to_host_endian
ordered = omega arith

make_pool-included_example :
    (p : AddressPool) × (make_pool ⦃ips = address_order little⦄ ⦃macs = mac_order⦄ little ip_10
        ip_11
      ≡ ok p)
    × ((x : IPv4Address)
        → is_address_included ⦃ips = address_order little⦄ ⦃macs = mac_order⦄ p x
          ≡ is_between little ip_10 ip_11 x)
make_pool-included_example =
    make_pool-included ⦃macs = mac_order⦄ little ip_10 ip_11 ip_10-IsAddress ip_11-IsAddress ordered

lookup-assign_example :
    lookup ⦃o = code_order⦄ 3 (assign ⦃o = code_order⦄ 5 true ((3, false) ∷ []))
    ≡ (if same ⦃o = code_order⦄ 5 3 then some true else lookup ⦃o = code_order⦄ 3 ((3, false) ∷ []))
lookup-assign_example = lookup-assign ⦃o = code_order⦄ 5 3 true ((3, false) ∷ [])

lookup-erase_example :
    lookup ⦃o = code_order⦄ 3 (erase ⦃o = code_order⦄ 3 ((3, false) ∷ []))
    ≡ (if same ⦃o = code_order⦄ 3 3 then none else lookup ⦃o = code_order⦄ 3 ((3, false) ∷ []))
lookup-erase_example = lookup-erase ⦃o = code_order⦄ 3 3 ((3, false) ∷ [])

abbrev three_calls : List Call
three_calls = gets mac_a ∷ reserves ip_11 mac_b ∷ releases ip_10 ∷ []

-- From 192.168.1.11 around the address space to 192.168.1.10.
for_range_does_example :
    (range : List IPv4Address) × IsRange little ip_11 ip_10 range
    × (for_range ⦃ips = address_order little⦄ ⦃macs = mac_order⦄
          (2 ^ 32)
          little
          (include_ip ⦃ips = address_order little⦄ ⦃macs = mac_order⦄)
          small_pool
          ip_11
          ip_10
        ≡ ok (
            visit ⦃ips = address_order little⦄ ⦃macs = mac_order⦄
              (include_ip ⦃ips = address_order little⦄ ⦃macs = mac_order⦄)
              small_pool
              range))
for_range_does_example =
    for_range_does ⦃ips = address_order little⦄ ⦃macs = mac_order⦄ little
      (include_ip ⦃ips = address_order little⦄ ⦃macs = mac_order⦄) small_pool ip_11 ip_10
      ip_11-IsAddress ip_10-IsAddress
