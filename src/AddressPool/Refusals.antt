-- ===== src/AddressPool/Refusals.antt =====
-- When a call of the pool fails.
use klevret_english_ver.Base.{
  ◌^◌, ◌≡◌, refl, sym, ◌∙◌, inl, inr, true, Result, ok, err, Error, arith, Bool-cases, Option-cases,
}
use klevret_english_ver.SortedMap.{Order, lookup}
use klevret_english_ver.SortedMap.Laws.{contains-lookup}
use klevret_english_ver.Endian.{Endianness}
use klevret_english_ver.IpAddress.{IPv4Address}
use klevret_english_ver.IpAddress.Network.{IsAddress}
use klevret_english_ver.HardwareAddress.{MacAddress}
use klevret_english_ver.AddressPool.{
  AddressPool, is_address_included, include_ip, exclude_ip, include_ip_range, exclude_ip_range,
  reserve_ip, unreserve_ip, get_address, get_taken, for_range,
}
use klevret_english_ver.AddressPool.Leases.{Inv}
use klevret_english_ver.AddressPool.History.{
  Call, includes, excludes, includes_range, excludes_range, reserves, unreserves, gets, releases,
  sets_option, removes_option, call, pool_of,
}
use klevret_english_ver.AddressPool.Assignment.{is_busy}
use klevret_english_ver.AddressPool.Smallest.{searched, first_free_none}
use klevret_english_ver.AddressPool.Range.{for_range_ends}
use klevret_english_ver.AddressPool.View.{view, IsBusy, Refuses}

module _ ⦃ips : Order IPv4Address⦄ ⦃macs : Order MacAddress⦄ (p : AddressPool) where
  is_busy-IsBusy : (ip : IPv4Address) → is_busy p ip ≡ true → IsBusy (view p) ip
  unfolding view
  is_busy-IsBusy ip busy = elim (Option-cases (lookup ip p.reserved_ip_addresses)) [
    | inr (m, reserved) ↦ inl (m, reserved)
    | inl unreserved ↦ elim (Option-cases (lookup ip p.taken_ip_addresses)) [
      | inr (m, taken) ↦ inr (m, taken)
      | inl untaken ↦ absurd (
          ground (
            arith,
            contains-lookup ip p.reserved_ip_addresses,
            contains-lookup ip p.taken_ip_addresses,
          ))
    ]
  ]

  get_address-Refuses :
      (mac : MacAddress) (cause : Error)
      → Inv p
      → get_address p mac ≡ err cause
      → Refuses (view p) (gets mac)
  unfolding view get_address get_taken
  get_address-Refuses mac cause v fails =
      elim (Option-cases (lookup mac p.reserved_mac_addresses)) [
        | inr (ip, reserved) ↦ absurd (ground arith)
        | inl unreserved ↦ elim (Option-cases (lookup mac p.taken_mac_addresses)) [
          | inr (ip, leased) ↦ absurd (ground arith)
          | inl new ↦ (
            unreserved,
            new,
            λ ip included. is_busy-IsBusy ip (
                first_free_none p mac p.included_ip_addresses
                  (sym (searched p mac v unreserved new) ∙ fails) ip included),
          )
        ]
      ]

  get_call-Refuses :
      (mac : MacAddress) (r : Result (IPv4Address × AddressPool)) (cause : Error)
      → ((cause : Error) → r ≡ err cause → Refuses (view p) (gets mac))
      → pool_of r ≡ err cause
      → Refuses (view p) (gets mac)
  get_call-Refuses mac (ok (ip, q)) cause refuses fails = cc
  get_call-Refuses mac (err found) cause refuses fails = refuses found refl

  reserve_ip-Refuses :
      (ip : IPv4Address) (mac : MacAddress) (cause : Error)
      → reserve_ip p ip mac ≡ err cause
      → Refuses (view p) (reserves ip mac)
  unfolding view reserve_ip
  reserve_ip-Refuses ip mac cause fails = elim (Bool-cases (is_address_included p ip)) [
    | inr outside ↦ inl outside
    | inl inside ↦ elim (Bool-cases (is_busy p ip)) [
      | inl busy ↦ inr (is_busy-IsBusy ip busy)
      | inr idle ↦ absurd (ground arith)
    ]
  ]

  unreserve_ip-Refuses :
      (ip : IPv4Address) (cause : Error)
      → unreserve_ip p ip ≡ err cause
      → Refuses (view p) (unreserves ip)
  unfolding view unreserve_ip
  unreserve_ip-Refuses ip cause fails = elim (Option-cases (lookup ip p.reserved_ip_addresses)) [
    | inl unreserved ↦ unreserved
    | inr (mac, found) ↦ absurd (ground arith)
  ]

  range-Refuses :
      (e : Endianness) (act : AddressPool → IPv4Address → AddressPool) (a b : IPv4Address)
      (cause : Error)
      → for_range (2 ^ 32) e act p a b ≡ err cause
      → ¬ (IsAddress a × IsAddress b)
  range-Refuses e act a b cause fails (va, vb) =
      let (q, ends) = for_range_ends e act p a b va vb in
      let no : ok q ≡ err cause = sym ends ∙ fails in cc

  -- A call that fails was to be refused.
  pub call-Refuses :
      (e : Endianness) (c : Call) (cause : Error)
      → Inv p
      → call e p c ≡ err cause
      → Refuses (view p) c
  unfolding call include_ip_range exclude_ip_range
  call-Refuses e (gets mac) cause v fails =
      get_call-Refuses mac (get_address p mac) cause
        (λ cause fails. get_address-Refuses mac cause v fails) fails
  call-Refuses e (reserves ip mac) cause v fails = reserve_ip-Refuses ip mac cause fails
  call-Refuses e (unreserves ip) cause v fails = unreserve_ip-Refuses ip cause fails
  call-Refuses e (includes_range a b) cause v fails = range-Refuses e include_ip a b cause fails
  call-Refuses e (excludes_range a b) cause v fails = range-Refuses e exclude_ip a b cause fails
  call-Refuses e (includes ip) cause v fails = cc
  call-Refuses e (excludes ip) cause v fails = cc
  call-Refuses e (releases ip) cause v fails = cc
  call-Refuses e (sets_option o) cause v fails = cc
  call-Refuses e (removes_option n) cause v fails = cc
