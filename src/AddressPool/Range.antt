-- ===== src/AddressPool/Range.antt =====
-- The loops over a range of addresses: they end, and they visit the range.
use klevret_english_ver.Base.{
  ℕ, suc, zero, ◌+◌, ◌-◌, ◌%◌, ◌^◌, ◌≤◌, ◌<◌, ◌≡◌, sym, ap, ◌∙◌, Bool, ◌||◌, ◌&&◌, ok, arith,
  Bool-cases, inl, inr, leb, ◌==◌,
}
use klevret_english_ver.SortedMap.{Order, Set, contains, insert}
use klevret_english_ver.SortedMap.Laws.{contains-assign}
use klevret_english_ver.Endian.{Endianness}
use klevret_english_ver.IpAddress.{IPv4Address, increment, address_eq, to_uint32, address_lt}
use klevret_english_ver.HardwareAddress.{MacAddress}
use klevret_english_ver.AddressPool.{
  AddressPool, empty_pool, is_address_included, for_range, insert_included, make_pool,
}
use klevret_english_ver.IpAddress.Network.{
  IsAddress, to_uint32-lt, of_uint32-to_uint32, to_uint32-increment, increment-IsAddress,
}
use klevret_english_ver.IpAddress.Order.{address_order, address_eq_iff}
use klevret_english_ver.IpAddress.{of_uint32}

to_uint32_inj :
    (e : Endianness) (a b : IPv4Address)
    → IsAddress a
    → IsAddress b
    → to_uint32 e a ≡ to_uint32 e b
    → a ≡ b
to_uint32_inj e a b va vb h =
    sym (of_uint32-to_uint32 e a va) ∙ (ap (of_uint32 e) h ∙ of_uint32-to_uint32 e b vb)

module _ ⦃ips : Order IPv4Address⦄ ⦃macs : Order MacAddress⦄ (e : Endianness)
    (act : AddressPool → IPv4Address → AddressPool) where
  -- `k` steps ahead, modulo the size of the address space, is the end.
  for_range_total :
      (fuel k : ℕ) (p : AddressPool) (current end : IPv4Address)
      → IsAddress current
      → IsAddress end
      → (to_uint32 e current + k) % 2 ^ 32 ≡ to_uint32 e end
      → k < fuel
      → (q : AddressPool) × (for_range fuel e act p current end ≡ ok q)
  unfolding for_range
  for_range_total zero k p current end vc ve h lt = absurd (omega arith)
  for_range_total (suc fuel) zero p current end vc ve h lt =
      let small = to_uint32-lt e current vc in
      let eq : to_uint32 e current ≡ to_uint32 e end = omega arith in
      (act p end, rw ((address_eq_iff current end).1 (to_uint32_inj e current end vc ve eq)))
  for_range_total (suc fuel) (suc k) p current end vc ve h lt =
      elim (Bool-cases (address_eq current end)) [
        | inl t ↦ (act p end, rw t)
        | inr t ↦ rw t (
            for_range_total fuel k (act p current) (increment e current) end
              (increment-IsAddress e current) ve (omega (arith, to_uint32-increment e current))
              (omega arith))
      ]

  -- The loops over a range always end, also when the range wraps around the address space.
  pub for_range_ends :
      (p : AddressPool) (start end : IPv4Address)
      → IsAddress start
      → IsAddress end
      → (q : AddressPool) × (for_range (2 ^ 32) e act p start end ≡ ok q)
  for_range_ends p start end vs ve =
      let lo = to_uint32-lt e start vs in
      let hi = to_uint32-lt e end ve in
      let k = (to_uint32 e end + (2 ^ 32 - to_uint32 e start)) % 2 ^ 32 in
      for_range_total (2 ^ 32) k p start end vs ve (omega arith) (omega arith)

-- `x` is between two addresses, both included.
abbrev pub is_between : Endianness → IPv4Address → IPv4Address → IPv4Address → Bool
is_between e a b x = leb (to_uint32 e a) (to_uint32 e x) && leb (to_uint32 e x) (to_uint32 e b)

module _ ⦃macs : Order MacAddress⦄ (e : Endianness) where
  contains-insert :
      (k x : IPv4Address) (m : Set IPv4Address)
      → contains ⦃o = address_order e⦄ x (insert ⦃o = address_order e⦄ k m)
        ≡ ((to_uint32 e k == to_uint32 e x) || contains ⦃o = address_order e⦄ x m)
  unfolding address_order address_lt
  contains-insert k x m = contains-assign ⦃o = address_order e⦄ k x tt m ∙ ground arith

  insert_range :
      (fuel k : ℕ) (p q : AddressPool) (current end x : IPv4Address)
      → IsAddress current
      → IsAddress end
      → to_uint32 e current + k ≡ to_uint32 e end
      → for_range ⦃ips = address_order e⦄ fuel e
          (insert_included ⦃ips = address_order e⦄)
          p
          current
          end
        ≡ ok q
      → contains ⦃o = address_order e⦄ x q.included_ip_addresses
        ≡ (is_between e current end x || contains ⦃o = address_order e⦄ x p.included_ip_addresses)
  unfolding for_range insert_included
  insert_range zero k p q current end x vc ve d h = cc
  insert_range (suc fuel) zero p q current end x vc ve d h =
      let eq : to_uint32 e current ≡ to_uint32 e end = omega arith in
      let same_end = to_uint32_inj e current end vc ve eq in
      let t = (address_eq_iff current end).1 same_end in
      ground (arith, contains-insert end x p.included_ip_addresses)
  insert_range (suc fuel) (suc k) p q current end x vc ve d h =
      elim (Bool-cases (address_eq current end)) [
        | inl t ↦ absurd (omega (arith, ap (to_uint32 e) ((address_eq_iff current end).0 t)))
        | inr t ↦
            let small = to_uint32-lt e end ve in
            let next : to_uint32 e (increment e current) ≡ to_uint32 e current + 1 =
              omega (arith, to_uint32-increment e current) in
            ground (
              arith,
              next,
              insert_range fuel k (insert_included ⦃ips = address_order e⦄ p current) q
                  (increment e current) end x (increment-IsAddress e current) ve (omega arith)
                  (rw t at h),
              contains-insert current x p.included_ip_addresses,
            )
      ]

  -- A new pool over a range that does not wrap holds the addresses of the range, and no others.
  pub make_pool-included :
      (start end : IPv4Address)
      → IsAddress start
      → IsAddress end
      → to_uint32 e start ≤ to_uint32 e end
      → (p : AddressPool) × (make_pool ⦃ips = address_order e⦄ e start end ≡ ok p)
        × ((x : IPv4Address)
            → is_address_included ⦃ips = address_order e⦄ p x ≡ is_between e start end x)
  unfolding make_pool
  make_pool-included start end vs ve h =
      let (p, made) =
        for_range_ends ⦃ips = address_order e⦄ e (insert_included ⦃ips = address_order e⦄)
          empty_pool start end vs ve in
      (
        p,
        made,
        λ x.
            insert_range (2 ^ 32) (to_uint32 e end - to_uint32 e start) empty_pool p start end x vs
              ve (omega arith) made
            ∙ unfold contains in ground arith,
      )
