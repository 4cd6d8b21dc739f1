-- ===== src/HardwareAddress/Mac.antt =====
-- MAC addresses: reading, writing and order.
use klevret_english_ver.Base.{
  ℕ, zero, suc, ◌+◌, ◌≤◌, ◌<◌, ◌≡◌, refl, ap, ◌∙◌, ◌⊎◌, true, false, [], ◌∷◌, ◌++◌, Bytes, IsBytes,
  length, take, replicate, lt→ltb, get_or, ok, err, mac_incomplete, arith,
}
use native.Mathlib.Decide.{ℕ_discrete}
use klevret_english_ver.SortedMap.{Order}
use klevret_english_ver.IpAddress.{copy_octets}
use klevret_english_ver.IpAddress.Network.{copy_octets_full, copy_octets_short}
use klevret_english_ver.HardwareAddress.{
  MacAddress, htype_of_uint8, htype_to_uint8, make_ptr_from_big_endian_bytes, to_chaddr, mac_lt,
  lt_from,
}

-- A `std::array<uint8_t, 6>`.
pub record IsMac (mac : MacAddress) : Type 0 where
  pub six : length mac.octets ≡ 6
  pub bytes : IsBytes mac.octets

-- A byte that is cast to the enumeration is cast back to itself.
pub htype_to_uint8-htype_of_uint8 : (n : ℕ) → htype_to_uint8 (htype_of_uint8 n) ≡ n
unfolding htype_to_uint8 htype_of_uint8
htype_to_uint8-htype_of_uint8 n = ground arith

module _ (indeterminate range : Bytes) (six : length indeterminate ≡ 6) where
  pub make_ptr_from_big_endian_bytes_full :
      6 ≤ length range
      → make_ptr_from_big_endian_bytes indeterminate range ≡ ok (record { octets = take 6 range })
  unfolding make_ptr_from_big_endian_bytes
  make_ptr_from_big_endian_bytes_full h = rw (
    copy_octets_full 6 0 range [] indeterminate refl (omega (arith, six)) (omega (arith, six)),
    six,
  )

  pub make_ptr_from_big_endian_bytes_short :
      length range < 6 → make_ptr_from_big_endian_bytes indeterminate range ≡ err mac_incomplete
  unfolding make_ptr_from_big_endian_bytes
  make_ptr_from_big_endian_bytes_short h =
      let end : (copy_octets 6 range 0 indeterminate).1 ≡ length range =
        copy_octets_short 6 0 range indeterminate (omega arith) ∙ omega arith in
      rw (end, lt→ltb _ _ h)

to_chaddr_octets :
    (octets : Bytes)
    → length octets ≡ 6
    → to_chaddr (record { octets = octets }) ≡ octets ++ replicate 10 0
unfolding to_chaddr
to_chaddr_octets (a ∷ b ∷ c ∷ d ∷ e ∷ f ∷ []) h = refl
to_chaddr_octets _ h = absurd (omega arith)

-- `to_chaddr` pads the six octets with ten zeros.
pub to_chaddr_lem : (mac : MacAddress) → IsMac mac → to_chaddr mac ≡ mac.octets ++ replicate 10 0
to_chaddr_lem mac v = to_chaddr_octets mac.octets v.six

lt_from_irrefl : (left i : ℕ) (a : Bytes) → lt_from left i a a ≡ false
unfolding lt_from
lt_from_irrefl zero i a = refl
lt_from_irrefl (suc left) i a = ground (arith, lt_from_irrefl left (i + 1) a)

lt_from_trans :
    (left i : ℕ) (a b c : Bytes)
    → lt_from left i a b ≡ true
    → lt_from left i b c ≡ true
    → lt_from left i a c ≡ true
unfolding lt_from
lt_from_trans zero i a b c h k = cc
lt_from_trans (suc left) i a b c h k = ground (arith, lt_from_trans left (i + 1) a b c)

lt_from_split :
    (left i : ℕ) (a b c : Bytes)
    → lt_from left i a c ≡ true
    → (lt_from left i a b ≡ true) ⊎ (lt_from left i b c ≡ true)
unfolding lt_from
lt_from_split zero i a b c h = cc
lt_from_split (suc left) i a b c h = ground (arith, lt_from_split left (i + 1) a b c)

module _ (a b c : MacAddress) where
  pub lt_irrefl : mac_lt a a ≡ false
  unfolding mac_lt
  lt_irrefl = lt_from_irrefl 6 0 a.octets

  pub lt_trans : mac_lt a b ≡ true → mac_lt b c ≡ true → mac_lt a c ≡ true
  unfolding mac_lt
  lt_trans = lt_from_trans 6 0 a.octets b.octets c.octets

  pub lt_split : mac_lt a c ≡ true → (mac_lt a b ≡ true) ⊎ (mac_lt b c ≡ true)
  unfolding mac_lt
  lt_split = lt_from_split 6 0 a.octets b.octets c.octets

-- `operator<` is what `std::map` asks for.
unfoldable pub mac_order : Order MacAddress
mac_order = record {
  lt = mac_lt;
  irrefl = λ a. lt_irrefl a a a;
  trans = lt_trans;
  split = lt_split;
}

-- Octets of which neither is below the other are equal.
lt_from_total :
    (left i : ℕ) (a b : Bytes)
    → lt_from left i a b ≡ false
    → lt_from left i b a ≡ false
    → (k : ℕ) → i ≤ k
    → k < i + left
    → get_or a k 0 ≡ get_or b k 0
unfolding lt_from
lt_from_total zero i a b h k j lo hi = absurd (omega arith)
lt_from_total (suc left) i a b h k j lo hi = elim (ℕ_discrete i j) [
  | yes e ↦ rw (← e) (ground arith)
  | no ne ↦
      lt_from_total left (i + 1) a b (ground arith) (ground arith) j (omega arith) (omega arith)
]

six_octets :
    (a b : Bytes)
    → length a ≡ 6
    → length b ≡ 6
    → ((k : ℕ) → 0 ≤ k → k < 6 → get_or a k 0 ≡ get_or b k 0)
    → a ≡ b
six_octets (p ∷ q ∷ r ∷ s ∷ t ∷ u ∷ []) (p' ∷ q' ∷ r' ∷ s' ∷ t' ∷ u' ∷ []) ha hb h = ground (
  arith,
  h 0 (omega arith) (omega arith),
  h 1 (omega arith) (omega arith),
  h 2 (omega arith) (omega arith),
  h 3 (omega arith) (omega arith),
  h 4 (omega arith) (omega arith),
  h 5 (omega arith) (omega arith),
)
six_octets _ _ ha hb h = absurd (omega arith)

-- Two addresses of which neither is below the other are equal.
pub same_mac :
    (a b : MacAddress) → IsMac a → IsMac b → mac_lt a b ≡ false → mac_lt b a ≡ false → a ≡ b
unfolding mac_lt
same_mac a b va vb h k =
    ap (λ (o : Bytes). record { octets = o })
      (six_octets a.octets b.octets va.six vb.six (lt_from_total 6 0 a.octets b.octets h k))
