-- ===== src/IpAddress/Prefix.antt =====
-- Subnet masks by their prefix and by their text.
use Prim.Native.Nat.{min}
use native.Mathlib.Decide.{ℕ_discrete}
use klevret_english_ver.Base.{
  ℕ, zero, suc, ◌+◌, ◌-◌, ◌^◌, ◌≤◌, ◌<◌, ◌≡◌, ◌↔◌, refl, Bool, true, false, not, ◌&&◌, [], ◌∷◌,
  ◌++◌, Bytes, ◌==◌, ltb, ok, err, arith, ==→eq, if◌then◌else◌, append-nil, bad_mask_octet,
  mask_not_contiguous,
}
use klevret_english_ver.Base.Int.{pos}
use klevret_english_ver.Endian.{Endianness}
use klevret_english_ver.Endian.Laws.{to_be_bytes, host_to_network_endian_array_lem}
use klevret_english_ver.WrapperForParsing.{open_text}
use klevret_english_ver.IpAddress.{array_eq, decimal, dotted}
use klevret_english_ver.IpAddress.Order.{array_eq→eq}
use klevret_english_ver.IpAddress.Mask.{
  IPv4SubnetMask, mask_of_uint32, is_one_of, allowed_mask_values, scan_mask, mask_of_string,
  set_bits, from_prefix, to_prefix, count_octets,
}
use klevret_english_ver.IpAddress.Network.{IsQuad}
use klevret_english_ver.IpAddress.Text.{parse_octet-decimal}

-- The test holds for every prefix up to the last.
prefixes_hold : (ℕ → Bool) → ℕ → Bool
prefixes_hold test zero = test zero
prefixes_hold test (suc last) = prefixes_hold test last && test (suc last)

prefix_holds :
    (test : ℕ → Bool) (last prefix : ℕ)
    → prefix ≤ last
    → prefixes_hold test last ≡ true
    → test prefix ≡ true
unfolding prefixes_hold
prefix_holds test zero prefix small table = let only : prefix ≡ zero = omega arith in rw only table
prefix_holds test (suc last) prefix small table = elim (ℕ_discrete prefix (suc last)) [
  | yes same ↦ rw same (ground arith)
  | no other ↦ prefix_holds test last prefix (omega arith) (ground arith)
]

pub mask_of_uint32_lem :
    (e : Endianness) (v : ℕ) → mask_of_uint32 e v ≡ record { octets = to_be_bytes 4 v }
unfolding mask_of_uint32
mask_of_uint32_lem e v = rw (host_to_network_endian_array_lem e 4 v)

-- The mask of `p` ones, then zeros, as RFC 950 has it.
abbrev pub canonical : ℕ → ℕ
canonical p = 2 ^ 32 - 2 ^ (32 - p)

canonical_table : prefixes_hold (λ p. count_octets (to_be_bytes 4 (canonical p)) 0 == p) 32 ≡ true
unfolding prefixes_hold count_octets
canonical_table = refl

-- `to_prefix` reads the prefix of each of the 33 subnet masks.
pub to_prefix-canonical :
    (e : Endianness) (p : ℕ) → p ≤ 32 → to_prefix (mask_of_uint32 e (canonical p)) ≡ p
unfolding to_prefix
to_prefix-canonical e p h =
    rw (mask_of_uint32_lem e (canonical p)) (==→eq _ p (prefix_holds _ 32 p h canonical_table))

set_bits_table : prefixes_hold (λ p. set_bits p 128 0 == 256 - 2 ^ (8 - min p 8)) 32 ≡ true
unfolding prefixes_hold set_bits
set_bits_table = refl

last_octet_table :
    prefixes_hold (λ p. count_octets (to_be_bytes 4 (256 - 2 ^ (8 - min p 8))) 0 == min p 8) 32
    ≡ true
unfolding prefixes_hold count_octets
last_octet_table = refl

from_prefix_lem :
    (e : Endianness) (p : ℕ)
    → p ≤ 32
    → from_prefix e (pos p) ≡ ok (record { octets = to_be_bytes 4 (256 - 2 ^ (8 - min p 8)) })
unfolding from_prefix
from_prefix_lem e p h =
    let fits : ltb 32 p ≡ false = ground arith in
    rw (
      fits,
      ==→eq _ _ (prefix_holds _ 32 p h set_bits_table),
      mask_of_uint32_lem e (256 - 2 ^ (8 - min p 8)),
    )

last_octet_bytes :
    prefixes_hold
      (λ p.
        array_eq
          (to_be_bytes 4 (256 - 2 ^ (8 - min p 8)))
          (0 ∷ 0 ∷ 0 ∷ (256 - 2 ^ (8 - min p 8)) ∷ []))
      32
    ≡ true
unfolding prefixes_hold array_eq
last_octet_bytes = refl

-- For a prefix up to 32, `from_prefix` gives the mask whose first three octets are 0 and whose last
-- has as many leading ones as the prefix says, eight at most, and `to_prefix` reads that number.
pub to_prefix-from_prefix :
    (e : Endianness) (p : ℕ)
    → p ≤ 32
    → (m : IPv4SubnetMask) × (from_prefix e (pos p) ≡ ok m)
      × (m.octets ≡ 0 ∷ 0 ∷ 0 ∷ (256 - 2 ^ (8 - min p 8)) ∷ [])
      × (to_prefix m ≡ min p 8)
unfolding to_prefix
to_prefix-from_prefix e p h = (
  record { octets = to_be_bytes 4 (256 - 2 ^ (8 - min p 8)) },
  from_prefix_lem e p h,
  array_eq→eq _ _ (prefix_holds _ 32 p h last_octet_bytes),
  ==→eq _ _ (prefix_holds _ 32 p h last_octet_table),
)

-- One round of the mask's loop, at the print of an octet and the dot behind it.
scan_mask_round :
    (left i previous n : ℕ) (text : Bytes)
    → n < 256
    → i < 3
    → scan_mask (suc left) i previous (open_text (decimal n ++ b'.' ∷ text)) ≡ (
        if not (is_one_of n allowed_mask_values)
        then err bad_mask_octet
        else if not (previous == 255)
        then err mask_not_contiguous
        else scan_mask left (i + 1) n (open_text text))
unfolding scan_mask
scan_mask_round left i previous n text h lt =
    let e : (i == 3) ≡ false = ground arith in
    rw (parse_octet-decimal n (b'.' ∷ text) h refl, e) (ground arith)

scan_mask_last :
    (previous n : ℕ)
    → n < 256
    → scan_mask 1 3 previous (open_text (decimal n ++ [])) ≡ (
        if not (is_one_of n allowed_mask_values)
        then err bad_mask_octet
        else if not (previous == 255)
        then err mask_not_contiguous
        else ok (open_text []))
unfolding scan_mask
scan_mask_last previous n h = rw (parse_octet-decimal n [] h refl) (ground arith)

allowed_255 : is_one_of 255 allowed_mask_values ≡ true
unfolding is_one_of
allowed_255 = refl

module _ (u : Bytes) (a b c d : ℕ) (m : IPv4SubnetMask) where
  -- Of the dotted masks the constructor takes those whose first three octets are 255 and whose last
  -- is not 0, and it leaves the array as it was.
  pub mask_of_string-dotted :
      IsQuad (a ∷ b ∷ c ∷ d ∷ [])
      → (mask_of_string u (dotted (a ∷ b ∷ c ∷ d ∷ [])) ≡ ok m) ↔ (
          (a ≡ 255)
          × (b ≡ 255)
          × (c ≡ 255)
          × (is_one_of d allowed_mask_values ≡ true)
          × (m.octets ≡ u))
  unfolding mask_of_string dotted
  mask_of_string-dotted v =
      rw
        (
          ← append-nil (decimal d),
          scan_mask_round 3 0 255 a _ v.bytes.0 (omega arith),
          scan_mask_round 2 1 a b _ v.bytes.1.0 (omega arith),
          scan_mask_round 1 2 b c _ v.bytes.1.1.0 (omega arith),
          scan_mask_last c d v.bytes.1.1.1.0,
        )
        (ground (arith, allowed_255))
