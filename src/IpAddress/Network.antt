-- ===== src/IpAddress/Network.antt =====
-- Addresses as octets in network order and as 32-bit numbers.

use klevret_english_ver.Base.{
  ℕ, ◌+◌, ◌%◌, ◌^◌, ◌≤◌, ◌<◌, ◌≡◌, refl, ap, ◌∙◌, [], ◌∷◌, ◌++◌, append_assoc, Bytes, IsBytes,
  length, take, set, ok, err, not_enough_octets, arith, length-append, List, lt→ltb, append-nil,
}
use klevret_english_ver.Endian.{Endianness}
use klevret_english_ver.Endian.Laws.{
  of_be_bytes, to_be_bytes, network_array_to_host_endian_lem, host_to_network_endian_array_lem,
  of_be_bytes-to_be_bytes, to_be_bytes-of_be_bytes, to_be_bytes-IsBytes, length-to_be_bytes,
  of_be_bytes-lt,
}
use klevret_english_ver.IpAddress.Mask.{
  IPv4SubnetMask, mask_from_big_endian_bytes, mask_of_uint32, mask_to_network_data,
}
use klevret_english_ver.IpAddress.{
  IPv4Address, copy_octets, of_uint32, to_uint32, from_big_endian_bytes, to_network_data, increment,
}

-- A `std::array<uint8_t, 4>`.
pub record IsQuad (octets : Bytes) : Type 0 where
  pub four : length octets ≡ 4
  pub bytes : IsBytes octets

abbrev pub IsAddress : IPv4Address → Type 0
IsAddress ip = IsQuad ip.octets

set-append {ℓ} :
    {A : Type ℓ} (pre post : List A) (a b : A)
    → set (pre ++ a ∷ post) (length pre) b ≡ pre ++ b ∷ post
set-append [] post a b = refl
set-append (x ∷ pre) post a b = ap (◌∷◌ x) (set-append pre post a b)

-- A range that is long enough fills the array from index `i` on.
pub copy_octets_full :
    (size i : ℕ) (range pre post : Bytes)
    → i ≡ length pre
    → size ≡ length pre + length post
    → length post ≤ length range
    → copy_octets size range i (pre ++ post) ≡ (pre ++ take (length post) range, size)
unfolding copy_octets
copy_octets_full size i [] pre [] hi hs h = let e : i ≡ size = omega arith in rw (append-nil, e)
copy_octets_full size i [] pre (a ∷ post) hi hs h = absurd (omega arith)
copy_octets_full size i (b ∷ range) pre [] hi hs h =
    let e : i ≡ size = omega arith in rw e (ground arith)
copy_octets_full size i (b ∷ range) pre (a ∷ post) hi hs h =
    let lt : i < size = omega arith in
    let rest =
      copy_octets_full size (i + 1) range (pre ++ b ∷ []) post
        (omega (arith, length-append pre (b ∷ []))) (omega (arith, length-append pre (b ∷ [])))
        (omega arith) in
    rw (lt→ltb i size lt, hi, set-append pre post a b, ← hi, ← append_assoc pre (b ∷ []) post)
      (rest ∙ ap (λ (o : Bytes). (o, size)) (append_assoc pre (b ∷ []) (take (length post) range)))

-- A shorter one leaves the index below the size.
pub copy_octets_short :
    (size i : ℕ) (range arr : Bytes)
    → i + length range < size
    → (copy_octets size range i arr).1 ≡ i + length range
unfolding copy_octets
copy_octets_short size i [] arr h = omega arith
copy_octets_short size i (b ∷ range) arr h =
    let lt : i < size = omega arith in
    rw (lt→ltb i size lt)
      (copy_octets_short size (i + 1) range (set arr i b) (omega arith) ∙ omega arith)

pub of_uint32_lem : (e : Endianness) (v : ℕ) → of_uint32 e v ≡ record { octets = to_be_bytes 4 v }
unfolding of_uint32
of_uint32_lem e v = rw (host_to_network_endian_array_lem e 4 v)

pub of_uint32-IsAddress : (e : Endianness) (v : ℕ) → IsAddress (of_uint32 e v)
of_uint32-IsAddress e v =
    rw (of_uint32_lem e v)
      (record { four = length-to_be_bytes 4 v; bytes = to_be_bytes-IsBytes 4 v })

-- The size test of the conversion passes: the number is that of the octets in network order.
pub to_uint32_lem :
    (e : Endianness) (ip : IPv4Address) → IsAddress ip → to_uint32 e ip ≡ of_be_bytes ip.octets
unfolding to_uint32
to_uint32_lem e ip v = rw (network_array_to_host_endian_lem e 4 ip.octets v.four v.bytes)

pub to_uint32-of_uint32 : (e : Endianness) (v : ℕ) → v < 2 ^ 32 → to_uint32 e (of_uint32 e v) ≡ v
to_uint32-of_uint32 e v h =
    to_uint32_lem e _ (of_uint32-IsAddress e v)
    ∙ (ap (λ (ip : IPv4Address). of_be_bytes ip.octets) (of_uint32_lem e v)
        ∙ of_be_bytes-to_be_bytes 4 v (omega arith))

pub of_uint32-to_uint32 :
    (e : Endianness) (ip : IPv4Address) → IsAddress ip → of_uint32 e (to_uint32 e ip) ≡ ip
of_uint32-to_uint32 e ip v = rw (
  to_uint32_lem e ip v,
  of_uint32_lem e (of_be_bytes ip.octets),
  to_be_bytes-of_be_bytes 4 ip.octets v.four v.bytes,
)

pub to_uint32-lt : (e : Endianness) (ip : IPv4Address) → IsAddress ip → to_uint32 e ip < 2 ^ 32
to_uint32-lt e ip v =
    let h = of_be_bytes-lt ip.octets v.bytes in rw (to_uint32_lem e ip v) (rw v.four at h)

-- `_increment` counts up by one and wraps at the end of the address space.
pub to_uint32-increment :
    (e : Endianness) (ip : IPv4Address)
    → to_uint32 e (increment e ip) ≡ (to_uint32 e ip + 1) % 2 ^ 32
unfolding increment
to_uint32-increment e ip = to_uint32-of_uint32 e _ (omega arith)

pub increment-IsAddress : (e : Endianness) (ip : IPv4Address) → IsAddress (increment e ip)
unfolding increment
increment-IsAddress e ip = of_uint32-IsAddress e _

module _ (e : Endianness) (range : Bytes) where
  pub from_big_endian_bytes_full :
      4 ≤ length range → from_big_endian_bytes e range ≡ ok (record { octets = take 4 range })
  unfolding from_big_endian_bytes
  from_big_endian_bytes_full h =
      rw (of_uint32_lem e 0, copy_octets_full 4 0 range [] (to_be_bytes 4 0) refl refl h)

  pub from_big_endian_bytes_short :
      length range < 4 → from_big_endian_bytes e range ≡ err not_enough_octets
  unfolding from_big_endian_bytes
  from_big_endian_bytes_short h =
      let end : (copy_octets 4 range 0 (of_uint32 e 0).octets).1 ≡ length range =
        copy_octets_short 4 0 range (of_uint32 e 0).octets (omega arith) ∙ omega arith in
      rw (end, lt→ltb _ _ h)

  pub mask_from_big_endian_bytes_full :
      4 ≤ length range → mask_from_big_endian_bytes e range ≡ ok (record { octets = take 4 range })
  unfolding mask_from_big_endian_bytes mask_of_uint32
  mask_from_big_endian_bytes_full h = rw (
    host_to_network_endian_array_lem e 4 0,
    copy_octets_full 4 0 range [] (to_be_bytes 4 0) refl refl h,
  )

-- The octets of an array of four are written in order.
to_network_data_octets :
    (octets : Bytes) → length octets ≡ 4 → to_network_data (record { octets = octets }) ≡ octets
unfolding to_network_data
to_network_data_octets (a ∷ b ∷ c ∷ d ∷ []) h = refl
to_network_data_octets _ h = absurd (omega arith)

pub to_network_data_lem : (ip : IPv4Address) → IsAddress ip → to_network_data ip ≡ ip.octets
to_network_data_lem ip v = to_network_data_octets ip.octets v.four

pub mask_to_network_data_lem :
    (m : IPv4SubnetMask) → IsQuad m.octets → mask_to_network_data m ≡ m.octets
unfolding mask_to_network_data to_network_data
mask_to_network_data_lem m v = to_network_data_octets m.octets v.four

take_all : (octets : Bytes) → length octets ≡ 4 → take 4 octets ≡ octets
take_all (a ∷ b ∷ c ∷ d ∷ []) h = refl
take_all _ h = absurd (omega arith)

-- Reading back what an address writes gives the address.
pub from_big_endian_bytes-to_network_data :
    (e : Endianness) (ip : IPv4Address)
    → IsAddress ip
    → from_big_endian_bytes e (to_network_data ip) ≡ ok ip
from_big_endian_bytes-to_network_data e ip v = rw (
  to_network_data_lem ip v,
  from_big_endian_bytes_full e ip.octets (omega (arith, v.four)),
  take_all ip.octets v.four,
)
