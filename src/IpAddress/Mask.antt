-- ===== src/IpAddress/Mask.antt =====
-- `IPv4SubnetMask` of dhcp/src/IpAddress.cpp.
use Prim.Native.Nat.{bit_and, bit_or}
use klevret_english_ver.Base.{
  ℕ, zero, suc, ◌+◌, ◌/◌, Bool, false, not, ◌||◌, ◌&&◌, [], ◌∷◌, Bytes, List, get_or, ltb, ◌==◌,
  if◌then◌else◌, Result, ok, err, not_enough_octets, bad_mask_octet, mask_not_contiguous,
  dot_expected, bad_prefix, throw_if, ◌>>=◌, ◌>>◌,
}
use klevret_english_ver.Base.Int.{ℤ, pos, negsuc}
use klevret_english_ver.Endian.{Endianness, host_to_network_endian_array}
use klevret_english_ver.WrapperForParsing.{WrapperForParsing, eot, get_next, open_text}
use klevret_english_ver.IpAddress.{copy_octets, value_or, parse_octet, dotted, unknown_at}

-- `IP_V4_SUBNET_MASK_LENGTH`
abbrev pub ip_v4_subnet_mask_length : ℕ
ip_v4_subnet_mask_length = 4

pub record IPv4SubnetMask : Type 0 where
  pub octets : Bytes

-- `IPv4SubnetMask(uint32_t)`
unfoldable pub mask_of_uint32 : Endianness → ℕ → IPv4SubnetMask
mask_of_uint32 e v = record {
  octets = value_or [] (host_to_network_endian_array e 4 ip_v4_subnet_mask_length v);
}

unfoldable pub mask_from_big_endian_bytes : Endianness → Bytes → Result IPv4SubnetMask
unfolding copy_octets
mask_from_big_endian_bytes e range = do
  let (octets, i) = copy_octets ip_v4_subnet_mask_length range 0 (mask_of_uint32 e 0).octets
  throw_if (ltb i ip_v4_subnet_mask_length) not_enough_octets
  ok (record { octets = octets })

-- `std::find` in `allowed_mask_values`
unfoldable pub is_one_of : ℕ → List ℕ → Bool
is_one_of x [] = false
is_one_of x (y ∷ ys) = (y == x) || is_one_of x ys

abbrev pub allowed_mask_values : List ℕ
allowed_mask_values = 128 ∷ 192 ∷ 224 ∷ 240 ∷ 248 ∷ 252 ∷ 254 ∷ 255 ∷ []

-- The loop of `IPv4SubnetMask(std::string)`: the octets are tested, and none is stored.
unfoldable pub scan_mask : ℕ → ℕ → ℕ → WrapperForParsing → Result WrapperForParsing
scan_mask zero i previous_value w = ok w
scan_mask (suc left) i previous_value w = do
  (octet, w') ← parse_octet w
  throw_if (not (is_one_of octet allowed_mask_values)) bad_mask_octet
  throw_if (not (previous_value == 255)) mask_not_contiguous
  throw_if (not (i == 3) && not (w'.ch == b'.')) dot_expected
  scan_mask left (i + 1) octet (if i == 3 then w' else get_next w')

-- The bytes of "Ошибка парсинга маски подсети: неизвестный символ: " in UTF-8.
abbrev pub mask_message_size : ℕ
mask_message_size = 94

-- `IPv4SubnetMask(std::string)`. `indeterminate` is what the array holds before the constructor
-- runs, which the source does not initialise.
unfoldable pub mask_of_string : Bytes → Bytes → Result IPv4SubnetMask
mask_of_string indeterminate str = do
  w ← scan_mask 4 0 255 (open_text str)
  throw_if (not (w.ch == eot)) (unknown_at mask_message_size w.ch)
  ok (record { octets = indeterminate })

-- The loop of `from_prefix` with `left` rounds to go: `mask |= one; one >>= 1;`
unfoldable pub set_bits : ℕ → ℕ → ℕ → ℕ
set_bits zero one mask = mask
set_bits (suc left) one mask = set_bits left (one / 2) (bit_or mask one)

unfoldable pub from_prefix : Endianness → ℤ → Result IPv4SubnetMask
unfolding set_bits
from_prefix e (negsuc n) = err bad_prefix
from_prefix e (pos prefix) = do
  throw_if (ltb 32 prefix) bad_prefix
  ok (mask_of_uint32 e (set_bits prefix 128 0))

unfoldable pub mask_to_string : IPv4SubnetMask → Bytes
unfolding dotted
mask_to_string m = dotted m.octets

-- The inner loop of `to_prefix`: a round for each bit of the octet.
unfoldable pub count_bits : ℕ → ℕ → ℕ → ℕ → ℕ
count_bits zero one octet prefix = prefix
count_bits (suc left) one octet prefix =
    count_bits left (one / 2) octet (if bit_and octet one == 0 then prefix else prefix + 1)

unfoldable pub count_octets : Bytes → ℕ → ℕ
unfolding count_bits
count_octets [] prefix = prefix
count_octets (octet ∷ octets) prefix = count_octets octets (count_bits 8 128 octet prefix)

unfoldable pub to_prefix : IPv4SubnetMask → ℕ
unfolding count_octets
to_prefix m = count_octets m.octets 0

unfoldable pub mask_to_network_data : IPv4SubnetMask → Bytes
mask_to_network_data m =
    get_or m.octets 0 0 ∷ get_or m.octets 1 0 ∷ get_or m.octets 2 0 ∷ get_or m.octets 3 0 ∷ []
