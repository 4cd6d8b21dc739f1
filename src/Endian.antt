-- ===== src/Endian.antt =====
-- dhcp/src/endians.hpp. An integer type `T` of `n` bytes is the number of its bit pattern, below
-- 256 ^ n; `std::endian::native` is a parameter, since the code branches on it.
pub mod Laws
use klevret_english_ver.Base.{
  ℕ, zero, suc, ◌+◌, ◌*◌, ◌/◌, ◌%◌, Bool, true, false, [], ◌∷◌, reverse, not, Bytes, length, ◌==◌,
  if◌then◌else◌, Result, ok, err, Error, size_mismatch, throw_if, ◌>>=◌, ◌>>◌,
}

pub data Endianness : Type 0 where
  little : Endianness
  big : Endianness

-- The number whose bytes these are, the lowest byte first, and its bytes.
abbrev pub of_le_bytes : Bytes → ℕ
of_le_bytes [] = 0
of_le_bytes (b ∷ bs) = b + 256 * of_le_bytes bs

abbrev pub to_le_bytes : ℕ → ℕ → Bytes
to_le_bytes zero v = []
to_le_bytes (suc n) v = v % 256 ∷ to_le_bytes n (v / 256)

-- `std::bit_cast` between an array and an integer, and `std::byteswap`.
abbrev pub bit_cast_int : Endianness → Bytes → ℕ
bit_cast_int little arr = of_le_bytes arr
bit_cast_int big arr = of_le_bytes (reverse arr)

abbrev pub bit_cast_array : Endianness → ℕ → ℕ → Bytes
bit_cast_array little n v = to_le_bytes n v
bit_cast_array big n v = reverse (to_le_bytes n v)

abbrev pub byteswap : ℕ → ℕ → ℕ
byteswap n v = of_le_bytes (reverse (to_le_bytes n v))

abbrev swap_if_little : Endianness → ℕ → ℕ → ℕ
swap_if_little little n v = byteswap n v
swap_if_little big n v = v

-- `n` is `sizeof(T)`.
unfoldable pub network_array_to_host_endian : Endianness → ℕ → Bytes → Result ℕ
network_array_to_host_endian e n arr = do
  throw_if (not (length arr == n)) size_mismatch
  ok (swap_if_little e n (bit_cast_int e arr))

-- The overload on a range of iterators; the argument is what the range holds.
unfoldable pub network_to_host_endian : Endianness → ℕ → Bytes → Result ℕ
network_to_host_endian e n range = do
  throw_if (not (length range == n)) size_mismatch
  ok (swap_if_little e n (bit_cast_int e range))

-- The overload on a value that came from the network.
unfoldable pub network_to_host_endian_value : Endianness → ℕ → ℕ → ℕ
network_to_host_endian_value e n value = swap_if_little e n value

-- `size` is the template's `SIZE`.
unfoldable pub host_to_network_endian_array : Endianness → ℕ → ℕ → ℕ → Result Bytes
host_to_network_endian_array e n size value = do
  throw_if (not (size == n)) size_mismatch
  ok (bit_cast_array e n (swap_if_little e n value))
