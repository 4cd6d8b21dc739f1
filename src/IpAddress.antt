-- ===== src/IpAddress.antt =====
-- dhcp/src/IpAddress.hpp and IpAddress.cpp: addresses and subnet masks of four octets, the highest
-- first. A `char` is its code, and the text of an exception is not modelled. The address and the
-- mask of IPv6 have no members that do anything.
pub mod Mask
pub mod Network
pub mod Order
pub mod Text
pub mod Prefix
use klevret_english_ver.Base.{
  ℕ, zero, suc, ◌+◌, ◌-◌, ◌*◌, ◌/◌, ◌%◌, ◌^◌, Bool, true, false, not, ◌&&◌, [], ◌∷◌, ◌++◌, Bytes,
  length, get_or, set, replicate, ltb, leb, ◌==◌, if◌then◌else◌, Result, ok, err, Error, undefined,
  not_enough_octets, octet_too_large, dot_expected, unknown_symbol, throw_if, ◌>>=◌, ◌>>◌,
}
use klevret_english_ver.Endian.{
  Endianness, network_array_to_host_endian, host_to_network_endian_array,
}
use klevret_english_ver.WrapperForParsing.{WrapperForParsing, eot, get_next, open_text}

-- `IP_V4_ADDRESS_LENGTH`
abbrev pub ip_v4_address_length : ℕ
ip_v4_address_length = 4

-- `_data` has four elements, as `Network.IsAddress` says.
pub record IPv4Address : Type 0 where
  pub octets : Bytes

-- What the bytes-copying loops of the addresses share: from index `i` on, a round for each element
-- of the range, while `i` is below `size`. It ends with the array and the final `i`.
unfoldable pub copy_octets : ℕ → Bytes → ℕ → Bytes → Bytes × ℕ
copy_octets size [] i arr = (arr, i)
copy_octets size (b ∷ range) i arr =
    if ltb i size then copy_octets size range (i + 1) (set arr i b) else (arr, i)

-- The value of a call whose size test passes on every array of the right size.
abbrev pub value_or {ℓ} : {A : Type ℓ} → A → Result A → A
value_or d (ok a) = a
value_or d (err x) = d

-- `IPv4Address(uint32_t)`
unfoldable pub of_uint32 : Endianness → ℕ → IPv4Address
of_uint32 e v = record {
  octets = value_or [] (host_to_network_endian_array e 4 ip_v4_address_length v);
}

-- `_to_uint32_t`
unfoldable pub to_uint32 : Endianness → IPv4Address → ℕ
to_uint32 e ip = value_or 0 (network_array_to_host_endian e 4 ip.octets)

unfoldable pub from_big_endian_bytes : Endianness → Bytes → Result IPv4Address
unfolding copy_octets
from_big_endian_bytes e range = do
  let (octets, i) = copy_octets ip_v4_address_length range 0 (of_uint32 e 0).octets
  throw_if (ltb i ip_v4_address_length) not_enough_octets
  ok (record { octets = octets })

-- The loop pushes `_data.at(0)` to `_data.at(3)`.
unfoldable pub to_network_data : IPv4Address → Bytes
to_network_data ip =
    get_or ip.octets 0 0 ∷ get_or ip.octets 1 0 ∷ get_or ip.octets 2 0 ∷ get_or ip.octets 3 0 ∷ []

-- `_increment`
unfoldable pub increment : Endianness → IPv4Address → IPv4Address
increment e ip = of_uint32 e ((to_uint32 e ip + 1) % 2 ^ 32)

-- `operator++(int)`: the old value and the new object.
unfoldable pub post_increment : Endianness → IPv4Address → IPv4Address × IPv4Address
unfolding increment
post_increment e ip = (ip, increment e ip)

-- `std::array`'s `==`
unfoldable pub array_eq : Bytes → Bytes → Bool
array_eq [] [] = true
array_eq [] (b ∷ bs) = false
array_eq (a ∷ as') [] = false
array_eq (a ∷ as') (b ∷ bs) = (a == b) && array_eq as' bs

-- `operator==`
unfoldable pub address_eq : IPv4Address → IPv4Address → Bool
unfolding array_eq
address_eq a b = array_eq a.octets b.octets

-- `operator<`
unfoldable pub address_lt : Endianness → IPv4Address → IPv4Address → Bool
address_lt e a b = ltb (to_uint32 e a) (to_uint32 e b)

abbrev pub is_digit : ℕ → Bool
is_digit c = leb b'0' c && leb c b'9'

-- The loop of `parse_octet` at the character `c` with `rest` unread. `octet` is a `size_t`. At the
-- end of the text `get_next` sets `ch` to `EOT`, which is no digit.
unfoldable pub scan_digits : ℕ → ℕ → Bytes → ℕ × WrapperForParsing
scan_digits octet c [] =
    if is_digit c
    then ((octet * 10 + (c - b'0')) % 2 ^ 64, record { ch = eot; rest = [] })
    else (octet, record { ch = c; rest = [] })
scan_digits octet c (d ∷ rest) =
    if is_digit c
    then scan_digits ((octet * 10 + (c - b'0')) % 2 ^ 64) d rest
    else (octet, record { ch = c; rest = d ∷ rest })

unfoldable pub parse_octet : WrapperForParsing → Result (ℕ × WrapperForParsing)
parse_octet w = do
  let (octet, w') = scan_digits 0 w.ch w.rest
  throw_if (ltb 255 octet) octet_too_large
  ok (octet, w')

-- The loop of `IPv4Address(std::string)` with `left` rounds to go. `get_next` is called after the
-- last octet too.
unfoldable pub scan_octets : ℕ → ℕ → WrapperForParsing → Bytes → Result (Bytes × WrapperForParsing)
scan_octets zero i w octets = ok (octets, w)
scan_octets (suc left) i w octets = do
  (octet, w') ← parse_octet w
  throw_if (ltb i 3 && not (w'.ch == b'.')) dot_expected
  scan_octets left (i + 1) (get_next w') (set octets i (octet % 256))

-- `throw std::runtime_error("..." + ch)` for a literal of `size` bytes: the sum is a pointer into the
-- literal, up to the NUL behind it; beyond, and for a `char` that is negative, it is undefined.
abbrev pub unknown_at : ℕ → ℕ → Error
unknown_at size ch = if leb ch size && ltb ch 128 then unknown_symbol else undefined

-- The bytes of "Ошибка парсинга IP-адреса, неизвестный символ: " in UTF-8.
abbrev pub address_message_size : ℕ
address_message_size = 84

-- `IPv4Address(std::string)`. All four elements are written, so it does not matter what the array
-- holds before.
unfoldable pub of_string : Bytes → Result IPv4Address
of_string str = do
  (octets, w) ← scan_octets 4 0 (open_text str) (replicate 4 0)
  throw_if (not (w.ch == eot)) (unknown_at address_message_size w.ch)
  ok (record { octets = octets })

-- `std::to_string` of a number below 10 ^ 20: a digit for each round.
unfoldable pub decimal_digits : ℕ → ℕ → Bytes → Bytes
decimal_digits zero n out = out
decimal_digits (suc fuel) n out =
    let longer = decimal_digits fuel (n / 10) ((b'0' + n % 10) ∷ out) in
    if ltb n 10 then (b'0' + n) ∷ out else longer

unfoldable pub decimal : ℕ → Bytes
unfolding decimal_digits
decimal n = decimal_digits 20 n []

-- The text that `to_string` of an address and of a mask both write.
unfoldable pub dotted : Bytes → Bytes
dotted octets =
    decimal (get_or octets 0 0)
    ++ b'.'
      ∷ (decimal (get_or octets 1 0)
          ++ b'.' ∷ (decimal (get_or octets 2 0) ++ b'.' ∷ decimal (get_or octets 3 0)))

unfoldable pub to_string : IPv4Address → Bytes
unfolding dotted
to_string ip = dotted ip.octets
