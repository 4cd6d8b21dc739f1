-- ===== src/Cli/Numbers.antt =====
-- cli/src/ip_addresses.cpp, and the tests of numbers and addresses of cli/src/Command.cpp. An `int`
-- that leaves its range is undefined behaviour. The class IPv4Address is as that of the DHCP server.
pub mod Addresses
pub mod Text
use klevret_english_ver.Base.{
  ℕ, zero, suc, ◌+◌, ◌-◌, ◌*◌, ◌%◌, ◌^◌, Bool, true, false, not, [], ◌∷◌, Bytes, set, replicate,
  ltb, leb, ◌==◌, if◌then◌else◌, Error, Result, ok, err, undefined, digit_expected, octet_too_large,
  dot_expected, throw_if, ◌>>=◌, ◌>>◌,
}
use klevret_english_ver.WrapperForParsing.{WrapperForParsing, eot, get_next, open_text}
use klevret_english_ver.IpAddress.{IPv4Address, is_digit, dotted}
use klevret_english_ver.Cli.Reader.{check, is_end}

-- `result * 10 + (wrap.ch - '0')` in an `int`.
abbrev next_value : ℕ → ℕ → Result ℕ
next_value value c =
    if ltb (value * 10 + (c - b'0')) (2 ^ 31) then ok (value * 10 + (c - b'0')) else err undefined

-- The loops of `parse_number` and `parse_octet` at the character `c` with `rest` unread.
unfoldable pub scan_int : ℕ → ℕ → Bytes → Result (ℕ × WrapperForParsing)
scan_int value c [] =
    if is_digit c
    then next_value value c >>= (λ v. ok (v, record { ch = eot; rest = [] }))
    else ok (value, record { ch = c; rest = [] })
scan_int value c (d ∷ rest) =
    if is_digit c
    then next_value value c >>= (λ v. scan_int v d rest)
    else ok (value, record { ch = c; rest = d ∷ rest })

-- Command.cpp: `parse_number`
unfoldable pub parse_number : WrapperForParsing → Result (ℕ × WrapperForParsing)
parse_number w = throw_if (not (is_digit w.ch)) digit_expected >> scan_int 0 w.ch w.rest

-- `try { ... } catch (...) { return false; }`: undefined behaviour is no exception.
abbrev pub caught : Error → Result Bool
caught undefined = err undefined
caught cause = ok false

-- The loop of `parse_ipv4_address` with `left` rounds to go; at its end, the test behind it.
unfoldable pub check_octets : ℕ → ℕ → WrapperForParsing → Result Bool
unfolding is_end
check_octets zero i w = ok (is_end w)
check_octets (suc left) i w = elim (parse_number w) [
  | err cause ↦ caught cause
  | ok (octet, w') ↦
      if ltb 255 octet
      then ok false
      else (if ltb i 3
          then (if w'.ch == b'.' then check_octets left (i + 1) (get_next w') else ok false)
          else check_octets left (i + 1) w')
]

unfoldable pub parse_ipv4_address : Bytes → Result Bool
parse_ipv4_address str = check_octets 4 0 (open_text str)

unfoldable pub parse_ipv4_subnet_mask : Bytes → Result Bool
parse_ipv4_subnet_mask str = do (mask, w) ← parse_number (open_text str); ok (leb mask 32)

-- ip_addresses.cpp: `parse_octet`
unfoldable pub parse_int_octet : WrapperForParsing → Result (ℕ × WrapperForParsing)
parse_int_octet w = do
  (octet, w') ← scan_int 0 w.ch w.rest
  throw_if (ltb 255 octet) octet_too_large
  ok (octet, w')

-- The loop of `IPv4Address(const std::string&)` with `left` rounds to go.
unfoldable pub read_octets : ℕ → ℕ → WrapperForParsing → Bytes → Result Bytes
unfolding check
read_octets zero i w octets = ok octets
read_octets (suc left) i w octets = do
  (octet, w') ← parse_int_octet w
  let octets' = set octets i octet
  w'' ← if i == 3 then ok w' else check dot_expected w' b'.'
  read_octets left (i + 1) w'' octets'

-- `IPv4Address(const std::string&)`. What stands behind the last octet is not looked at.
unfoldable pub address_of_text : Bytes → Result IPv4Address
address_of_text ip = do
  octets ← read_octets 4 0 (open_text ip) (replicate 4 0)
  ok (record { octets = octets })

-- `IPv4Address::to_string`
unfoldable pub address_to_text : IPv4Address → Bytes
address_to_text ip = dotted ip.octets
