-- ===== src/Cli/Numbers/Text.antt =====
-- The text of an address, and reading it.
use klevret_english_ver.Base.{
  ℕ, suc, ◌+◌, ◌-◌, ◌*◌, ◌/◌, ◌%◌, ◌^◌, ◌<◌, ◌≡◌, refl, inl, inr, true, false, [], ◌∷◌, ◌++◌,
  append-nil, Bytes, set, replicate, ltb, ◌==◌, ok, arith,
}
use klevret_english_ver.WrapperForParsing.{WrapperForParsing, open_text}
use klevret_english_ver.IpAddress.{IPv4Address, is_digit, decimal, dotted}
use klevret_english_ver.IpAddress.Network.{IsQuad, IsAddress}
use klevret_english_ver.IpAddress.Text.{decimal_cases}
use klevret_english_ver.Cli.Reader.{check, is_end}
use klevret_english_ver.Cli.Numbers.{
  scan_int, parse_number, check_octets, parse_ipv4_address, parse_int_octet, read_octets,
  address_of_text, address_to_text,
}
use klevret_english_ver.Cli.Numbers.Addresses.{parse_int_octet-parse_number}

-- A digit is read, and the reader moves on.
scan_int_digit :
    (value d value' : ℕ) (text : Bytes)
    → d < 10
    → value * 10 + d ≡ value'
    → value' < 1000
    → scan_int value (b'0' + d) text ≡ scan_int value' (open_text text).ch (open_text text).rest
unfolding scan_int
scan_int_digit value d value' [] h eq small =
    let e : value * 10 + (b'0' + d - b'0') ≡ value' = omega arith in
    let fits : ltb value' (2 ^ 31) ≡ true = ground arith in
    let t : is_digit (b'0' + d) ≡ true = ground arith in rw (t, e, fits)
scan_int_digit value d value' (x ∷ text) h eq small =
    let e : value * 10 + (b'0' + d - b'0') ≡ value' = omega arith in
    let fits : ltb value' (2 ^ 31) ≡ true = ground arith in
    let t : is_digit (b'0' + d) ≡ true = ground arith in rw (t, e, fits)

scan_int_stop :
    (value : ℕ) (w : WrapperForParsing)
    → is_digit w.ch ≡ false
    → scan_int value w.ch w.rest ≡ ok (value, w)
unfolding scan_int
scan_int_stop value w h = stop value w.ch w.rest h
  where
    stop :
        (value c : ℕ) (rest : Bytes)
        → is_digit c ≡ false
        → scan_int value c rest ≡ ok (value, record { ch = c; rest = rest })
    stop value c [] h = rw h
    stop value c (x ∷ rest) h = rw h

-- The reader at the print of an octet stands at a digit.
decimal_digit :
    (n : ℕ) (text : Bytes) → n < 256 → is_digit (open_text (decimal n ++ text)).ch ≡ true
decimal_digit n text h = elim (decimal_cases n h) [
  | inl (e, lt) ↦ rw e (ground arith)
  | inr (inl (e, lo, hi)) ↦ rw e (ground arith)
  | inr (inr (e, lo)) ↦ rw e (ground arith)
]

scan_int-decimal :
    (n : ℕ) (text : Bytes)
    → n < 256
    → is_digit (open_text text).ch ≡ false
    → scan_int 0 (open_text (decimal n ++ text)).ch (open_text (decimal n ++ text)).rest
      ≡ ok (n, open_text text)
scan_int-decimal n text h nd = elim (decimal_cases n h) [
  | inl (e, lt) ↦
      rw (e, scan_int_digit 0 n n text lt (omega arith) (omega arith)) (scan_int_stop _ _ nd)
  | inr (inl (e, lo, hi)) ↦
      rw
        (
          e,
          scan_int_digit 0 (n / 10) (n / 10) _ (omega arith) (omega arith) (omega arith),
          scan_int_digit (n / 10) (n % 10) n text (omega arith) (omega arith) (omega arith),
        )
        (scan_int_stop _ _ nd)
  | inr (inr (e, lo)) ↦
      rw
        (
          e,
          scan_int_digit 0 (n / 10 / 10) (n / 10 / 10) _ (omega arith) (omega arith) (omega arith),
          scan_int_digit (n / 10 / 10) (n / 10 % 10) (n / 10) _ (omega arith) (omega arith)
              (omega arith),
          scan_int_digit (n / 10) (n % 10) n text (omega arith) (omega arith) (omega arith),
        )
        (scan_int_stop _ _ nd)
]

parse_number-decimal :
    (n : ℕ) (text : Bytes)
    → n < 256
    → is_digit (open_text text).ch ≡ false
    → parse_number (open_text (decimal n ++ text)) ≡ ok (n, open_text text)
unfolding parse_number
parse_number-decimal n text h nd = rw (decimal_digit n text h) (scan_int-decimal n text h nd)

parse_int_octet-decimal :
    (n : ℕ) (text : Bytes)
    → n < 256
    → is_digit (open_text text).ch ≡ false
    → parse_int_octet (open_text (decimal n ++ text)) ≡ ok (n, open_text text)
parse_int_octet-decimal n text h nd =
    parse_int_octet-parse_number _ _ n (parse_number-decimal n text h nd) (ground arith)

-- One round of either loop, at the print of an octet and the dot behind it.
check_octets_round :
    (left i n : ℕ) (text : Bytes)
    → n < 256
    → i < 3
    → check_octets (suc left) i (open_text (decimal n ++ b'.' ∷ text))
      ≡ check_octets left (i + 1) (open_text text)
unfolding check_octets
check_octets_round left i n text h more =
    let small : ltb 255 n ≡ false = ground arith in
    let dotted_on : ltb i 3 ≡ true = ground arith in
    rw (check_octets, parse_number-decimal n (b'.' ∷ text) h refl, small, dotted_on)

check_octets_last : (n : ℕ) → n < 256 → check_octets 1 3 (open_text (decimal n)) ≡ ok true
unfolding check_octets is_end
check_octets_last n h =
    let small : ltb 255 n ≡ false = ground arith in
    let read : parse_number (open_text (decimal n)) ≡ ok (n, open_text []) =
      rw append-nil at (parse_number-decimal n [] h refl) in
    rw (check_octets, read, small)

read_octets_round :
    (left i n : ℕ) (text octets : Bytes)
    → n < 256
    → i < 3
    → read_octets (suc left) i (open_text (decimal n ++ b'.' ∷ text)) octets
      ≡ read_octets left (i + 1) (open_text text) (set octets i n)
unfolding read_octets check
read_octets_round left i n text octets h more =
    let not_last : (i == 3) ≡ false = ground arith in
    rw (parse_int_octet-decimal n (b'.' ∷ text) h refl, not_last)

read_octets_last :
    (n : ℕ) (octets : Bytes)
    → n < 256
    → read_octets 1 3 (open_text (decimal n)) octets ≡ ok (set octets 3 n)
unfolding read_octets
read_octets_last n octets h =
    let read = rw append-nil at (parse_int_octet-decimal n [] h refl) in rw read

check_octets-dotted :
    (octets : Bytes) → IsQuad octets → check_octets 4 0 (open_text (dotted octets)) ≡ ok true
unfolding dotted
check_octets-dotted (a ∷ b ∷ c ∷ d ∷ []) v =
    rw
      (
        check_octets_round 3 0 a _ v.bytes.0 (omega arith),
        check_octets_round 2 1 b _ v.bytes.1.0 (omega arith),
        check_octets_round 1 2 c _ v.bytes.1.1.0 (omega arith),
      )
      (check_octets_last d v.bytes.1.1.1.0)
check_octets-dotted _ v = absurd (omega (arith, v.four))

read_octets-dotted :
    (octets : Bytes)
    → IsQuad octets
    → read_octets 4 0 (open_text (dotted octets)) (replicate 4 0) ≡ ok octets
unfolding dotted
read_octets-dotted (a ∷ b ∷ c ∷ d ∷ []) v =
    rw
      (
        read_octets_round 3 0 a _ (replicate 4 0) v.bytes.0 (omega arith),
        read_octets_round 2 1 b _ (a ∷ 0 ∷ 0 ∷ 0 ∷ []) v.bytes.1.0 (omega arith),
        read_octets_round 1 2 c _ (a ∷ b ∷ 0 ∷ 0 ∷ []) v.bytes.1.1.0 (omega arith),
      )
      (read_octets_last d (a ∷ b ∷ c ∷ 0 ∷ []) v.bytes.1.1.1.0)
read_octets-dotted _ v = absurd (omega (arith, v.four))

-- The text of an address passes the test, and is read back as that address.
pub address_of_text-address_to_text :
    (ip : IPv4Address)
    → IsAddress ip
    → (parse_ipv4_address (address_to_text ip) ≡ ok true)
      × (address_of_text (address_to_text ip) ≡ ok ip)
unfolding parse_ipv4_address address_of_text address_to_text
address_of_text-address_to_text ip v =
    (check_octets-dotted ip.octets v, rw (read_octets-dotted ip.octets v))
