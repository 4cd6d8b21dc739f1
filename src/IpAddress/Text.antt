-- ===== src/IpAddress/Text.antt =====
-- Reading back the dotted text of an address.
use klevret_english_ver.Base.{
  ℕ, suc, ◌+◌, ◌-◌, ◌*◌, ◌/◌, ◌%◌, ◌^◌, ◌≤◌, ◌<◌, ◌≡◌, ◌≢◌, refl, ◌⊎◌, inl, inr, true, false, [],
  ◌∷◌, ◌++◌, append_assoc, Bytes, replicate, ltb, ok, err, arith, set, append-nil, ==_ne,
  Bool-cases,
}
use klevret_english_ver.WrapperForParsing.{WrapperForParsing, eot, get_next, open_text}
use klevret_english_ver.IpAddress.{
  unknown_at, address_message_size, IPv4Address, is_digit, scan_digits, parse_octet, scan_octets,
  of_string, decimal, dotted, to_string,
}
use klevret_english_ver.IpAddress.Network.{IsAddress, IsQuad}

-- The reader at the start of a text behind a number: at a character that is no digit, or at the end.
pub decimal_cases :
    (n : ℕ)
    → n < 256
    → (decimal n ≡ (b'0' + n) ∷ []) × (n < 10)
      ⊎ (decimal n ≡ (b'0' + n / 10) ∷ (b'0' + n % 10) ∷ []) × (10 ≤ n) × (n < 100)
      ⊎ (decimal n ≡ (b'0' + n / 10 / 10) ∷ (b'0' + n / 10 % 10) ∷ (b'0' + n % 10) ∷ []) × (100 ≤ n)
unfolding decimal
decimal_cases n h = ground arith

-- A digit is read, and the reader moves on; at the end of the text `EOT` ends the number.
scan_digit :
    (octet d value : ℕ) (text : Bytes)
    → d < 10
    → octet * 10 + d ≡ value
    → value < 1000
    → scan_digits octet (b'0' + d) text
      ≡ scan_digits value (open_text text).ch (open_text text).rest
unfolding scan_digits
scan_digit octet d value [] h eq small = ground arith
scan_digit octet d value (x ∷ text) h eq small =
    let e : (octet * 10 + (b'0' + d - b'0')) % 2 ^ 64 ≡ value = omega arith in
    let t : is_digit (b'0' + d) ≡ true = ground arith in rw (t, e)

scan_stop :
    (octet : ℕ) (w : WrapperForParsing)
    → is_digit w.ch ≡ false
    → scan_digits octet w.ch w.rest ≡ (octet, w)
unfolding scan_digits
scan_stop octet w h = stop octet w.ch w.rest h
  where
    stop :
        (octet c : ℕ) (rest : Bytes)
        → is_digit c ≡ false
        → scan_digits octet c rest ≡ (octet, record { ch = c; rest = rest })
    stop octet c [] h = rw h
    stop octet c (x ∷ rest) h = rw h

-- Reading the print of an octet gives the octet and leaves what follows, if that is no digit.
scan_digits-decimal :
    (n : ℕ) (text : Bytes)
    → n < 256
    → is_digit (open_text text).ch ≡ false
    → scan_digits 0 (open_text (decimal n ++ text)).ch (open_text (decimal n ++ text)).rest
      ≡ (n, open_text text)
scan_digits-decimal n text h nd = elim (decimal_cases n h) [
  | inl (e, lt) ↦ rw (e, scan_digit 0 n n text lt (omega arith) (omega arith)) (scan_stop _ _ nd)
  | inr (inl (e, lo, hi)) ↦
      rw
        (
          e,
          scan_digit 0 (n / 10) (n / 10) _ (omega arith) (omega arith) (omega arith),
          scan_digit (n / 10) (n % 10) n text (omega arith) (omega arith) (omega arith),
        )
        (scan_stop _ _ nd)
  | inr (inr (e, lo)) ↦
      rw
        (
          e,
          scan_digit 0 (n / 10 / 10) (n / 10 / 10) _ (omega arith) (omega arith) (omega arith),
          scan_digit (n / 10 / 10) (n / 10 % 10) (n / 10) _ (omega arith) (omega arith)
              (omega arith),
          scan_digit (n / 10) (n % 10) n text (omega arith) (omega arith) (omega arith),
        )
        (scan_stop _ _ nd)
]

pub parse_octet-decimal :
    (n : ℕ) (text : Bytes)
    → n < 256
    → is_digit (open_text text).ch ≡ false
    → parse_octet (open_text (decimal n ++ text)) ≡ ok (n, open_text text)
unfolding parse_octet
parse_octet-decimal n text h nd =
    let small : ltb 255 n ≡ false = ground arith in rw (scan_digits-decimal n text h nd, small)

-- One round of the loop, at the print of an octet and the dot behind it.
scan_octets_round :
    (left i n : ℕ) (text octets : Bytes)
    → n < 256
    → scan_octets (suc left) i (open_text (decimal n ++ b'.' ∷ text)) octets
      ≡ scan_octets left (i + 1) (open_text text) (set octets i n)
unfolding scan_octets
scan_octets_round left i n text octets h =
    let whole : n % 256 ≡ n = omega arith in
    elim (Bool-cases (ltb i 3)) [
      | inl t ↦ rw (parse_octet-decimal n (b'.' ∷ text) h refl, t, whole)
      | inr t ↦ rw (parse_octet-decimal n (b'.' ∷ text) h refl, t, whole)
    ]

-- The last round skips one character behind the number.
scan_octets_last :
    (n : ℕ) (text octets : Bytes)
    → n < 256
    → is_digit (open_text text).ch ≡ false
    → scan_octets 1 3 (open_text (decimal n ++ text)) octets
      ≡ ok (set octets 3 n, get_next (open_text text))
unfolding scan_octets
scan_octets_last n text octets h nd =
    let whole : n % 256 ≡ n = omega arith in rw (parse_octet-decimal n text h nd, whole)

-- Reading the dotted print of four octets, with `text` behind it.
pub scan_octets-dotted :
    (octets text : Bytes)
    → IsQuad octets
    → is_digit (open_text text).ch ≡ false
    → scan_octets 4 0 (open_text (dotted octets ++ text)) (replicate 4 0)
      ≡ ok (octets, get_next (open_text text))
unfolding dotted
scan_octets-dotted (a ∷ b ∷ c ∷ d ∷ []) text v nd =
    rw
      (
        append_assoc (decimal a) _ text,
        append_assoc (decimal b) _ text,
        append_assoc (decimal c) _ text,
        scan_octets_round 3 0 a _ (replicate 4 0) v.bytes.0,
        scan_octets_round 2 1 b _ (a ∷ 0 ∷ 0 ∷ 0 ∷ []) v.bytes.1.0,
        scan_octets_round 1 2 c _ (a ∷ b ∷ 0 ∷ 0 ∷ []) v.bytes.1.1.0,
      )
      (scan_octets_last d text (a ∷ b ∷ c ∷ 0 ∷ []) v.bytes.1.1.1.0 nd)
scan_octets-dotted _ text v nd = absurd (omega (arith, v.four))

-- The text of an address is read back as that address, on every address.
pub of_string-to_string : (ip : IPv4Address) → IsAddress ip → of_string (to_string ip) ≡ ok ip
unfolding of_string to_string
of_string-to_string ip v =
    let read : scan_octets 4 0 (open_text (dotted ip.octets)) (replicate 4 0)
        ≡ ok (ip.octets, record { ch = eot; rest = [] }) =
      rw append-nil at (scan_octets-dotted ip.octets [] v refl) in
    rw read

-- One more character behind the address is skipped without a test, unless it is a digit.
pub of_string-trailing :
    (ip : IPv4Address) (c : ℕ)
    → IsAddress ip
    → is_digit c ≡ false
    → of_string (to_string ip ++ c ∷ []) ≡ ok ip
unfolding of_string to_string
of_string-trailing ip c v nd = rw (scan_octets-dotted ip.octets (c ∷ []) v nd)

-- Two more characters are refused, if the second is not the `EOT` code; if its code is beyond the
-- message that it is added to, or is no ASCII, that is undefined.
pub of_string-unknown :
    (ip : IPv4Address) (c d : ℕ) (text : Bytes)
    → IsAddress ip
    → is_digit c ≡ false
    → d ≢ eot
    → of_string (to_string ip ++ c ∷ d ∷ text) ≡ err (unknown_at address_message_size d)
unfolding of_string to_string
of_string-unknown ip c d text v nd ne =
    rw (scan_octets-dotted ip.octets (c ∷ d ∷ text) v nd, ==_ne d eot ne)
