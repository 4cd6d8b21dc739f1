-- ===== src/Cli/Numbers/Addresses.antt =====
-- The test of an address and the constructor that reads it afterwards.
use klevret_english_ver.Base.{
  ℕ, zero, suc, ◌+◌, ◌<◌, ◌≡◌, refl, ap, ◌∙◌, inl, inr, true, false, not, [], ◌∷◌, Bytes, IsBytes,
  length, set, replicate, ltb, ◌==◌, Bool-cases, Error, Result-cases, ok, >>=-eq-ok, throw_if,
  arith,
}
use klevret_english_ver.WrapperForParsing.{WrapperForParsing, get_next, open_text}
use klevret_english_ver.IpAddress.{IPv4Address, is_digit}
use klevret_english_ver.IpAddress.Network.{IsQuad, IsAddress}
use klevret_english_ver.Cli.Reader.{check}
use klevret_english_ver.Cli.Numbers.{
  parse_number, caught, check_octets, parse_ipv4_address, parse_int_octet, read_octets,
  address_of_text,
}

set-IsQuad : (octets : Bytes) (i b : ℕ) → b < 256 → IsQuad octets → IsQuad (set octets i b)
set-IsQuad octets i b h v = record {
  four = length-set octets i b ∙ v.four;
  bytes = set-IsBytes octets i b h v.bytes;
}
  where
    length-set : (bytes : Bytes) (i b : ℕ) → length (set bytes i b) ≡ length bytes
    length-set [] i b = refl
    length-set (x ∷ bytes) zero b = refl
    length-set (x ∷ bytes) (suc i) b = ap suc (length-set bytes i b)

    set-IsBytes : (bytes : Bytes) (i b : ℕ) → b < 256 → IsBytes bytes → IsBytes (set bytes i b)
    set-IsBytes [] i b h v = v
    set-IsBytes (x ∷ bytes) zero b h v = (h, v.1)
    set-IsBytes (x ∷ bytes) (suc i) b h v = (v.0, set-IsBytes bytes i b h v.1)

caught_not_true : (cause : Error) → caught cause ≡ ok true → ⊥
caught_not_true Error.undefined h = cc
caught_not_true _ h = cc

-- A number that passes the test of `parse_number` is one that `parse_octet` reads alike.
pub parse_int_octet-parse_number :
    (w w' : WrapperForParsing) (octet : ℕ)
    → parse_number w ≡ ok (octet, w')
    → ltb 255 octet ≡ false
    → parse_int_octet w ≡ ok (octet, w')
unfolding parse_number parse_int_octet
parse_int_octet-parse_number w w' octet h small =
    let (u, passed, scanned) = >>=-eq-ok (throw_if (not (is_digit w.ch)) _) _ h in
    rw (scanned, small)

-- Each round of the test lets a round of the constructor pass.
read_octets-check_octets :
    (left i : ℕ) (w : WrapperForParsing) (octets : Bytes)
    → i + left ≡ 4
    → IsQuad octets
    → check_octets left i w ≡ ok true
    → (octets' : Bytes) × (read_octets left i w octets ≡ ok octets') × IsQuad octets'
unfolding check_octets read_octets check
read_octets-check_octets zero i w octets four v h = (octets, refl, v)
read_octets-check_octets (suc left) i w octets four v h = elim (Result-cases (parse_number w)) [
  | inl (cause, e) ↦ absurd (caught_not_true cause (rw (check_octets, e) at h))
  | inr ((octet, w'), e) ↦ elim (Bool-cases (ltb 255 octet)) [
    | inl big ↦ let refused = rw (check_octets, e, big) at h in cc
    | inr small ↦
        let read = parse_int_octet-parse_number w w' octet e small in
        let v' = set-IsQuad octets i octet (ground arith) v in
        elim (Bool-cases (ltb i 3)) [
          | inl more ↦ elim (Bool-cases (w'.ch == b'.')) [
            | inl dot ↦
                let not_last : (i == 3) ≡ false = ground arith in
                let rest = rw (check_octets, e, small, more, dot) at h in
                rw (read, not_last, dot)
                  (read_octets-check_octets left (i + 1) (get_next w') _ (omega arith) v' rest)
            | inr other ↦ let refused = rw (check_octets, e, small, more, other) at h in cc
          ]
          | inr done ↦
              let last : (i == 3) ≡ true = ground arith in
              let rest = rw (check_octets, e, small, done) at h in
              rw (read, last) (read_octets-check_octets left (i + 1) w' _ (omega arith) v' rest)
        ]
  ]
]

-- What the test accepts, the constructor reads as an address: it does not throw there.
pub address_of_text-parse_ipv4_address :
    (str : Bytes)
    → parse_ipv4_address str ≡ ok true
    → (ip : IPv4Address) × (address_of_text str ≡ ok ip) × IsAddress ip
unfolding parse_ipv4_address address_of_text
address_of_text-parse_ipv4_address str h =
    let zeros : IsQuad (replicate 4 0) = record {
      four = refl;
      bytes = (omega arith, (omega arith, (omega arith, (omega arith, tt))));
    } in
    let (octets, read, v) =
      read_octets-check_octets 4 0 (open_text str) (replicate 4 0) refl zeros h in
    (record { octets = octets }, rw read, v)
