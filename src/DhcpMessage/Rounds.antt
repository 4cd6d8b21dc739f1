-- ===== src/DhcpMessage/Rounds.antt =====
-- Reading a message ends, on any bytes.
use klevret_english_ver.Base.{
  Settles, bind_out, >>=-Settles, ok-Settles, throw_out, ℕ, zero, suc, ◌≤◌, ◌<◌, ◌≡◌, ◌≢◌, ap, not,
  List, [], ◌∷◌, ◌++◌, Bytes, take, drop, length, length-append, length-drop, ltb, ◌==◌, ok, err,
  out_of_fuel, message_too_short, unsupported_hardware, bad_cookie, throw_if, ◌>>=◌, ◌>>◌, arith,
  Bool-cases, inl, inr,
}
use klevret_english_ver.Base.Int.{pos}
use klevret_english_ver.Endian.{Endianness}
use klevret_english_ver.IpAddress.{from_big_endian_bytes}
use klevret_english_ver.HardwareAddress.{make_ptr_from_big_endian_bytes}
use klevret_english_ver.DhcpOption.Codec.{DhcpOption, read_byte, split_range, make_option}
use klevret_english_ver.DhcpOption.Steps.{split_range_lem}
use klevret_english_ver.DhcpOption.Rounds.{
  split_range-Settles, from_big_endian_bytes-Settles, make_option-Settles,
}
use klevret_english_ver.DhcpMessage.{DhcpMessage, is_cookie, parse, parse_fixed, parse_options}

read_byte-Settles : (iter : Bytes) → Settles (read_byte iter)
read_byte-Settles [] = λ h. cc
read_byte-Settles (b ∷ iter) = λ h. cc

read_byte_less :
    (iter : Bytes) (b : ℕ) (next : Bytes)
    → read_byte iter ≡ ok (b, next)
    → length next ≤ length iter
read_byte_less [] b next h = cc
read_byte_less (c ∷ iter) b next h =
    let same : next ≡ iter = ground arith in omega (arith, ap length same)

split_range_less :
    (n : ℕ) (iter range next : Bytes)
    → split_range n iter ≡ ok (range, next)
    → length next ≤ length iter
split_range_less n iter range next h =
    let (before, _) = split_range_lem n iter h in
    omega (arith, ap length before, length-append range next)

-- A round of the loop over the options leaves less of the message.
parse_options-Settles :
    (fuel : ℕ) (e : Endianness) (iter : Bytes) (options : List DhcpOption)
    → length iter < fuel
    → Settles (parse_options fuel e iter options)
unfolding parse_options
parse_options-Settles zero e iter options lt = absurd (omega arith)
parse_options-Settles (suc fuel) e [] options lt = λ h. cc
parse_options-Settles (suc fuel) e (code ∷ iter) options lt = elim (Bool-cases (code == 0)) [
  | inl t ↦ rw (parse_options, t) (parse_options-Settles fuel e iter options (omega arith))
  | inr f ↦ elim (Bool-cases (code == 255)) [
    | inl t ↦ rw (parse_options, f, t) (ok-Settles options)
    | inr g ↦
        rw (parse_options, f, g)
          (>>=-Settles (read_byte iter) _ (read_byte-Settles iter) (λ a p.
            >>=-Settles (split_range a.0 a.1) _ (split_range-Settles a.0 a.1) (λ b q.
              >>=-Settles (make_option e code (pos a.0) a.1 b.1) _
                (make_option-Settles e code (pos a.0) a.1 b.1)
                (λ o r. parse_options-Settles fuel e b.1 (options ++ o ∷ []) (
                  omega
                    (arith, read_byte_less iter a.0 a.1 p, split_range_less a.0 a.1 b.0 b.1 q))))))
  ]
]

make_ptr_from_big_endian_bytes-Settles :
    (indeterminate r : Bytes) → Settles (make_ptr_from_big_endian_bytes indeterminate r)
unfolding make_ptr_from_big_endian_bytes
make_ptr_from_big_endian_bytes-Settles indeterminate r = ground arith

message_too_short-other : message_too_short ≢ out_of_fuel
message_too_short-other = λ h. cc

unsupported_hardware-other : unsupported_hardware ≢ out_of_fuel
unsupported_hardware-other = λ h. cc

bad_cookie-other : bad_cookie ≢ out_of_fuel
bad_cookie-other = λ h. cc

parse_fixed-Settles :
    (e : Endianness) (indeterminate datagram : Bytes)
    → Settles (parse_fixed e indeterminate datagram)
unfolding parse_fixed
parse_fixed-Settles e indeterminate datagram = λ h.
    let h = throw_out _ message_too_short _ message_too_short-other h in
    let (ciaddr, _, h) =
      bind_out (from_big_endian_bytes e (take 4 (drop 12 datagram))) _ h
        (from_big_endian_bytes-Settles e (take 4 (drop 12 datagram))) in
    let (yiaddr, _, h) =
      bind_out (from_big_endian_bytes e (take 4 (drop 4 (drop 12 datagram)))) _ h
        (from_big_endian_bytes-Settles e (take 4 (drop 4 (drop 12 datagram)))) in
    let rest = drop 4 (drop 4 (drop 12 datagram)) in
    let (siaddr, _, h) =
      bind_out (from_big_endian_bytes e (take 4 rest)) _ h
        (from_big_endian_bytes-Settles e (take 4 rest)) in
    let (giaddr, _, h) =
      bind_out (from_big_endian_bytes e (take 4 (drop 4 rest))) _ h
        (from_big_endian_bytes-Settles e (take 4 (drop 4 rest))) in
    let h = throw_out _ unsupported_hardware _ unsupported_hardware-other h in
    let client = take 6 (drop 4 (drop 4 rest)) in
    let (chaddr, _, h) =
      bind_out (make_ptr_from_big_endian_bytes indeterminate client) _ h
        (make_ptr_from_big_endian_bytes-Settles indeterminate client) in
    ok-Settles _ h

parse_rest-Settles :
    (e : Endianness) (iter : Bytes) (message : DhcpMessage)
    → Settles (
        throw_if (not (is_cookie iter)) bad_cookie
        >> (parse_options (suc (length iter)) e (drop 4 iter) [] >>= λ options.
            ok (record message { options = options })))
parse_rest-Settles e iter message = λ h.
    let f = throw_out _ bad_cookie _ bad_cookie-other h in
    let (os, _, g) = bind_out (parse_options (suc (length iter)) e (drop 4 iter) []) _ f (
      parse_options-Settles (suc (length iter)) e (drop 4 iter) []
        (omega (arith, length-drop 4 iter))) in
    ok-Settles _ g

-- The constructor's loops end on every datagram: the rounds that the model grants them, one for each
-- byte and one more, are never used up.
pub parse-Settles :
    (e : Endianness) (indeterminate datagram : Bytes)
    → parse e indeterminate datagram ≢ err out_of_fuel
unfolding parse
parse-Settles e indeterminate datagram = λ h.
    let (message, _, f) =
      bind_out (parse_fixed e indeterminate datagram) _ h
        (parse_fixed-Settles e indeterminate datagram) in
    elim (Bool-cases (ltb (length datagram) 240)) [
      | inl t ↦ ok-Settles message (rw t at f)
      | inr t ↦ parse_rest-Settles e (drop 236 datagram) message (rw t at f)
    ]
