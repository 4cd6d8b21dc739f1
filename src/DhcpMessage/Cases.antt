-- ===== src/DhcpMessage/Cases.antt =====
-- Which datagrams the constructor of DhcpMessage refuses before it reads the options.
use klevret_english_ver.Base.{
  ℕ, ◌+◌, ◌≡◌, ◌≤◌, refl, ap, Bool, true, false, [], Bytes, length, length-take, take-take,
  drop-drop, length-drop, take, drop, ltb, ◌==◌, le→ltb, if◌then◌else◌, Result, ok, err, some, ◌*◌,
  ◌^◌, suc, Error, throw_if, ◌>>◌, ◌>>=◌, not, Bool-cases, inl, inr, message_too_short,
  unsupported_hardware, bad_cookie, arith,
}
use klevret_english_ver.Endian.{Endianness}
use klevret_english_ver.IpAddress.Network.{from_big_endian_bytes_full}
use klevret_english_ver.HardwareAddress.{htype_of_uint8, htype_to_uint8}
use klevret_english_ver.HardwareAddress.Mac.{
  make_ptr_from_big_endian_bytes_full, htype_to_uint8-htype_of_uint8,
}
use klevret_english_ver.DhcpMessage.{
  DhcpMessage, op_of_uint8, parse_fixed, parse, parse_options, data_at, is_cookie,
}

-- The fields at their offsets.
abbrev pub fields_of : Bytes → DhcpMessage
fields_of datagram = record {
  op = op_of_uint8 (data_at datagram 0);
  htype = htype_of_uint8 (data_at datagram 1);
  hlen = data_at datagram 2;
  hops = data_at datagram 3;
  xid =
      data_at datagram 4 * 2 ^ 24
      + (data_at datagram 5 * 2 ^ 16 + (data_at datagram 6 * 2 ^ 8 + data_at datagram 7));
  secs = data_at datagram 8 * 2 ^ 8 + data_at datagram 9;
  flags = data_at datagram 10 * 2 ^ 8 + data_at datagram 11;
  ciaddr = record { octets = take 4 (drop 12 datagram) };
  yiaddr = record { octets = take 4 (drop 16 datagram) };
  siaddr = record { octets = take 4 (drop 20 datagram) };
  giaddr = record { octets = take 4 (drop 24 datagram) };
  chaddr = some (record { octets = take 6 (drop 28 datagram) });
  sname = take 64 (drop 44 datagram);
  file = take 128 (drop 108 datagram);
  options = [];
}

-- Reading a message, test by test: the options are read as the constructor reads them.
abbrev pub parse_by_cases : Endianness → Bytes → Result DhcpMessage
parse_by_cases e datagram =
    if ltb (length datagram) 236
    then err message_too_short
    else if not (data_at datagram 1 == 1)
    then err unsupported_hardware
    else if ltb (length datagram) 240
    then ok (fields_of datagram)
    else if not (is_cookie (drop 236 datagram))
    then err bad_cookie
    else (parse_options (suc (length (drop 236 datagram))) e (drop 240 datagram) []
        >>= (λ options. ok (record (fields_of datagram) { options = options })))

throw_if_lem :
    (b : Bool) (cause : Error) (k : Result DhcpMessage)
    → (throw_if b cause >> k) ≡ (if b then err cause else k)
throw_if_lem true cause k = refl
throw_if_lem false cause k = refl

module _ (e : Endianness) (indeterminate datagram : Bytes) where
  -- The ranges of the four addresses and of the hardware address.
  range_there : (n : ℕ) (iter : Bytes) → n ≤ length iter → n ≤ length (take n iter)
  range_there n iter long_enough = omega (arith, length-take n iter)

  module _ (six : length indeterminate ≡ 6) (long : 236 ≤ length datagram) where
    -- The bytes behind the first fields, and behind each address.
    abbrev at_ciaddr : Bytes
    at_ciaddr = drop 12 datagram

    -- With the fixed fields there, the hardware type decides.
    parse_fixed_lem :
        parse_fixed e indeterminate datagram
        ≡ (throw_if (not (data_at datagram 1 == 1)) unsupported_hardware >> ok (fields_of datagram))
    unfolding parse_fixed htype_to_uint8
    parse_fixed_lem =
        let first = length-drop 12 datagram in
        let second = length-drop 4 at_ciaddr in
        let third = length-drop 4 (drop 4 at_ciaddr) in
        let fourth = length-drop 4 (drop 4 (drop 4 at_ciaddr)) in
        let fifth = length-drop 4 (drop 4 (drop 4 (drop 4 at_ciaddr))) in
        rw
          (
            le→ltb (length datagram) 236 long,
            from_big_endian_bytes_full e (take 4 at_ciaddr) (range_there 4 _ (omega arith)),
            from_big_endian_bytes_full e (take 4 (drop 4 at_ciaddr))
                (range_there 4 _ (omega arith)),
            from_big_endian_bytes_full e (take 4 (drop 4 (drop 4 at_ciaddr)))
                (range_there 4 _ (omega arith)),
            from_big_endian_bytes_full e (take 4 (drop 4 (drop 4 (drop 4 at_ciaddr))))
                (range_there 4 _ (omega arith)),
            htype_to_uint8-htype_of_uint8 (data_at datagram 1),
            make_ptr_from_big_endian_bytes_full indeterminate
                (take 6 (drop 4 (drop 4 (drop 4 (drop 4 at_ciaddr))))) six
                (range_there 6 _ (omega arith)),
          )
          (simp (drop-drop, take-take) refl)

  parse_fixed_short :
      ltb (length datagram) 236 ≡ true
      → parse_fixed e indeterminate datagram ≡ err message_too_short
  unfolding parse_fixed
  parse_fixed_short short = rw short refl

  -- Where an uninitialised hardware address has six bytes: a message is read as the cases say, on
  -- any datagram. It is refused for being shorter than 236 bytes, for another hardware type than
  -- Ethernet, and for a wrong cookie if it has 240 bytes or more, in this order; without 240
  -- bytes it has no options; and its fields are those at their offsets.
  pub parse-parse_by_cases :
      length indeterminate ≡ 6 → parse e indeterminate datagram ≡ parse_by_cases e datagram
  unfolding parse
  parse-parse_by_cases six = elim (Bool-cases (ltb (length datagram) 236)) [
    | inl short ↦ rw (parse_fixed_short short, short) refl
    | inr long ↦
        let enough : 236 ≤ length datagram = ground arith in
        rw (long, parse_fixed_lem six enough)
          (elim (Bool-cases (data_at datagram 1 == 1)) [
            | inr other ↦ rw other refl
            | inl ethernet ↦
                rw (ethernet, drop-drop 4 236 datagram)
                  (ap (λ rest. if ltb (length datagram) 240 then ok (fields_of datagram) else rest)
                    (throw_if_lem (not (is_cookie (drop 236 datagram))) _ _))
          ])
  ]
