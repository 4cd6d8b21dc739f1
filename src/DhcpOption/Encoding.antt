-- ===== src/DhcpOption/Encoding.antt =====
-- The whole option: `DhcpOption` read from a payload in a message, and `to_network_data`.
use klevret_english_ver.Base.{
  ℕ, suc, ◌%◌, ◌<◌, ◌≡◌, ◌≢◌, inl, inr, refl, sym, Bool, true, false, not, ◌&&◌, [], ◌∷◌, ◌++◌,
  append-nil, Bytes, IsBytes, length, length-append, ==_ne, Error, ok, throw_if, >>=-eq-ok, arith,
  Bool-cases, if◌then◌else◌,
}
use klevret_english_ver.Base.Int.{ℤ, pos, eq_ℤ, to_uint8}
use klevret_english_ver.Endian.{Endianness}
use klevret_english_ver.DhcpOption.Description.{variable_dhcp_option_length}
use klevret_english_ver.DhcpOption.Table.{description_at}
use klevret_english_ver.DhcpOption.Codec.{
  DhcpOption, process_elements, make_option, is_none, values_to_network_data,
  option_to_network_data,
}
use klevret_english_ver.DhcpOption.Checks.{description_at-code}
use klevret_english_ver.DhcpOption.Values.{is_transparent}
use klevret_english_ver.DhcpOption.RoundTrip.{process_elements-append, process_elements-written}

-- The parts of an option that the constructor has built.
pub record Made (e : Endianness) (code : ℕ) (len : ℤ) (begin end : Bytes) (o : DhcpOption)
    : Type 0 where
  pub described : description_at code ≡ ok o.description
  pub fits :
      (not (eq_ℤ o.description.payload_length variable_dhcp_option_length)
        && not (eq_ℤ o.description.payload_length len))
      ≡ false
  pub some_type : is_none o.description.payload_description.type ≡ false
  pub processed :
      process_elements (suc (length begin)) e o.description begin end [] ≡ ok o.real_values
  pub real : o.real_payload_length ≡ (
      if eq_ℤ o.description.payload_length variable_dhcp_option_length
      then len
      else o.description.payload_length)

throw_if-ok : (test : Bool) (e : Error) {u : Unit} → throw_if test e ≡ ok u → test ≡ false
throw_if-ok false e h = refl
throw_if-ok true e h = cc

pub make_option-Made :
    (e : Endianness) (code : ℕ) (len : ℤ) (begin end : Bytes) {o : DhcpOption}
    → make_option e code len begin end ≡ ok o
    → Made e code len begin end o
unfolding make_option
make_option-Made e code len begin end {o} h =
    let (d, p, f) = >>=-eq-ok (description_at code) _ h in
    let (_, q, g) = >>=-eq-ok (throw_if _ _) _ f in
    let (_, r, k) = >>=-eq-ok (throw_if _ _) _ g in
    let (vs, s, l) = >>=-eq-ok (process_elements (suc (length begin)) e d begin end []) _ k in
    let whole : o ≡ record {
      real_payload_length =
          if eq_ℤ d.payload_length variable_dhcp_option_length then len else d.payload_length;
      description = d;
      real_values = vs;
    } =
      ground arith in
    rw whole (record {
      described = p;
      fits = throw_if-ok _ _ q;
      some_type = throw_if-ok _ _ r;
      processed = s;
      real = refl;
    })

module _ (e : Endianness) (code : ℕ) (len : ℤ) (p : Bytes) {o : DhcpOption} where
  -- An option is read alike with and without bytes behind its payload.
  pub make_option-append :
      (rest : Bytes)
      → make_option e code len p [] ≡ ok o
      → make_option e code len (p ++ rest) rest ≡ ok o
  unfolding make_option
  make_option-append rest h =
      let m = make_option-Made e code len p [] h in
      let again =
        process_elements-append e o.description (suc (length p)) (suc (length (p ++ rest))) p rest
          [] (omega (arith, length-append p rest)) m.processed in
      rw (m.described, m.fits, m.some_type, again, ← m.real) refl

eq_ℤ→eq : (a b : ℤ) → eq_ℤ a b ≡ true → a ≡ b
eq_ℤ→eq a b h = ground arith

-- The length byte that is written for an option is the length that it was made with.
length_byte :
    (e : Endianness) (code n : ℕ) (begin end : Bytes) (o : DhcpOption)
    → Made e code (pos n) begin end o
    → n < 256
    → to_uint8 (
        if eq_ℤ o.description.payload_length variable_dhcp_option_length
        then o.real_payload_length
        else o.description.payload_length)
      ≡ n
length_byte e code n begin end o m lt =
    elim (Bool-cases (eq_ℤ o.description.payload_length variable_dhcp_option_length)) [
      | inl t ↦
          let same : o.real_payload_length ≡ pos n = rw t at m.real in rw (t, same) (omega arith)
      | inr t ↦
          let same : o.description.payload_length ≡ pos n =
            eq_ℤ→eq o.description.payload_length (pos n) (ground (arith, m.fits)) in
          rw (t, same) (omega arith)
    ]

module _ (e : Endianness) (code : ℕ) (p : Bytes) {o : DhcpOption} where
  -- An option that was made from a payload is written with that payload's values.
  pub option_to_network_data-values :
      (written : Bytes)
      → code ≢ 0
      → code ≢ 255
      → length p < 256
      → make_option e code (pos (length p)) p [] ≡ ok o
      → values_to_network_data e o.real_values ≡ ok written
      → option_to_network_data e o ≡ ok (code ∷ length p ∷ written)
  unfolding option_to_network_data
  option_to_network_data-values written not_pad not_end short h w =
      let m = make_option-Made e code (pos (length p)) p [] h in
      let (same, byte) = description_at-code code m.described in
      let small : code % 256 ≡ code = omega arith in
      rw (
        same,
        ==_ne code 0 not_pad,
        ==_ne code 255 not_end,
        w,
        small,
        length_byte e code (length p) p [] o m short,
      )

  -- An option that is not a flag, nor on a little-endian host an integer of more than one byte, is
  -- written as the bytes that it was read from: its code, the length of its payload, and the
  -- payload, of less than 256 bytes. The codes 0 and 255 stand for padding and the end.
  pub option_to_network_data-make_option :
      code ≢ 0
      → code ≢ 255
      → length p < 256
      → IsBytes p
      → make_option e code (pos (length p)) p [] ≡ ok o
      → is_transparent e o.description.payload_description.type ≡ true
      → option_to_network_data e o ≡ ok (code ∷ length p ∷ p)
  option_to_network_data-make_option not_pad not_end short v h seen =
      let m = make_option-Made e code (pos (length p)) p [] h in
      option_to_network_data-values p not_pad not_end short h (
        process_elements-written e o.description (suc (length p)) p p [] [] [] seen v
          (sym (append-nil p)) (unfold values_to_network_data in refl) m.processed)
