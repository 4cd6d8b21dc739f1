-- ===== src/DhcpMessage/RoundTrip.antt =====
-- What `to_network_data` writes, the constructor reads back.
use klevret_english_ver.Base.{
  ℕ, zero, suc, ◌+◌, ◌≤◌, ◌<◌, ◌≡◌, ◌≢◌, refl, sym, ap, ◌∙◌, true, some, List, [], ◌∷◌, ◌++◌,
  append-nil, append_assoc, Bytes, IsBytes, All, length, length-append, drop, lt→ltb, le→ltb, ==_ne,
  ok, ◌>>=◌, >>=-eq-ok, arith,
}
use klevret_english_ver.Base.Int.{pos}
use klevret_english_ver.Endian.{Endianness}
use klevret_english_ver.HardwareAddress.{MacAddress}
use klevret_english_ver.DhcpOption.Codec.{
  DhcpOption, split_range, make_option, option_to_network_data,
}
use klevret_english_ver.DhcpOption.Values.{is_transparent}
use klevret_english_ver.DhcpOption.Encoding.{make_option-append, option_to_network_data-make_option}
use klevret_english_ver.DhcpMessage.{
  DhcpMessage, parse, parse_fixed, parse_options, fixed_to_network_data, options_to_network_data,
  message_to_network_data,
}
use klevret_english_ver.DhcpMessage.Fixed.{
  IsMessage, length-fixed_to_network_data, drop-fixed_to_network_data,
  parse_fixed-fixed_to_network_data,
}

-- The option is what the constructor makes of a payload of less than 256 bytes, at a type that is
-- written as it was read.
pub record IsEncoded (e : Endianness) (o : DhcpOption) : Type 0 where
  pub code : ℕ
  pub payload : Bytes
  pub not_pad : code ≢ 0
  pub not_end : code ≢ 255
  pub short : length payload < 256
  pub bytes : IsBytes payload
  pub made : make_option e code (pos (length payload)) payload [] ≡ ok o
  pub seen : is_transparent e o.description.payload_description.type ≡ true

split_range_exact : (p rest : Bytes) → split_range (length p) (p ++ rest) ≡ ok (p, rest)
unfolding split_range
split_range_exact [] rest = refl
split_range_exact (b ∷ p) rest = rw (split_range_exact p rest)

module _ (e : Endianness) where
  written_option :
      (o : DhcpOption) (v : IsEncoded e o)
      → option_to_network_data e o ≡ ok (v.code ∷ length v.payload ∷ v.payload)
  written_option o v =
      option_to_network_data-make_option e v.code v.payload v.not_pad v.not_end v.short v.bytes
        v.made v.seen

  -- One round of the loop over the options.
  parse_options_round :
      (fuel : ℕ) (o : DhcpOption) (v : IsEncoded e o) (rest : Bytes) (options : List DhcpOption)
      → parse_options (suc fuel) e (v.code ∷ length v.payload ∷ (v.payload ++ rest)) options
        ≡ parse_options fuel e rest (options ++ o ∷ [])
  unfolding parse_options
  parse_options_round fuel o v rest options =
      rw
        (
          parse_options,
          ==_ne v.code 0 v.not_pad,
          ==_ne v.code 255 v.not_end,
          split_range_exact v.payload rest,
          make_option-append e v.code (pos (length v.payload)) v.payload rest v.made,
        )
        refl

  -- Written options are read back, up to the option that ends them.
  parse_options-options_to_network_data :
      (fuel : ℕ) (os options : List DhcpOption) (tail bytes : Bytes)
      → All (IsEncoded e) os
      → options_to_network_data e os ≡ ok bytes
      → length bytes < fuel
      → parse_options fuel e (bytes ++ 255 ∷ tail) options ≡ ok (options ++ os)
  unfolding parse_options options_to_network_data
  parse_options-options_to_network_data zero os options tail bytes v h lt = absurd (omega arith)
  parse_options-options_to_network_data (suc fuel) [] options tail bytes v h lt =
      let none : bytes ≡ [] = ground arith in rw (none, append-nil options) refl
  parse_options-options_to_network_data (suc fuel) (o ∷ os) options tail bytes (v, vs) h lt =
      let (first, p, f) = >>=-eq-ok (option_to_network_data e o) _ h in
      let (rest, q, g) = >>=-eq-ok (options_to_network_data e os) _ f in
      let here : bytes ≡ v.code ∷ length v.payload ∷ (v.payload ++ rest) =
        ground (arith, written_option o v) in
      rw (here, append_assoc v.payload rest (255 ∷ tail))
        (parse_options_round fuel o v (rest ++ 255 ∷ tail) options
          ∙ parse_options-options_to_network_data fuel os (options ++ o ∷ []) tail rest vs q
              (omega (arith, ap length here, length-append v.payload rest))
          ∙ ap ok (append_assoc options (o ∷ []) os))

  options_to_network_data_total :
      (os : List DhcpOption)
      → All (IsEncoded e) os
      → (bytes : Bytes) × (options_to_network_data e os ≡ ok bytes)
  unfolding options_to_network_data
  options_to_network_data_total [] v = ([], refl)
  options_to_network_data_total (o ∷ os) (v, vs) =
      let (rest, q) = options_to_network_data_total os vs in
      let first : Bytes = v.code ∷ length v.payload ∷ v.payload in
      (first ++ rest, rw (written_option o v, q) refl)

-- The constructor on a datagram whose fixed fields are `m`.
module _ (e : Endianness) (indeterminate datagram : Bytes) (m : DhcpMessage)
    (fixed : parse_fixed e indeterminate datagram ≡ ok m) where
  parse_short : length datagram < 240 → parse e indeterminate datagram ≡ ok m
  unfolding parse
  parse_short h = rw (fixed, lt→ltb _ _ h) refl

  parse_long :
      (tail : Bytes) (os : List DhcpOption)
      → 240 ≤ length datagram
      → drop 236 datagram ≡ 99 ∷ 130 ∷ 83 ∷ 99 ∷ tail
      → parse_options (length tail + 5) e tail [] ≡ ok os
      → parse e indeterminate datagram ≡ ok (record m { options = os })
  unfolding parse
  parse_long tail os h cookie read =
      let enough : length tail + 5 ≡ suc (length (drop 236 datagram)) =
        omega (arith, ap length cookie) in
      rw (fixed, le→ltb _ _ h, ← enough, cookie, read) refl

-- What a message is written as, with no options and with some.
module _ (e : Endianness) (m : DhcpMessage) (mac : MacAddress) (c : m.chaddr ≡ some mac) where
  written_without : m.options ≡ [] → message_to_network_data e m ≡ ok (fixed_to_network_data m mac)
  unfolding message_to_network_data
  written_without none = rw (c, none) refl

  written_with :
      (o : DhcpOption) (os : List DhcpOption) (bytes : Bytes)
      → m.options ≡ o ∷ os
      → options_to_network_data e (o ∷ os) ≡ ok bytes
      → message_to_network_data e m
        ≡ ok (fixed_to_network_data m mac ++ (99 ∷ 130 ∷ 83 ∷ 99 ∷ (bytes ++ 255 ∷ [])))
  unfolding message_to_network_data
  written_with o os bytes some_options p = rw (c, some_options, p) refl

module _ (e : Endianness) (indeterminate : Bytes) (six : length indeterminate ≡ 6) (m : DhcpMessage)
    (mac : MacAddress) (v : IsMessage mac m) where
  without_options : m.options ≡ [] → (message_to_network_data e m >>= parse e indeterminate) ≡ ok m
  without_options none =
      let all = append-nil (fixed_to_network_data m mac) in
      let size : length (fixed_to_network_data m mac) ≡ 236 =
        ap length (sym all) ∙ length-fixed_to_network_data m mac [] v in
      let fixed : parse_fixed e indeterminate (fixed_to_network_data m mac)
          ≡ ok (record m { options = [] }) =
        ap (parse_fixed e indeterminate) (sym all)
        ∙ parse_fixed-fixed_to_network_data m mac [] v e indeterminate six in
      let same : record m { options = [] } ≡ m =
        ap (λ (os : List DhcpOption). record m { options = os }) (sym none) in
      ap (λ r. r >>= parse e indeterminate) (written_without e m mac v.chaddr_mac none)
      ∙ (parse_short e indeterminate _ (record m { options = [] }) fixed (omega (arith, size))
          ∙ ap ok same)

  with_options :
      (o : DhcpOption) (os : List DhcpOption)
      → m.options ≡ o ∷ os
      → All (IsEncoded e) (o ∷ os)
      → (message_to_network_data e m >>= parse e indeterminate) ≡ ok m
  with_options o os some_options w =
      let (bytes, p) = options_to_network_data_total e (o ∷ os) w in
      let tail : Bytes = bytes ++ 255 ∷ [] in
      let after : Bytes = 99 ∷ 130 ∷ 83 ∷ 99 ∷ tail in
      let grown = length-append bytes (255 ∷ []) in
      let size = length-fixed_to_network_data m mac after v in
      let read =
        parse_options-options_to_network_data e (length tail + 5) (o ∷ os) [] [] bytes w p
          (omega (arith, grown)) in
      let same : record m { options = o ∷ os } ≡ m =
        ap (λ (os : List DhcpOption). record m { options = os }) (sym some_options) in
      ap (λ r. r >>= parse e indeterminate)
        (written_with e m mac v.chaddr_mac o os bytes some_options p)
      ∙ (parse_long e indeterminate (fixed_to_network_data m mac ++ after)
            (record m { options = [] })
            (parse_fixed-fixed_to_network_data m mac after v e indeterminate six) tail (o ∷ os)
            (omega (arith, size)) (drop-fixed_to_network_data m mac after v) read
          ∙ ap ok same)

  -- A message is read back as it was written: one with an Ethernet address, fields that have their
  -- widths, `sname` and `file` of zeros, and options that are not flags, nor on a little-endian host
  -- integers of more than one byte. What a new address holds before it is filled does not matter.
  pub parse-message_to_network_data :
      All (IsEncoded e) m.options → (message_to_network_data e m >>= parse e indeterminate) ≡ ok m
  parse-message_to_network_data w = by m.options refl
    where
      by :
          (os : List DhcpOption)
          → m.options ≡ os
          → (message_to_network_data e m >>= parse e indeterminate) ≡ ok m
      by [] h = without_options h
      by (o ∷ os) h = with_options o os h (rw h at w)
