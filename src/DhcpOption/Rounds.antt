-- ===== src/DhcpOption/Rounds.antt =====
-- The constructor's loop ends: the rounds that the model grants it are enough.
use klevret_english_ver.Base.{
  ℕ, zero, suc, ◌<◌, ◌≡◌, ◌≢◌, ap, not, List, [], ◌∷◌, Bytes, length, length-append, ◌==◌, Result,
  ok, out_of_fuel, constraint_violated, length_mismatch, empty_value, Settles, >>=-Settles,
  bind_out, ok-Settles, throw_out, take, drop, throw_if, ◌>>=◌, ◌>>◌, arith, Bool-cases, inl, inr,
}
use klevret_english_ver.Base.Int.{ℤ}
use klevret_english_ver.Endian.{Endianness, network_to_host_endian}
use klevret_english_ver.IpAddress.{from_big_endian_bytes}
use klevret_english_ver.IpAddress.Mask.{mask_from_big_endian_bytes}
use klevret_english_ver.DhcpOption.Description.{
  DhcpOptionPayloadType, DhcpOptionDescription, vendor_specific_field, byte_array, string,
  ip_address, subnet_mask, ip_address_with_subnet_mask, two_ip_addresses, uint_8, uint_16, uint_32,
  int_32, flag, is_correct_uint, is_correct_int,
}
use klevret_english_ver.DhcpOption.Table.{find_in, description_at, options_descriptions}
use klevret_english_ver.DhcpOption.Codec.{
  between, FieldValue, split_range, Round, go_on, return, process_element, process_elements,
  process_vendor_specific_field, process_byte_array, process_string, process_ip_address,
  process_subnet_mask, process_ip_address_with_mask, process_two_ip_addresses, process_uint8,
  process_uint16, process_uint32, process_int32, process_flag, process_uint_enum, ranged, single,
  whole, make_option,
}
use klevret_english_ver.DhcpOption.Steps.{round_at, go_on-Stepped}

pub split_range-Settles : (n : ℕ) (iter : Bytes) → Settles (split_range n iter)
unfolding split_range
split_range-Settles zero iter = λ h. cc
split_range-Settles (suc n) [] = λ h. cc
split_range-Settles (suc n) (b ∷ iter) =
    >>=-Settles (split_range n iter) _ (split_range-Settles n iter) (λ a p h. cc)

find_in-Settles :
    (table : List (ℕ × DhcpOptionDescription)) (code : ℕ) → Settles (find_in table code)
unfolding find_in
find_in-Settles [] code = λ h. cc
find_in-Settles ((key, d) ∷ rest) code = ground (arith, find_in-Settles rest code)

module _ (e : Endianness) where
  pub from_big_endian_bytes-Settles : (r : Bytes) → Settles (from_big_endian_bytes e r)
  unfolding from_big_endian_bytes
  from_big_endian_bytes-Settles r = ground arith

  mask_from_big_endian_bytes-Settles : (r : Bytes) → Settles (mask_from_big_endian_bytes e r)
  unfolding mask_from_big_endian_bytes
  mask_from_big_endian_bytes-Settles r = ground arith

  network_to_host_endian-Settles : (n : ℕ) (r : Bytes) → Settles (network_to_host_endian e n r)
  unfolding network_to_host_endian
  network_to_host_endian-Settles n r = ground arith

module _ (e : Endianness) (d : DhcpOptionDescription) (values : List FieldValue) where
  correct_uint-Settles :
      (v : ℕ) (vs : List FieldValue)
      → Settles (
          is_correct_uint d.payload_description v >>= λ correct.
          throw_if (not correct) constraint_violated >> ok vs)
  unfolding is_correct_uint
  correct_uint-Settles v vs = ground arith

  correct_int-Settles :
      (v : ℕ) (vs : List FieldValue)
      → Settles (
          is_correct_int d.payload_description v >>= λ correct.
          throw_if (not correct) constraint_violated >> ok vs)
  unfolding is_correct_int
  correct_int-Settles v vs = ground arith

  ranged-Settles :
      (iter end : Bytes) (size : ℕ) (process : Bytes → Result (List FieldValue))
      → ((r : Bytes) → Settles (process r))
      → Settles (ranged e d iter end values size process)
  ranged-Settles iter end size process k =
      >>=-Settles (split_range size iter) _ (split_range-Settles size iter)
        (λ a p. >>=-Settles (process a.0) _ (k a.0) (λ vs q h. cc))

  single-Settles :
      (iter end : Bytes) (process : ℕ → Result (List FieldValue))
      → ((b : ℕ) → Settles (process b))
      → Settles (single e d iter end values process)
  single-Settles [] end process k = λ h. cc
  single-Settles (b ∷ iter) end process k = >>=-Settles (process b) _ (k b) (λ vs q h. cc)

  whole-Settles :
      (iter end : Bytes) (process : Bytes → Result (List FieldValue))
      → ((r : Bytes) → Settles (process r))
      → Settles (whole e d iter end values process)
  whole-Settles iter end process k =
      >>=-Settles (process (between iter end)) _ (k (between iter end)) (λ vs q h. cc)

  process_byte_array-Settles : (r : Bytes) → Settles (process_byte_array e d values r)
  unfolding process_byte_array
  process_byte_array-Settles r = ground arith

  two-Settles : (r : Bytes) → Settles (process_two_ip_addresses e d values r)
  unfolding process_two_ip_addresses
  two-Settles r =
      >>=-Settles (from_big_endian_bytes e (take 4 r)) _
        (from_big_endian_bytes-Settles e (take 4 r))
        (λ a p.
          >>=-Settles (from_big_endian_bytes e (drop 4 r)) _
            (from_big_endian_bytes-Settles e (drop 4 r)) (λ b q h. cc))

  with_mask-Settles : (r : Bytes) → Settles (process_ip_address_with_mask e d values r)
  unfolding process_ip_address_with_mask
  with_mask-Settles r =
      >>=-Settles (from_big_endian_bytes e (take 4 r)) _
        (from_big_endian_bytes-Settles e (take 4 r))
        (λ a p.
          >>=-Settles (mask_from_big_endian_bytes e (drop 4 r)) _
            (mask_from_big_endian_bytes-Settles e (drop 4 r)) (λ b q h. cc))

  process_flag-Settles : (b : ℕ) → Settles (process_flag e d values b)
  unfolding process_flag
  process_flag-Settles b = λ h. cc

  process_string-Settles : (r : Bytes) → Settles (process_string e d values r)
  unfolding process_string
  process_string-Settles r = λ h. cc

  process_vendor_specific_field-Settles :
      (r : Bytes) → Settles (process_vendor_specific_field e d values r)
  unfolding process_vendor_specific_field
  process_vendor_specific_field-Settles r = λ h. cc

  process_element-Settles :
      (iter end : Bytes) (t : DhcpOptionPayloadType) (size : ℕ)
      → Settles (process_element e d iter end values t size)
  unfolding process_element process_ip_address process_subnet_mask process_uint8 process_uint16
      process_uint32 process_int32 process_uint_enum
  process_element-Settles iter end ip_address size = ranged-Settles iter end size _ (λ r.
      >>=-Settles (from_big_endian_bytes e r) _ (from_big_endian_bytes-Settles e r) (λ a p h. cc))
  process_element-Settles iter end subnet_mask size = ranged-Settles iter end size _ (λ r.
      >>=-Settles (mask_from_big_endian_bytes e r) _ (mask_from_big_endian_bytes-Settles e r)
        (λ a p h. cc))
  process_element-Settles iter end ip_address_with_subnet_mask size =
      ranged-Settles iter end size _ with_mask-Settles
  process_element-Settles iter end two_ip_addresses size =
      ranged-Settles iter end size _ two-Settles
  process_element-Settles iter end uint_8 size =
      single-Settles iter end _ (λ b. correct_uint-Settles b _)
  process_element-Settles iter end uint_16 size = ranged-Settles iter end size _ (λ r.
      >>=-Settles (network_to_host_endian e 2 r) _ (network_to_host_endian-Settles e 2 r)
        (λ v p. correct_uint-Settles v _))
  process_element-Settles iter end uint_32 size = ranged-Settles iter end size _ (λ r.
      >>=-Settles (network_to_host_endian e 4 r) _ (network_to_host_endian-Settles e 4 r)
        (λ v p. correct_uint-Settles v _))
  process_element-Settles iter end int_32 size = ranged-Settles iter end size _ (λ r.
      >>=-Settles (network_to_host_endian e 4 r) _ (network_to_host_endian-Settles e 4 r)
        (λ v p. correct_int-Settles v _))
  process_element-Settles iter end flag size = single-Settles iter end _ process_flag-Settles
  process_element-Settles iter end DhcpOptionPayloadType.uint_enum size =
      single-Settles iter end _ (λ b. correct_uint-Settles b _)
  process_element-Settles iter end vendor_specific_field size =
      whole-Settles iter end _ process_vendor_specific_field-Settles
  process_element-Settles iter end byte_array size =
      whole-Settles iter end _ process_byte_array-Settles
  process_element-Settles iter end string size = whole-Settles iter end _ process_string-Settles
  process_element-Settles iter end DhcpOptionPayloadType.none size = λ h. cc

-- A round that goes on leaves less of the vector.
next_round :
    (fuel : ℕ) (e : Endianness) (d : DhcpOptionDescription) (iter end : Bytes)
    (values : List FieldValue)
    → length iter < suc fuel
    → ((next : Bytes) (values' : List FieldValue)
        → length next < fuel
        → Settles (process_elements fuel e d next end values'))
    → (round : Round) → round_at e d values d.payload_description.type iter end ≡ ok round
    → Settles (elim round [
      | return values' ↦ ok values'
      | go_on next values' ↦ process_elements fuel e d next end values'
    ])
next_round fuel e d iter end values lt k (return values') p = λ h. cc
next_round fuel e d iter end values lt k (go_on next values') p =
    let (s, _) = go_on-Stepped e d values d.payload_description.type iter end p in
    k next values' (omega (arith, ap length s.before, length-append s.range next))

process_elements-Settles :
    (fuel : ℕ) (e : Endianness) (d : DhcpOptionDescription) (iter end : Bytes)
    (values : List FieldValue)
    → length iter < fuel
    → Settles (process_elements fuel e d iter end values)
unfolding process_elements
process_elements-Settles zero e d iter end values lt = absurd (omega arith)
process_elements-Settles (suc fuel) e d iter end values lt =
    elim (Bool-cases (length iter == length end)) [
      | inl t ↦ rw t (λ h. cc)
      | inr t ↦ rw t (
          >>=-Settles (round_at e d values d.payload_description.type iter end) _
            (process_element-Settles e d values iter end d.payload_description.type _)
            (next_round fuel e d iter end values lt
              (λ next values' less. process_elements-Settles fuel e d next end values' less)))
    ]

length_mismatch-other : length_mismatch ≢ out_of_fuel
length_mismatch-other = λ h. cc

empty_value-other : empty_value ≢ out_of_fuel
empty_value-other = λ h. cc

-- The constructor of an option never loops for longer than the model lets it.
pub make_option-Settles :
    (e : Endianness) (code : ℕ) (len : ℤ) (begin end : Bytes)
    → Settles (make_option e code len begin end)
unfolding make_option description_at
make_option-Settles e code len begin end = λ h.
    let (d, p, f) =
      bind_out (description_at code) _ h (find_in-Settles options_descriptions code) in
    let g = throw_out _ length_mismatch _ length_mismatch-other f in
    let k = throw_out _ empty_value _ empty_value-other g in
    let (vs, s, l) =
      bind_out (process_elements (suc (length begin)) e d begin end []) _ k
        (process_elements-Settles (suc (length begin)) e d begin end [] (omega arith)) in
    ok-Settles _ l
