-- ===== src/DhcpOption/Written.antt =====
-- What a round over the payload of an option appends, and what that is written as.
use klevret_english_ver.Base.{
  ℕ, ◌≡◌, refl, true, false, List, [], ◌∷◌, ◌++◌, Bytes, IsBytes, length, Result, ok, >>=-eq-ok,
  arith,
}
use klevret_english_ver.Endian.{Endianness, little, big}
use klevret_english_ver.DhcpOption.Description.{
  vendor_specific_field, byte_array, string, ip_address, subnet_mask, ip_address_with_subnet_mask,
  two_ip_addresses, uint_8, uint_16, uint_32, int_32, flag, DhcpOptionPayloadType,
  DhcpOptionDescription,
}
use klevret_english_ver.DhcpOption.Codec.{
  FieldValue, byte_vector, byte_string, split_range, read_byte, between, go_on, return,
  process_element, process_ip_address, process_subnet_mask, process_ip_address_with_mask,
  process_two_ip_addresses, process_uint8, process_uint16, process_uint32, process_int32,
  process_uint_enum, ranged, single, value_to_network_data,
}
use klevret_english_ver.DhcpOption.Steps.{split_range_lem, round_at, is_whole}
use klevret_english_ver.DhcpOption.Values.{
  is_transparent, Appends, process_ip_address-Appends, process_subnet_mask-Appends,
  process_two_ip_addresses-Appends, process_ip_address_with_mask-Appends, process_uint8-Appends,
  process_uint_enum-Appends, big_uint32-Appends, big_int32-Appends, big_uint16-Appends,
}

front-IsBytes : (r next : Bytes) → IsBytes (r ++ next) → IsBytes r
front-IsBytes [] next v = tt
front-IsBytes (b ∷ r) next (lt, v) = (lt, front-IsBytes r next v)

-- What a round did that went on from `next`.
pub record Wrote (e : Endianness) (values : List FieldValue) (iter next : Bytes)
    (values' : List FieldValue) : Type 0 where
  pub range : Bytes
  pub before : iter ≡ range ++ next
  pub appends : Appends e values range values'

module _ (e : Endianness) (d : DhcpOptionDescription) (values : List FieldValue)
    (iter end next : Bytes) {values' : List FieldValue} where
  ranged-Wrote :
      (size : ℕ) (process : Bytes → Result (List FieldValue))
      → ((r : Bytes)
          → length r ≡ size
          → IsBytes r
          → process r ≡ ok values'
          → Appends e values r values')
      → IsBytes iter
      → ranged e d iter end values size process ≡ ok (go_on next values')
      → Wrote e values iter next values'
  ranged-Wrote size process k v h =
      let ((r, m), p, f) = >>=-eq-ok (split_range size iter) _ h in
      let (w, q, g) = >>=-eq-ok (process r) _ f in
      let (a, b) = split_range_lem size iter p in
      let here : iter ≡ r ++ next = ground arith in
      let done : process r ≡ ok values' = ground arith in
      record {
        range = r;
        before = here;
        appends = k r b (front-IsBytes r next (rw here at v)) done;
      }

  single-Wrote :
      (process : ℕ → Result (List FieldValue))
      → ((b : ℕ) → process b ≡ ok values' → Appends e values (b ∷ []) values')
      → single e d iter end values process ≡ ok (go_on next values')
      → Wrote e values iter next values'
  single-Wrote process k h =
      let ((b, m), p, f) = >>=-eq-ok (read_byte iter) _ h in
      let (w, q, g) = >>=-eq-ok (process b) _ f in
      let done : process b ≡ ok values' = ground arith in
      record { range = b ∷ []; before = ground arith; appends = k b done }

-- A round at a type that is written as it was read.
pub round_at-Wrote :
    (e : Endianness) (d : DhcpOptionDescription) (values : List FieldValue)
    (t : DhcpOptionPayloadType) (iter end next : Bytes) {values' : List FieldValue}
    → is_transparent e t ≡ true
    → is_whole t ≡ false
    → IsBytes iter
    → round_at e d values t iter end ≡ ok (go_on next values')
    → Wrote e values iter next values'
unfolding process_element
round_at-Wrote e d values ip_address iter end next seen w v h =
    ranged-Wrote e d values iter end next 4 (process_ip_address e d values)
      (λ r n b k. process_ip_address-Appends e d values r n b k) v h
round_at-Wrote e d values subnet_mask iter end next seen w v h =
    ranged-Wrote e d values iter end next 4 (process_subnet_mask e d values)
      (λ r n b k. process_subnet_mask-Appends e d values r n b k) v h
round_at-Wrote e d values ip_address_with_subnet_mask iter end next seen w v h =
    ranged-Wrote e d values iter end next 8 (process_ip_address_with_mask e d values)
      (λ r n b k. process_ip_address_with_mask-Appends e d values r n b k) v h
round_at-Wrote e d values two_ip_addresses iter end next seen w v h =
    ranged-Wrote e d values iter end next 8 (process_two_ip_addresses e d values)
      (λ r n b k. process_two_ip_addresses-Appends e d values r n b k) v h
round_at-Wrote e d values uint_8 iter end next seen w v h =
    single-Wrote e d values iter end next (process_uint8 e d values)
      (λ b k. process_uint8-Appends e d values b k) h
round_at-Wrote big d values uint_16 iter end next seen w v h =
    ranged-Wrote big d values iter end next 2 (process_uint16 big d values)
      (λ r n b k. big_uint16-Appends d values r b n k) v h
round_at-Wrote big d values uint_32 iter end next seen w v h =
    ranged-Wrote big d values iter end next 4 (process_uint32 big d values)
      (λ r n b k. big_uint32-Appends d values r b n k) v h
round_at-Wrote big d values int_32 iter end next seen w v h =
    ranged-Wrote big d values iter end next 4 (process_int32 big d values)
      (λ r n b k. big_int32-Appends d values r b n k) v h
round_at-Wrote little d values uint_16 iter end next seen w v h = cc
round_at-Wrote little d values uint_32 iter end next seen w v h = cc
round_at-Wrote little d values int_32 iter end next seen w v h = cc
round_at-Wrote e d values flag iter end next seen w v h = cc
round_at-Wrote e d values DhcpOptionPayloadType.uint_enum iter end next seen w v h =
    single-Wrote e d values iter end next (process_uint_enum e d values)
      (λ b k. process_uint_enum-Appends e d values b k) h
round_at-Wrote e d values vendor_specific_field iter end next seen w v h = cc
round_at-Wrote e d values byte_array iter end next seen w v h = cc
round_at-Wrote e d values string iter end next seen w v h = cc
round_at-Wrote e d values DhcpOptionPayloadType.none iter end next seen w v h = cc

-- A round that ends the loop has appended all of the payload.
pub round_at-whole :
    (e : Endianness) (d : DhcpOptionDescription) (values : List FieldValue)
    (t : DhcpOptionPayloadType) (iter end : Bytes) {values' : List FieldValue}
    → is_whole t ≡ true
    → round_at e d values t iter end ≡ ok (return values')
    → Appends e values (between iter end) values'
unfolding process_element value_to_network_data
round_at-whole e d values vendor_specific_field iter end w h = record {
  value = byte_vector (between iter end);
  appended = ground arith;
  written = refl;
}
round_at-whole e d values byte_array iter end w h = record {
  value = byte_vector (between iter end);
  appended = ground arith;
  written = refl;
}
round_at-whole e d values string iter end w h = record {
  value = byte_string (between iter end);
  appended = ground arith;
  written = refl;
}
round_at-whole e d values _ iter end w h = cc
