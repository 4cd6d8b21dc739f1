-- ===== src/DhcpOption/Steps.antt =====
-- The rounds of the option constructor's loop: how far a round steps, and that it reads nothing
-- behind the payload.
use klevret_english_ver.Base.{
  ℕ, zero, suc, ◌-◌, ◌<◌, ◌≡◌, refl, sym, ap, ◌∙◌, Bool, true, false, List, [], ◌∷◌, ◌++◌,
  append-nil, Bytes, length, length-append, take-append, Result, ok, err, >>=-eq-ok, arith,
  not_in_list,
}
use klevret_english_ver.Base.Int.{pos_part}
use klevret_english_ver.Endian.{Endianness}
use klevret_english_ver.DhcpOption.Description.{
  vendor_specific_field, byte_array, string, ip_address, subnet_mask, ip_address_with_subnet_mask,
  two_ip_addresses, uint_8, uint_16, uint_32, int_32, flag, DhcpOptionPayloadType,
  DhcpOptionDescription, get_one_element_payload_length_in_bytes,
}
use klevret_english_ver.DhcpOption.Codec.{
  FieldValue, split_range, read_byte, between, Round, go_on, return, process_element,
  process_vendor_specific_field, process_byte_array, process_string, process_ip_address,
  process_subnet_mask, process_ip_address_with_mask, process_two_ip_addresses, process_uint8,
  process_uint16, process_uint32, process_int32, process_flag, process_uint_enum, ranged, single,
  whole,
}

pub split_range_lem :
    (n : ℕ) (iter : Bytes) {range next : Bytes}
    → split_range n iter ≡ ok (range, next)
    → (iter ≡ range ++ next) × (length range ≡ n)
unfolding split_range
split_range_lem zero iter h = ground arith
split_range_lem (suc n) [] h = cc
split_range_lem (suc n) (b ∷ iter) {range} {next} h =
    let ((r, m), e, f) = >>=-eq-ok (split_range n iter) _ h in
    let (p, q) = split_range_lem n iter e in ground arith

pub split_range-append :
    (n : ℕ) (iter rest : Bytes) {range next : Bytes}
    → split_range n iter ≡ ok (range, next)
    → split_range n (iter ++ rest) ≡ ok (range, next ++ rest)
unfolding split_range
split_range-append zero iter rest h = ground arith
split_range-append (suc n) [] rest h = cc
split_range-append (suc n) (b ∷ iter) rest {range} {next} h =
    let ((r, m), e, f) = >>=-eq-ok (split_range n iter) _ h in
    rw (split_range-append n iter rest e) (ground arith)

pub read_byte-append :
    (iter rest : Bytes) {b : ℕ} {next : Bytes}
    → read_byte iter ≡ ok (b, next)
    → read_byte (iter ++ rest) ≡ ok (b, next ++ rest)
read_byte-append [] rest h = cc
read_byte-append (c ∷ iter) rest h = ground arith

-- The round on a vector with `rest` behind it.
abbrev pub longer : Bytes → Round → Round
longer rest (go_on next values) = go_on (next ++ rest) values
longer rest (return values) = return values

pub between-append : (p end : Bytes) → between (p ++ end) end ≡ p
between-append p end =
    let e : length (p ++ end) - length end ≡ length p = omega (arith, length-append p end) in
    rw e (take-append p end)

-- The types whose value is all of the payload, and end the loop.
abbrev pub is_whole : DhcpOptionPayloadType → Bool
is_whole vendor_specific_field = true
is_whole byte_array = true
is_whole string = true
is_whole _ = false

-- A round at the type `t`, on any iterators.
abbrev pub round_at :
    Endianness
    → DhcpOptionDescription
    → List FieldValue
    → DhcpOptionPayloadType
    → Bytes
    → Bytes
    → Result Round
round_at e d values t iter end =
    process_element e d iter end values t (pos_part (get_one_element_payload_length_in_bytes t))

-- The four kinds of rounds. What a round does with the bytes that it has read does not depend on
-- the iterators.
pub data Shape (e : Endianness) (d : DhcpOptionDescription) (values : List FieldValue)
    (t : DhcpOptionPayloadType) : Type 0 where
  ranges :
      (size : ℕ) (process : Bytes → Result (List FieldValue))
      → 0 < size
      → is_whole t ≡ false
      → ((iter end : Bytes)
          → round_at e d values t iter end ≡ ranged e d iter end values size process)
      → Shape e d values t
  singles :
      (process : ℕ → Result (List FieldValue))
      → is_whole t ≡ false
      → ((iter end : Bytes) → round_at e d values t iter end ≡ single e d iter end values process)
      → Shape e d values t
  wholes :
      (process : Bytes → Result (List FieldValue))
      → is_whole t ≡ true
      → ((iter end : Bytes) → round_at e d values t iter end ≡ whole e d iter end values process)
      → Shape e d values t
  nothing :
      is_whole t ≡ false
      → ((iter end : Bytes) → round_at e d values t iter end ≡ err not_in_list)
      → Shape e d values t

module _ (e : Endianness) (d : DhcpOptionDescription) (values : List FieldValue) where
  pub shape : (t : DhcpOptionPayloadType) → Shape e d values t
  unfolding process_element
  shape ip_address = ranges 4 (process_ip_address e d values) (omega arith) refl (λ i n. refl)
  shape subnet_mask = ranges 4 (process_subnet_mask e d values) (omega arith) refl (λ i n. refl)
  shape ip_address_with_subnet_mask =
      ranges 8 (process_ip_address_with_mask e d values) (omega arith) refl (λ i n. refl)
  shape two_ip_addresses =
      ranges 8 (process_two_ip_addresses e d values) (omega arith) refl (λ i n. refl)
  shape uint_8 = singles (process_uint8 e d values) refl (λ i n. refl)
  shape uint_16 = ranges 2 (process_uint16 e d values) (omega arith) refl (λ i n. refl)
  shape uint_32 = ranges 4 (process_uint32 e d values) (omega arith) refl (λ i n. refl)
  shape int_32 = ranges 4 (process_int32 e d values) (omega arith) refl (λ i n. refl)
  shape flag = singles (process_flag e d values) refl (λ i n. refl)
  shape DhcpOptionPayloadType.uint_enum = singles (process_uint_enum e d values) refl (λ i n. refl)
  shape vendor_specific_field = wholes (process_vendor_specific_field e d values) refl (λ i n. refl)
  shape byte_array = wholes (process_byte_array e d values) refl (λ i n. refl)
  shape string = wholes (process_string e d values) refl (λ i n. refl)
  shape DhcpOptionPayloadType.none = nothing refl (λ i n. refl)

  -- A round that goes on has read a range in front of the iterator that it goes on from.
  pub record Stepped (iter next : Bytes) : Type 0 where
    pub range : Bytes
    pub before : iter ≡ range ++ next
    pub some_bytes : 0 < length range

  module _ (t : DhcpOptionPayloadType) (iter end : Bytes) where
    pub go_on-Stepped :
        {next : Bytes} {values' : List FieldValue}
        → round_at e d values t iter end ≡ ok (go_on next values')
        → Stepped iter next × (is_whole t ≡ false)
    go_on-Stepped {next} {values'} h = by (shape t)
      where
        by : Shape e d values t → Stepped iter next × (is_whole t ≡ false)
        by (ranges size process pos w same) =
            let ((r, m), p, f) = >>=-eq-ok (split_range size iter) _ (sym (same iter end) ∙ h) in
            let (v, q, g) = >>=-eq-ok (process r) _ f in
            let (a, b) = split_range_lem size iter p in
            (record { range = r; before = ground arith; some_bytes = omega arith }, w)
        by (singles process w same) =
            let ((b, m), p, f) = >>=-eq-ok (read_byte iter) _ (sym (same iter end) ∙ h) in
            let (v, q, g) = >>=-eq-ok (process b) _ f in
            (record { range = b ∷ []; before = ground arith; some_bytes = omega arith }, w)
        by (wholes process w same) =
            let (v, p, f) = >>=-eq-ok (process (between iter end)) _ (sym (same iter end) ∙ h) in
            absurd (ground arith)
        by (nothing w same) = absurd (ground (arith, same iter end))

    pub return_is_whole :
        {values' : List FieldValue}
        → round_at e d values t iter end ≡ ok (return values')
        → is_whole t ≡ true
    return_is_whole {values'} h = by (shape t)
      where
        by : Shape e d values t → is_whole t ≡ true
        by (ranges size process pos w same) =
            let ((r, m), p, f) = >>=-eq-ok (split_range size iter) _ (sym (same iter end) ∙ h) in
            let (v, q, g) = >>=-eq-ok (process r) _ f in absurd (ground arith)
        by (singles process w same) =
            let ((b, m), p, f) = >>=-eq-ok (read_byte iter) _ (sym (same iter end) ∙ h) in
            let (v, q, g) = >>=-eq-ok (process b) _ f in absurd (ground arith)
        by (wholes process w same) = w
        by (nothing w same) = absurd (ground (arith, same iter end))

    -- More bytes behind the payload change nothing but the iterator that is passed on.
    pub round_at-append :
        (rest : Bytes) {round : Round}
        → round_at e d values t iter [] ≡ ok round
        → round_at e d values t (iter ++ rest) rest ≡ ok (longer rest round)
    round_at-append rest {round} h = by (shape t)
      where
        by : Shape e d values t → round_at e d values t (iter ++ rest) rest ≡ ok (longer rest round)
        by (ranges size process pos w same) =
            let ((r, m), p, f) = >>=-eq-ok (split_range size iter) _ (sym (same iter []) ∙ h) in
            let (v, q, g) = >>=-eq-ok (process r) _ f in
            rw (same (iter ++ rest) rest, split_range-append size iter rest p, q) (ground arith)
        by (singles process w same) =
            let ((b, m), p, f) = >>=-eq-ok (read_byte iter) _ (sym (same iter []) ∙ h) in
            let (v, q, g) = >>=-eq-ok (process b) _ f in
            rw (same (iter ++ rest) rest, read_byte-append iter rest p, q) (ground arith)
        by (wholes process w same) =
            let whole_again : between iter [] ≡ iter =
              ap (λ (x : Bytes). between x []) (sym (append-nil iter)) ∙ between-append iter [] in
            let (v, p, f) = >>=-eq-ok (process (between iter [])) _ (sym (same iter []) ∙ h) in
            rw (same (iter ++ rest) rest, between-append iter rest, sym whole_again, p)
              (ground arith)
        by (nothing w same) = absurd (ground (arith, same iter []))
