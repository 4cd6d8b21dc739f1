-- ===== src/DhcpOption/Values.antt =====
-- What each `process_…` member of dhcp/src/DhcpOption.cpp appends, and the bytes it is written as.
use klevret_english_ver.Base.{
  ℕ, zero, suc, ◌≤◌, ◌≡◌, refl, ap, ◌∙◌, Bool, true, false, List, [], ◌∷◌, ◌++◌, Bytes, IsBytes,
  All-take, All-drop, length, length-drop, length-take, take, drop, take-append-drop, ok, >>=-eq-ok,
  arith,
}
use klevret_english_ver.Endian.{Endianness, little, big}
use klevret_english_ver.Endian.Laws.{
  network_to_host_endian_lem, to_be_bytes-of_be_bytes, of_be_bytes,
}
use klevret_english_ver.IpAddress.Network.{
  IsQuad, from_big_endian_bytes_full, mask_from_big_endian_bytes_full, to_network_data_lem,
  mask_to_network_data_lem,
}
use klevret_english_ver.DhcpOption.Description.{
  uint_16, uint_32, int_32, flag, DhcpOptionPayloadType, DhcpOptionDescription, is_correct_uint,
  is_correct_int,
}
use klevret_english_ver.DhcpOption.Codec.{
  FieldValue, address, mask, address_and_mask, two_addresses, uint8, uint16, uint32, int32,
  process_ip_address, process_subnet_mask, process_ip_address_with_mask, process_two_ip_addresses,
  process_uint8, process_uint16, process_uint32, process_int32, process_uint_enum,
  value_to_network_data,
}

-- The types whose values are written as they were read.
abbrev pub is_transparent : Endianness → DhcpOptionPayloadType → Bool
is_transparent e flag = false
is_transparent little uint_16 = false
is_transparent little uint_32 = false
is_transparent little int_32 = false
is_transparent e _ = true

-- One value is appended, and it is written as `range`.
pub record Appends (e : Endianness) (values : List FieldValue) (range : Bytes)
    (values' : List FieldValue) : Type 0 where
  pub value : FieldValue
  pub appended : values' ≡ values ++ value ∷ []
  pub written : value_to_network_data e value ≡ ok range

take_everything : (range : Bytes) (n : ℕ) → length range ≡ n → take n range ≡ range
take_everything [] zero h = refl
take_everything [] (suc n) h = refl
take_everything (b ∷ range) zero h = absurd (omega arith)
take_everything (b ∷ range) (suc n) h = ap (◌∷◌ b) (take_everything range n (omega arith))

front-IsQuad : (range : Bytes) → 4 ≤ length range → IsBytes range → IsQuad (take 4 range)
front-IsQuad range h v = record {
  four = omega (arith, length-take 4 range);
  bytes = All-take _ 4 range v;
}

back-IsQuad : (range : Bytes) → length range ≡ 8 → IsBytes range → IsQuad (take 4 (drop 4 range))
back-IsQuad range h v =
    front-IsQuad (drop 4 range) (omega (arith, length-drop 4 range)) (All-drop _ 4 range v)

halves : (range : Bytes) → length range ≡ 8 → take 4 (take 4 range) ++ take 4 (drop 4 range) ≡ range
halves range n =
    rw
      (
        take_everything (take 4 range) 4 (omega (arith, length-take 4 range)),
        take_everything (drop 4 range) 4 (omega (arith, length-drop 4 range)),
      )
      (take-append-drop 4 range)

module _ (e : Endianness) (d : DhcpOptionDescription) (values : List FieldValue) (range : Bytes)
    {values' : List FieldValue} where
  pub process_ip_address-Appends :
      length range ≡ 4
      → IsBytes range
      → process_ip_address e d values range ≡ ok values'
      → Appends e values range values'
  unfolding process_ip_address value_to_network_data
  process_ip_address-Appends n v h = record {
    value = address (record { octets = take 4 range });
    appended = ground (arith, from_big_endian_bytes_full e range (omega arith));
    written = ap ok (
        to_network_data_lem (record { octets = take 4 range }) (front-IsQuad range (omega arith) v)
        ∙ take_everything range 4 n);
  }

  pub process_subnet_mask-Appends :
      length range ≡ 4
      → IsBytes range
      → process_subnet_mask e d values range ≡ ok values'
      → Appends e values range values'
  unfolding process_subnet_mask value_to_network_data
  process_subnet_mask-Appends n v h = record {
    value = mask (record { octets = take 4 range });
    appended = ground (arith, mask_from_big_endian_bytes_full e range (omega arith));
    written = ap ok (
        mask_to_network_data_lem (record { octets = take 4 range })
          (front-IsQuad range (omega arith) v)
        ∙ take_everything range 4 n);
  }

  pub process_two_ip_addresses-Appends :
      length range ≡ 8
      → IsBytes range
      → process_two_ip_addresses e d values range ≡ ok values'
      → Appends e values range values'
  unfolding process_two_ip_addresses value_to_network_data
  process_two_ip_addresses-Appends n v h = record {
    value =
        two_addresses (record { octets = take 4 (take 4 range) })
          (record { octets = take 4 (drop 4 range) });
    appended = ground (
      arith,
      from_big_endian_bytes_full e (take 4 range) (omega (arith, length-take 4 range)),
      from_big_endian_bytes_full e (drop 4 range) (omega (arith, length-drop 4 range)),
    );
    written =
        rw
          (
            to_network_data_lem (record { octets = take 4 (take 4 range) })
                (front-IsQuad (take 4 range) (omega (arith, length-take 4 range))
                  (All-take _ 4 range v)),
            to_network_data_lem (record { octets = take 4 (drop 4 range) }) (back-IsQuad range n v),
          )
          (ap ok (halves range n));
  }

  pub process_ip_address_with_mask-Appends :
      length range ≡ 8
      → IsBytes range
      → process_ip_address_with_mask e d values range ≡ ok values'
      → Appends e values range values'
  unfolding process_ip_address_with_mask value_to_network_data
  process_ip_address_with_mask-Appends n v h = record {
    value =
        address_and_mask (record { octets = take 4 (take 4 range) })
          (record { octets = take 4 (drop 4 range) });
    appended = ground (
      arith,
      from_big_endian_bytes_full e (take 4 range) (omega (arith, length-take 4 range)),
      mask_from_big_endian_bytes_full e (drop 4 range) (omega (arith, length-drop 4 range)),
    );
    written =
        rw
          (
            to_network_data_lem (record { octets = take 4 (take 4 range) })
                (front-IsQuad (take 4 range) (omega (arith, length-take 4 range))
                  (All-take _ 4 range v)),
            mask_to_network_data_lem (record { octets = take 4 (drop 4 range) })
                (back-IsQuad range n v),
          )
          (ap ok (halves range n));
  }

  -- An integer is appended as the number in network order; its bytes are written in host order.
  pub process_uint32_value :
      length range ≡ 4
      → IsBytes range
      → process_uint32 e d values range ≡ ok values'
      → values' ≡ values ++ uint32 (of_be_bytes range) ∷ []
  unfolding process_uint32
  process_uint32_value n v h =
      let (r, p, f) =
        >>=-eq-ok (is_correct_uint d.payload_description (of_be_bytes range)) _
          (rw (network_to_host_endian_lem e 4 range n v) at h) in
      ground arith

  pub process_int32_value :
      length range ≡ 4
      → IsBytes range
      → process_int32 e d values range ≡ ok values'
      → values' ≡ values ++ int32 (of_be_bytes range) ∷ []
  unfolding process_int32
  process_int32_value n v h =
      let (r, p, f) =
        >>=-eq-ok (is_correct_int d.payload_description (of_be_bytes range)) _
          (rw (network_to_host_endian_lem e 4 range n v) at h) in
      ground arith

  pub process_uint16_value :
      length range ≡ 2
      → IsBytes range
      → process_uint16 e d values range ≡ ok values'
      → values' ≡ values ++ uint16 (of_be_bytes range) ∷ []
  unfolding process_uint16
  process_uint16_value n v h =
      let (r, p, f) =
        >>=-eq-ok (is_correct_uint d.payload_description (of_be_bytes range)) _
          (rw (network_to_host_endian_lem e 2 range n v) at h) in
      ground arith

pub process_uint8-Appends :
    (e : Endianness) (d : DhcpOptionDescription) (values : List FieldValue) (b : ℕ)
    {values' : List FieldValue}
    → process_uint8 e d values b ≡ ok values'
    → Appends e values (b ∷ []) values'
unfolding process_uint8 value_to_network_data
process_uint8-Appends e d values b h =
    let (r, p, f) = >>=-eq-ok (is_correct_uint d.payload_description b) _ h in
    record { value = uint8 b; appended = ground arith; written = refl }

pub process_uint_enum-Appends :
    (e : Endianness) (d : DhcpOptionDescription) (values : List FieldValue) (b : ℕ)
    {values' : List FieldValue}
    → process_uint_enum e d values b ≡ ok values'
    → Appends e values (b ∷ []) values'
unfolding process_uint_enum value_to_network_data
process_uint_enum-Appends e d values b h =
    let (r, p, f) = >>=-eq-ok (is_correct_uint d.payload_description b) _ h in
    record { value = uint8 b; appended = ground arith; written = refl }

-- On a big-endian host the integers are written as they were read.
module _ (d : DhcpOptionDescription) (values : List FieldValue) (range : Bytes)
    {values' : List FieldValue} (v : IsBytes range) where
  pub big_uint32-Appends :
      length range ≡ 4
      → process_uint32 big d values range ≡ ok values'
      → Appends big values range values'
  unfolding value_to_network_data
  big_uint32-Appends n h = record {
    value = uint32 (of_be_bytes range);
    appended = process_uint32_value big d values range n v h;
    written = ap ok (to_be_bytes-of_be_bytes 4 range n v);
  }

  pub big_int32-Appends :
      length range ≡ 4
      → process_int32 big d values range ≡ ok values'
      → Appends big values range values'
  unfolding value_to_network_data
  big_int32-Appends n h = record {
    value = int32 (of_be_bytes range);
    appended = process_int32_value big d values range n v h;
    written = ap ok (to_be_bytes-of_be_bytes 4 range n v);
  }

  pub big_uint16-Appends :
      length range ≡ 2
      → process_uint16 big d values range ≡ ok values'
      → Appends big values range values'
  unfolding value_to_network_data
  big_uint16-Appends n h = record {
    value = uint16 (of_be_bytes range);
    appended = process_uint16_value big d values range n v h;
    written = ap ok (to_be_bytes-of_be_bytes 2 range n v);
  }
