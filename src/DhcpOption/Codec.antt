-- ===== src/DhcpOption/Codec.antt =====
-- Reading an option from its payload, and writing it.
--
-- An iterator is what lies between it and the end of its vector: `*it` is the head, `++it` the tail,
-- and two iterators into one vector are equal when equally much lies behind them. Reading at the end
-- and stepping past the end are undefined behaviour.
use klevret_english_ver.Base.{
  ℕ, zero, suc, ◌-◌, ◌%◌, Bool, true, false, not, ◌&&◌, List, [], ◌∷◌, ◌++◌, Bytes, length, take,
  drop, ltb, ◌==◌, if◌then◌else◌, Result, ok, err, length_mismatch, empty_value,
  constraint_violated, too_short, not_in_list, undefined, out_of_fuel, throw_if, ◌>>=◌, ◌>>◌,
}
use klevret_english_ver.Base.Int.{ℤ, pos, eq_ℤ, pos_part, to_uint8}
use klevret_english_ver.Endian.{Endianness, bit_cast_array, network_to_host_endian}
use klevret_english_ver.IpAddress.{IPv4Address, from_big_endian_bytes, to_network_data}
use klevret_english_ver.IpAddress.Mask.{
  IPv4SubnetMask, mask_from_big_endian_bytes, mask_to_network_data,
}
use klevret_english_ver.DhcpOption.Description.{
  vendor_specific_field, byte_array, string, ip_address, subnet_mask, ip_address_with_subnet_mask,
  two_ip_addresses, uint_8, uint_16, uint_32, int_32, flag, DhcpOptionPayloadType,
  DhcpOptionDescription, variable_dhcp_option_length, get_one_element_payload_length_in_bytes,
  is_correct_uint, is_correct_int,
}
use klevret_english_ver.DhcpOption.Table.{description_at}

-- `dhcp_option_field_real_value_t`; an `int32_t` is its bit pattern.
pub data FieldValue : Type 0 where
  int32 : ℕ → FieldValue
  uint32 : ℕ → FieldValue
  uint16 : ℕ → FieldValue
  uint8 : ℕ → FieldValue
  byte_vector : Bytes → FieldValue
  byte_string : Bytes → FieldValue
  address : IPv4Address → FieldValue
  mask : IPv4SubnetMask → FieldValue
  address_and_mask : IPv4Address → IPv4SubnetMask → FieldValue
  two_addresses : IPv4Address → IPv4Address → FieldValue
  boolean : Bool → FieldValue

pub record DhcpOption : Type 0 where
  pub real_payload_length : ℤ
  pub description : DhcpOptionDescription
  pub real_values : List FieldValue

-- The range from `iter` to `iter + n`, and `iter + n`.
unfoldable pub split_range : ℕ → Bytes → Result (Bytes × Bytes)
split_range zero iter = ok ([], iter)
split_range (suc n) [] = err undefined
split_range (suc n) (b ∷ iter) = do (range, next) ← split_range n iter; ok (b ∷ range, next)

-- `*iter` and `++iter`
abbrev pub read_byte : Bytes → Result (ℕ × Bytes)
read_byte [] = err undefined
read_byte (b ∷ iter) = ok (b, iter)

-- The range between two iterators, of which `end` is not before `begin`.
abbrev pub between : Bytes → Bytes → Bytes
between begin end = take (length begin - length end) begin

abbrev pub Values : Type 0
Values = List FieldValue

-- The `process_…` members: each appends to `real_values`.
module _ (e : Endianness) (d : DhcpOptionDescription) (values : Values) where
  unfoldable pub process_vendor_specific_field : Bytes → Result Values
  process_vendor_specific_field range = ok (values ++ byte_vector range ∷ [])

  unfoldable pub process_byte_array : Bytes → Result Values
  process_byte_array range = do
    throw_if
        (eq_ℤ d.payload_length variable_dhcp_option_length
          && ltb (length range) d.payload_description.min_len_in_elements)
        too_short
    throw_if
        (not (eq_ℤ d.payload_length variable_dhcp_option_length)
          && not (eq_ℤ d.payload_length (pos (length range))))
        length_mismatch
    ok (values ++ byte_vector range ∷ [])

  unfoldable pub process_string : Bytes → Result Values
  process_string range = ok (values ++ byte_string range ∷ [])

  unfoldable pub process_ip_address : Bytes → Result Values
  process_ip_address range = do
    value ← from_big_endian_bytes e range
    ok (values ++ address value ∷ [])

  unfoldable pub process_subnet_mask : Bytes → Result Values
  process_subnet_mask range = do m ← mask_from_big_endian_bytes e range; ok (values ++ mask m ∷ [])

  unfoldable pub process_ip_address_with_mask : Bytes → Result Values
  process_ip_address_with_mask range = do
    ip ← from_big_endian_bytes e (take 4 range)
    m ← mask_from_big_endian_bytes e (drop 4 range)
    ok (values ++ address_and_mask ip m ∷ [])

  unfoldable pub process_two_ip_addresses : Bytes → Result Values
  process_two_ip_addresses range = do
    ip1 ← from_big_endian_bytes e (take 4 range)
    ip2 ← from_big_endian_bytes e (drop 4 range)
    ok (values ++ two_addresses ip1 ip2 ∷ [])

  unfoldable pub process_uint8 : ℕ → Result Values
  process_uint8 value = do
    correct ← is_correct_uint d.payload_description value
    throw_if (not correct) constraint_violated
    ok (values ++ uint8 value ∷ [])

  unfoldable pub process_uint16 : Bytes → Result Values
  process_uint16 range = do
    value ← network_to_host_endian e 2 range
    correct ← is_correct_uint d.payload_description value
    throw_if (not correct) constraint_violated
    ok (values ++ uint16 value ∷ [])

  unfoldable pub process_uint32 : Bytes → Result Values
  process_uint32 range = do
    value ← network_to_host_endian e 4 range
    correct ← is_correct_uint d.payload_description value
    throw_if (not correct) constraint_violated
    ok (values ++ uint32 value ∷ [])

  unfoldable pub process_int32 : Bytes → Result Values
  process_int32 range = do
    value ← network_to_host_endian e 4 range
    correct ← is_correct_int d.payload_description value
    throw_if (not correct) constraint_violated
    ok (values ++ int32 value ∷ [])

  unfoldable pub process_flag : ℕ → Result Values
  process_flag value = ok (values ++ boolean (not (value == 0)) ∷ [])

  unfoldable pub process_uint_enum : ℕ → Result Values
  process_uint_enum value = do
    correct ← is_correct_uint d.payload_description value
    throw_if (not correct) constraint_violated
    ok (values ++ uint8 value ∷ [])

-- How a round of the constructor's loop ends: it goes on from an iterator, or the constructor returns.
pub data Round : Type 0 where
  go_on : Bytes → List FieldValue → Round
  return : List FieldValue → Round

module _ (e : Endianness) (d : DhcpOptionDescription) (iter end : Bytes) (values : Values) where
  -- A round on a range of `size` bytes, and one on a single byte.
  abbrev pub ranged : ℕ → (Bytes → Result Values) → Result Round
  ranged size process = do
    (range, next) ← split_range size iter
    values' ← process range
    ok (go_on next values')

  abbrev pub single : (ℕ → Result Values) → Result Round
  single process = do (byte, next) ← read_byte iter; values' ← process byte; ok (go_on next values')

  abbrev pub whole : (Bytes → Result Values) → Result Round
  whole process = do values' ← process (between iter end); ok (return values')

  unfoldable pub process_element : DhcpOptionPayloadType → ℕ → Result Round
  unfolding process_vendor_specific_field process_byte_array process_string process_ip_address
      process_subnet_mask process_ip_address_with_mask process_two_ip_addresses process_uint8
      process_uint16 process_uint32 process_int32 process_flag process_uint_enum
  process_element ip_address size = ranged size (process_ip_address e d values)
  process_element subnet_mask size = ranged size (process_subnet_mask e d values)
  process_element ip_address_with_subnet_mask size =
      ranged size (process_ip_address_with_mask e d values)
  process_element two_ip_addresses size = ranged size (process_two_ip_addresses e d values)
  process_element uint_8 size = single (process_uint8 e d values)
  process_element uint_16 size = ranged size (process_uint16 e d values)
  process_element uint_32 size = ranged size (process_uint32 e d values)
  process_element int_32 size = ranged size (process_int32 e d values)
  process_element flag size = single (process_flag e d values)
  process_element DhcpOptionPayloadType.uint_enum size = single (process_uint_enum e d values)
  process_element vendor_specific_field size = whole (process_vendor_specific_field e d values)
  process_element byte_array size = whole (process_byte_array e d values)
  process_element string size = whole (process_string e d values)
  process_element DhcpOptionPayloadType.none size = err not_in_list

-- The loop of the constructor. A round that goes on steps by at least one byte, so a round for each
-- byte and one more are enough.
unfoldable pub process_elements :
    ℕ
    → Endianness
    → DhcpOptionDescription
    → Bytes
    → Bytes
    → List FieldValue
    → Result (List FieldValue)
process_elements zero e d iter end values = err out_of_fuel
process_elements (suc fuel) e d iter end values =
    if length iter == length end
    then ok values
    else (process_element e d iter end values d.payload_description.type
          (pos_part (get_one_element_payload_length_in_bytes d.payload_description.type))
        >>= λ round. elim round [
          | return values' ↦ ok values'
          | go_on next values' ↦ process_elements fuel e d next end values'
        ])

abbrev pub is_none : DhcpOptionPayloadType → Bool
is_none DhcpOptionPayloadType.none = true
is_none _ = false

-- `DhcpOption(code, real_payload_length, payload_begin, payload_end)`
unfoldable pub make_option : Endianness → ℕ → ℤ → Bytes → Bytes → Result DhcpOption
make_option e code real_payload_length payload_begin payload_end = do
  d ← description_at code
  throw_if
      (not (eq_ℤ d.payload_length variable_dhcp_option_length)
        && not (eq_ℤ d.payload_length real_payload_length))
      length_mismatch
  throw_if (is_none d.payload_description.type) empty_value
  values ← process_elements (suc (length payload_begin)) e d payload_begin payload_end []
  ok (record {
    real_payload_length =
        if eq_ℤ d.payload_length variable_dhcp_option_length
        then real_payload_length
        else d.payload_length;
    description = d;
    real_values = values;
  })

-- `dhcp_option_field_real_value_to_network_data`. The integers are copied byte by byte from memory,
-- in the order of the host. A `bool` has no branch: the function ends with no `return`.
unfoldable pub value_to_network_data : Endianness → FieldValue → Result Bytes
value_to_network_data e (int32 v) = ok (bit_cast_array e 4 v)
value_to_network_data e (uint32 v) = ok (bit_cast_array e 4 v)
value_to_network_data e (uint16 v) = ok (bit_cast_array e 2 v)
value_to_network_data e (uint8 v) = ok (v ∷ [])
value_to_network_data e (byte_vector v) = ok v
value_to_network_data e (byte_string v) = ok v
value_to_network_data e (address ip) = ok (to_network_data ip)
value_to_network_data e (mask m) = ok (mask_to_network_data m)
value_to_network_data e (address_and_mask ip m) = ok (to_network_data ip ++ mask_to_network_data m)
value_to_network_data e (two_addresses ip1 ip2) = ok (to_network_data ip1 ++ to_network_data ip2)
value_to_network_data e (boolean b) = err undefined

-- The loop over `real_values`.
unfoldable pub values_to_network_data : Endianness → List FieldValue → Result Bytes
unfolding value_to_network_data
values_to_network_data e [] = ok []
values_to_network_data e (v ∷ vs) = do
  bytes ← value_to_network_data e v
  rest ← values_to_network_data e vs
  ok (bytes ++ rest)

-- `to_network_data`
unfoldable pub option_to_network_data : Endianness → DhcpOption → Result Bytes
option_to_network_data e o =
    if o.description.code == 0
    then ok (0 ∷ [])
    else if o.description.code == 255
    then ok (255 ∷ [])
    else (do
      bytes ← values_to_network_data e o.real_values
      ok (
          (o.description.code % 256)
          ∷ to_uint8 (
              if eq_ℤ o.description.payload_length variable_dhcp_option_length
              then o.real_payload_length
              else o.description.payload_length)
          ∷ bytes))
