-- ===== src/DhcpOption/Description.antt =====
-- The descriptions of the options' payloads, and the constraints on integers.
use klevret_english_ver.Base.{
  ℕ, Bool, true, false, not, ◌&&◌, ◌||◌, List, [], ◌∷◌, ◌==◌, Result, ok, type_mismatch, throw_if,
  ◌>>◌,
}
use klevret_english_ver.Base.Int.{ℤ, pos, negsuc, leb_ℤ, signed32}

pub data IntConstraintType : Type 0 where
  none : IntConstraintType
  range : IntConstraintType
  from_min : IntConstraintType
  uint_enum : IntConstraintType

-- `min` and `max` are `int64_t`; `allowed_values` are for the enumeration.
pub record IntConstraint : Type 0 where
  pub type : IntConstraintType
  pub min : ℤ
  pub max : ℤ
  pub allowed_values : List ℕ

abbrev pub no_constraint : IntConstraint
no_constraint = record {
  type = IntConstraintType.none;
  min = pos 0;
  max = pos 0;
  allowed_values = [];
}

pub data DhcpOptionPayloadType : Type 0 where
  none : DhcpOptionPayloadType
  vendor_specific_field : DhcpOptionPayloadType
  byte_array : DhcpOptionPayloadType
  string : DhcpOptionPayloadType
  ip_address : DhcpOptionPayloadType
  subnet_mask : DhcpOptionPayloadType
  ip_address_with_subnet_mask : DhcpOptionPayloadType
  two_ip_addresses : DhcpOptionPayloadType
  uint_8 : DhcpOptionPayloadType
  uint_16 : DhcpOptionPayloadType
  uint_32 : DhcpOptionPayloadType
  int_32 : DhcpOptionPayloadType
  flag : DhcpOptionPayloadType
  uint_enum : DhcpOptionPayloadType

pub record DhcpOptionPayloadDescription : Type 0 where
  pub type : DhcpOptionPayloadType
  pub is_list : Bool
  pub min_len_in_elements : ℕ
  pub int_constraint : IntConstraint

abbrev pub no_payload : DhcpOptionPayloadDescription
no_payload = record {
  type = DhcpOptionPayloadType.none;
  is_list = false;
  min_len_in_elements = 0;
  int_constraint = no_constraint;
}

-- `VARIABLE_DHCP_OPTION_LENGTH`
abbrev pub variable_dhcp_option_length : ℤ
variable_dhcp_option_length = negsuc 0

abbrev pub get_one_element_payload_length_in_bytes : DhcpOptionPayloadType → ℤ
get_one_element_payload_length_in_bytes byte_array = pos 1
get_one_element_payload_length_in_bytes flag = pos 1
get_one_element_payload_length_in_bytes int_32 = pos 4
get_one_element_payload_length_in_bytes ip_address = pos 4
get_one_element_payload_length_in_bytes ip_address_with_subnet_mask = pos 8
get_one_element_payload_length_in_bytes two_ip_addresses = pos 8
get_one_element_payload_length_in_bytes DhcpOptionPayloadType.none = pos 0
get_one_element_payload_length_in_bytes string = pos 1
get_one_element_payload_length_in_bytes subnet_mask = pos 4
get_one_element_payload_length_in_bytes uint_16 = pos 2
get_one_element_payload_length_in_bytes uint_32 = pos 4
get_one_element_payload_length_in_bytes uint_8 = pos 1
get_one_element_payload_length_in_bytes DhcpOptionPayloadType.uint_enum = pos 1
get_one_element_payload_length_in_bytes vendor_specific_field = variable_dhcp_option_length

-- The loops over `allowed_values`.
unfoldable pub is_allowed : List ℕ → ℕ → Bool
is_allowed [] value = false
is_allowed (allowed_value ∷ rest) value = (allowed_value == value) || is_allowed rest value

abbrev is_uint : DhcpOptionPayloadType → Bool
is_uint uint_32 = true
is_uint uint_16 = true
is_uint uint_8 = true
is_uint DhcpOptionPayloadType.uint_enum = true
is_uint _ = false

abbrev is_int : DhcpOptionPayloadType → Bool
is_int int_32 = true
is_int _ = false

-- The `switch` of `is_correct_uint`; `value` is a `uint32_t`.
unfoldable pub satisfies_uint : IntConstraintType → IntConstraint → ℕ → Bool
unfolding is_allowed
satisfies_uint IntConstraintType.none c value = true
satisfies_uint from_min c value = leb_ℤ c.min (pos value)
satisfies_uint range c value = leb_ℤ c.min (pos value) && leb_ℤ (pos value) c.max
satisfies_uint IntConstraintType.uint_enum c value = is_allowed c.allowed_values value

unfoldable pub is_correct_uint : DhcpOptionPayloadDescription → ℕ → Result Bool
unfolding satisfies_uint
is_correct_uint d value = do
  throw_if (not (is_uint d.type)) type_mismatch
  ok (satisfies_uint d.int_constraint.type d.int_constraint value)

-- The `switch` of `is_correct_int`; `value` is the bit pattern of an `int32_t`, and the cast to
-- `unsigned int` leaves it as it is.
unfoldable pub satisfies_int : IntConstraintType → IntConstraint → ℕ → Bool
unfolding is_allowed
satisfies_int IntConstraintType.none c value = true
satisfies_int from_min c value = leb_ℤ c.min (signed32 value)
satisfies_int range c value = leb_ℤ c.min (signed32 value) && leb_ℤ (signed32 value) c.max
satisfies_int IntConstraintType.uint_enum c value = is_allowed c.allowed_values value

unfoldable pub is_correct_int : DhcpOptionPayloadDescription → ℕ → Result Bool
unfolding satisfies_int
is_correct_int d value = do
  throw_if (not (is_int d.type)) type_mismatch
  ok (satisfies_int d.int_constraint.type d.int_constraint value)

-- A default-constructed description, as in a default-constructed option, has code and length 0 and
-- no payload.
pub record DhcpOptionDescription : Type 0 where
  pub code : ℕ
  pub payload_length : ℤ
  pub payload_description : DhcpOptionPayloadDescription
