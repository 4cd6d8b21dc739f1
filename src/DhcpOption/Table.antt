-- ===== src/DhcpOption/Table.antt =====
-- The table of the options that the server knows.
use klevret_english_ver.Base.{
  ℕ, Bool, true, false, List, [], ◌∷◌, ◌==◌, if◌then◌else◌, Result, ok, err, out_of_range,
}
use klevret_english_ver.Base.Int.{ℤ, pos}
use klevret_english_ver.DhcpOption.Description.{
  IntConstraintType, IntConstraint, no_constraint, DhcpOptionPayloadType,
  DhcpOptionPayloadDescription, no_payload, variable_dhcp_option_length, DhcpOptionDescription,
}

-- The constructors of the descriptions.
abbrev constraint : IntConstraintType → ℕ → ℕ → List ℕ → IntConstraint
constraint type min max allowed_values = record {
  type = type;
  min = pos min;
  max = pos max;
  allowed_values = allowed_values;
}

abbrev payload : DhcpOptionPayloadType → Bool → ℕ → IntConstraint → DhcpOptionPayloadDescription
payload type is_list min_len_in_elements int_constraint = record {
  type = type;
  is_list = is_list;
  min_len_in_elements = min_len_in_elements;
  int_constraint = int_constraint;
}

abbrev option : ℕ → ℤ → DhcpOptionPayloadDescription → DhcpOptionDescription
option code payload_length payload_description = record {
  code = code;
  payload_length = payload_length;
  payload_description = payload_description;
}

-- `options_descriptions`, in the order of the source.
unfoldable pub options_descriptions : List (ℕ × DhcpOptionDescription)
options_descriptions =
    (0, option 0 (pos 0) no_payload)
    ∷ (255, option 255 (pos 0) no_payload)
    ∷ (1, option 1 (pos 4) (payload DhcpOptionPayloadType.subnet_mask false 0 no_constraint))
    ∷ (2, option 2 (pos 4) (payload DhcpOptionPayloadType.int_32 false 0 no_constraint))
    ∷ (
      3,
      option 3 variable_dhcp_option_length
          (payload DhcpOptionPayloadType.ip_address true 1 no_constraint),
    )
    ∷ (
      4,
      option 4 variable_dhcp_option_length
          (payload DhcpOptionPayloadType.ip_address true 1 no_constraint),
    )
    ∷ (
      5,
      option 5 variable_dhcp_option_length
          (payload DhcpOptionPayloadType.ip_address true 1 no_constraint),
    )
    ∷ (
      6,
      option 6 variable_dhcp_option_length
          (payload DhcpOptionPayloadType.ip_address true 1 no_constraint),
    )
    ∷ (
      7,
      option 7 variable_dhcp_option_length
          (payload DhcpOptionPayloadType.ip_address true 1 no_constraint),
    )
    ∷ (
      8,
      option 8 variable_dhcp_option_length
          (payload DhcpOptionPayloadType.ip_address true 1 no_constraint),
    )
    ∷ (
      9,
      option 9 variable_dhcp_option_length
          (payload DhcpOptionPayloadType.ip_address true 1 no_constraint),
    )
    ∷ (
      10,
      option 10 variable_dhcp_option_length
          (payload DhcpOptionPayloadType.ip_address true 1 no_constraint),
    )
    ∷ (
      11,
      option 11 variable_dhcp_option_length
          (payload DhcpOptionPayloadType.ip_address true 1 no_constraint),
    )
    ∷ (
      12,
      option 12 variable_dhcp_option_length
          (payload DhcpOptionPayloadType.string false 1 no_constraint),
    )
    ∷ (13, option 13 (pos 2) (payload DhcpOptionPayloadType.uint_16 false 0 no_constraint))
    ∷ (
      14,
      option 14 variable_dhcp_option_length
          (payload DhcpOptionPayloadType.string false 1 no_constraint),
    )
    ∷ (
      15,
      option 15 variable_dhcp_option_length
          (payload DhcpOptionPayloadType.string false 1 no_constraint),
    )
    ∷ (16, option 16 (pos 4) (payload DhcpOptionPayloadType.ip_address false 0 no_constraint))
    ∷ (
      17,
      option 17 variable_dhcp_option_length
          (payload DhcpOptionPayloadType.string false 1 no_constraint),
    )
    ∷ (
      18,
      option 18 variable_dhcp_option_length
          (payload DhcpOptionPayloadType.string false 1 no_constraint),
    )
    ∷ (19, option 19 (pos 1) (payload DhcpOptionPayloadType.flag false 0 no_constraint))
    ∷ (20, option 20 (pos 1) (payload DhcpOptionPayloadType.flag false 0 no_constraint))
    ∷ (
      21,
      option 21 variable_dhcp_option_length
          (payload DhcpOptionPayloadType.ip_address_with_subnet_mask true 1 no_constraint),
    )
    ∷ (
      22,
      option 22 (pos 2) (
          payload DhcpOptionPayloadType.uint_16 false 0
            (constraint IntConstraintType.from_min 576 0 [])),
    )
    ∷ (
      23,
      option 23 (pos 1) (
          payload DhcpOptionPayloadType.uint_8 false 0
            (constraint IntConstraintType.range 1 255 [])),
    )
    ∷ (24, option 24 (pos 4) (payload DhcpOptionPayloadType.uint_32 false 0 no_constraint))
    ∷ (
      25,
      option 25 variable_dhcp_option_length
          (payload DhcpOptionPayloadType.uint_16 true 2 no_constraint),
    )
    ∷ (
      26,
      option 26 (pos 2) (
          payload DhcpOptionPayloadType.uint_16 false 0
            (constraint IntConstraintType.from_min 68 0 [])),
    )
    ∷ (27, option 27 (pos 1) (payload DhcpOptionPayloadType.flag false 0 no_constraint))
    ∷ (28, option 28 (pos 4) (payload DhcpOptionPayloadType.ip_address false 0 no_constraint))
    ∷ (29, option 29 (pos 1) (payload DhcpOptionPayloadType.flag false 0 no_constraint))
    ∷ (30, option 30 (pos 1) (payload DhcpOptionPayloadType.flag false 0 no_constraint))
    ∷ (31, option 31 (pos 1) (payload DhcpOptionPayloadType.flag false 0 no_constraint))
    ∷ (32, option 32 (pos 4) (payload DhcpOptionPayloadType.ip_address false 0 no_constraint))
    ∷ (
      33,
      option 33 variable_dhcp_option_length
          (payload DhcpOptionPayloadType.two_ip_addresses true 1 no_constraint),
    )
    ∷ (34, option 34 (pos 1) (payload DhcpOptionPayloadType.flag false 0 no_constraint))
    ∷ (35, option 35 (pos 4) (payload DhcpOptionPayloadType.uint_32 false 0 no_constraint))
    ∷ (36, option 36 (pos 1) (payload DhcpOptionPayloadType.flag false 0 no_constraint))
    ∷ (
      37,
      option 37 (pos 1) (
          payload DhcpOptionPayloadType.uint_8 false 0
            (constraint IntConstraintType.from_min 1 0 [])),
    )
    ∷ (38, option 38 (pos 4) (payload DhcpOptionPayloadType.uint_32 false 0 no_constraint))
    ∷ (39, option 39 (pos 1) (payload DhcpOptionPayloadType.flag false 0 no_constraint))
    ∷ (
      40,
      option 40 variable_dhcp_option_length
          (payload DhcpOptionPayloadType.string false 1 no_constraint),
    )
    ∷ (
      41,
      option 41 variable_dhcp_option_length
          (payload DhcpOptionPayloadType.ip_address true 1 no_constraint),
    )
    ∷ (
      42,
      option 42 variable_dhcp_option_length
          (payload DhcpOptionPayloadType.ip_address true 1 no_constraint),
    )
    ∷ (
      43,
      option 43 variable_dhcp_option_length
          (payload DhcpOptionPayloadType.vendor_specific_field false 1 no_constraint),
    )
    ∷ (
      44,
      option 44 variable_dhcp_option_length
          (payload DhcpOptionPayloadType.ip_address true 1 no_constraint),
    )
    ∷ (
      45,
      option 45 variable_dhcp_option_length
          (payload DhcpOptionPayloadType.ip_address true 1 no_constraint),
    )
    ∷ (
      46,
      option 46 (pos 1) (
          payload DhcpOptionPayloadType.uint_enum false 0
            (constraint IntConstraintType.uint_enum 0 0 (1 ∷ 2 ∷ 4 ∷ 8 ∷ []))),
    )
    ∷ (
      47,
      option 47 variable_dhcp_option_length
          (payload DhcpOptionPayloadType.string false 1 no_constraint),
    )
    ∷ (
      48,
      option 48 variable_dhcp_option_length
          (payload DhcpOptionPayloadType.ip_address true 1 no_constraint),
    )
    ∷ (
      49,
      option 49 variable_dhcp_option_length
          (payload DhcpOptionPayloadType.ip_address true 1 no_constraint),
    )
    ∷ (
      64,
      option 64 variable_dhcp_option_length
          (payload DhcpOptionPayloadType.string false 1 no_constraint),
    )
    ∷ (
      65,
      option 65 variable_dhcp_option_length
          (payload DhcpOptionPayloadType.ip_address true 1 no_constraint),
    )
    ∷ (
      68,
      option 68 variable_dhcp_option_length
          (payload DhcpOptionPayloadType.ip_address true 0 no_constraint),
    )
    ∷ (
      69,
      option 69 variable_dhcp_option_length
          (payload DhcpOptionPayloadType.ip_address true 1 no_constraint),
    )
    ∷ (
      70,
      option 70 variable_dhcp_option_length
          (payload DhcpOptionPayloadType.ip_address true 1 no_constraint),
    )
    ∷ (
      71,
      option 71 variable_dhcp_option_length
          (payload DhcpOptionPayloadType.ip_address true 1 no_constraint),
    )
    ∷ (
      72,
      option 72 variable_dhcp_option_length
          (payload DhcpOptionPayloadType.ip_address true 1 no_constraint),
    )
    ∷ (
      73,
      option 73 variable_dhcp_option_length
          (payload DhcpOptionPayloadType.ip_address true 1 no_constraint),
    )
    ∷ (
      74,
      option 74 variable_dhcp_option_length
          (payload DhcpOptionPayloadType.ip_address true 1 no_constraint),
    )
    ∷ (
      75,
      option 75 variable_dhcp_option_length
          (payload DhcpOptionPayloadType.ip_address true 1 no_constraint),
    )
    ∷ (
      76,
      option 76 variable_dhcp_option_length
          (payload DhcpOptionPayloadType.ip_address true 1 no_constraint),
    )
    ∷ (50, option 50 (pos 4) (payload DhcpOptionPayloadType.ip_address false 0 no_constraint))
    ∷ (51, option 51 (pos 4) (payload DhcpOptionPayloadType.uint_32 false 0 no_constraint))
    ∷ (
      52,
      option 52 (pos 1) (
          payload DhcpOptionPayloadType.uint_enum false 0
            (constraint IntConstraintType.uint_enum 0 0 (1 ∷ 2 ∷ 3 ∷ []))),
    )
    ∷ (
      66,
      option 66 variable_dhcp_option_length
          (payload DhcpOptionPayloadType.string false 1 no_constraint),
    )
    ∷ (
      67,
      option 67 variable_dhcp_option_length
          (payload DhcpOptionPayloadType.string false 1 no_constraint),
    )
    ∷ (
      53,
      option 53 (pos 1) (
          payload DhcpOptionPayloadType.uint_enum false 0
            (constraint IntConstraintType.uint_enum 0 0 (1 ∷ 2 ∷ 3 ∷ 4 ∷ 5 ∷ 6 ∷ 7 ∷ 8 ∷ []))),
    )
    ∷ (54, option 54 (pos 4) (payload DhcpOptionPayloadType.ip_address false 0 no_constraint))
    ∷ (
      55,
      option 55 variable_dhcp_option_length
          (payload DhcpOptionPayloadType.byte_array false 1 no_constraint),
    )
    ∷ (
      56,
      option 56 variable_dhcp_option_length
          (payload DhcpOptionPayloadType.string false 1 no_constraint),
    )
    ∷ (
      57,
      option 57 (pos 2) (
          payload DhcpOptionPayloadType.uint_16 false 0
            (constraint IntConstraintType.from_min 576 0 [])),
    )
    ∷ (58, option 58 (pos 4) (payload DhcpOptionPayloadType.uint_32 false 0 no_constraint))
    ∷ (59, option 59 (pos 4) (payload DhcpOptionPayloadType.uint_32 false 0 no_constraint))
    ∷ (
      60,
      option 60 variable_dhcp_option_length
          (payload DhcpOptionPayloadType.string false 1 no_constraint),
    )
    ∷ (
      61,
      option 61 variable_dhcp_option_length
          (payload DhcpOptionPayloadType.byte_array false 2 no_constraint),
    )
    ∷ []

-- `options_descriptions.at(code)`
unfoldable pub find_in : List (ℕ × DhcpOptionDescription) → ℕ → Result DhcpOptionDescription
find_in [] code = err out_of_range
find_in ((key, d) ∷ rest) code = if key == code then ok d else find_in rest code

unfoldable pub description_at : ℕ → Result DhcpOptionDescription
unfolding find_in options_descriptions
description_at code = find_in options_descriptions code
