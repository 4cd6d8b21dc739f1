-- ===== src/Tests/Messages.antt =====
-- Options and messages.
use klevret_english_ver.Base.{
  ℕ, ◌≡◌, ◌≢◌, refl, false, some, [], ◌∷◌, replicate, Bytes, IsBytes, ok, err, out_of_fuel, ◌>>=◌,
  arith,
}
use klevret_english_ver.Base.Int.{pos}
use klevret_english_ver.Endian.{little, network_to_host_endian, host_to_network_endian_array}
use klevret_english_ver.IpAddress.{copy_octets}
use klevret_english_ver.IpAddress.Mask.{mask_of_uint32, mask_from_big_endian_bytes}
use klevret_english_ver.IpAddress.Network.{of_uint32-IsAddress}
use klevret_english_ver.DhcpOption.Description.{
  DhcpOptionDescription, DhcpOptionPayloadType, no_constraint, subnet_mask, uint_32,
  is_correct_uint, satisfies_uint,
}
use klevret_english_ver.DhcpOption.Table.{description_at, find_in, options_descriptions}
use klevret_english_ver.DhcpOption.Codec.{
  DhcpOption, mask, uint32, split_range, process_elements, process_element, process_subnet_mask,
  process_uint32, make_option, option_to_network_data,
}
use klevret_english_ver.DhcpOption.Encoding.{option_to_network_data-make_option}
use klevret_english_ver.DhcpOption.ByteOrder.{uint32_option_reversed}
use klevret_english_ver.DhcpMessage.{DhcpMessage, new_message, parse, message_to_network_data}
use klevret_english_ver.DhcpMessage.Fixed.{IsMessage}
use klevret_english_ver.DhcpMessage.RoundTrip.{IsEncoded, parse-message_to_network_data}
use klevret_english_ver.DhcpMessage.Cases.{parse_by_cases, parse-parse_by_cases}
use klevret_english_ver.DhcpMessage.Rounds.{parse-Settles}
use klevret_english_ver.Tests.{ip_10, mac_a, indeterminate_six, ip_10-IsAddress, mac_a-IsMac}

abbrev four_bytes : ℕ → DhcpOptionPayloadType → DhcpOptionDescription
four_bytes code type = record {
  code = code;
  payload_length = pos 4;
  payload_description = record {
    type = type;
    is_list = false;
    min_len_in_elements = 0;
    int_constraint = no_constraint;
  };
}

-- The mask 255.255.255.0, and a lease time of a day.
abbrev mask_bytes : Bytes
mask_bytes = 255 ∷ 255 ∷ 255 ∷ 0 ∷ []

abbrev lease_bytes : Bytes
lease_bytes = 0 ∷ 1 ∷ 81 ∷ 128 ∷ []

abbrev mask_option : DhcpOption
mask_option = record {
  real_payload_length = pos 4;
  description = four_bytes 1 subnet_mask;
  real_values = mask (record { octets = mask_bytes }) ∷ [];
}

abbrev lease_option : DhcpOption
lease_option = record {
  real_payload_length = pos 4;
  description = four_bytes 51 uint_32;
  real_values = uint32 86400 ∷ [];
}

mask_made : make_option little 1 (pos 4) mask_bytes [] ≡ ok mask_option
unfolding make_option description_at find_in options_descriptions process_elements process_element
    process_subnet_mask split_range mask_from_big_endian_bytes mask_of_uint32 copy_octets
    host_to_network_endian_array
mask_made = refl

lease_made : make_option little 51 (pos 4) lease_bytes [] ≡ ok lease_option
unfolding make_option description_at find_in options_descriptions process_elements process_element
    process_uint32 split_range network_to_host_endian is_correct_uint satisfies_uint
lease_made = refl

mask_bytes-IsBytes : IsBytes mask_bytes
mask_bytes-IsBytes = (omega arith, (omega arith, (omega arith, (omega arith, tt))))

lease_bytes-IsBytes : IsBytes lease_bytes
lease_bytes-IsBytes = (omega arith, (omega arith, (omega arith, (omega arith, tt))))

option_to_network_data-make_option_example :
    option_to_network_data little mask_option ≡ ok (1 ∷ 4 ∷ 255 ∷ 255 ∷ 255 ∷ 0 ∷ [])
option_to_network_data-make_option_example =
    option_to_network_data-make_option little 1 mask_bytes (λ h. omega arith) (λ h. omega arith)
      (omega arith) mask_bytes-IsBytes mask_made refl

uint32_option_reversed_example :
    option_to_network_data little lease_option ≡ ok (51 ∷ 4 ∷ 128 ∷ 81 ∷ 1 ∷ 0 ∷ [])
uint32_option_reversed_example =
    uint32_option_reversed 51 lease_bytes (λ h. omega arith) (λ h. omega arith) refl
      lease_bytes-IsBytes lease_made refl

described : description_at 51 ≡ ok (four_bytes 51 uint_32)
unfolding description_at find_in options_descriptions
described = refl

-- A message that offers `ip_10` to `mac_a` with the mask.
abbrev offer : DhcpMessage
offer = record (new_message little) {
  xid = 7;
  yiaddr = ip_10;
  chaddr = some mac_a;
  sname = replicate 64 0;
  file = replicate 128 0;
  options = mask_option ∷ [];
}

offer-IsMessage : IsMessage mac_a offer
unfolding new_message
offer-IsMessage = record {
  op_known = refl;
  ethernet = refl;
  xid_word = omega arith;
  secs_word = omega arith;
  flags_word = omega arith;
  ciaddr_quad = of_uint32-IsAddress little 0;
  yiaddr_quad = ip_10-IsAddress;
  siaddr_quad = of_uint32-IsAddress little 0;
  giaddr_quad = of_uint32-IsAddress little 0;
  chaddr_mac = refl;
  mac_ok = mac_a-IsMac;
  sname_zero = refl;
  file_zero = refl;
}

mask_option-IsEncoded : IsEncoded little mask_option
mask_option-IsEncoded = record {
  code = 1;
  payload = mask_bytes;
  not_pad = λ h. omega arith;
  not_end = λ h. omega arith;
  short = omega arith;
  bytes = mask_bytes-IsBytes;
  made = mask_made;
  seen = refl;
}

parse-message_to_network_data_example :
    (message_to_network_data little offer >>= parse little indeterminate_six) ≡ ok offer
parse-message_to_network_data_example =
    parse-message_to_network_data little indeterminate_six refl offer mac_a offer-IsMessage
      (mask_option-IsEncoded, tt)

parse-Settles_example : parse little indeterminate_six (replicate 300 1) ≢ err out_of_fuel
parse-Settles_example = parse-Settles little indeterminate_six (replicate 300 1)

parse-parse_by_cases_example :
    parse little indeterminate_six (1 ∷ replicate 239 1)
    ≡ parse_by_cases little (1 ∷ replicate 239 1)
parse-parse_by_cases_example =
    parse-parse_by_cases little indeterminate_six (1 ∷ replicate 239 1) refl
