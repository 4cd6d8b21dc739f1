-- ===== src/HardwareAddress.antt =====
-- dhcp/src/HardwareAddress.hpp and HardwareAddress.cpp.
pub mod Mac
use klevret_english_ver.Base.{
  ℕ, zero, suc, ◌+◌, ◌-◌, ◌/◌, ◌%◌, Bool, true, false, [], ◌∷◌, ◌++◌, Bytes, get_or, set, replicate,
  ltb, ◌==◌, if◌then◌else◌, Result, ok, err, mac_incomplete, throw_if, ◌>>=◌, ◌>>◌,
}
use klevret_english_ver.Base.Int.{ℤ, pos, negsuc}
use klevret_english_ver.IpAddress.{copy_octets}

-- `HardwareAddressType`. A `static_cast` from a byte gives values that have no name, `unnamed n`.
pub data HardwareAddressType : Type 0 where
  ethernet_10mb : HardwareAddressType
  experimental_ethernet_3mb : HardwareAddressType
  amateur_radio_ax_25 : HardwareAddressType
  proteon_pronet_token_ring : HardwareAddressType
  chaos : HardwareAddressType
  ieee_802_networks : HardwareAddressType
  arcnet : HardwareAddressType
  hyperchannel : HardwareAddressType
  lanstar : HardwareAddressType
  autonet_short_address : HardwareAddressType
  local_talk : HardwareAddressType
  local_net_ibm_pcnet_or_sytek_localnet : HardwareAddressType
  ultra_link : HardwareAddressType
  smds : HardwareAddressType
  frame_relay : HardwareAddressType
  asynchronous_transmission_mode_atm : HardwareAddressType
  hdlc : HardwareAddressType
  fibre_channel : HardwareAddressType
  asynchronous_transmission_mode_atm_19 : HardwareAddressType
  serial_line : HardwareAddressType
  asynchronous_transmission_mode_atm_21 : HardwareAddressType
  unnamed : ℕ → HardwareAddressType

-- The cast from `uint8_t`.
unfoldable pub htype_of_uint8 : ℕ → HardwareAddressType
htype_of_uint8 n =
    if n == 1
    then ethernet_10mb
    else if n == 2
    then experimental_ethernet_3mb
    else if n == 3
    then amateur_radio_ax_25
    else if n == 4
    then proteon_pronet_token_ring
    else if n == 5
    then chaos
    else if n == 6
    then ieee_802_networks
    else if n == 7
    then arcnet
    else if n == 8
    then hyperchannel
    else if n == 9
    then lanstar
    else if n == 10
    then autonet_short_address
    else if n == 11
    then local_talk
    else if n == 12
    then local_net_ibm_pcnet_or_sytek_localnet
    else if n == 13
    then ultra_link
    else if n == 14
    then smds
    else if n == 15
    then frame_relay
    else if n == 16
    then asynchronous_transmission_mode_atm
    else if n == 17
    then hdlc
    else if n == 18
    then fibre_channel
    else if n == 19
    then asynchronous_transmission_mode_atm_19
    else if n == 20
    then serial_line
    else if n == 21
    then asynchronous_transmission_mode_atm_21
    else unnamed n

-- The cast to `uint8_t`.
unfoldable pub htype_to_uint8 : HardwareAddressType → ℕ
htype_to_uint8 ethernet_10mb = 1
htype_to_uint8 experimental_ethernet_3mb = 2
htype_to_uint8 amateur_radio_ax_25 = 3
htype_to_uint8 proteon_pronet_token_ring = 4
htype_to_uint8 chaos = 5
htype_to_uint8 ieee_802_networks = 6
htype_to_uint8 arcnet = 7
htype_to_uint8 hyperchannel = 8
htype_to_uint8 lanstar = 9
htype_to_uint8 autonet_short_address = 10
htype_to_uint8 local_talk = 11
htype_to_uint8 local_net_ibm_pcnet_or_sytek_localnet = 12
htype_to_uint8 ultra_link = 13
htype_to_uint8 smds = 14
htype_to_uint8 frame_relay = 15
htype_to_uint8 asynchronous_transmission_mode_atm = 16
htype_to_uint8 hdlc = 17
htype_to_uint8 fibre_channel = 18
htype_to_uint8 asynchronous_transmission_mode_atm_19 = 19
htype_to_uint8 serial_line = 20
htype_to_uint8 asynchronous_transmission_mode_atm_21 = 21
htype_to_uint8 (unnamed n) = n

-- A `switch` with a length for Ethernet, -1 for each other name, and 0 behind it.
unfoldable pub get_hardware_address_length : HardwareAddressType → ℤ
get_hardware_address_length ethernet_10mb = pos 6
get_hardware_address_length (unnamed n) = pos 0
get_hardware_address_length named = negsuc 0

-- `DHCP_HARDWARE_ADDRESS_MAX_LENGTH`
abbrev pub dhcp_hardware_address_max_length : ℕ
dhcp_hardware_address_max_length = 16

-- `MAC_ADDRESS_LENGTH`, the length for Ethernet.
abbrev pub mac_address_length : ℕ
mac_address_length = 6

-- `data`, six octets.
pub record MacAddress : Type 0 where
  pub octets : Bytes

-- The array of a new object is not initialised: `indeterminate` is what it holds.
unfoldable pub mac_from_big_endian_bytes : Bytes → Bytes → Result MacAddress
unfolding copy_octets
mac_from_big_endian_bytes indeterminate range = do
  let (octets, i) = copy_octets mac_address_length range 0 indeterminate
  throw_if (ltb i mac_address_length) mac_incomplete
  ok (record { octets = octets })

-- `make_ptr_from_big_endian_bytes`: the same on a new heap object, which is owned by nobody when
-- the exception leaves.
unfoldable pub make_ptr_from_big_endian_bytes : Bytes → Bytes → Result MacAddress
unfolding copy_octets
make_ptr_from_big_endian_bytes indeterminate range = do
  let (octets, i) = copy_octets mac_address_length range 0 indeterminate
  throw_if (ltb i mac_address_length) mac_incomplete
  ok (record { octets = octets })

-- The loop of `to_chaddr` from index `i` on, with `left` rounds to go.
unfoldable pub fill_chaddr : ℕ → ℕ → Bytes → Bytes → Bytes
fill_chaddr zero i octets result = result
fill_chaddr (suc left) i octets result =
    fill_chaddr left (i + 1) octets (set result i (get_or octets i 0))

unfoldable pub to_chaddr : MacAddress → Bytes
unfolding fill_chaddr
to_chaddr mac =
    fill_chaddr mac_address_length 0 mac.octets (replicate dhcp_hardware_address_max_length 0)

abbrev hex_digit : ℕ → ℕ
hex_digit n = if ltb n 10 then b'0' + n else b'a' + (n - 10)

-- An octet under `std::hex`, `setfill('0')` and `setw(2)`.
abbrev pub hex_octet : ℕ → Bytes
hex_octet n = hex_digit (n / 16) ∷ hex_digit (n % 16) ∷ []

unfoldable pub write_hex : ℕ → ℕ → Bytes → Bytes → Bytes
write_hex zero i octets out = out
write_hex (suc left) i octets out =
    write_hex left (i + 1) octets
      (out ++ (hex_octet (get_or octets i 0) ++ (if i == 5 then [] else b':' ∷ [])))

unfoldable pub mac_to_string : MacAddress → Bytes
unfolding write_hex
mac_to_string mac = write_hex mac_address_length 0 mac.octets []

-- The loop of `operator<` from index `i` on, with `left` rounds to go.
unfoldable pub lt_from : ℕ → ℕ → Bytes → Bytes → Bool
lt_from zero i lhs rhs = false
lt_from (suc left) i lhs rhs =
    let later = lt_from left (i + 1) lhs rhs in
    if ltb (get_or rhs i 0) (get_or lhs i 0)
    then false
    else if ltb (get_or lhs i 0) (get_or rhs i 0)
    then true
    else later

-- `operator<`
unfoldable pub mac_lt : MacAddress → MacAddress → Bool
unfolding lt_from
mac_lt a b = lt_from mac_address_length 0 a.octets b.octets
