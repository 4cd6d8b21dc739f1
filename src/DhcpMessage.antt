-- ===== src/DhcpMessage.antt =====
-- dhcp/src/DhcpMessage.hpp and DhcpMessage.cpp: a message as a record, read from a datagram and
-- written as one. `chaddr` is a pointer, null in a new message.
pub mod Fixed
pub mod RoundTrip
pub mod Rounds
pub mod Cases
use klevret_english_ver.Base.{
  ℕ, zero, suc, ◌+◌, ◌*◌, ◌/◌, ◌%◌, ◌^◌, Bool, true, false, not, ◌&&◌, Option, none, some, List, [],
  ◌∷◌, ◌++◌, Bytes, length, get_or, take, drop, replicate, ltb, ◌==◌, if◌then◌else◌, Result, ok,
  err, message_too_short, unsupported_hardware, bad_cookie, undefined, out_of_fuel, throw_if, ◌>>=◌,
  ◌>>◌,
}
use klevret_english_ver.Base.Int.{pos, to_uint8}
use klevret_english_ver.Endian.{Endianness}
use klevret_english_ver.IpAddress.{
  IPv4Address, ip_v4_address_length, of_uint32, from_big_endian_bytes, to_network_data,
}
use klevret_english_ver.HardwareAddress.{
  HardwareAddressType, ethernet_10mb, htype_of_uint8, htype_to_uint8, get_hardware_address_length,
  dhcp_hardware_address_max_length, mac_address_length, MacAddress, make_ptr_from_big_endian_bytes,
  to_chaddr,
}
use klevret_english_ver.DhcpOption.Codec.{
  DhcpOption, read_byte, split_range, make_option, option_to_network_data,
}

-- `DhcpMessageType`. A cast from a byte gives values that have no name, `unnamed_op n`.
pub data DhcpMessageType : Type 0 where
  bootrequest : DhcpMessageType
  bootreply : DhcpMessageType
  unnamed_op : ℕ → DhcpMessageType

-- The casts from and to `uint8_t`.
abbrev pub op_of_uint8 : ℕ → DhcpMessageType
op_of_uint8 n = if n == 1 then bootrequest else if n == 2 then bootreply else unnamed_op n

abbrev pub op_to_uint8 : DhcpMessageType → ℕ
op_to_uint8 bootrequest = 1
op_to_uint8 bootreply = 2
op_to_uint8 (unnamed_op n) = n

-- `DHCP_MESSAGE_MIN_LENGTH`
abbrev pub dhcp_message_min_length : ℕ
dhcp_message_min_length = 236

pub record DhcpMessage : Type 0 where
  pub op : DhcpMessageType
  pub htype : HardwareAddressType
  pub hlen : ℕ
  pub hops : ℕ
  pub xid : ℕ
  pub secs : ℕ
  pub flags : ℕ
  pub ciaddr : IPv4Address
  pub yiaddr : IPv4Address
  pub siaddr : IPv4Address
  pub giaddr : IPv4Address
  pub chaddr : Option MacAddress
  pub sname : Bytes
  pub file : Bytes
  pub options : List DhcpOption

-- `DhcpMessage()`
unfoldable pub new_message : Endianness → DhcpMessage
unfolding get_hardware_address_length
new_message e = record {
  op = bootrequest;
  htype = ethernet_10mb;
  hlen = to_uint8 (get_hardware_address_length ethernet_10mb);
  hops = 0;
  xid = 0;
  secs = 0;
  flags = 0;
  ciaddr = of_uint32 e 0;
  yiaddr = of_uint32 e 0;
  siaddr = of_uint32 e 0;
  giaddr = of_uint32 e 0;
  chaddr = none;
  sname = [];
  file = [];
  options = [];
}

-- `data.at(i)`, below the size that was tested.
abbrev pub data_at : Bytes → ℕ → ℕ
data_at datagram i = get_or datagram i 0

-- The 236 bytes of fixed fields. The shifted bytes of a number do not overlap, so that `|` is `+`.
unfoldable pub parse_fixed : Endianness → Bytes → Bytes → Result DhcpMessage
parse_fixed e indeterminate datagram = do
  throw_if (ltb (length datagram) dhcp_message_min_length) message_too_short
  let htype = htype_of_uint8 (data_at datagram 1)
  let iter = drop 12 datagram
  ciaddr ← from_big_endian_bytes e (take ip_v4_address_length iter)
  let iter = drop ip_v4_address_length iter
  yiaddr ← from_big_endian_bytes e (take ip_v4_address_length iter)
  let iter = drop ip_v4_address_length iter
  siaddr ← from_big_endian_bytes e (take ip_v4_address_length iter)
  let iter = drop ip_v4_address_length iter
  giaddr ← from_big_endian_bytes e (take ip_v4_address_length iter)
  let iter = drop ip_v4_address_length iter
  throw_if (not (htype_to_uint8 htype == htype_to_uint8 ethernet_10mb)) unsupported_hardware
  chaddr ← make_ptr_from_big_endian_bytes indeterminate (take mac_address_length iter)
  let iter = drop dhcp_hardware_address_max_length iter
  ok (record {
    op = op_of_uint8 (data_at datagram 0);
    htype = htype;
    hlen = data_at datagram 2;
    hops = data_at datagram 3;
    xid =
        data_at datagram 4 * 2 ^ 24
        + (data_at datagram 5 * 2 ^ 16 + (data_at datagram 6 * 2 ^ 8 + data_at datagram 7));
    secs = data_at datagram 8 * 2 ^ 8 + data_at datagram 9;
    flags = data_at datagram 10 * 2 ^ 8 + data_at datagram 11;
    ciaddr = ciaddr;
    yiaddr = yiaddr;
    siaddr = siaddr;
    giaddr = giaddr;
    chaddr = some chaddr;
    sname = take 64 iter;
    file = take 128 (drop 64 iter);
    options = [];
  })

-- The loop over the options. A round steps by at least one byte.
unfoldable pub parse_options : ℕ → Endianness → Bytes → List DhcpOption → Result (List DhcpOption)
parse_options zero e iter options = err out_of_fuel
parse_options (suc fuel) e [] options = ok options
parse_options (suc fuel) e (code ∷ iter) options = elim (code == 0) [
  | true ↦ parse_options fuel e iter options
  | false ↦ elim (code == 255) [
    | true ↦ ok options
    | false ↦ do
      (payload_length, begin) ← read_byte iter
      (payload, end) ← split_range payload_length begin
      new_option ← make_option e code (pos payload_length) begin end
      parse_options fuel e end (options ++ new_option ∷ [])
  ]
]

abbrev pub is_cookie : Bytes → Bool
is_cookie iter =
    (data_at iter 0 == 99)
    && ((data_at iter 1 == 130) && ((data_at iter 2 == 83) && (data_at iter 3 == 99)))

-- `DhcpMessage(data)`
unfoldable pub parse : Endianness → Bytes → Bytes → Result DhcpMessage
parse e indeterminate datagram = do
  message ← parse_fixed e indeterminate datagram
  let iter = drop dhcp_message_min_length datagram
  if ltb (length datagram) (dhcp_message_min_length + 4) then ok message else (do
    throw_if (not (is_cookie iter)) bad_cookie
    options ← parse_options (suc (length iter)) e (drop 4 iter) []
    ok (record message { options = options }))

-- `chaddr.get()->`
abbrev pub dereference {ℓ} : {A : Type ℓ} → Option A → Result A
dereference none = err undefined
dereference (some a) = ok a

-- What `push_back` stores of a number that is shifted by `bits`.
abbrev pub byte_at : ℕ → ℕ → ℕ
byte_at n bits = n / 2 ^ bits % 256

-- The fields up to `giaddr`, then `chaddr`, and `sname` and `file` of zeros.
unfoldable pub fixed_to_network_data : DhcpMessage → MacAddress → Bytes
unfolding to_network_data
fixed_to_network_data m mac =
    op_to_uint8 m.op
    ∷ htype_to_uint8 m.htype
    ∷ m.hlen
    ∷ m.hops
    ∷ byte_at m.xid 24
    ∷ byte_at m.xid 16
    ∷ byte_at m.xid 8
    ∷ byte_at m.xid 0
    ∷ byte_at m.secs 8
    ∷ byte_at m.secs 0
    ∷ byte_at m.flags 8
    ∷ byte_at m.flags 0
    ∷ (to_network_data m.ciaddr
        ++ (to_network_data m.yiaddr
            ++ (to_network_data m.siaddr
                ++ (to_network_data m.giaddr
                    ++ (to_chaddr mac ++ (replicate 64 0 ++ replicate 128 0))))))

-- The loop over the options.
unfoldable pub options_to_network_data : Endianness → List DhcpOption → Result Bytes
options_to_network_data e [] = ok []
options_to_network_data e (o ∷ os) = do
  bytes ← option_to_network_data e o
  rest ← options_to_network_data e os
  ok (bytes ++ rest)

abbrev pub no_options : List DhcpOption → Bool
no_options [] = true
no_options (o ∷ os) = false

-- `to_network_data`
unfoldable pub message_to_network_data : Endianness → DhcpMessage → Result Bytes
message_to_network_data e m = do
  mac ← dereference m.chaddr
  let result = fixed_to_network_data m mac
  if no_options m.options then ok result else (do
    bytes ← options_to_network_data e m.options
    ok (result ++ (99 ∷ 130 ∷ 83 ∷ 99 ∷ (bytes ++ 255 ∷ []))))
