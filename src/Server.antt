-- ===== src/Server.antt =====
-- dhcp/src/main.cpp: the offers and the acknowledgements, and one round of the server's loop on a
-- datagram. What the loop prints is not modelled.
pub mod Replies
pub mod Exchange
pub mod Threads
pub mod StartUp
pub mod Started
pub mod Serving
use klevret_english_ver.Base.{
  ℕ, ◌/◌, ◌*◌, ◌%◌, ◌^◌, Bool, true, false, Option, none, some, List, [], ◌∷◌, ◌++◌, Bytes, length,
  codes, ◌==◌, if◌then◌else◌, Result, ok, err, out_of_range, bad_variant, undefined, ◌>>=◌,
}
use klevret_english_ver.Base.Int.{pos}
use klevret_english_ver.SortedMap.{Order, Map, lookup, assign}
use klevret_english_ver.Endian.{Endianness, host_to_network_endian_array}
use klevret_english_ver.IpAddress.{IPv4Address, of_uint32, of_string}
use klevret_english_ver.HardwareAddress.{MacAddress, ethernet_10mb}
use klevret_english_ver.DhcpOption.Codec.{DhcpOption, FieldValue, uint8, make_option}
use klevret_english_ver.DhcpMessage.{
  DhcpMessage, DhcpMessageType, bootrequest, bootreply, new_message, parse, message_to_network_data,
  dereference,
}
use klevret_english_ver.AddressPool.{AddressPool, code_order, get_address}

-- `Option53MessageType`. A cast from a byte gives values that have no name.
pub data Option53MessageType : Type 0 where
  dhcpdiscover : Option53MessageType
  dhcpoffer : Option53MessageType
  dhcprequest : Option53MessageType
  dhcpdecline : Option53MessageType
  dhcpack : Option53MessageType
  dhcpnak : Option53MessageType
  dhcprelease : Option53MessageType
  dhcpinform : Option53MessageType
  unnamed_message : ℕ → Option53MessageType

abbrev pub message_type_of_uint8 : ℕ → Option53MessageType
message_type_of_uint8 n =
    if n == 1
    then dhcpdiscover
    else if n == 2
    then dhcpoffer
    else if n == 3
    then dhcprequest
    else if n == 4
    then dhcpdecline
    else if n == 5
    then dhcpack
    else if n == 6
    then dhcpnak
    else if n == 7
    then dhcprelease
    else if n == 8
    then dhcpinform
    else unnamed_message n

-- `DhcpOption(code, length, data.begin(), data.end())` on a vector of its own.
abbrev pub option_of : Endianness → ℕ → Bytes → Result DhcpOption
option_of e code data_bytes = make_option e code (pos (length data_bytes)) data_bytes []

-- The fields and the options that the two replies share, for the two numbers in which they differ:
-- the value of option 53 and the bytes of option 51.
unfoldable pub reply_with : Endianness → DhcpMessage → IPv4Address → ℕ → Bytes → Result DhcpMessage
reply_with e packet ip kind lease_time = do
  siaddr ← of_string (codes "172.18.1.1")
  l2_address ← dereference packet.chaddr
  option53 ← option_of e 53 (kind ∷ [])
  option1 ← option_of e 1 (255 ∷ 255 ∷ 255 ∷ 0 ∷ [])
  option3 ← option_of e 3 (172 ∷ 18 ∷ 1 ∷ 1 ∷ [])
  option51 ← option_of e 51 lease_time
  ok (record (new_message e) {
    op = bootreply;
    htype = ethernet_10mb;
    hlen = 6;
    hops = 0;
    xid = packet.xid;
    ciaddr = of_uint32 e 0;
    yiaddr = ip;
    siaddr = siaddr;
    giaddr = of_uint32 e 0;
    chaddr = some l2_address;
    options = option53 ∷ option1 ∷ option3 ∷ option51 ∷ [];
  })

-- `make_offer`: the lease time goes through `host_to_network_endian_array`.
unfoldable pub make_offer : Endianness → DhcpMessage → IPv4Address → Result DhcpMessage
unfolding reply_with
make_offer e packet ip = do
  lease_time ← host_to_network_endian_array e 4 4 86400
  reply_with e packet ip 2 lease_time

-- `make_acknowledge`: the lease time is shifted by hand, in 32 bits.
unfoldable pub make_acknowledge : Endianness → DhcpMessage → IPv4Address → Result DhcpMessage
unfolding reply_with
make_acknowledge e packet ip = reply_with e packet ip 5 (
    86400 / 2 ^ 24
    ∷ 86400 * 2 ^ 8 % 2 ^ 32 / 2 ^ 24
    ∷ 86400 * 2 ^ 16 % 2 ^ 32 / 2 ^ 24
    ∷ 86400 % 256
    ∷ [])

-- `std::find_if` for the code 53, and `->` on what it found.
unfoldable pub find_option53 : List DhcpOption → Result DhcpOption
find_option53 [] = err undefined
find_option53 (o ∷ os) = if o.description.code == 53 then ok o else find_option53 os

-- `std::get<uint8_t>(option53->real_values.at(0))`
unfoldable pub get_uint8 : List FieldValue → Result ℕ
get_uint8 [] = err out_of_range
get_uint8 (uint8 value ∷ values) = ok value
get_uint8 (v ∷ values) = err bad_variant

-- The pool and the addresses that were offered, by transaction.
pub record ServerState : Type 0 where
  pub pool : AddressPool
  pub xids : Map ℕ IPv4Address

-- `xids[xid]`: an entry that is missing is made, with a new address.
abbrev pub subscript : Endianness → ℕ → Map ℕ IPv4Address → IPv4Address × Map ℕ IPv4Address
subscript e xid xids = elim (lookup ⦃o = code_order⦄ xid xids) [
  | some ip ↦ (ip, xids)
  | none ↦ (of_uint32 e 0, assign ⦃o = code_order⦄ xid (of_uint32 e 0) xids)
]

-- A step ends with the state and the datagram that is sent, if one is.
abbrev pub Step : Type 0
Step = Result (ServerState × Option Bytes)

module _ ⦃ips : Order IPv4Address⦄ ⦃macs : Order MacAddress⦄ (e : Endianness) (s : ServerState)
    (packet : DhcpMessage) where
  unfoldable pub on_discover : Step
  on_discover = do
    mac ← dereference packet.chaddr
    (ip, pool) ← get_address s.pool mac
    offer ← make_offer e packet ip
    bytes ← message_to_network_data e offer
    ok (record { pool = pool; xids = assign ⦃o = code_order⦄ packet.xid ip s.xids }, some bytes)

  -- The acknowledgement for an address, and the transactions that are left.
  unfoldable pub acknowledge_with : IPv4Address → Map ℕ IPv4Address → Step
  acknowledge_with ip xids = do
    acknowledge ← make_acknowledge e packet ip
    bytes ← message_to_network_data e acknowledge
    ok (record s { xids = xids }, some bytes)

  unfoldable pub on_request : Step
  unfolding acknowledge_with
  on_request = let entry = subscript e packet.xid s.xids in acknowledge_with (entry.0) (entry.1)

  abbrev pub on_message : Option53MessageType → Step
  on_message dhcpdiscover = on_discover
  on_message dhcprequest = on_request
  on_message other = ok (s, none)

  abbrev pub on_packet : DhcpMessageType → Step
  on_packet bootrequest = do
    option53 ← find_option53 packet.options
    value ← get_uint8 option53.real_values
    on_message (message_type_of_uint8 value)
  on_packet other = ok (s, none)

-- One round of the loop, on a datagram that was taken from the queue.
unfoldable pub handle_datagram :
    ⦃ips : Order IPv4Address⦄
    → ⦃macs : Order MacAddress⦄ → Endianness
    → Bytes
    → ServerState
    → Bytes
    → Step
handle_datagram e indeterminate s datagram = do
  packet ← parse e indeterminate datagram
  on_packet e s packet packet.op

-- The loop on the datagrams that come in, in their order. An exception ends the program.
unfoldable pub serve :
    ⦃ips : Order IPv4Address⦄
    → ⦃macs : Order MacAddress⦄ → Endianness
    → Bytes
    → ServerState
    → List Bytes
    → Result ServerState
serve e indeterminate s [] = ok s
serve e indeterminate s (datagram ∷ datagrams) = do
  (next, sent) ← handle_datagram e indeterminate s datagram
  serve e indeterminate next datagrams
