-- ===== src/Server/Replies.antt =====
-- The bytes of an offer and of an acknowledgement.
use klevret_english_ver.Base.{
  ℕ, ◌/◌, ◌%◌, ◌^◌, ◌≡◌, refl, Bool, true, false, some, [], ◌∷◌, ◌++◌, Bytes, length, replicate, ok,
  ◌>>=◌, arith,
}
use klevret_english_ver.Endian.{
  Endianness, little, big, host_to_network_endian_array, network_to_host_endian,
}
use klevret_english_ver.Endian.Laws.{to_be_bytes}
use klevret_english_ver.IpAddress.{
  IPv4Address, of_string, scan_octets, parse_octet, scan_digits, of_uint32, copy_octets,
  from_big_endian_bytes, to_network_data,
}
use klevret_english_ver.IpAddress.Mask.{
  mask_of_uint32, mask_from_big_endian_bytes, mask_to_network_data,
}
use klevret_english_ver.IpAddress.Network.{IsAddress}
use klevret_english_ver.HardwareAddress.{
  MacAddress, to_chaddr, fill_chaddr, htype_to_uint8, get_hardware_address_length,
}
use klevret_english_ver.HardwareAddress.Mac.{IsMac}
use klevret_english_ver.DhcpOption.Description.{is_correct_uint, satisfies_uint, is_allowed}
use klevret_english_ver.DhcpOption.Table.{description_at, find_in, options_descriptions}
use klevret_english_ver.DhcpOption.Codec.{
  make_option, split_range, process_elements, process_element, process_ip_address,
  process_subnet_mask, process_uint8, process_uint32, process_uint_enum, value_to_network_data,
  values_to_network_data, option_to_network_data,
}
use klevret_english_ver.DhcpMessage.{
  DhcpMessage, new_message, message_to_network_data, fixed_to_network_data, options_to_network_data,
}
use klevret_english_ver.Server.{make_offer, make_acknowledge, reply_with}

-- The lease time of a day as it is sent: in the order of the host.
abbrev pub sent_lease_time : Endianness → Bytes
sent_lease_time big = 0 ∷ 1 ∷ 81 ∷ 128 ∷ []
sent_lease_time little = 128 ∷ 81 ∷ 1 ∷ 0 ∷ []

-- The fixed fields of a reply: `op` 2, Ethernet, the transaction, no seconds and flags, the address
-- that is offered, the server 172.18.1.1, the client's hardware address, and zeros.
abbrev pub reply_fields : ℕ → IPv4Address → MacAddress → Bytes
reply_fields xid ip mac =
    2
    ∷ 1
    ∷ 6
    ∷ 0
    ∷ (to_be_bytes 4 xid
        ++ (replicate 8 0
            ++ (ip.octets ++ (172 ∷ 18 ∷ 1 ∷ 1 ∷ 0 ∷ 0 ∷ 0 ∷ 0 ∷ (mac.octets ++ replicate 202 0)))))

-- The cookie, the message type, the mask, the router, the lease time, and the end.
abbrev pub reply_options : Endianness → ℕ → Bytes
reply_options e kind =
    99
    ∷ 130
    ∷ 83
    ∷ 99
    ∷ 53
    ∷ 1
    ∷ kind
    ∷ 1
    ∷ 4
    ∷ 255
    ∷ 255
    ∷ 255
    ∷ 0
    ∷ 3
    ∷ 4
    ∷ 172
    ∷ 18
    ∷ 1
    ∷ 1
    ∷ 51
    ∷ 4
    ∷ (sent_lease_time e ++ 255 ∷ [])

shift_24 : (x : ℕ) → x / 2 ^ 24 % 256 ≡ x / 256 / 256 / 256 % 256
shift_24 x = omega arith

shift_16 : (x : ℕ) → x / 2 ^ 16 % 256 ≡ x / 256 / 256 % 256
shift_16 x = omega arith

shift_8 : (x : ℕ) → x / 2 ^ 8 % 256 ≡ x / 256 % 256
shift_8 x = omega arith

shift_0 : (x : ℕ) → x / 2 ^ 0 % 256 ≡ x % 256
shift_0 x = omega arith

-- The two numbers that tell the replies apart.
abbrev kind : Bool → ℕ
kind true = 5
kind false = 2

reply_sent :
    (e : Endianness) (acknowledges : Bool) (packet : DhcpMessage) (o m : Bytes)
    → packet.chaddr ≡ some (record { octets = m })
    → length o ≡ 4
    → length m ≡ 6
    → (reply_with e packet (record { octets = o }) (kind acknowledges) (0 ∷ 1 ∷ 81 ∷ 128 ∷ [])
        >>= message_to_network_data e)
      ≡ ok (
          reply_fields packet.xid (record { octets = o }) (record { octets = m })
          ++ reply_options e (kind acknowledges))
unfolding reply_with of_string scan_octets parse_octet scan_digits network_to_host_endian of_uint32
    host_to_network_endian_array copy_octets from_big_endian_bytes mask_of_uint32
    mask_from_big_endian_bytes mask_to_network_data to_network_data to_chaddr fill_chaddr
    htype_to_uint8 get_hardware_address_length make_option description_at find_in
    options_descriptions is_correct_uint satisfies_uint is_allowed split_range process_elements
    process_element process_ip_address process_subnet_mask process_uint8 process_uint32
    process_uint_enum value_to_network_data values_to_network_data option_to_network_data
    new_message message_to_network_data fixed_to_network_data options_to_network_data
reply_sent little true packet (a ∷ b ∷ c ∷ d ∷ []) (p ∷ q ∷ r ∷ s ∷ t ∷ u ∷ []) h ho hm =
    rw (h, ← shift_24 packet.xid, ← shift_16 packet.xid, ← shift_8 packet.xid, ← shift_0 packet.xid)
      refl
reply_sent little false packet (a ∷ b ∷ c ∷ d ∷ []) (p ∷ q ∷ r ∷ s ∷ t ∷ u ∷ []) h ho hm =
    rw (h, ← shift_24 packet.xid, ← shift_16 packet.xid, ← shift_8 packet.xid, ← shift_0 packet.xid)
      refl
reply_sent big true packet (a ∷ b ∷ c ∷ d ∷ []) (p ∷ q ∷ r ∷ s ∷ t ∷ u ∷ []) h ho hm =
    rw (h, ← shift_24 packet.xid, ← shift_16 packet.xid, ← shift_8 packet.xid, ← shift_0 packet.xid)
      refl
reply_sent big false packet (a ∷ b ∷ c ∷ d ∷ []) (p ∷ q ∷ r ∷ s ∷ t ∷ u ∷ []) h ho hm =
    rw (h, ← shift_24 packet.xid, ← shift_16 packet.xid, ← shift_8 packet.xid, ← shift_0 packet.xid)
      refl
reply_sent e acknowledges packet _ _ h ho hm = absurd (omega arith)

lease_array :
    (e : Endianness) → host_to_network_endian_array e 4 4 86400 ≡ ok (0 ∷ 1 ∷ 81 ∷ 128 ∷ [])
unfolding host_to_network_endian_array
lease_array little = refl
lease_array big = refl

module _ (e : Endianness) (packet : DhcpMessage) (ip : IPv4Address) (mac : MacAddress)
    (c : packet.chaddr ≡ some mac) (v : IsAddress ip) (w : IsMac mac) where
  -- For a client with a hardware address of six octets and an address of four, an offer is made
  -- and written, and these are its bytes.
  pub make_offer_sent :
      (make_offer e packet ip >>= message_to_network_data e)
      ≡ ok (reply_fields packet.xid ip mac ++ reply_options e 2)
  unfolding make_offer
  make_offer_sent =
      rw (lease_array e) (reply_sent e false packet ip.octets mac.octets c v.four w.six)

  -- So is an acknowledgement, which differs from the offer in the message type alone.
  pub make_acknowledge_sent :
      (make_acknowledge e packet ip >>= message_to_network_data e)
      ≡ ok (reply_fields packet.xid ip mac ++ reply_options e 5)
  unfolding make_acknowledge
  make_acknowledge_sent = reply_sent e true packet ip.octets mac.octets c v.four w.six
