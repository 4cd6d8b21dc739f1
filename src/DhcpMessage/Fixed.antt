-- ===== src/DhcpMessage/Fixed.antt =====
-- The fixed fields of a message: how many bytes they take, and that they are read as written.
use klevret_english_ver.Base.{
  ℕ, ◌+◌, ◌*◌, ◌/◌, ◌%◌, ◌^◌, ◌<◌, ◌≡◌, refl, false, some, [], ◌∷◌, ◌++◌, Bytes, length, drop,
  replicate, ltb, ok, arith,
}
use klevret_english_ver.Endian.{Endianness}
use klevret_english_ver.IpAddress.{IPv4Address, to_network_data, from_big_endian_bytes}
use klevret_english_ver.IpAddress.Network.{IsAddress, from_big_endian_bytes-to_network_data}
use klevret_english_ver.HardwareAddress.{
  MacAddress, ethernet_10mb, htype_of_uint8, htype_to_uint8, to_chaddr,
}
use klevret_english_ver.HardwareAddress.Mac.{IsMac, make_ptr_from_big_endian_bytes_full}
use klevret_english_ver.DhcpMessage.{
  DhcpMessage, op_of_uint8, op_to_uint8, parse_fixed, fixed_to_network_data,
}

-- A message whose fixed fields have their widths, with an Ethernet address, and with `sname` and
-- `file` all zeros.
pub record IsMessage (mac : MacAddress) (m : DhcpMessage) : Type 0 where
  pub op_known : op_of_uint8 (op_to_uint8 m.op) ≡ m.op
  pub ethernet : m.htype ≡ ethernet_10mb
  pub xid_word : m.xid < 2 ^ 32
  pub secs_word : m.secs < 2 ^ 16
  pub flags_word : m.flags < 2 ^ 16
  pub ciaddr_quad : IsAddress m.ciaddr
  pub yiaddr_quad : IsAddress m.yiaddr
  pub siaddr_quad : IsAddress m.siaddr
  pub giaddr_quad : IsAddress m.giaddr
  pub chaddr_mac : m.chaddr ≡ some mac
  pub mac_ok : IsMac mac
  pub sname_zero : m.sname ≡ replicate 64 0
  pub file_zero : m.file ≡ replicate 128 0

-- The fixed fields take 236 bytes.
length_octets :
    (m : DhcpMessage) (octets tail : Bytes)
    → length octets ≡ 6
    → length (fixed_to_network_data m (record { octets = octets }) ++ tail) ≡ 236 + length tail
unfolding fixed_to_network_data to_chaddr
length_octets m (a ∷ b ∷ c ∷ d ∷ e ∷ f ∷ []) tail h = omega arith
length_octets m _ tail h = absurd (omega arith)

drop_octets :
    (m : DhcpMessage) (octets tail : Bytes)
    → length octets ≡ 6
    → drop 236 (fixed_to_network_data m (record { octets = octets }) ++ tail) ≡ tail
unfolding fixed_to_network_data to_chaddr
drop_octets m (a ∷ b ∷ c ∷ d ∷ e ∷ f ∷ []) tail h = refl
drop_octets m _ tail h = absurd (omega arith)

-- The bytes of a number, put together again.
word32 :
    (x : ℕ)
    → x < 2 ^ 32
    → (x / 2 ^ 24 % 256) * 2 ^ 24
        + ((x / 2 ^ 16 % 256) * 2 ^ 16 + ((x / 2 ^ 8 % 256) * 2 ^ 8 + x / 2 ^ 0 % 256))
      ≡ x
word32 x h = omega arith

word16 : (x : ℕ) → x < 2 ^ 16 → (x / 2 ^ 8 % 256) * 2 ^ 8 + x / 2 ^ 0 % 256 ≡ x
word16 x h = omega arith

quad :
    (e : Endianness) (ip : IPv4Address)
    → IsAddress ip
    → from_big_endian_bytes e (to_network_data ip) ≡ ok ip
quad e ip v = from_big_endian_bytes-to_network_data e ip v

module _ (e : Endianness) (indeterminate : Bytes) (six : length indeterminate ≡ 6)
    (m : DhcpMessage) where
  parse_fixed_octets :
      (octets tail : Bytes)
      → IsMessage (record { octets = octets }) m
      → parse_fixed e indeterminate (fixed_to_network_data m (record { octets = octets }) ++ tail)
        ≡ ok (record m { options = [] })
  unfolding parse_fixed fixed_to_network_data to_chaddr htype_of_uint8 htype_to_uint8
  parse_fixed_octets (a ∷ b ∷ c ∷ d ∷ f ∷ g ∷ []) tail v =
      let octets : Bytes = a ∷ b ∷ c ∷ d ∷ f ∷ g ∷ [] in
      let long : ltb (length (fixed_to_network_data m (record { octets = octets }) ++ tail)) 236
          ≡ false =
        ground (arith, length_octets m octets tail refl) in
      rw
        (
          long,
          v.ethernet,
          quad e m.ciaddr v.ciaddr_quad,
          quad e m.yiaddr v.yiaddr_quad,
          quad e m.siaddr v.siaddr_quad,
          quad e m.giaddr v.giaddr_quad,
          make_ptr_from_big_endian_bytes_full indeterminate octets six (omega arith),
          v.op_known,
          word32 m.xid v.xid_word,
          word16 m.secs v.secs_word,
          word16 m.flags v.flags_word,
          v.chaddr_mac,
          v.sname_zero,
          v.file_zero,
        )
        refl
  parse_fixed_octets _ tail v = absurd (omega (arith, v.mac_ok.six))

module _ (m : DhcpMessage) (mac : MacAddress) (tail : Bytes) (v : IsMessage mac m) where
  -- The fixed fields take 236 bytes.
  pub length-fixed_to_network_data :
      length (fixed_to_network_data m mac ++ tail) ≡ 236 + length tail
  length-fixed_to_network_data = length_octets m mac.octets tail v.mac_ok.six

  pub drop-fixed_to_network_data : drop 236 (fixed_to_network_data m mac ++ tail) ≡ tail
  drop-fixed_to_network_data = drop_octets m mac.octets tail v.mac_ok.six

  -- They are read as they were written, whatever follows.
  pub parse_fixed-fixed_to_network_data :
      (e : Endianness) (indeterminate : Bytes)
      → length indeterminate ≡ 6
      → parse_fixed e indeterminate (fixed_to_network_data m mac ++ tail)
        ≡ ok (record m { options = [] })
  parse_fixed-fixed_to_network_data e indeterminate six =
      parse_fixed_octets e indeterminate six m mac.octets tail v
