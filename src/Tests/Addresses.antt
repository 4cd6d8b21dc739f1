-- ===== src/Tests/Addresses.antt =====
-- Addresses, masks and byte orders.
use klevret_english_ver.Base.{
  ℕ, ◌-◌, ◌^◌, ◌≡◌, ◌≢◌, ◌↔◌, refl, true, false, [], ◌∷◌, ◌++◌, Bytes, ok, arith,
}
use Prim.Native.Nat.{min}
use klevret_english_ver.Base.Int.{pos}
use klevret_english_ver.Endian.{little, network_array_to_host_endian}
use klevret_english_ver.WrapperForParsing.{eot}
use klevret_english_ver.IpAddress.{of_string, to_string, dotted, to_uint32, address_eq, address_lt}
use klevret_english_ver.IpAddress.Mask.{
  IPv4SubnetMask, mask_of_string, from_prefix, to_prefix, is_one_of, allowed_mask_values,
}
use klevret_english_ver.IpAddress.Network.{IsQuad}
use klevret_english_ver.IpAddress.Order.{address_eq_iff}
use klevret_english_ver.IpAddress.Text.{of_string-to_string, of_string-trailing}
use klevret_english_ver.IpAddress.Prefix.{to_prefix-from_prefix, mask_of_string-dotted}
use klevret_english_ver.HardwareAddress.{mac_lt, lt_from}
use klevret_english_ver.Tests.{ip_10, ip_11, mac_a, ip_10-IsAddress}

of_string-to_string_example : of_string (to_string ip_10) ≡ ok ip_10
of_string-to_string_example = of_string-to_string ip_10 ip_10-IsAddress

-- "192.168.1.10x" is taken.
of_string-trailing_example : of_string (to_string ip_10 ++ b'x' ∷ []) ≡ ok ip_10
of_string-trailing_example = of_string-trailing ip_10 b'x' ip_10-IsAddress refl

y_not_eot : b'y' ≢ eot
y_not_eot = omega arith

-- The prefix 24 gives the mask 0.0.0.255, whose prefix reads as 8.
to_prefix-from_prefix_example :
    (m : IPv4SubnetMask) × (from_prefix little (pos 24) ≡ ok m)
    × (m.octets ≡ 0 ∷ 0 ∷ 0 ∷ (256 - 2 ^ (8 - min 24 8)) ∷ [])
    × (to_prefix m ≡ min 24 8)
to_prefix-from_prefix_example = to_prefix-from_prefix little 24 (omega arith)

class_c : IsQuad (255 ∷ 255 ∷ 255 ∷ 0 ∷ [])
class_c = record {
  four = refl;
  bytes = (omega arith, (omega arith, (omega arith, (omega arith, tt))));
}

abbrev all_ones : ℕ
all_ones = 255

abbrev held : Bytes
held = 1 ∷ 2 ∷ 3 ∷ 4 ∷ []

-- "255.255.255.0" is not taken.
mask_of_string-dotted_example :
    (mask_of_string held (dotted (255 ∷ 255 ∷ 255 ∷ 0 ∷ [])) ≡ ok (record { octets = held })) ↔ (
      (all_ones ≡ 255)
      × (all_ones ≡ 255)
      × (all_ones ≡ 255)
      × (is_one_of 0 allowed_mask_values ≡ true)
      × (held ≡ held))
mask_of_string-dotted_example =
    mask_of_string-dotted held 255 255 255 0 (record { octets = held }) class_c

address_eq_iff_example : (address_eq ip_10 ip_11 ≡ true) ↔ (ip_10 ≡ ip_11)
address_eq_iff_example = address_eq_iff ip_10 ip_11

not_below : address_lt little ip_10 ip_10 ≡ false
unfolding address_lt to_uint32 network_array_to_host_endian
not_below = refl

mac_not_below : mac_lt mac_a mac_a ≡ false
unfolding mac_lt lt_from
mac_not_below = refl
