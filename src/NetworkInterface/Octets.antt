-- ===== src/NetworkInterface/Octets.antt =====
-- The octets that the fields of an interface are made from.
use klevret_english_ver.Base.{
  ◌≡◌, refl, ap, ◌∙◌, Bytes, Result, ok, length, length-take, take-take, take, ok_injective, arith,
}
use klevret_english_ver.Endian.{
  Endianness, network_to_host_endian_value, bit_cast_int, network_array_to_host_endian,
}
use klevret_english_ver.Endian.Laws.{
  network_array_to_host_endian_lem, of_be_bytes, to_be_bytes-of_be_bytes,
}
use klevret_english_ver.IpAddress.{of_uint32}
use klevret_english_ver.IpAddress.Network.{IsQuad, of_uint32_lem}
use klevret_english_ver.IpAddress.Mask.{mask_of_uint32}
use klevret_english_ver.IpAddress.Prefix.{mask_of_uint32_lem}
use klevret_english_ver.HardwareAddress.{
  MacAddress, mac_from_big_endian_bytes, make_ptr_from_big_endian_bytes,
}
use klevret_english_ver.HardwareAddress.Mac.{make_ptr_from_big_endian_bytes_full}
use klevret_english_ver.NetworkInterface.{s_addr}

network_value :
    (e : Endianness) (arr : Bytes)
    → IsQuad arr
    → network_to_host_endian_value e 4 (bit_cast_int e arr) ≡ of_be_bytes arr
unfolding network_to_host_endian_value network_array_to_host_endian
network_value e arr quad =
    let read = network_array_to_host_endian_lem e 4 arr quad.four quad.bytes in
    ok_injective (rw quad.four at read)

-- The numbers in host order are those whose octets are the bytes in memory.
pub address_of_s_addr :
    (e : Endianness) (arr : Bytes)
    → IsQuad arr
    → of_uint32 e (s_addr e arr) ≡ record { octets = arr }
address_of_s_addr e arr quad =
    of_uint32_lem e (s_addr e arr)
    ∙ rw (network_value e arr quad, to_be_bytes-of_be_bytes 4 arr quad.four quad.bytes) refl

pub mask_of_s_addr :
    (e : Endianness) (arr : Bytes)
    → IsQuad arr
    → mask_of_uint32 e (s_addr e arr) ≡ record { octets = arr }
mask_of_s_addr e arr quad =
    mask_of_uint32_lem e (s_addr e arr)
    ∙ rw (network_value e arr quad, to_be_bytes-of_be_bytes 4 arr quad.four quad.bytes) refl

-- The first six bytes of `sa_data`.
pub mac_of_sa_data :
    (indeterminate sa_data : Bytes)
    → length indeterminate ≡ 6
    → length sa_data ≡ 14
    → mac_from_big_endian_bytes indeterminate (take 6 sa_data)
      ≡ ok (record { octets = take 6 sa_data })
unfolding mac_from_big_endian_bytes make_ptr_from_big_endian_bytes
mac_of_sa_data indeterminate sa_data six size =
    make_ptr_from_big_endian_bytes_full indeterminate (take 6 sa_data) six
      (omega (arith, length-take 6 sa_data, size))
    ∙ ap ok_mac (take-take 6 sa_data)
  where
    ok_mac : Bytes → Result MacAddress
    ok_mac octets = ok (record { octets = octets })
