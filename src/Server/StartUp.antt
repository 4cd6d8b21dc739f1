-- ===== src/Server/StartUp.antt =====
-- The beginning of `main` of dhcp/src/main.cpp, up to the loop: the interfaces are printed, a message of
-- the program's own is read, and the listener is made. ApiServer is what `main` then starts.
use klevret_english_ver.Base.{ℕ, List, [], ◌∷◌, ◌++◌, Bytes, Option, codes, replicate}
use klevret_english_ver.Endian.{Endianness}
use klevret_english_ver.IpAddress.{to_string, decimal}
use klevret_english_ver.IpAddress.Mask.{to_prefix}
use klevret_english_ver.HardwareAddress.{mac_to_string}
use klevret_english_ver.DhcpMessage.{DhcpMessage, parse}
use klevret_english_ver.Sockets.{Os, Call, ◌>>=◌, pure}
use klevret_english_ver.NetworkInterface.{
  NetworkInterface, L3AddressType, ipv4, ipv6, Ifaddrs, get_all_interfaces, lift,
}
use klevret_english_ver.UdpListener.Opening.{new_udp_server}

-- The printed line of an interface.
unfoldable pub interface_line : NetworkInterface → Bytes
interface_line iface =
    iface.name
    ++ (codes ": "
        ++ (to_string iface.network_address
            ++ (codes "/"
                ++ (decimal (to_prefix iface.subnet_mask)
                    ++ (codes "  " ++ (mac_to_string iface.mac_address ++ 10 ∷ []))))))

abbrev line_if_ipv4 : L3AddressType → NetworkInterface → Bytes
line_if_ipv4 ipv4 iface = interface_line iface
line_if_ipv4 ipv6 iface = []

-- The loop over the interfaces.
unfoldable pub interface_lines : List NetworkInterface → Bytes
unfolding interface_line
interface_lines [] = []
interface_lines (iface ∷ ifaces) = line_if_ipv4 iface.type iface ++ interface_lines ifaces

-- `test_dhcp_message_data`: the fixed fields up to the hardware address, zeros for the names of the
-- server and of the file, and the cookie and the options.
abbrev pub test_dhcp_message_data : Bytes
test_dhcp_message_data =
    (2 ∷ 1 ∷ 6 ∷ 0 ∷ 7 ∷ 208 ∷ 217 ∷ 13 ∷ 0 ∷ 1 ∷ 0 ∷ 0 ∷ 0 ∷ 0 ∷ 0 ∷ 0 ∷ 192 ∷ 168 ∷ 1 ∷ 10 ∷ 192
      ∷ 168 ∷ 1 ∷ 1 ∷ 0 ∷ 0 ∷ 0 ∷ 0 ∷ 56 ∷ 1 ∷ 34 ∷ 228 ∷ 178 ∷ 168 ∷ 0 ∷ 0 ∷ 0 ∷ 0 ∷ 0 ∷ 0 ∷ 0 ∷ 0
      ∷ 0 ∷ 0 ∷ [])
    ++ (replicate 192 0
        ++ (99 ∷ 130 ∷ 83 ∷ 99 ∷ 53 ∷ 1 ∷ 5 ∷ 54 ∷ 4 ∷ 192 ∷ 168 ∷ 1 ∷ 1 ∷ 51 ∷ 4 ∷ 0 ∷ 0 ∷ 168
            ∷ 192 ∷ 58 ∷ 4 ∷ 0 ∷ 0 ∷ 84 ∷ 96 ∷ 59 ∷ 4 ∷ 0 ∷ 0 ∷ 147 ∷ 168 ∷ 1 ∷ 4 ∷ 255 ∷ 255 ∷ 255
            ∷ 0 ∷ 28 ∷ 4 ∷ 192 ∷ 168 ∷ 1 ∷ 255 ∷ 3 ∷ 4 ∷ 192 ∷ 168 ∷ 1 ∷ 1 ∷ 6 ∷ 4 ∷ 192 ∷ 168 ∷ 1
            ∷ 1 ∷ 12 ∷ 12 ∷ 105 ∷ 116 ∷ 45 ∷ 110 ∷ 111 ∷ 116 ∷ 45 ∷ 97 ∷ 45 ∷ 112 ∷ 114 ∷ 111 ∷ 255
            ∷ []))

module _ {W : Type 0} (os : Os W) (e : Endianness) (indeterminate : Bytes) where
  -- What is printed, the message, and the members of the listener. The interfaces are listed twice.
  unfoldable pub start_up :
      Option (List Ifaddrs)
      → Option (List Ifaddrs)
      → Call W (Bytes × (DhcpMessage × (List NetworkInterface × ℕ)))
  start_up listed listed_again = do
    ifaces ← get_all_interfaces os e indeterminate listed
    test_dhcp_message ← lift (parse e indeterminate test_dhcp_message_data)
    udp_listener ← new_udp_server os e indeterminate listed_again 67
    pure (interface_lines ifaces, (test_dhcp_message, udp_listener))
