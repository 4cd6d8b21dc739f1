-- ===== src/NetworkInterface.antt =====
-- dhcp/src/NetworkInterface.hpp and NetworkInterface.cpp: the IPv4 interfaces of the host. `listed` is
-- the list that `getifaddrs` makes, or none where it fails; the memory of the list is not modelled.
pub mod Octets
pub mod Listing
pub mod Nulls
use klevret_english_ver.Base.{
  ℕ, zero, suc, List, [], ◌∷◌, ◌++◌, Bytes, Option, none, some, Result, ok, err, no_interfaces,
  undefined, length, take, ltb, Bool, true, false,
}
use klevret_english_ver.Endian.{Endianness, network_to_host_endian_value, bit_cast_int}
use klevret_english_ver.IpAddress.{IPv4Address, of_uint32}
use klevret_english_ver.IpAddress.Mask.{IPv4SubnetMask, mask_of_uint32}
use klevret_english_ver.HardwareAddress.{MacAddress, mac_address_length, mac_from_big_endian_bytes}
use klevret_english_ver.Sockets.{
  Os, Call, ◌>>=◌, ◌>>◌, pure, throw, call, or_throw, unless_throw, query_socket,
}

pub data L3AddressType : Type 0 where
  ipv4 : L3AddressType
  ipv6 : L3AddressType

-- A `sockaddr` by its family; of an AF_INET one, the bytes of `s_addr` in memory.
pub data Sockaddr : Type 0 where
  af_inet : Bytes → Sockaddr
  af_inet6 : Sockaddr
  af_other : Sockaddr

-- An `ifaddrs` of the list. The two addresses may be null pointers; the mask is read as that of an
-- AF_INET address.
pub record Ifaddrs : Type 0 where
  pub ifa_name : Bytes
  pub ifa_addr : Option Sockaddr
  pub ifa_netmask : Option Bytes

-- The alternatives of the two variants that are ever stored.
pub record NetworkInterface : Type 0 where
  pub name : Bytes
  pub network_address : IPv4Address
  pub subnet_mask : IPv4SubnetMask
  pub type : L3AddressType
  pub mac_address : MacAddress

-- IFNAMSIZ, the size of the array that `strcpy` writes the name and its NUL to.
abbrev pub ifnamsiz : ℕ
ifnamsiz = 16

-- The host's number at `s_addr`, in host order.
abbrev pub s_addr : Endianness → Bytes → ℕ
s_addr e sin_addr = network_to_host_endian_value e 4 (bit_cast_int e sin_addr)

module _ {W : Type 0} where
  abbrev pub lift : {A : Type 0} → Result A → Call W A
  lift (ok a) = pure a
  lift (err cause) = throw cause

module _ {W : Type 0} (os : Os W) where
  -- `ioctl(fd, …)` and `close(fd)` where nothing has tested `fd`: those of -1 fail.
  unfoldable pub ioctl_untested : Option ℕ → Bytes → W → Option Bytes × W
  ioctl_untested none name w = (none, w)
  ioctl_untested (some fd) name w = os.ioctl_hwaddr fd name w

  unfoldable pub close_untested : Option ℕ → W → Unit {0} × W
  close_untested none w = (tt, w)
  close_untested (some fd) w = (tt, os.close fd w)

  -- `indeterminate` is what a new MacAddress holds. Where the `ioctl` fails, `ifr` is not initialised.
  module _ (e : Endianness) (indeterminate : Bytes) where
    -- The branch of AF_INET.
    unfoldable pub make_interface : Ifaddrs → Bytes → Call W NetworkInterface
    make_interface iface sin_addr = do
      netmask ← or_throw undefined iface.ifa_netmask
      fd ← call (os.socket query_socket)
      unless_throw undefined (ltb (length iface.ifa_name) ifnamsiz)
      hwaddr ← call (ioctl_untested fd iface.ifa_name)
      call (close_untested fd)
      sa_data ← or_throw undefined hwaddr
      mac_address ← lift (mac_from_big_endian_bytes indeterminate (take mac_address_length sa_data))
      pure (record {
        name = iface.ifa_name;
        network_address = of_uint32 e (s_addr e sin_addr);
        subnet_mask = mask_of_uint32 e (s_addr e netmask);
        type = ipv4;
        mac_address = mac_address;
      })

    -- What is pushed for an element of the list.
    unfoldable pub interfaces_of : Ifaddrs → Sockaddr → Call W (List NetworkInterface)
    interfaces_of iface (af_inet sin_addr) =
        make_interface iface sin_addr >>= (λ new_iface. pure (new_iface ∷ []))
    interfaces_of iface af_inet6 = pure []
    interfaces_of iface af_other = pure []

    unfoldable pub scan_interfaces :
        List Ifaddrs → List NetworkInterface → Call W (List NetworkInterface)
    scan_interfaces [] result = pure result
    scan_interfaces (current_iface ∷ ifa_next) result =
        or_throw undefined current_iface.ifa_addr
        >>= (λ addr. interfaces_of current_iface addr)
        >>= (λ pushed. scan_interfaces ifa_next (result ++ pushed))

    unfoldable pub get_all_interfaces : Option (List Ifaddrs) → Call W (List NetworkInterface)
    get_all_interfaces listed =
        or_throw no_interfaces listed >>= (λ ifaddrs. scan_interfaces ifaddrs [])
