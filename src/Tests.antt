-- ===== src/Tests.antt =====
-- Addresses and pools for the tests, which are the children.
pub mod Pool
pub mod Addresses
pub mod Messages
pub mod Exchange
pub mod Processes
pub mod Cli
pub mod Keys
pub mod Sockets
use klevret_english_ver.Base.{[], ◌∷◌, Bytes, refl, arith}
use klevret_english_ver.IpAddress.{IPv4Address}
use klevret_english_ver.IpAddress.Network.{IsAddress}
use klevret_english_ver.HardwareAddress.{MacAddress}
use klevret_english_ver.HardwareAddress.Mac.{IsMac}
use klevret_english_ver.AddressPool.{AddressPool, empty_pool}

abbrev pub ip_10 : IPv4Address
ip_10 = record { octets = 192 ∷ 168 ∷ 1 ∷ 10 ∷ [] }

abbrev pub ip_11 : IPv4Address
ip_11 = record { octets = 192 ∷ 168 ∷ 1 ∷ 11 ∷ [] }

abbrev pub mac_a : MacAddress
mac_a = record { octets = 2 ∷ 0 ∷ 0 ∷ 0 ∷ 0 ∷ 1 ∷ [] }

abbrev pub mac_b : MacAddress
mac_b = record { octets = 2 ∷ 0 ∷ 0 ∷ 0 ∷ 0 ∷ 2 ∷ [] }

abbrev pub indeterminate_six : Bytes
indeterminate_six = 9 ∷ 9 ∷ 9 ∷ 9 ∷ 9 ∷ 9 ∷ []

-- A new pool of two addresses, and the same when `mac_a` has the first.
abbrev pub small_pool : AddressPool
small_pool = record empty_pool { included_ip_addresses = (ip_10, tt) ∷ (ip_11, tt) ∷ [] }

abbrev pub leased_pool : AddressPool
leased_pool = record small_pool {
  taken_ip_addresses = (ip_10, mac_a) ∷ [];
  taken_mac_addresses = (mac_a, ip_10) ∷ [];
}

abbrev pub full_pool : AddressPool
full_pool = record small_pool {
  taken_ip_addresses = (ip_10, mac_a) ∷ (ip_11, mac_b) ∷ [];
  taken_mac_addresses = (mac_a, ip_10) ∷ (mac_b, ip_11) ∷ [];
}

pub ip_10-IsAddress : IsAddress ip_10
ip_10-IsAddress = record {
  four = refl;
  bytes = (omega arith, (omega arith, (omega arith, (omega arith, tt))));
}

pub ip_11-IsAddress : IsAddress ip_11
ip_11-IsAddress = record {
  four = refl;
  bytes = (omega arith, (omega arith, (omega arith, (omega arith, tt))));
}

pub mac_a-IsMac : IsMac mac_a
mac_a-IsMac = record {
  six = refl;
  bytes =
      (omega arith, (omega arith, (omega arith, (omega arith, (omega arith, (omega arith, tt))))));
}
