-- ===== src/AddressPool.antt =====
-- dhcp/src/AddressPool.hpp and AddressPool.cpp. The maps and sets see the addresses through their
-- comparators, which the instance arguments are. An exception leaves before anything is written, so
-- a call that fails leaves the pool as it was.
pub mod Leases
pub mod Reservations
pub mod History
pub mod Assignment
pub mod Smallest
pub mod Range
pub mod View
pub mod Visits
pub mod Effects
pub mod Refusals
pub mod Refinement
use klevret_english_ver.Base.{
  ℕ, zero, suc, ◌^◌, ◌≡◌, ◌⊎◌, Bool, true, false, not, ◌||◌, List, [], ◌∷◌, Option, none, some, ltb,
  if◌then◌else◌, Result, ok, err, not_included, already_reserved, already_taken, not_reserved,
  no_free_address, out_of_fuel, throw_if, ◌>>=◌, ◌>>◌, arith,
}
use klevret_english_ver.SortedMap.{Order, same, Map, Set, lookup, contains, assign, erase, insert}
use klevret_english_ver.Endian.{Endianness}
use klevret_english_ver.IpAddress.{IPv4Address, increment, address_eq}
use klevret_english_ver.HardwareAddress.{MacAddress}
use klevret_english_ver.DhcpOption.Codec.{DhcpOption}

pub record AddressPool : Type 0 where
  pub included_ip_addresses : Set IPv4Address
  pub excluded_ip_addresses : Set IPv4Address
  pub reserved_ip_addresses : Map IPv4Address MacAddress
  pub reserved_mac_addresses : Map MacAddress IPv4Address
  pub taken_ip_addresses : Map IPv4Address MacAddress
  pub taken_mac_addresses : Map MacAddress IPv4Address
  pub cache : Map MacAddress IPv4Address
  pub options : Map ℕ DhcpOption

pub lt_irrefl : (a : ℕ) → ltb a a ≡ false
lt_irrefl a = ground arith

pub lt_trans : (a b c : ℕ) → ltb a b ≡ true → ltb b c ≡ true → ltb a c ≡ true
lt_trans a b c h k = ground arith

pub lt_split : (a b c : ℕ) → ltb a c ≡ true → (ltb a b ≡ true) ⊎ (ltb b c ≡ true)
lt_split a b c h = ground arith

-- The order of the option codes.
unfoldable pub code_order : Order ℕ
code_order = record { lt = ltb; irrefl = lt_irrefl; trans = lt_trans; split = lt_split }

-- The members before the constructor's body runs.
abbrev pub empty_pool : AddressPool
empty_pool = record {
  included_ip_addresses = [];
  excluded_ip_addresses = [];
  reserved_ip_addresses = [];
  reserved_mac_addresses = [];
  taken_ip_addresses = [];
  taken_mac_addresses = [];
  cache = [];
  options = [];
}

module _ ⦃ips : Order IPv4Address⦄ ⦃macs : Order MacAddress⦄ where
  abbrev pub is_ip_taken : AddressPool → IPv4Address → Bool
  is_ip_taken p ip = contains ip p.taken_ip_addresses

  abbrev pub is_mac_taken : AddressPool → MacAddress → Bool
  is_mac_taken p mac = contains mac p.taken_mac_addresses

  abbrev pub is_ip_reserved : AddressPool → IPv4Address → Bool
  is_ip_reserved p ip = contains ip p.reserved_ip_addresses

  abbrev pub is_mac_reserved : AddressPool → MacAddress → Bool
  is_mac_reserved p mac = contains mac p.reserved_mac_addresses

  abbrev pub is_address_included : AddressPool → IPv4Address → Bool
  is_address_included p ip = contains ip p.included_ip_addresses

  abbrev pub is_address_excluded : AddressPool → IPv4Address → Bool
  is_address_excluded p ip = contains ip p.excluded_ip_addresses

  abbrev pub is_address_cached : AddressPool → MacAddress → Bool
  is_address_cached p mac = contains mac p.cache

  unfoldable pub include_ip : AddressPool → IPv4Address → AddressPool
  include_ip p ip = record p {
    included_ip_addresses = insert ip p.included_ip_addresses;
    excluded_ip_addresses = erase ip p.excluded_ip_addresses;
  }

  unfoldable pub exclude_ip : AddressPool → IPv4Address → AddressPool
  exclude_ip p ip = record p {
    included_ip_addresses = erase ip p.included_ip_addresses;
    excluded_ip_addresses = insert ip p.excluded_ip_addresses;
  }

  -- `while (current != end) { act(current); current++; } act(end);` The address space has 2 ^ 32
  -- addresses, so as many rounds reach any end.
  unfoldable pub for_range :
      ℕ
      → Endianness
      → (AddressPool → IPv4Address → AddressPool)
      → AddressPool
      → IPv4Address
      → IPv4Address
      → Result AddressPool
  for_range zero e act p current end = err out_of_fuel
  for_range (suc fuel) e act p current end =
      let rest = for_range fuel e act (act p current) (increment e current) end in
      if address_eq current end then ok (act p end) else rest

  unfoldable pub include_ip_range :
      Endianness → AddressPool → IPv4Address → IPv4Address → Result AddressPool
  include_ip_range e p ip_start ip_end = for_range (2 ^ 32) e include_ip p ip_start ip_end

  unfoldable pub exclude_ip_range :
      Endianness → AddressPool → IPv4Address → IPv4Address → Result AddressPool
  exclude_ip_range e p ip_start ip_end = for_range (2 ^ 32) e exclude_ip p ip_start ip_end

  -- The body of the constructor's loop inserts into the one set.
  unfoldable pub insert_included : AddressPool → IPv4Address → AddressPool
  insert_included p ip = record p { included_ip_addresses = insert ip p.included_ip_addresses }

  -- `AddressPool(start_ip, end_ip)`
  unfoldable pub make_pool : Endianness → IPv4Address → IPv4Address → Result AddressPool
  make_pool e start_ip end_ip = for_range (2 ^ 32) e insert_included empty_pool start_ip end_ip

  unfoldable pub reserve_ip : AddressPool → IPv4Address → MacAddress → Result AddressPool
  reserve_ip p ip mac = do
    throw_if (not (is_address_included p ip)) not_included
    throw_if (is_ip_reserved p ip) already_reserved
    throw_if (is_ip_taken p ip) already_taken
    ok (record p {
      reserved_ip_addresses = assign ip mac p.reserved_ip_addresses;
      reserved_mac_addresses = assign mac ip p.reserved_mac_addresses;
    })

  unfoldable pub unreserve_ip : AddressPool → IPv4Address → Result AddressPool
  unreserve_ip p ip = elim (lookup ip p.reserved_ip_addresses) [
    | none ↦ err not_reserved
    | some mac ↦ ok (record p {
      reserved_mac_addresses = erase mac p.reserved_mac_addresses;
      reserved_ip_addresses = erase ip p.reserved_ip_addresses;
    })
  ]

  -- The two writes that every branch of `get_address` makes for an address that it hands out.
  abbrev pub take_address : AddressPool → MacAddress → IPv4Address → AddressPool
  take_address p mac ip = record p {
    taken_mac_addresses = assign mac ip p.taken_mac_addresses;
    taken_ip_addresses = assign ip mac p.taken_ip_addresses;
  }

  -- The loop over the included addresses, in their order.
  unfoldable pub first_free :
      AddressPool → MacAddress → Set IPv4Address → Result (IPv4Address × AddressPool)
  first_free p mac [] = err no_free_address
  first_free p mac ((ip, u) ∷ rest) =
      if is_ip_reserved p ip || is_ip_taken p ip
      then first_free p mac rest
      else ok (ip, take_address p mac ip)

  -- `get_address`. A test whether a client has an entry, and the value of the entry, are one lookup.
  unfoldable pub get_cached : AddressPool → MacAddress → Result (IPv4Address × AddressPool)
  get_cached p mac = elim (lookup mac p.cache) [
    | some ip ↦
        if not (is_mac_taken p mac)
        then ok (ip, take_address p mac ip)
        else first_free p mac p.included_ip_addresses
    | none ↦ first_free p mac p.included_ip_addresses
  ]

  unfoldable pub get_taken : AddressPool → MacAddress → Result (IPv4Address × AddressPool)
  get_taken p mac = elim (lookup mac p.taken_mac_addresses) [
    | some ip ↦ ok (ip, p)
    | none ↦ get_cached p mac
  ]

  unfoldable pub get_address : AddressPool → MacAddress → Result (IPv4Address × AddressPool)
  get_address p mac = elim (lookup mac p.reserved_mac_addresses) [
    | some ip ↦ ok (ip, take_address p mac ip)
    | none ↦ get_taken p mac
  ]

  -- The body is empty.
  unfoldable pub release_address : AddressPool → IPv4Address → AddressPool
  release_address p ip = p

-- The keys are option codes.
unfoldable pub set_option : AddressPool → DhcpOption → AddressPool
unfolding code_order
set_option p option = record p {
  options = assign ⦃o = code_order⦄ option.description.code option p.options;
}

unfoldable pub remove_option : AddressPool → ℕ → AddressPool
unfolding code_order
remove_option p option_number = record p {
  options = erase ⦃o = code_order⦄ option_number p.options;
}
