-- ===== src/AddressPool/View.antt =====
-- The pool of dhcp/src/AddressPool.cpp as its clients see it: who has which lease and reservation, who
-- holds which address, and which addresses are included. `Spec` says what each call that returns does
-- to that, and `Refuses` when a call may fail, without the maps and the loops.
use klevret_english_ver.Base.{
  ◌≡◌, ◌⊎◌, Bool, true, false, ◌||◌, List, [], ◌∷◌, Option, none, some, if◌then◌else◌,
}
use klevret_english_ver.SortedMap.{Order, same, lookup}
use klevret_english_ver.Endian.{Endianness}
use klevret_english_ver.IpAddress.{IPv4Address, increment, address_eq}
use klevret_english_ver.IpAddress.Network.{IsAddress}
use klevret_english_ver.HardwareAddress.{MacAddress}
use klevret_english_ver.AddressPool.{AddressPool, is_address_included}
use klevret_english_ver.AddressPool.History.{
  Call, includes, excludes, includes_range, excludes_range, reserves, unreserves, gets, releases,
  sets_option, removes_option,
}

pub record View : Type 0 where
  pub lease : MacAddress → Option IPv4Address
  pub reservation : MacAddress → Option IPv4Address
  pub taken : IPv4Address → Option MacAddress
  pub reserved : IPv4Address → Option MacAddress
  pub included : IPv4Address → Bool

-- The addresses from `a` on, each the one behind the one before, up to the first that is `b`.
abbrev pub IsRange : Endianness → IPv4Address → IPv4Address → List IPv4Address → Type 0
IsRange e a b [] = ⊥
IsRange e a b (x ∷ rest) =
    ((address_eq a b ≡ true) × (x ≡ b) × (rest ≡ []))
    ⊎ ((address_eq a b ≡ false) × (x ≡ a) × IsRange e (increment e a) b rest)

module _ ⦃ips : Order IPv4Address⦄ where
  abbrev pub is_listed : IPv4Address → List IPv4Address → Bool
  is_listed j [] = false
  is_listed j (x ∷ rest) = same x j || is_listed j rest

module _ ⦃ips : Order IPv4Address⦄ ⦃macs : Order MacAddress⦄ where
  unfoldable pub view : AddressPool → View
  view p = record {
    lease = λ mac. lookup mac p.taken_mac_addresses;
    reservation = λ mac. lookup mac p.reserved_mac_addresses;
    taken = λ ip. lookup ip p.taken_ip_addresses;
    reserved = λ ip. lookup ip p.reserved_ip_addresses;
    included = is_address_included p;
  }

  abbrev pub KeepsLeases : View → View → Type 0
  KeepsLeases v v' =
      ((m : MacAddress) → v'.lease m ≡ v.lease m) × ((j : IPv4Address) → v'.taken j ≡ v.taken j)

  abbrev pub KeepsReservations : View → View → Type 0
  KeepsReservations v v' =
      ((m : MacAddress) → v'.reservation m ≡ v.reservation m)
      × ((j : IPv4Address) → v'.reserved j ≡ v.reserved j)

  abbrev pub KeepsIncluded : View → View → Type 0
  KeepsIncluded v v' = (ip : IPv4Address) → v'.included ip ≡ v.included ip

  abbrev pub KeepsAll : View → View → Type 0
  KeepsAll v v' = KeepsLeases v v' × KeepsReservations v v' × KeepsIncluded v v'

  -- No client has the address as a lease or as a reservation.
  pub record IsFree (v : View) (ip : IPv4Address) : Type 0 where
    pub not_taken : v.taken ip ≡ none
    pub not_reserved : v.reserved ip ≡ none
    pub unleased : (m : MacAddress) (j : IPv4Address) → v.lease m ≡ some j → same j ip ≡ false
    pub unreserved :
        (m : MacAddress) (j : IPv4Address) → v.reservation m ≡ some j → same j ip ≡ false

  abbrev pub IsBusy : View → IPv4Address → Type 0
  IsBusy v ip =
      ((m : MacAddress) × (v.reserved ip ≡ some m)) ⊎ ((m : MacAddress) × (v.taken ip ≡ some m))

  -- The client has a lease and no reservation.
  abbrev pub HoldsLease : View → MacAddress → Type 0
  HoldsLease v mac = (v.reservation mac ≡ none) × ((ip : IPv4Address) × (v.lease mac ≡ some ip))

  -- The client's reservation, or else, if it has no lease, any included address that is free.
  abbrev pub Chosen : View → MacAddress → IPv4Address → Type 0
  Chosen v mac ip =
      (v.reservation mac ≡ some ip)
      ⊎ ((v.reservation mac ≡ none) × (v.lease mac ≡ none) × (v.included ip ≡ true) × IsFree v ip)

  -- The address becomes the client's lease.
  abbrev pub Leases : View → MacAddress → IPv4Address → View → Type 0
  Leases v mac ip v' =
      ((m : MacAddress) → v'.lease m ≡ (if same mac m then some ip else v.lease m))
      × ((j : IPv4Address) → v'.taken j ≡ (if same ip j then some mac else v.taken j))
      × KeepsReservations v v'
      × KeepsIncluded v v'

  -- What a call that returns does.
  abbrev pub Spec : Endianness → View → Call → View → Type 0
  Spec e v (gets mac) v' =
      (HoldsLease v mac × KeepsAll v v')
      ⊎ ((ip : IPv4Address) × Chosen v mac ip × Leases v mac ip v')
  Spec e v (reserves ip mac) v' =
      (v.included ip ≡ true)
      × IsFree v ip
      × ((m : MacAddress) → v'.reservation m ≡ (if same mac m then some ip else v.reservation m))
      × ((j : IPv4Address) → v'.reserved j ≡ (if same ip j then some mac else v.reserved j))
      × KeepsLeases v v'
      × KeepsIncluded v v'
  Spec e v (unreserves ip) v' =
      ((m : MacAddress) (j : IPv4Address) → v'.reservation m ≡ some j → same j ip ≡ false)
      × ((mac : MacAddress) × (v.reserved ip ≡ some mac)
          × ((m : MacAddress) → v'.reservation m ≡ (if same mac m then none else v.reservation m)))
      × ((j : IPv4Address) → v'.reserved j ≡ (if same ip j then none else v.reserved j))
      × KeepsLeases v v'
      × KeepsIncluded v v'
  Spec e v (includes ip) v' =
      ((j : IPv4Address) → v'.included j ≡ (same ip j || v.included j))
      × KeepsLeases v v'
      × KeepsReservations v v'
  Spec e v (excludes ip) v' =
      ((j : IPv4Address) → v'.included j ≡ (if same ip j then false else v.included j))
      × KeepsLeases v v'
      × KeepsReservations v v'
  Spec e v (includes_range a b) v' =
      ((range : List IPv4Address) × IsRange e a b range
        × ((j : IPv4Address) → v'.included j ≡ (is_listed j range || v.included j)))
      × KeepsLeases v v'
      × KeepsReservations v v'
  Spec e v (excludes_range a b) v' =
      ((range : List IPv4Address) × IsRange e a b range
        × ((j : IPv4Address) → v'.included j ≡ (if is_listed j range then false else v.included j)))
      × KeepsLeases v v'
      × KeepsReservations v v'
  Spec e v (releases ip) v' = KeepsAll v v'
  Spec e v (sets_option o) v' = KeepsAll v v'
  Spec e v (removes_option n) v' = KeepsAll v v'

  -- When a call may fail.
  abbrev pub Refuses : View → Call → Type 0
  Refuses v (gets mac) =
      (v.reservation mac ≡ none)
      × (v.lease mac ≡ none)
      × ((ip : IPv4Address) → v.included ip ≡ true → IsBusy v ip)
  Refuses v (reserves ip mac) = (v.included ip ≡ false) ⊎ IsBusy v ip
  Refuses v (unreserves ip) = v.reserved ip ≡ none
  Refuses v (includes_range a b) = ¬ (IsAddress a × IsAddress b)
  Refuses v (excludes_range a b) = ¬ (IsAddress a × IsAddress b)
  Refuses v (includes ip) = ⊥
  Refuses v (excludes ip) = ⊥
  Refuses v (releases ip) = ⊥
  Refuses v (sets_option o) = ⊥
  Refuses v (removes_option n) = ⊥

  -- A call does what `Spec` says, or it may fail and does nothing.
  abbrev pub Does : Endianness → View → Call → View → Type 0
  Does e v c w = Spec e v c w ⊎ (Refuses v c × (w ≡ v))

  -- A history of calls.
  abbrev pub Follows : Endianness → View → List Call → View → Type 0
  Follows e v [] v' = v' ≡ v
  Follows e v (c ∷ cs) v' = (w : View) × Does e v c w × Follows e w cs v'
