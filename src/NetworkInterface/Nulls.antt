-- ===== src/NetworkInterface/Nulls.antt =====
-- How the listing of the interfaces fails: at a null pointer only.
use klevret_english_ver.Base.{
  ◌≡◌, refl, List, [], ◌∷◌, ◌++◌, Bytes, Option, none, some, Result, ok, err, undefined, ◌>>=◌,
}
use klevret_english_ver.NetworkInterface.{
  NetworkInterface, Ifaddrs, Sockaddr, af_inet, af_inet6, af_other,
}
use klevret_english_ver.NetworkInterface.Listing.{described, reported}

-- The interfaces are listed, or `Null` holds and a null pointer is read through: nothing else ends it.
abbrev pub IsNull : Type 0 → Result (List NetworkInterface) → Type 0
IsNull Null (ok found) = Unit
IsNull Null (err undefined) = Null
IsNull Null (err cause) = ⊥

module _ (hwaddr : Bytes → Bytes) where
  -- Reading the interfaces of a list fails at a null pointer only.
  described-IsNull :
      (name : Bytes) (addr : Option Sockaddr) (netmask : Option Bytes)
      (rest : Result (List NetworkInterface))
      → IsNull (rest ≡ err undefined) rest
      → let all =
          described hwaddr name addr netmask
          >>= (λ found. rest >>= (λ later. ok (found ++ later))) in
        IsNull (all ≡ err undefined) all
  described-IsNull name none netmask rest null = refl
  described-IsNull name (some (af_inet sin_addr)) none rest null = refl
  described-IsNull name (some (af_inet sin_addr)) (some netmask) (ok later) null = tt
  described-IsNull name (some (af_inet sin_addr)) (some netmask) (err undefined) null = refl
  described-IsNull name (some (af_inet sin_addr)) (some netmask) (err cause) null = absurd null
  described-IsNull name (some af_inet6) netmask (ok later) null = tt
  described-IsNull name (some af_inet6) netmask (err undefined) null = refl
  described-IsNull name (some af_inet6) netmask (err cause) null = absurd null
  described-IsNull name (some af_other) netmask (ok later) null = tt
  described-IsNull name (some af_other) netmask (err undefined) null = refl
  described-IsNull name (some af_other) netmask (err cause) null = absurd null

  pub reported-IsNull :
      (ifaddrs : List Ifaddrs)
      → IsNull (reported hwaddr ifaddrs ≡ err undefined) (reported hwaddr ifaddrs)
  reported-IsNull [] = tt
  reported-IsNull (iface ∷ ifaddrs) =
      described-IsNull iface.ifa_name iface.ifa_addr iface.ifa_netmask (reported hwaddr ifaddrs)
        (reported-IsNull ifaddrs)

pub IsNull-map :
    {A B : Type 0} (interfaces : Result (List NetworkInterface))
    → (A → B)
    → IsNull A interfaces
    → IsNull B interfaces
IsNull-map (ok found) f null = tt
IsNull-map (err undefined) f null = f null
IsNull-map (err cause) f null = absurd null
