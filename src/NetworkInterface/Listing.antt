-- ===== src/NetworkInterface/Listing.antt =====
-- The interfaces that the list of `getifaddrs` gives rise to.
use klevret_english_ver.Base.{
  ℕ, ◌<◌, ◌≡◌, refl, ap, ◌∙◌, List, [], ◌∷◌, ◌++◌, append_assoc, append-nil, Bytes, Option, none,
  some, Result, ok, err, length, take, All, lt→ltb, undefined, ◌>>=◌,
}
use klevret_english_ver.Endian.{Endianness}
use klevret_english_ver.IpAddress.Network.{IsQuad}
use klevret_english_ver.Sockets.{Os, query_socket, and_then, or_throw}
use klevret_english_ver.Sockets.Descriptors.{Fds, Accounts, closed, closed-opened, Allocates}
use klevret_english_ver.NetworkInterface.{
  Sockaddr, af_inet, af_inet6, af_other, Ifaddrs, NetworkInterface, ipv4, ioctl_untested,
  close_untested, make_interface, interfaces_of, scan_interfaces, get_all_interfaces,
}
use klevret_english_ver.NetworkInterface.Octets.{address_of_s_addr, mask_of_s_addr, mac_of_sa_data}

-- The octets of an IPv4 element, where they are there: either pointer may be null.
abbrev Addressed : Option Sockaddr → Option Bytes → Type 0
Addressed (some (af_inet sin_addr)) (some netmask) = IsQuad sin_addr × IsQuad netmask
Addressed addr netmask = Unit

-- An element of the list as the documentation has it: four octets in what is there, and a name that
-- fits an `ifreq`.
abbrev pub IsListed : Ifaddrs → Type 0
IsListed iface = Addressed iface.ifa_addr iface.ifa_netmask × (length iface.ifa_name < 16)

module _ (hwaddr : Bytes → Bytes) where
  -- The interface of an element, if it is one of IPv4: `hwaddr` is the hardware address by name. A
  -- null address, or the null mask of an IPv4 element, is read through.
  abbrev pub described : Bytes → Option Sockaddr → Option Bytes → Result (List NetworkInterface)
  described name none netmask = err undefined
  described name (some (af_inet sin_addr)) none = err undefined
  described name (some (af_inet sin_addr)) (some netmask) = ok (
      record {
        name = name;
        network_address = record { octets = sin_addr };
        subnet_mask = record { octets = netmask };
        type = ipv4;
        mac_address = record { octets = take 6 (hwaddr name) };
      }
      ∷ [])
  described name (some addr) netmask = ok []

  -- The interfaces of a list, in its order.
  abbrev pub reported : List Ifaddrs → Result (List NetworkInterface)
  reported [] = ok []
  reported (iface ∷ ifaddrs) = do
    found ← described iface.ifa_name iface.ifa_addr iface.ifa_netmask
    later ← reported ifaddrs
    ok (found ++ later)

-- The interfaces of the rest behind those that have been found.
abbrev behind :
    List NetworkInterface → Result (List NetworkInterface) → Result (List NetworkInterface)
behind result (ok found) = ok (result ++ found)
behind result (err cause) = err cause

behind_all :
    (result found : List NetworkInterface) (rest : Result (List NetworkInterface))
    → behind (result ++ found) rest ≡ behind result (rest >>= (λ later. ok (found ++ later)))
behind_all result found (ok later) = ap (λ all. ok all) (append_assoc result found later)
behind_all result found (err cause) = refl

behind-nil : (rest : Result (List NetworkInterface)) → behind [] rest ≡ rest
behind-nil (ok later) = refl
behind-nil (err cause) = refl

module _ {W : Type 0} (os : Os W) where
  -- While the open descriptors are these, a socket can be had.
  abbrev pub CanOpen : (W → Fds) → Fds → Type 0
  CanOpen fds before =
      (w : W) → fds w ≡ before → (fd : ℕ) × ((os.socket query_socket w).0 ≡ some fd)

  -- On a socket that has just been opened while these were open, the request for the hardware
  -- address of the interface is answered, with the 14 bytes of `sa_data`.
  abbrev pub Answers : (W → Fds) → Fds → (Bytes → Bytes) → Ifaddrs → Type 0
  Answers fds before hwaddr iface =
      ((fd : ℕ) (w : W)
        → fds w ≡ before
        → (os.socket query_socket w).0 ≡ some fd
        → (os.ioctl_hwaddr fd iface.ifa_name (os.socket query_socket w).1).0
          ≡ some (hwaddr iface.ifa_name))
      × (length (hwaddr iface.ifa_name) ≡ 14)

module _ {W : Type 0} (os : Os W) (fds : W → Fds) (accounts : Accounts os fds)
    (hwaddr : Bytes → Bytes) (e : Endianness) (indeterminate : Bytes) (before : Fds)
    (six : length indeterminate ≡ 6) (can : CanOpen os fds before) where
  -- The call ends as `result` says, and with the descriptors `before` open.
  abbrev EndsWith : {A : Type 0} → Result A → Result A × W → Type 0
  EndsWith result ended = (w : W) × (ended ≡ (result, w)) × (fds w ≡ before)

  module _ (iface : Ifaddrs) (w : W) (short : length iface.ifa_name < 16)
      (answers : Answers os fds before hwaddr iface) (same : fds w ≡ before) where
    make_interface_returns :
        (sin_addr netmask : Bytes)
        → IsQuad sin_addr
        → IsQuad netmask
        → EndsWith (described hwaddr iface.ifa_name (some (af_inet sin_addr)) (some netmask)) (
            interfaces_of os e indeterminate
              (record {
                ifa_name = iface.ifa_name;
                ifa_addr = some (af_inet sin_addr);
                ifa_netmask = some netmask;
              })
              (af_inet sin_addr)
              w)
    unfolding interfaces_of make_interface ioctl_untested close_untested
    make_interface_returns sin_addr netmask quad mask =
        let name = iface.ifa_name in
        let (fd, gives) = can w same in
        let (free, lowest, opens) : Allocates before (some fd) (fds (os.socket query_socket w).1) =
          rw same at (rw gives at (accounts.socket_allocates query_socket w)) in
        let fits = lt→ltb (length name) 16 short in
        (
          os.close fd (os.ioctl_hwaddr fd name (os.socket query_socket w).1).1,
          rw
              (
                gives,
                fits,
                answers.0 fd w same gives,
                mac_of_sa_data indeterminate (hwaddr name) six answers.1,
                address_of_s_addr e sin_addr quad,
                mask_of_s_addr e netmask mask,
              )
              refl,
          accounts.close_closes fd _
              ∙ ap (closed fd) (accounts.hwaddr_keeps fd name _ ∙ opens)
              ∙ closed-opened fd before free,
        )

    interfaces_of_ends :
        (addr : Option Sockaddr) (netmask : Option Bytes)
        → Addressed addr netmask
        → EndsWith (described hwaddr iface.ifa_name addr netmask) (
            and_then (or_throw undefined addr w) (
              interfaces_of os e indeterminate
                (record { ifa_name = iface.ifa_name; ifa_addr = addr; ifa_netmask = netmask })))
    unfolding interfaces_of make_interface
    interfaces_of_ends none netmask addressed = (w, refl, same)
    interfaces_of_ends (some (af_inet sin_addr)) none addressed = (w, refl, same)
    interfaces_of_ends (some (af_inet sin_addr)) (some netmask) (quad, mask) =
        make_interface_returns sin_addr netmask quad mask
    interfaces_of_ends (some af_inet6) netmask addressed = (w, refl, same)
    interfaces_of_ends (some af_other) netmask addressed = (w, refl, same)

  -- The rest of the list, behind the interfaces of an element.
  scan_goes_on :
      (ifa_next : List Ifaddrs) (result : List NetworkInterface)
      (found : Result (List NetworkInterface)) (ended : Result (List NetworkInterface) × W)
      → ((pushed : List NetworkInterface) (w : W)
          → fds w ≡ before
          → EndsWith
              (behind (result ++ pushed) (reported hwaddr ifa_next))
              (scan_interfaces os e indeterminate ifa_next (result ++ pushed) w))
      → EndsWith found ended
      → EndsWith
          (behind result
            (found >>= (λ found. reported hwaddr ifa_next >>= (λ later. ok (found ++ later)))))
          (and_then ended
            (λ pushed. scan_interfaces os e indeterminate ifa_next (result ++ pushed)))
  scan_goes_on ifa_next result (err cause) ended rest (w, gives, same) = (w, rw gives refl, same)
  scan_goes_on ifa_next result (ok pushed) ended rest (w, gives, same) =
      let (w', scanned, same') = rest pushed w same in
      (
        w',
        rw gives
            (scanned ∙ ap (λ r. (r, w')) (behind_all result pushed (reported hwaddr ifa_next))),
        same',
      )

  scan_interfaces_ends :
      (ifaddrs : List Ifaddrs) (result : List NetworkInterface) (w : W)
      → All IsListed ifaddrs
      → All (Answers os fds before hwaddr) ifaddrs
      → fds w ≡ before
      → EndsWith
          (behind result (reported hwaddr ifaddrs))
          (scan_interfaces os e indeterminate ifaddrs result w)
  unfolding scan_interfaces
  scan_interfaces_ends [] result w listed answers same = (w, rw append-nil refl, same)
  scan_interfaces_ends (iface ∷ ifa_next) result w ((addressed, short), listed) (answer, answers)
        same =
      scan_goes_on ifa_next result
        (described hwaddr iface.ifa_name iface.ifa_addr iface.ifa_netmask) _
        (λ pushed w same. scan_interfaces_ends ifa_next (result ++ pushed) w listed answers same)
        (interfaces_of_ends iface w short answer same iface.ifa_addr iface.ifa_netmask addressed)

  -- Where the calls of the system open and close descriptors as documented, a socket can be had
  -- while these descriptors are open, each address and mask of an IPv4 element that is there has
  -- four octets, each name fits, and the hardware address of each interface is answered on a fresh
  -- socket with 14 bytes. Up to a null address, or the null mask of an IPv4 element, which is read
  -- through and so undefined: the call returns the interfaces of the IPv4 elements, in order, with
  -- the octets of their addresses and masks and the first six bytes of the answer. In every case the
  -- descriptors are as they were.
  pub get_all_interfaces_returns :
      (ifaddrs : List Ifaddrs) (w : W)
      → All IsListed ifaddrs
      → All (Answers os fds before hwaddr) ifaddrs
      → fds w ≡ before
      → (w' : W) × (get_all_interfaces os e indeterminate (some ifaddrs) w
          ≡ (reported hwaddr ifaddrs, w'))
        × (fds w' ≡ before)
  unfolding get_all_interfaces
  get_all_interfaces_returns ifaddrs w listed answers same =
      let (w', scanned, same') = scan_interfaces_ends ifaddrs [] w listed answers same in
      (w', scanned ∙ ap (λ r. (r, w')) (behind-nil (reported hwaddr ifaddrs)), same')

-- A null address is read through.
module _ {W : Type 0} (os : Os W) (e : Endianness) (indeterminate : Bytes) where
  pub scan_interfaces_null :
      (iface : Ifaddrs) (ifa_next : List Ifaddrs) (result : List NetworkInterface) (w : W)
      → iface.ifa_addr ≡ none
      → scan_interfaces os e indeterminate (iface ∷ ifa_next) result w ≡ (err undefined, w)
  unfolding scan_interfaces
  scan_interfaces_null iface ifa_next result w null =
      ap
        (λ addr.
          and_then (and_then (or_throw undefined addr w) (interfaces_of os e indeterminate iface))
            (λ found. scan_interfaces os e indeterminate ifa_next (result ++ found)))
        null
