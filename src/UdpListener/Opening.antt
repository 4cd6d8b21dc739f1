-- ===== src/UdpListener/Opening.antt =====
-- The constructor of `UdpServer` of dhcp/src/UdpListener.cpp up to its thread, and the destructor
-- behind the joining of the thread.
use klevret_english_ver.Base.{
  ℕ, ◌%◌, ◌^◌, ◌≡◌, refl, sym, ◌∙◌, ap, List, Bytes, Option, some, All, length, Error, Result, ok,
  err, undefined, no_socket, bind_failed, false,
}
use mathlib.Core.Path.{subst}
use klevret_english_ver.Endian.{Endianness}
use klevret_english_ver.Sockets.{
  Os, Call, ◌>>=◌, ◌>>◌, and_then, pure, call, or_throw, unless_throw, udp_socket, zero_addr,
  SockaddrIn,
}
use klevret_english_ver.Sockets.Descriptors.{
  Fds, opened, closed, closed-opened, map-Ends, Accounts, Allocates, Ends, >>=-Ends, socket-Ends,
}
use klevret_english_ver.Sockets.Leaving.{unless_throw-Ends}
use klevret_english_ver.NetworkInterface.{NetworkInterface, Ifaddrs, get_all_interfaces}
use klevret_english_ver.NetworkInterface.Nulls.{IsNull}
use klevret_english_ver.NetworkInterface.Listing.{
  IsListed, Answers, CanOpen, reported, get_all_interfaces_returns,
}

-- INADDR_ANY in network order.
abbrev any_port : ℕ → SockaddrIn
any_port port = record { sin_port = port % 2 ^ 16; sin_addr = zero_addr }

module _ {W : Type 0} (os : Os W) where
  -- `socket` and `bind`: where `bind` fails the socket stays open.
  unfoldable pub bind_udp_socket : ℕ → Call W ℕ
  bind_udp_socket port = do
    udp ← call (os.socket udp_socket) >>= or_throw no_socket
    call (os.bind udp (any_port port)) >>= unless_throw bind_failed
    pure udp

  -- `_host_interfaces` and `_socket` of the new object.
  unfoldable pub new_udp_server :
      Endianness → Bytes → Option (List Ifaddrs) → ℕ → Call W (List NetworkInterface × ℕ)
  new_udp_server e indeterminate listed port = do
    host_interfaces ← get_all_interfaces os e indeterminate listed
    udp ← bind_udp_socket port
    pure (host_interfaces, udp)

  -- `close(_socket)`
  unfoldable pub delete_udp_server : List NetworkInterface × ℕ → W → W
  delete_udp_server (host_interfaces, udp) w = os.close udp w

-- The members of the new object, where the host's interfaces are listed as `interfaces` says.
abbrev pub IsServer :
    Result (List NetworkInterface) → Fds → List NetworkInterface × ℕ → Fds → Type 0
IsServer interfaces before (host_interfaces, fd) after =
    (interfaces ≡ ok host_interfaces) × (before fd ≡ false) × (after ≡ opened fd before)

-- What a constructor that throws leaves open: its socket, if it had one. `Null` says that a list of
-- interfaces has a null pointer that is read through.
abbrev pub ThrowsWith : Type 0 → Fds → Error → Fds → Type 0
ThrowsWith Null before no_socket after = after ≡ before
ThrowsWith Null before bind_failed after =
    (fd : ℕ) × (before fd ≡ false) × (after ≡ opened fd before)
ThrowsWith Null before undefined after = Null × (after ≡ before)
ThrowsWith Null before cause after = ⊥

module _ {W : Type 0} (os : Os W) (fds : W → Fds) (accounts : Accounts os fds) where
  bind_udp_socket-Ends :
      (Null : Type 0) (before : Fds) (port : ℕ) (w : W)
      → fds w ≡ before
      → Ends fds
          (λ fd after. (before fd ≡ false) × (after ≡ opened fd before))
          (ThrowsWith Null before)
          (bind_udp_socket os port w)
  unfolding bind_udp_socket
  bind_udp_socket-Ends Null before port w same =
      let Returns : ℕ → Fds → Type 0 =
        λ fd after. (before fd ≡ false) × (after ≡ opened fd before) in
      socket-Ends fds Returns (ThrowsWith Null before) no_socket before (os.socket udp_socket w) _
        (subst (λ s. Allocates s (os.socket udp_socket w).0 (fds (os.socket udp_socket w).1)) same
          (accounts.socket_allocates udp_socket w))
        refl
        (λ fd w free lowest opens.
          >>=-Ends fds {A = Unit {0}} {B = ℕ} Returns (ThrowsWith Null before) (opened fd before) _
            _
            (unless_throw-Ends fds (ThrowsWith Null before) (opened fd before) bind_failed
              (os.bind fd (any_port port) w).0 _ (fd, free, refl)
              (accounts.bind_keeps fd (any_port port) w ∙ opens))
            (λ _ w opens. (free, opens)))

  -- The rest of the constructor, behind the listing of the interfaces.
  listed-Ends :
      (Null : Type 0) (interfaces : Result (List NetworkInterface)) (before : Fds) (port : ℕ)
      (w : W)
      → IsNull Null interfaces
      → fds w ≡ before
      → Ends fds (IsServer interfaces before) (ThrowsWith Null before) (
          and_then
            (interfaces, w)
            (λ host_interfaces. bind_udp_socket os port >>= (λ udp. pure (host_interfaces, udp))))
  listed-Ends Null (ok host_interfaces) before port w null same =
      map-Ends fds (λ fd after. (before fd ≡ false) × (after ≡ opened fd before))
        (IsServer (ok host_interfaces) before) (ThrowsWith Null before)
        (λ udp. (host_interfaces, udp)) (bind_udp_socket os port w)
        (λ fd after (free, opens). (refl, free, opens))
        (bind_udp_socket-Ends Null before port w same)
  listed-Ends Null (err undefined) before port w null same = (null, same)
  listed-Ends Null (err cause) before port w null same = absurd null

  module _ (hwaddr : Bytes → Bytes) (e : Endianness) (indeterminate : Bytes) (Null : Type 0)
      (ifaddrs : List Ifaddrs) (port : ℕ) (before : Fds) (w : W) (six : length indeterminate ≡ 6)
      (can : CanOpen os fds before) (listed : All IsListed ifaddrs)
      (answers : All (Answers os fds before hwaddr) ifaddrs)
      (null : IsNull Null (reported hwaddr ifaddrs)) (same : fds w ≡ before) where
    -- The interfaces are found, and then the object is there with one descriptor more, or one of
    -- the two calls has failed; or the list has a null pointer.
    pub new_udp_server_accounts :
        Ends fds
          (IsServer (reported hwaddr ifaddrs) before)
          (ThrowsWith Null before)
          (new_udp_server os e indeterminate (some ifaddrs) port w)
    unfolding new_udp_server
    new_udp_server_accounts =
        let (w', found, same') =
          get_all_interfaces_returns os fds accounts hwaddr e indeterminate before six can ifaddrs w
            listed answers same in
        subst
          (λ ended. Ends fds (IsServer (reported hwaddr ifaddrs) before) (ThrowsWith Null before) (
            and_then ended (λ host_interfaces.
              bind_udp_socket os port >>= (λ udp. pure (host_interfaces, udp)))))
          (sym found) (listed-Ends Null (reported hwaddr ifaddrs) before port w' null same')

    -- The destructor gives the descriptor back.
    pub delete-new_udp_server :
        (server : List NetworkInterface × ℕ) (w' : W)
        → new_udp_server os e indeterminate (some ifaddrs) port w ≡ (ok server, w')
        → fds (delete_udp_server os server w') ≡ before
    unfolding delete_udp_server
    delete-new_udp_server (host_interfaces, fd) w' returns =
        let (found, free, opens) = rw returns at new_udp_server_accounts in
        accounts.close_closes fd w' ∙ ap (closed fd) opens ∙ closed-opened fd before free
