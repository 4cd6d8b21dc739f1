-- ===== src/Sockets/Client.antt =====
-- `send_cmd` of cli/src/command_handlers.cpp and the block of core/src/main.cpp that passes a packet
-- on: a connection to a port of this host, and a string over it. Neither closes the socket. What they
-- print is not modelled, nor that `send` may take fewer bytes, which both only print.
use klevret_english_ver.Base.{
  ℕ, false, ◌≡◌, refl, ◌∙◌, ◌⊎◌, inl, inr, Bytes, Error, no_socket, connect_failed, codes,
}
use klevret_english_ver.Sockets.{
  Os, Call, ◌>>=◌, ◌>>◌, pure, call, or_throw, unless_throw, pton_or_throw, tcp_socket, zero_addr,
  SockaddrIn,
}
use klevret_english_ver.Sockets.Descriptors.{Fds, opened, Accounts, Ends, >>=-Ends, socket-Ends}
use klevret_english_ver.Sockets.Leaving.{pton-Ends, unless_throw-Ends}

module _ {W : Type 0} (os : Os W) where
  -- The block of the core process, and what `send_cmd` does with its string: the port is the number
  -- that differs.
  unfoldable pub send_string : ℕ → Bytes → Call W (Unit {0})
  send_string port str = do
    client_socket ← call (os.socket tcp_socket) >>= or_throw no_socket
    let (status, sin_addr) = os.inet_pton (codes "127.0.0.1") zero_addr
    let sa : SockaddrIn = record { sin_port = port; sin_addr = sin_addr }
    pton_or_throw status
    call (os.connect client_socket sa) >>= unless_throw connect_failed
    sent_bytes ← call (os.send client_socket str)
    pure tt

  -- `klevret_components[KlevretComponent::CORE]`
  abbrev pub core_port : ℕ
  core_port = 40236

  -- `write_json` is Boost's; the argument is the object.
  unfoldable pub send_cmd : {Object : Type 0} → (Object → Bytes) → Object → Call W (Unit {0})
  unfolding send_string
  send_cmd write_json obj = send_string core_port (write_json obj)

-- One descriptor that was not open is.
abbrev pub LeavesOne : Fds → Fds → Type 0
LeavesOne before after = (fd : ℕ) × (before fd ≡ false) × (after ≡ opened fd before)

abbrev pub NoneOrOne : Fds → Error → Fds → Type 0
NoneOrOne before cause after = ((cause ≡ no_socket) × (after ≡ before)) ⊎ LeavesOne before after

module _ {W : Type 0} (os : Os W) (fds : W → Fds) (accounts : Accounts os fds) where
  -- Where the calls of the system open and close descriptors as documented: sending a string
  -- leaves a descriptor open that was not, whether it returns or throws, unless there was no
  -- socket to be had.
  pub send_string_leaks :
      (port : ℕ) (str : Bytes) (w : W)
      → Ends fds (λ a. LeavesOne (fds w)) (NoneOrOne (fds w)) (send_string os port str w)
  unfolding send_string
  send_string_leaks port str w =
      let before = fds w in
      let Returns : Unit {0} → Fds → Type 0 = λ a. LeavesOne before in
      socket-Ends fds Returns (NoneOrOne before) no_socket before (os.socket tcp_socket w) _
        (accounts.socket_allocates tcp_socket w) (inl (refl, refl))
        (λ fd w free lowest opens.
          let leaks : LeavesOne before (opened fd before) = (fd, free, refl) in
          >>=-Ends fds {A = Unit {0}} {B = Unit {0}} Returns (NoneOrOne before) (opened fd before) _
            _
            (pton-Ends fds (NoneOrOne before) (opened fd before)
              (os.inet_pton (codes "127.0.0.1") zero_addr).0 w (inr leaks) opens)
            (λ _ w opens.
              >>=-Ends fds {A = Unit {0}} {B = Unit {0}} Returns (NoneOrOne before)
                (opened fd before) _ _
                (unless_throw-Ends fds (NoneOrOne before) (opened fd before) connect_failed
                  (os.connect fd _ w).0 _ (inr leaks) (accounts.connect_keeps fd _ w ∙ opens))
                (λ _ w opens. (fd, free, accounts.send_keeps fd str w ∙ opens))))
