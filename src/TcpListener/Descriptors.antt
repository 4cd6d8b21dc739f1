-- ===== src/TcpListener/Descriptors.antt =====
-- The descriptors that are open when the making of the listening socket ends.
use klevret_english_ver.Base.{
  ℕ, ◌≡◌, refl, ◌∙◌, ap, Bool, true, false, Bytes, Error, bad_address, Result, option_refused,
  bind_failed, listen_failed, no_socket,
}
use klevret_english_ver.Sockets.{Os, Call, and_then, tcp_socket, reuseaddr, pure, zero_addr}
use klevret_english_ver.Sockets.Descriptors.{
  Fds, opened, closed, closed-opened, Accounts, Ends, >>=-Ends, socket-Ends,
}
use klevret_english_ver.Sockets.Leaving.{pton-Ends}
use klevret_english_ver.TcpListener.{create_socket_and_listen, or_close}

-- One descriptor more than before: the one that is returned.
abbrev pub Adds : Fds → ℕ → Fds → Type 0
Adds before fd after = (before fd ≡ false) × (after ≡ opened fd before)

-- Where `inet_pton` has failed one more descriptor is open, and behind every other exception the
-- descriptors are those of before.
abbrev pub Restores : Fds → Error → Fds → Type 0
Restores before bad_address after = (fd : ℕ) × Adds before fd after
Restores before cause after = after ≡ before

-- What an exception behind which the socket is closed leaves.
abbrev Restored : Error → Type 0
Restored cause = (before after : Fds) → after ≡ before → Restores before cause after

module _ {W : Type 0} (os : Os W) (fds : W → Fds) (accounts : Accounts os fds) where
  -- A call of the system whose failure closes the socket.
  or_close-Ends :
      (fd : ℕ) (before : Fds) (cause : Error) (called : Bool × W)
      → Restored cause
      → before fd ≡ false
      → fds called.1 ≡ opened fd before
      → Ends fds
          (λ a after. after ≡ opened fd before)
          (Restores before)
          (or_close os fd cause called.0 called.1)
  or_close-Ends fd before cause (true, w) restored free opens = opens
  or_close-Ends fd before cause (false, w) restored free opens =
      restored before _
        (accounts.close_closes fd w ∙ ap (closed fd) opens ∙ closed-opened fd before free)

  next :
      (fd : ℕ) (before : Fds) (first : Result (Unit {0}) × W) (rest : Call W ℕ)
      → Ends fds (λ a after. after ≡ opened fd before) (Restores before) first
      → ((w : W) → fds w ≡ opened fd before → Ends fds (Adds before) (Restores before) (rest w))
      → Ends fds (Adds before) (Restores before) (and_then first (λ u. rest))
  next fd before first rest ends rest_ends =
      >>=-Ends fds (Adds before) (Restores before) (opened fd before) first (λ u. rest) ends
        (λ u w opens. rest_ends w opens)

  -- Where the calls of the system open and close descriptors as documented: a call that returns
  -- has opened the one descriptor that it returns, and one that throws leaves the descriptors as
  -- they were, but for the exception behind inet_pton, which leaves exactly one more open.
  pub create_socket_and_listen_accounts :
      (ip : Bytes) (port max_connections : ℕ) (w : W)
      → Ends fds
          (Adds (fds w))
          (Restores (fds w))
          (create_socket_and_listen os ip port max_connections w)
  unfolding create_socket_and_listen
  create_socket_and_listen_accounts ip port max_connections w =
      let before = fds w in
      socket-Ends fds (Adds before) (Restores before) no_socket before (os.socket tcp_socket w) _
        (accounts.socket_allocates tcp_socket w) refl
        (λ fd w free lowest opens.
          next fd before _ _
            (or_close-Ends fd before option_refused (os.setsockopt fd reuseaddr w)
              (λ before after same. same) free (accounts.setsockopt_keeps fd reuseaddr w ∙ opens))
            (λ w opens.
              next fd before _ _
                (pton-Ends fds (Restores before) (opened fd before) (os.inet_pton ip zero_addr).0 w
                  (fd, (free, refl)) opens)
                (λ w opens.
                  next fd before _ _
                    (or_close-Ends fd before bind_failed (os.bind fd _ w)
                      (λ before after same. same) free (accounts.bind_keeps fd _ w ∙ opens))
                    (λ w opens.
                      next fd before _ (pure fd)
                        (or_close-Ends fd before listen_failed (os.listen fd max_connections w)
                          (λ before after same. same) free
                          (accounts.listen_keeps fd max_connections w ∙ opens))
                        (λ w opens. (free, opens))))))
