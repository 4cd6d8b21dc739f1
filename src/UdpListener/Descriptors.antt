-- ===== src/UdpListener/Descriptors.antt =====
-- The descriptors that are open when `send_to` ends.
use klevret_english_ver.Base.{
  ℕ, zero, suc, ◌≤◌, ◌≡◌, refl, ◌∙◌, ap, false, Bytes, Option, none, some, arith, no_socket,
  ioctl_failed, option_refused,
}
use mathlib.Core.Path.{subst}
use klevret_english_ver.Sockets.{Os, ◌>>=◌, call, raw_packet_socket, udp_socket, broadcast}
use klevret_english_ver.Sockets.Descriptors.{
  Fds, Allocates, opened, closed, closed-opened, closed_free, Accounts, >>=-Ends, socket-Ends,
  deferring-Ends,
}
use klevret_english_ver.Sockets.Leaving.{
  Leaves, or_throw-Ends, unless_throw-Ends, either-Leaves, Leaves-world,
}
use klevret_english_ver.UdpListener.Sending.{
  send_broadcast, ask_and_send, send_to, sent_or_throw, destination, interface_name,
}

module _ {W : Type 0} (os : Os W) (fds : W → Fds) (accounts : Accounts os fds) where
  sent-Leaves :
      (P : Fds → Type 0) (sent : Option ℕ) (w : W) → P (fds w) → Leaves fds P (sent_or_throw sent w)
  sent-Leaves P none w p = p
  sent-Leaves P (some zero) w p = p
  sent-Leaves P (some (suc n)) w p = p

  -- The second socket has the number that the first one had, so that closing either number closes it.
  send_broadcast-Leaves :
      (before : Fds) (raw : ℕ) (bytes sa_data : Bytes) (w : W)
      → before raw ≡ false
      → ((n : ℕ) → before n ≡ false → raw ≤ n)
      → fds w ≡ before
      → Leaves fds (λ after. closed raw after ≡ before) (send_broadcast os bytes sa_data w)
  unfolding send_broadcast
  send_broadcast-Leaves before raw bytes sa_data w free lowest same =
      let P : Fds → Type 0 = λ after. closed raw after ≡ before in
      socket-Ends fds (λ a. P) (λ cause. P) no_socket before (os.socket udp_socket w) _
        (subst (λ s. Allocates s (os.socket udp_socket w).0 (fds (os.socket udp_socket w).1)) same
          (accounts.socket_allocates udp_socket w))
        (closed_free raw before free)
        (λ fd w free' lowest' opens.
          let number : fd ≡ raw = omega (arith, lowest' raw free, lowest fd free') in
          let restores : P (opened fd before) = rw number (closed-opened raw before free) in
          >>=-Ends fds {A = Unit {0}} {B = Unit {0}} (λ a. P) (λ cause. P) (opened fd before) _ _
            (unless_throw-Ends fds (λ cause. P) (opened fd before) option_refused
              (os.setsockopt fd broadcast w).0 (os.setsockopt fd broadcast w).1 restores
              (accounts.setsockopt_keeps fd broadcast w ∙ opens))
            (λ _ w opens.
              let sending = call (os.sendto fd bytes (destination os sa_data)) >>= sent_or_throw in
              either-Leaves fds P (sending w).0 _ (
                ap (closed raw) (
                  deferring-Ends fds os accounts fd before sending w (
                    sent-Leaves (λ after. closed fd after ≡ before) _ _
                      (ap (closed fd) (accounts.sendto_keeps fd bytes _ w ∙ opens)
                        ∙ closed-opened fd before free')))
                ∙ closed_free raw before free)))

  ask_and_send-Leaves :
      (before : Fds) (raw : ℕ) (bytes : Bytes) (w : W)
      → before raw ≡ false
      → ((n : ℕ) → before n ≡ false → raw ≤ n)
      → fds w ≡ opened raw before
      → Leaves fds (λ after. closed raw after ≡ before) (ask_and_send os raw bytes w)
  unfolding ask_and_send
  ask_and_send-Leaves before raw bytes w free lowest opens =
      let P : Fds → Type 0 = λ after. closed raw after ≡ before in
      let restores : P (opened raw before) = closed-opened raw before free in
      >>=-Ends fds {A = Bytes} {B = Unit {0}} (λ a. P) (λ cause. P) (opened raw before) _ _
        (or_throw-Ends fds (λ cause. P) (opened raw before) ioctl_failed
          (os.ioctl_broadcast raw interface_name w).0 _ restores
          (accounts.broadcast_keeps raw interface_name w ∙ opens))
        (λ sa_data w opens.
          >>=-Ends fds {A = ℕ} {B = Unit {0}} (λ a. P) (λ cause. P) (opened raw before) _ _
            (or_throw-Ends fds (λ cause. P) (opened raw before) ioctl_failed
              (os.ioctl_index raw interface_name w).0 _ restores
              (accounts.index_keeps raw interface_name w ∙ opens))
            (λ index w opens.
              send_broadcast-Leaves before raw bytes sa_data (os.close raw w) free lowest
                (accounts.close_closes raw w ∙ ap (closed raw) opens ∙ restores)))

  -- Where the calls of the system open and close descriptors as documented, a new one always with
  -- the lowest number, and no other thread calls in between: send_to leaves the descriptors as
  -- they were, however it ends.
  pub send_to_accounts : (bytes : Bytes) (w : W) → fds (send_to os bytes w).1 ≡ fds w
  unfolding send_to
  send_to_accounts bytes w =
      let before = fds w in
      let P : Fds → Type 0 = λ after. after ≡ before in
      Leaves-world fds P (send_to os bytes w) (
        socket-Ends fds (λ a. P) (λ cause. P) no_socket before (os.socket raw_packet_socket w) _
          (accounts.socket_allocates raw_packet_socket w) refl
          (λ raw w free lowest opens. either-Leaves fds P (ask_and_send os raw bytes w).0 _ (
            deferring-Ends fds os accounts raw before (ask_and_send os raw bytes) w
              (ask_and_send-Leaves before raw bytes w free lowest opens))))
