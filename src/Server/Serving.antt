-- ===== src/Server/Serving.antt =====
-- The loop of dhcp/src/main.cpp on the datagrams that come in, with its replies sent through `send_to`:
-- an exception of either ends the program.
use klevret_english_ver.Base.{
  ◌≡◌, refl, sym, ◌∙◌, List, [], ◌∷◌, Bytes, ◌⊎◌, Option, none, some, Result, ok, err, Error,
  Result-cases, inl, inr,
}
use mathlib.Core.Path.{subst}
use klevret_english_ver.SortedMap.{Order}
use klevret_english_ver.Endian.{Endianness}
use klevret_english_ver.IpAddress.{IPv4Address}
use klevret_english_ver.HardwareAddress.{MacAddress}
use klevret_english_ver.Sockets.{Os, Call, ◌>>=◌, pure}
use klevret_english_ver.Sockets.Descriptors.{Fds, Accounts, Ends, >>=-Ends}
use klevret_english_ver.NetworkInterface.{lift}
use klevret_english_ver.UdpListener.Sending.{send_to}
use klevret_english_ver.UdpListener.Descriptors.{send_to_accounts}
use klevret_english_ver.Server.{ServerState, handle_datagram, serve}

module _ {W : Type 0} (os : Os W) where
  unfoldable pub send_reply : Option Bytes → Call W (Unit {0})
  send_reply none = pure tt
  send_reply (some bytes) = send_to os bytes

  unfoldable pub serve_sending :
      ⦃ips : Order IPv4Address⦄
      → ⦃macs : Order MacAddress⦄ → Endianness
      → Bytes
      → ServerState
      → List Bytes
      → Call W ServerState
  serve_sending e indeterminate s [] = pure s
  serve_sending e indeterminate s (datagram ∷ datagrams) =
      lift (handle_datagram e indeterminate s datagram) >>= (λ (next, reply).
        send_reply reply >>= (λ u. serve_sending e indeterminate next datagrams))

  -- An exception is that of the loop without sockets, or one that `send_to` throws somewhere.
  abbrev pub Fails : Result ServerState → Fds → Error → Fds → Type 0
  Fails served before cause after =
      (after ≡ before)
      × ((served ≡ err cause) ⊎ ((bytes : Bytes) × (w : W) × ((send_to os bytes w).0 ≡ err cause)))

-- The state is that of the loop without sockets, whose result is `served`.
abbrev pub Serves : Result ServerState → Fds → ServerState → Fds → Type 0
Serves served before s after = (served ≡ ok s) × (after ≡ before)

module _ {W : Type 0} (os : Os W) (fds : W → Fds) (accounts : Accounts os fds)
    ⦃ips : Order IPv4Address⦄ ⦃macs : Order MacAddress⦄ (e : Endianness)
    (indeterminate : Bytes) where
  sent-Ends :
      (served : Result ServerState) (before : Fds) (bytes : Bytes) (w w' : W)
      (ended : Result (Unit {0}))
      → (send_to os bytes w).0 ≡ ended
      → fds w' ≡ before
      → Ends fds (λ a after. after ≡ before) (Fails os served before) (ended, w')
  sent-Ends served before bytes w w' (ok a) sends same = same
  sent-Ends served before bytes w w' (err cause) sends same = (same, inr (bytes, w, sends))

  reply-Ends :
      (served : Result ServerState) (before : Fds) (reply : Option Bytes) (w : W)
      → fds w ≡ before
      → Ends fds (λ a after. after ≡ before) (Fails os served before) (send_reply os reply w)
  unfolding send_reply
  reply-Ends served before none w same = same
  reply-Ends served before (some bytes) w same =
      sent-Ends served before bytes w (send_to os bytes w).1 (send_to os bytes w).0 refl
        (send_to_accounts os fds accounts bytes w ∙ same)

  serve_step :
      (s next : ServerState) (datagram : Bytes) (datagrams : List Bytes) (reply : Option Bytes)
      → handle_datagram e indeterminate s datagram ≡ ok (next, reply)
      → serve e indeterminate s (datagram ∷ datagrams) ≡ serve e indeterminate next datagrams
  unfolding serve
  serve_step s next datagram datagrams reply returns = rw returns refl

  serve_sending-Ends :
      (before : Fds) (s : ServerState) (datagrams : List Bytes) (w : W)
      → fds w ≡ before
      → Ends fds
          (Serves (serve e indeterminate s datagrams) before)
          (Fails os (serve e indeterminate s datagrams) before)
          (serve_sending os e indeterminate s datagrams w)
  unfolding serve_sending serve
  serve_sending-Ends before s [] w same = (refl, same)
  serve_sending-Ends before s (datagram ∷ datagrams) w same =
      elim (Result-cases (handle_datagram e indeterminate s datagram)) [
        | inl (cause, throws) ↦ rw throws (same, inl refl)
        | inr ((next, reply), returns) ↦
            subst
              (λ served.
                Ends fds (Serves served before) (Fails os served before)
                  (serve_sending os e indeterminate s (datagram ∷ datagrams) w))
              (sym (serve_step s next datagram datagrams reply returns))
              (rw returns (
                >>=-Ends fds {A = Unit {0}} {B = ServerState}
                  (Serves (serve e indeterminate next datagrams) before)
                  (Fails os (serve e indeterminate next datagrams) before) before
                  (send_reply os reply w) _
                  (reply-Ends (serve e indeterminate next datagrams) before reply w same)
                  (λ _ w same. serve_sending-Ends before next datagrams w same)))
      ]

  -- Where the calls of the system open and close descriptors as documented, a new one always with the
  -- lowest number, and no other thread calls in between: serving any datagrams leaves the descriptors
  -- as they were, however it ends, and where it returns the state is that of the loop that sends
  -- nothing. Where it throws, so does that loop with the same cause, or `send_to` has thrown it.
  pub serve_sending_accounts :
      (s : ServerState) (datagrams : List Bytes) (w : W)
      → Ends fds
          (Serves (serve e indeterminate s datagrams) (fds w))
          (Fails os (serve e indeterminate s datagrams) (fds w))
          (serve_sending os e indeterminate s datagrams w)
  serve_sending_accounts s datagrams w = serve_sending-Ends (fds w) s datagrams w refl
