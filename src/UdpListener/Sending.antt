-- ===== src/UdpListener/Sending.antt =====
-- `UdpServer::send_to` of dhcp/src/UdpListener.cpp. What it prints is not modelled.
use klevret_english_ver.Base.{
  ℕ, zero, suc, Bytes, Option, none, some, no_socket, ioctl_failed, option_refused, send_failed,
  drop, codes,
}
use klevret_english_ver.IpAddress.{dotted}
use klevret_english_ver.Sockets.{
  Os, Call, ◌>>=◌, ◌>>◌, pure, throw, call, or_throw, unless_throw, deferring, raw_packet_socket,
  udp_socket, broadcast, SockaddrIn,
}

module _ {W : Type 0} where
  -- `if (sent <= 0) throw`
  abbrev pub sent_or_throw : Option ℕ → Call W (Unit {0})
  sent_or_throw none = throw send_failed
  sent_or_throw (some zero) = throw send_failed
  sent_or_throw (some (suc n)) = pure tt

abbrev pub interface_name : Bytes
interface_name = codes "virbr1"

-- The address in octets 2 to 5 of `sa_data`, as text, and where the datagram is sent.
abbrev pub destination : {W : Type 0} → Os W → Bytes → SockaddrIn
destination os sa_data = record { sin_port = 68; sin_addr = os.inet_addr (dotted (drop 2 sa_data)) }

module _ {W : Type 0} (os : Os W) where
  -- Behind the raw socket: a datagram socket, and the datagram to the address that was found.
  unfoldable pub send_broadcast : Bytes → Bytes → Call W (Unit {0})
  send_broadcast bytes sa_data = do
    socket_for_sending ← call (os.socket udp_socket) >>= or_throw no_socket
    call (os.setsockopt socket_for_sending broadcast) >>= unless_throw option_refused
    deferring (os.close socket_for_sending)
        (call (os.sendto socket_for_sending bytes (destination os sa_data)) >>= sent_or_throw)

  -- What follows the raw socket's `Defer`: the broadcast address, and the datagram. It closes the raw
  -- socket itself.
  unfoldable pub ask_and_send : ℕ → Bytes → Call W (Unit {0})
  ask_and_send raw_socket bytes = do
    sa_data ← call (os.ioctl_broadcast raw_socket interface_name) >>= or_throw ioctl_failed
    index ← call (os.ioctl_index raw_socket interface_name) >>= or_throw ioctl_failed
    call (λ w. (tt, os.close raw_socket w))
    send_broadcast bytes sa_data

  -- The `Defer` closes the raw socket once more.
  unfoldable pub send_to : Bytes → Call W (Unit {0})
  send_to bytes = do
    raw_socket ← call (os.socket raw_packet_socket) >>= or_throw no_socket
    deferring (os.close raw_socket) (ask_and_send raw_socket bytes)
