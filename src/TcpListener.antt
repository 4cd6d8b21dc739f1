-- ===== src/TcpListener.antt =====
-- common/src/TcoListener.cpp: how the listening socket is made; dhcp/src/api_server.cpp has the same
-- calls in the constructor of its TcpServer. The queue of the packets is that of Core.
pub mod Descriptors
pub mod Threads
use klevret_english_ver.Base.{
  ℕ, ◌%◌, ◌^◌, Bool, true, false, Bytes, Error, no_socket, option_refused, bind_failed,
  listen_failed, codes,
}
use klevret_english_ver.Sockets.{
  Os, Call, ◌>>=◌, ◌>>◌, pure, throw, call, or_throw, pton_or_throw, tcp_socket, reuseaddr,
  zero_addr, SockaddrIn,
}

module _ {W : Type 0} (os : Os W) where
  -- `if (result == -1) { close(fd); throw e; }`
  abbrev pub or_close : ℕ → Error → Bool → Call W (Unit {0})
  or_close fd cause true = pure tt
  or_close fd cause false = do call (λ w. (tt, os.close fd w)); throw cause

  -- `_create_socket_and_listen`
  unfoldable pub create_socket_and_listen : Bytes → ℕ → ℕ → Call W ℕ
  create_socket_and_listen ip port max_connections = do
    server_socket ← call (os.socket tcp_socket) >>= or_throw no_socket
    call (os.setsockopt server_socket reuseaddr) >>= or_close server_socket option_refused
    let (status, sin_addr) = os.inet_pton ip zero_addr
    pton_or_throw status
    let sa : SockaddrIn = record { sin_port = port % 2 ^ 16; sin_addr = sin_addr }
    call (os.bind server_socket sa) >>= or_close server_socket bind_failed
    call (os.listen server_socket max_connections) >>= or_close server_socket listen_failed
    pure server_socket

  -- The constructor of TcpServer in api_server.cpp, up to its thread.
  unfoldable pub new_api_socket : Call W ℕ
  unfolding create_socket_and_listen
  new_api_socket = create_socket_and_listen (codes "127.0.0.1") 40237 5

  -- The same constructor in core/src/main.cpp, whose class is not used.
  unfoldable pub new_core_socket : Call W ℕ
  unfolding create_socket_and_listen
  new_core_socket = create_socket_and_listen (codes "127.0.0.1") 40236 5
