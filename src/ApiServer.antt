-- ===== src/ApiServer.antt =====
-- The TcpServer of dhcp/src/api_server.cpp and `ApiServer::start`: a thread accepts clients, each client
-- has a thread that prints what it reads, and `start` joins the first thread. The listening socket is
-- made as in TcpListener. What `accept` gives is any client, or nothing.
pub mod Reading
pub mod Starting
use klevret_english_ver.Base.{
  ℕ, ◌+◌, ◌-◌, ◌*◌, ◌≡◌, Bytes, List, [], ◌∷◌, ◌++◌, length, drop, set, ltb, if◌then◌else◌, Result,
  ok, err, undefined, Option, none, some, ◌>>=◌,
}
use klevret_english_ver.Core.{c_string}

abbrev pub buffer_size : ℕ
buffer_size = 1024 * 10

-- The buffer behind a `read` of `packet` into it, ended by `buffer[bytes_read] = '\0'`: a write behind
-- the array is undefined.
unfoldable pub terminate : Bytes → Bytes → Result Bytes
terminate buffer packet =
    let filled = packet ++ drop (length packet) buffer in
    if ltb (length packet) (length buffer) then ok (set filled (length packet) 0) else err undefined

unfoldable pub print_packet : Bytes → Option Bytes → Result (Option Bytes)
unfolding terminate
print_packet buffer none = ok none
print_packet buffer (some packet) =
    if ltb 0 (length packet)
    then terminate buffer packet >>= (λ filled. c_string filled >>= (λ text. ok (some text)))
    else ok none

-- A round of the loop of `client_handler_thread`, and the packet that it prints, if it prints one.
-- `read` is the call of the system by the number of bytes asked for: none is an error.
unfoldable pub receive : (ℕ → Option Bytes) → Bytes → Result (Option Bytes)
unfolding print_packet
receive read buffer = print_packet buffer (read (buffer_size - 1))

-- Where `main` of dhcp/src/main.cpp and the acceptor of the TcpServer stand.
pub data Main : Type 0 where
  constructing : Main  -- in the constructor of TcpServer
  joining : Main  -- in `join_threads`
  serving : Main  -- behind `start`, at the loop that handles datagrams
  failed : Main  -- behind an exception of the constructor

pub data Acceptor : Type 0 where
  not_started : Acceptor
  accepting : Acceptor  -- in `accept`
  starting_handler : Acceptor
  finished : Acceptor

pub record ApiServer : Type 0 where
  pub main : Main
  pub acceptor : Acceptor
  pub handlers : ℕ

pub data Step (s : ApiServer) : ApiServer → Type 0 where
  construct : s.main ≡ constructing → Step s (record s { main = joining; acceptor = accepting })
  throw : s.main ≡ constructing → Step s (record s { main = failed })
  accept_fails : s.acceptor ≡ accepting → Step s (record s { acceptor = accepting })
  accept : s.acceptor ≡ accepting → Step s (record s { acceptor = starting_handler })
  start_handler :
      s.acceptor ≡ starting_handler
      → Step s (record s { acceptor = accepting; handlers = s.handlers + 1 })
  join : s.main ≡ joining → s.acceptor ≡ finished → Step s (record s { main = serving })

pub data Reach : ApiServer → Type 0 where
  start : Reach (record { main = constructing; acceptor = not_started; handlers = 0 })
  later : {s t : ApiServer} → Reach s → Step s t → Reach t
