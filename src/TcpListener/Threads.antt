-- ===== src/TcpListener/Threads.antt =====
-- The threads of a TcpListener of common/src/TcoListener.cpp: `_thread_func` accepts clients, and each
-- client has a thread of its own that reads packets and puts them into the queue behind the mutex. A
-- step is one access of shared state by one thread, or one blocking call, in any order. The thread
-- that owns the object calls `is_empty` and `stop`.
pub mod Invariant
pub mod Sessions
use klevret_english_ver.Base.{
  ℕ, suc, ◌+◌, ◌*◌, ◌≤◌, ◌<◌, ◌≡◌, Bool, true, false, List, [], ◌∷◌, ◌++◌, Bytes, Option, none,
  some, length, ◌==◌, if◌then◌else◌,
}

-- Where the handler of a client stands.
pub data Client : Type 0 where
  absent : Client  -- not accepted
  checking : Client  -- before the test of `_stop_flag`
  reading : Client  -- in `read`
  locking : Bytes → Client
  pushing : Bytes → Client
  unlocking : Client
  returned : Client

-- Where `_thread_func` stands.
pub data Acceptor : Type 0 where
  opening : Acceptor  -- in `_create_socket_and_listen`
  testing : Acceptor  -- before the test of `_stop_flag`
  accepting : Acceptor  -- in `accept`
  joining : Acceptor
  closing : Acceptor  -- before `close(server_socket)`
  ended : Acceptor
  terminated : Acceptor  -- behind an exception of `_create_socket_and_listen`

pub data Holder : Type 0 where
  owner : Holder
  handler : ℕ → Holder

-- `accepted` counts the clients, which are numbered from 0. `reads` is what each client's `read` has
-- given, and `pushed` what has been put into the queue, by which client.
pub record TcpListener : Type 0 where
  pub queue : List Bytes
  pub mutex : Option Holder
  pub stop_flag : Bool
  pub acceptor : Acceptor
  pub accepted : ℕ
  pub clients : ℕ → Client
  pub reads : ℕ → List Bytes
  pub pushed : List (ℕ × Bytes)

abbrev pub put {ℓ} : {A : Type ℓ} → (ℕ → A) → ℕ → A → ℕ → A
put f i a j = if j == i then a else f j

-- BUFFER_SIZE
abbrev pub buffer_size : ℕ
buffer_size = 1024 * 10

-- A step of `_client_handler_thread` of client `i`. `read` gives at most BUFFER_SIZE - 1 bytes.
pub data ClientStep (t : TcpListener) (i : ℕ) : TcpListener → Type 0 where
  go_on :
      t.clients i ≡ checking
      → t.stop_flag ≡ false
      → ClientStep t i (record t { clients = put t.clients i reading })
  leave :
      t.clients i ≡ checking
      → t.stop_flag ≡ true
      → ClientStep t i (record t { clients = put t.clients i returned })
  read_nothing :
      t.clients i ≡ reading → ClientStep t i (record t { clients = put t.clients i checking })
  read :
      (packet : Bytes)
      → t.clients i ≡ reading
      → 0 < length packet
      → length packet < buffer_size
      → ClientStep t i (record t {
        clients = put t.clients i (locking packet);
        reads = put t.reads i (t.reads i ++ packet ∷ []);
      })
  lock :
      {packet : Bytes}
      → t.clients i ≡ locking packet
      → t.mutex ≡ none
      → ClientStep t i
          (record t { clients = put t.clients i (pushing packet); mutex = some (handler i) })
  push :
      {packet : Bytes}
      → t.clients i ≡ pushing packet
      → ClientStep t i (record t {
        clients = put t.clients i unlocking;
        queue = t.queue ++ packet ∷ [];
        pushed = t.pushed ++ (i, packet) ∷ [];
      })
  unlock :
      t.clients i ≡ unlocking
      → ClientStep t i (record t { clients = put t.clients i checking; mutex = none })

-- A step of `_thread_func`. Each client that is accepted gets a thread.
pub data AcceptorStep (t : TcpListener) : TcpListener → Type 0 where
  listen : t.acceptor ≡ opening → AcceptorStep t (record t { acceptor = testing })
  throw : t.acceptor ≡ opening → AcceptorStep t (record t { acceptor = terminated })
  go_on :
      t.acceptor ≡ testing
      → t.stop_flag ≡ false
      → AcceptorStep t (record t { acceptor = accepting })
  accept_fails : t.acceptor ≡ accepting → AcceptorStep t (record t { acceptor = testing })
  accept :
      t.acceptor ≡ accepting
      → AcceptorStep t (record t {
        acceptor = testing;
        accepted = t.accepted + 1;
        clients = put t.clients t.accepted checking;
      })
  leave :
      t.acceptor ≡ testing → t.stop_flag ≡ true → AcceptorStep t (record t { acceptor = joining })
  join_all :
      t.acceptor ≡ joining
      → ((i : ℕ) → i < t.accepted → t.clients i ≡ returned)
      → AcceptorStep t (record t { acceptor = closing })
  close : t.acceptor ≡ closing → AcceptorStep t (record t { acceptor = ended })

-- The owner's `is_empty` takes the mutex and gives it back; `stop` sets the flag. It has joined the
-- thread when the acceptor has ended.
pub data Step (t : TcpListener) : TcpListener → Type 0 where
  client_moves : {u : TcpListener} (i : ℕ) → ClientStep t i u → Step t u
  acceptor_moves : {u : TcpListener} → AcceptorStep t u → Step t u
  owner_locks : t.mutex ≡ none → Step t (record t { mutex = some owner })
  owner_unlocks : t.mutex ≡ some owner → Step t (record t { mutex = none })
  stop : Step t (record t { stop_flag = true })

-- What the constructor begins with.
abbrev pub new_listener : TcpListener
new_listener = record {
  queue = [];
  mutex = none;
  stop_flag = false;
  acceptor = opening;
  accepted = 0;
  clients = λ i. absent;
  reads = λ i. [];
  pushed = [];
}

pub data Reach : TcpListener → Type 0 where
  start : Reach new_listener
  later : {t u : TcpListener} → Reach t → Step t u → Reach u
