-- ===== src/UdpListener.antt =====
-- dhcp/src/UdpListener.cpp and the loop of dhcp/src/main.cpp: the thread that receives datagrams and
-- the loop that handles them share a queue behind a mutex. A step is one access of shared state by one
-- thread, in any order.
pub mod Invariant
pub mod Moves
pub mod Order
pub mod Sending
pub mod Descriptors
pub mod Opening
use klevret_english_ver.Base.{
  ◌≡◌, Bool, true, false, List, [], ◌∷◌, ◌++◌, Bytes, Option, none, some, Error, Result, ok, err,
  ◌>>=◌,
}

pub data Thread : Type 0 where
  receiver_thread : Thread
  main_thread : Thread

-- Where `thread_func` stands.
pub data Receiver : Type 0 where
  receiving : Receiver  -- at the head of the loop
  listening : Receiver  -- in `recvfrom`
  received : Bytes → Receiver  -- before `lock`
  pushing : Bytes → Receiver
  unlocking : Receiver

-- Where the loop of `main` stands.
pub data Main : Type 0 where
  polling : Main  -- before `is_input_queue_blank`
  testing : Main  -- in it, behind the lock
  tested : Bool → Main  -- before its lock_guard is destroyed
  filled : Main  -- before `get_next_datagram`
  fronting : Main  -- before `_queue.front()`
  popping : Bytes → Main  -- before `_queue.pop()`
  leaving : Bytes → Main  -- before its lock_guard is destroyed
  handling : Bytes → Main
  ended : Bytes → Error → Main  -- behind an exception on a datagram
  undefined_behaviour : Main  -- behind `front` or `pop` of an empty queue

-- `_mutex` is free at `none`. `datagrams` and `handled` are what the socket has given and what the
-- loop has handled, each in order; `sent` are the replies.
pub record UdpServer (S : Type 0) : Type 0 where
  pub queue : List Bytes
  pub mutex : Option Thread
  pub stop_flag : Bool
  pub receiver : Receiver
  pub main : Main
  pub state : S
  pub datagrams : List Bytes
  pub handled : List Bytes
  pub sent : List Bytes

-- `_queue.size() == 0`
abbrev pub is_blank : List Bytes → Bool
is_blank [] = true
is_blank (datagram ∷ queue) = false

abbrev pub sent_with : List Bytes → Option Bytes → List Bytes
sent_with sent none = sent
sent_with sent (some reply) = sent ++ reply ∷ []

-- A step of `thread_func`. `recvfrom` gives a datagram or nothing.
pub data ReceiverStep {S : Type 0} (u : UdpServer S) : UdpServer S → Type 0 where
  listen :
      u.receiver ≡ receiving
      → u.stop_flag ≡ false
      → ReceiverStep u (record u { receiver = listening })
  receive_nothing : u.receiver ≡ listening → ReceiverStep u (record u { receiver = receiving })
  receive :
      (datagram : Bytes)
      → u.receiver ≡ listening
      → ReceiverStep u
          (record u { receiver = received datagram; datagrams = u.datagrams ++ datagram ∷ [] })
  lock_push :
      {datagram : Bytes}
      → u.receiver ≡ received datagram
      → u.mutex ≡ none
      → ReceiverStep u (record u { receiver = pushing datagram; mutex = some receiver_thread })
  push :
      {datagram : Bytes}
      → u.receiver ≡ pushing datagram
      → ReceiverStep u (record u { receiver = unlocking; queue = u.queue ++ datagram ∷ [] })
  unlock_push :
      u.receiver ≡ unlocking → ReceiverStep u (record u { receiver = receiving; mutex = none })

-- `handle` is what the loop does with a datagram that it has taken.
module _ {S : Type 0} (handle : S → Bytes → Result (S × Option Bytes)) where
  -- A step of the loop, in `is_input_queue_blank` and `get_next_datagram` or outside.
  pub data MainStep (u : UdpServer S) : UdpServer S → Type 0 where
    lock_test :
        u.main ≡ polling
        → u.mutex ≡ none
        → MainStep u (record u { main = testing; mutex = some main_thread })
    test : u.main ≡ testing → MainStep u (record u { main = tested (is_blank u.queue) })
    unlock_blank : u.main ≡ tested true → MainStep u (record u { main = polling; mutex = none })
    unlock_filled : u.main ≡ tested false → MainStep u (record u { main = filled; mutex = none })
    lock_get :
        u.main ≡ filled
        → u.mutex ≡ none
        → MainStep u (record u { main = fronting; mutex = some main_thread })
    front :
        {datagram : Bytes} {queue : List Bytes}
        → u.main ≡ fronting
        → u.queue ≡ datagram ∷ queue
        → MainStep u (record u { main = popping datagram })
    front_empty :
        u.main ≡ fronting → u.queue ≡ [] → MainStep u (record u { main = undefined_behaviour })
    pop :
        {datagram first : Bytes} {queue : List Bytes}
        → u.main ≡ popping datagram
        → u.queue ≡ first ∷ queue
        → MainStep u (record u { main = leaving datagram; queue = queue })
    pop_empty :
        {datagram : Bytes}
        → u.main ≡ popping datagram
        → u.queue ≡ []
        → MainStep u (record u { main = undefined_behaviour })
    unlock_get :
        {datagram : Bytes}
        → u.main ≡ leaving datagram
        → MainStep u (record u { main = handling datagram; mutex = none })
    handle_taken :
        {datagram : Bytes} {s : S} {reply : Option Bytes}
        → u.main ≡ handling datagram
        → handle u.state datagram ≡ ok (s, reply)
        → MainStep u (record u {
          main = polling;
          state = s;
          handled = u.handled ++ datagram ∷ [];
          sent = sent_with u.sent reply;
        })
    handle_throws :
        {datagram : Bytes} {cause : Error}
        → u.main ≡ handling datagram
        → handle u.state datagram ≡ err cause
        → MainStep u (record u { main = ended datagram cause })

  -- `stop` may be called at any time.
  pub data Step (u : UdpServer S) : UdpServer S → Type 0 where
    receiver_moves : {v : UdpServer S} → ReceiverStep u v → Step u v
    main_moves : {v : UdpServer S} → MainStep u v → Step u v
    stop : Step u (record u { stop_flag = true })

  -- What the constructor of UdpServer and `main` begin with.
  abbrev pub new_server : S → UdpServer S
  new_server s = record {
    queue = [];
    mutex = none;
    stop_flag = false;
    receiver = receiving;
    main = polling;
    state = s;
    datagrams = [];
    handled = [];
    sent = [];
  }

  pub data Reach (s : S) : UdpServer S → Type 0 where
    start : Reach s (new_server s)
    later : {u v : UdpServer S} → Reach s u → Step u v → Reach s v
