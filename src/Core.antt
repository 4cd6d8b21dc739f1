-- ===== src/Core.antt =====
-- common/src/TcoListener.cpp and core/src/main.cpp: the clients' threads put packets into a queue
-- behind a mutex, and the loop takes them out and passes those for the DHCP server on. A step is a
-- round of one thread: each access of the queue is behind the mutex. `read_component` stands for
-- Boost's JSON reader: the string at the key "component", or none where the reader throws, which
-- the loop catches. `forwarded` is what is to be sent to port 40237: the sending is in
-- Sockets.Client.
pub mod Forwarding
use klevret_english_ver.Base.{
  ◌≡◌, Bool, true, false, not, List, [], ◌∷◌, ◌++◌, Bytes, Option, none, some, ◌==◌, if◌then◌else◌,
  Error, Result, ok, err, queue_not_empty, undefined, throw_if, ◌>>=◌, ◌>>◌, codes,
}
use klevret_english_ver.IpAddress.{array_eq}

-- `_is_empty_no_mutex`
abbrev pub is_empty_no_mutex : List Bytes → Bool
is_empty_no_mutex [] = true
is_empty_no_mutex (packet ∷ queue) = false

-- `is_empty`
unfoldable pub is_empty : List Bytes → Bool
is_empty queue = is_empty_no_mutex queue

-- `_queue.front()` and `_queue.pop()`: of an empty queue they are undefined.
unfoldable pub take_front : List Bytes → Result (Bytes × List Bytes)
take_front [] = err undefined
take_front (packet ∷ queue) = ok (packet, queue)

-- The test is the wrong way round.
unfoldable pub get_next_packet : List Bytes → Result (Bytes × List Bytes)
unfolding take_front
get_next_packet queue = throw_if (not (is_empty_no_mutex queue)) queue_not_empty >> take_front queue

-- `std::string(data.data())`: up to the first NUL; behind the last byte the read is undefined.
unfoldable pub c_string : Bytes → Result Bytes
c_string [] = err undefined
c_string (c ∷ rest) = if c == 0 then ok [] else c_string rest >>= (λ str. ok (c ∷ str))

-- `ended` is the exception that has ended the loop, if one has.
pub record Core : Type 0 where
  pub queue : List Bytes
  pub ended : Option Error
  pub forwarded : List Bytes

abbrev pub forwarded_with : List Bytes → Option Bytes → List Bytes
forwarded_with forwarded none = forwarded
forwarded_with forwarded (some json_str) = forwarded ++ json_str ∷ []

module _ (read_component : Bytes → Option Bytes) where
  -- The `try` block: what is sent on.
  unfoldable pub forward : Bytes → Option Bytes
  forward json_str = elim (read_component json_str) [
    | none ↦ none
    | some component ↦ if array_eq component (codes "dhcp") then some json_str else none
  ]

  -- A round of the loop: the queue, and what is sent on.
  unfoldable pub core_round : List Bytes → Result (List Bytes × Option Bytes)
  unfolding is_empty get_next_packet c_string forward
  core_round queue =
      if not (is_empty queue)
      then (get_next_packet queue
          >>= (λ (packet, rest). c_string packet >>= (λ json_str. ok (rest, forward json_str))))
      else ok (queue, none)

  pub data Step (c : Core) : Core → Type 0 where
    push : (packet : Bytes) → Step c (record c { queue = c.queue ++ packet ∷ [] })
    round_returns :
        {queue : List Bytes} {sent : Option Bytes}
        → c.ended ≡ none
        → core_round c.queue ≡ ok (queue, sent)
        → Step c (record c { queue = queue; forwarded = forwarded_with c.forwarded sent })
    round_throws :
        {cause : Error}
        → c.ended ≡ none
        → core_round c.queue ≡ err cause
        → Step c (record c { ended = some cause })

  pub data Reach : Core → Type 0 where
    start : Reach (record { queue = []; ended = none; forwarded = [] })
    later : {c d : Core} → Reach c → Step c d → Reach d
