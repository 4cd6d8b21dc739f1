-- ===== src/Tests/Processes.antt =====
-- The core process, and calls of `instance`.
use klevret_english_ver.Base.{
  ℕ, ◌≡◌, ◌≤◌, refl, ◌⊎◌, Bool, true, false, [], ◌∷◌, Bytes, Option, none, some, err,
  queue_not_empty, arith, codes,
}
use klevret_english_ver.Core.{Core, is_empty, get_next_packet, core_round}
use klevret_english_ver.Core
use klevret_english_ver.Core.Forwarding.{nothing_forwarded}
use klevret_english_ver.Singleton.{Pc, waiting, leaving, System, update, Step, initial, Run, Reach}
use klevret_english_ver.Singleton.Once.{instance_once, waits_for_ever}
use klevret_english_ver.Base.{◌++◌, ◌-◌, replicate, take, length, length-take, length-replicate, ok}
use klevret_english_ver.TcpListener.Threads.{TcpListener, ClientStep, AcceptorStep, buffer_size}
use klevret_english_ver.TcpListener.Threads as TcpListener
use klevret_english_ver.TcpListener.Threads.Invariant.{packets, of_client, in_flight, IsQuiet}
use klevret_english_ver.TcpListener.Threads.Sessions.{packets_in_order, stopped-IsQuiet}
use klevret_english_ver.ApiServer.{receive}
use klevret_english_ver.ApiServer
use klevret_english_ver.ApiServer.Reading.{printed, receive_returns}

-- A reader that finds the component `dhcp` in every text.
abbrev all_dhcp : Bytes → Option Bytes
all_dhcp json_str = some (codes "dhcp")

abbrev packet : Bytes
packet = codes "{}"

abbrev stopped : Core
stopped = record { queue = packet ∷ []; ended = some queue_not_empty; forwarded = [] }

throws : core_round all_dhcp (packet ∷ []) ≡ err queue_not_empty
unfolding core_round
throws = refl

stopped_reached : Core.Reach all_dhcp stopped
stopped_reached =
    Core.Reach.later (Core.Reach.later Core.Reach.start (Core.Step.push packet))
      (Core.Step.round_throws refl throws)

nothing_forwarded_example :
    (stopped.forwarded ≡ []) × ((stopped.ended ≡ none) ⊎ (stopped.ended ≡ some queue_not_empty))
nothing_forwarded_example = nothing_forwarded all_dhcp stopped stopped_reached

-- Two threads find no object; the first makes it and comes to the end of its block, where it keeps
-- the mutex.
abbrev made : Bool → System
made releases = record {
  created = 1;
  mutex = some 0;
  pc =
      update
        (update (update (update (update initial.pc 0 waiting) 1 waiting) 0 Pc.locked) 0 Pc.creating)
        0 leaving;
}

made_reached : (releases : Bool) → Reach releases (made releases)
unfolding update
made_reached releases =
    Run.later
      (Run.later
        (Run.later
          (Run.later (Run.later Run.start (Step.find_null 0 refl refl))
            (Step.find_null 1 refl refl))
          (Step.lock 0 refl refl))
        (Step.find_null_again 0 refl refl))
      (Step.create 0 refl)

instance_once_example :
    ((made true).created ≤ 1) × ((i : ℕ) → (made true).pc i ≡ leaving → (made true).created ≡ 1)
instance_once_example = instance_once true (made true) (made_reached true)

abbrev first_returned : System
first_returned = record (made false) { pc = update (made false).pc 0 Pc.returned }

second_waits : (made false).pc 1 ≡ waiting
unfolding update
second_waits = refl

first_returns : Run false (made false) first_returned
unfolding update
first_returns = Run.later Run.start (Step.leave 0 refl)

waits_for_ever_example : first_returned.pc 1 ≡ waiting
waits_for_ever_example =
    waits_for_ever (made false) first_returned 1 (made_reached false) (λ h. omega arith)
      second_waits first_returns

-- A client connects, its packet is read and pushed, and the listener is stopped.
abbrev pushed : (t : TcpListener) × TcpListener.Reach t
pushed = (
  _,
  TcpListener.Reach.later
      (TcpListener.Reach.later
        (TcpListener.Reach.later
          (TcpListener.Reach.later
            (TcpListener.Reach.later
              (TcpListener.Reach.later
                (TcpListener.Reach.later TcpListener.Reach.start
                  (TcpListener.Step.acceptor_moves (AcceptorStep.listen refl)))
                (TcpListener.Step.acceptor_moves (AcceptorStep.go_on refl refl)))
              (TcpListener.Step.acceptor_moves (AcceptorStep.accept refl)))
            (TcpListener.Step.client_moves 0 (ClientStep.go_on refl refl)))
          (TcpListener.Step.client_moves 0
            (ClientStep.read packet refl (omega arith) (omega arith))))
        (TcpListener.Step.client_moves 0 (ClientStep.lock refl refl)))
      (TcpListener.Step.client_moves 0 (ClientStep.push refl)),
)

abbrev stopped_listener : (t : TcpListener) × TcpListener.Reach t
stopped_listener = (
  _,
  TcpListener.Reach.later
      (TcpListener.Reach.later
        (TcpListener.Reach.later
          (TcpListener.Reach.later
            (TcpListener.Reach.later
              (TcpListener.Reach.later pushed.1
                (TcpListener.Step.client_moves 0 (ClientStep.unlock refl)))
              TcpListener.Step.stop)
            (TcpListener.Step.client_moves 0 (ClientStep.leave refl refl)))
          (TcpListener.Step.acceptor_moves (AcceptorStep.leave refl refl)))
        (TcpListener.Step.acceptor_moves (AcceptorStep.join_all refl (λ i lt. ground arith))))
      (TcpListener.Step.acceptor_moves (AcceptorStep.close refl)),
)

packets_in_order_example :
    (pushed.0.queue ≡ packets pushed.0.pushed)
    × ((i : ℕ) → pushed.0.reads i ≡ of_client i pushed.0.pushed ++ in_flight (pushed.0.clients i))
packets_in_order_example = packets_in_order pushed.0 pushed.1

stopped-IsQuiet_example :
    IsQuiet (stopped_listener.0.clients 0)
    × (stopped_listener.0.reads 0 ≡ of_client 0 stopped_listener.0.pushed)
stopped-IsQuiet_example = stopped-IsQuiet stopped_listener.0 stopped_listener.1 refl 0

-- A socket with these bytes to be read, of which a call takes what it is asked for.
abbrev read_from : Bytes → ℕ → Option Bytes
read_from pending n = some (take n pending)

-- As many as the buffer has, so that the call of the thread takes all but one.
abbrev endless : Bytes
endless = replicate 10240 65

read_from_bounded :
    (pending : Bytes) (n : ℕ) (packet : Bytes)
    → read_from pending n ≡ some packet
    → length packet ≤ n
read_from_bounded pending n packet found =
    let same : packet ≡ take n pending = ground arith in
    rw same (omega (arith, length-take n pending))

receive_returns_example :
    receive (read_from endless) (replicate ApiServer.buffer_size 7)
    ≡ ok (printed (read_from endless (ApiServer.buffer_size - 1)))
receive_returns_example =
    receive_returns (read_from endless) (replicate ApiServer.buffer_size 7)
      (length-replicate {A = ℕ} ApiServer.buffer_size 7) (read_from_bounded endless)
