-- ===== src/UdpListener/Moves.antt =====
-- The invariant behind each kind of step of the receiving thread and the loop.
use klevret_english_ver.Base.{
  ◌≡◌, refl, ap, sym, ◌∙◌, true, false, List, [], ◌∷◌, ◌++◌, append_assoc, append-nil, Bytes,
  Option, none, some, Result, ok,
}
use klevret_english_ver.UdpListener.{
  receiver_thread, main_thread, Receiver, receiving, listening, received, pushing, unlocking, Main,
  polling, popping, leaving, handling, UdpServer, sent_with,
}
use klevret_english_ver.UdpListener.Invariant.{
  arriving, taken, receiver_holds, main_holds, Relies, run_all-snoc, Inv, holder_free,
  holding_alone, Relies-push,
}

module _ {S : Type 0} (handle : S → Bytes → Result (S × Option Bytes)) where
  module _ {s : S} {u : UdpServer S} (i : Inv handle s u) where
    -- The loop moves on, in or outside of a lock.
    pub stay :
        {m : Main} (m' : Main)
        → u.main ≡ m
        → main_holds m' ≡ main_holds m
        → taken m' ≡ taken m
        → Relies m' u.queue
        → Inv handle s (record u { main = m' })
    stay m' at_m holds takes relies = record {
      exclusive = rw holds (rw at_m at i.exclusive);
      held = rw holds (rw at_m at i.held);
      relies = relies;
      in_order = rw takes (rw at_m at i.in_order);
      served = i.served;
    }

    -- The loop takes the mutex.
    pub lock :
        {m : Main} (m' : Main)
        → u.main ≡ m
        → u.mutex ≡ none
        → main_holds m' ≡ true
        → taken m' ≡ taken m
        → Relies m' u.queue
        → Inv handle s (record u { main = m'; mutex = some main_thread })
    lock m' at_m free holds takes relies =
        let (alone, outside) = holder_free handle _ _ free i.held in
        record {
          exclusive = rw alone refl;
          held = rw (alone, holds) refl;
          relies = relies;
          in_order = rw takes (rw at_m at i.in_order);
          served = i.served;
        }

    -- The loop gives the mutex back.
    pub unlock :
        {m : Main} (m' : Main)
        → u.main ≡ m
        → main_holds m ≡ true
        → main_holds m' ≡ false
        → taken m' ≡ taken m
        → Relies m' u.queue
        → Inv handle s (record u { main = m'; mutex = none })
    unlock m' at_m held leaves takes relies =
        let alone =
          holding_alone handle (receiver_holds u.receiver) (main_holds u.main) i.exclusive
            (rw at_m held) in
        record {
          exclusive = rw alone refl;
          held = rw (alone, leaves) refl;
          relies = relies;
          in_order = rw takes (rw at_m at i.in_order);
          served = i.served;
        }

    -- The receiver moves on outside of the lock.
    pub receiver_stays :
        {r : Receiver} (r' : Receiver)
        → u.receiver ≡ r
        → receiver_holds r' ≡ receiver_holds r
        → arriving r' ≡ arriving r
        → Inv handle s (record u { receiver = r' })
    receiver_stays r' at_r holds arrives = record {
      exclusive = rw holds (rw at_r at i.exclusive);
      held = rw holds (rw at_r at i.held);
      relies = i.relies;
      in_order = rw arrives (rw at_r at i.in_order);
      served = i.served;
    }

    pub receive-Inv :
        (datagram : Bytes)
        → u.receiver ≡ listening
        → Inv handle s
            (record u { receiver = received datagram; datagrams = u.datagrams ++ datagram ∷ [] })
    receive-Inv datagram at_recv = record {
      exclusive = refl;
      held = rw at_recv at i.held;
      relies = i.relies;
      in_order =
          ap (λ given. given ++ datagram ∷ []) (rw at_recv at i.in_order)
          ∙ simp (append_assoc, append-nil);
      served = i.served;
    }

    pub lock_push-Inv :
        {datagram : Bytes}
        → u.receiver ≡ received datagram
        → u.mutex ≡ none
        → Inv handle s (record u { receiver = pushing datagram; mutex = some receiver_thread })
    lock_push-Inv waits free =
        let (outside, alone) = holder_free handle _ _ free i.held in
        record {
          exclusive = alone;
          held = refl;
          relies = i.relies;
          in_order = rw waits at i.in_order;
          served = i.served;
        }

    pub push-Inv :
        {datagram : Bytes}
        → u.receiver ≡ pushing datagram
        → Inv handle s (record u { receiver = unlocking; queue = u.queue ++ datagram ∷ [] })
    push-Inv {datagram} pushes =
        let alone : main_holds u.main ≡ false = rw pushes at i.exclusive in
        record {
          exclusive = alone;
          held = rw pushes at i.held;
          relies = Relies-push handle u.main u.queue datagram alone i.relies;
          in_order = rw append-nil (rw pushes at i.in_order);
          served = i.served;
        }

    pub unlock_push-Inv :
        u.receiver ≡ unlocking → Inv handle s (record u { receiver = receiving; mutex = none })
    unlock_push-Inv unlocks =
        let alone : main_holds u.main ≡ false = rw unlocks at i.exclusive in
        record {
          exclusive = refl;
          held = rw alone refl;
          relies = i.relies;
          in_order = rw unlocks at i.in_order;
          served = i.served;
        }

    pub pop-Inv :
        {datagram first : Bytes} {queue : List Bytes}
        → u.main ≡ popping datagram
        → u.queue ≡ first ∷ queue
        → Inv handle s (record u { main = leaving datagram; queue = queue })
    pop-Inv {datagram} {first} {queue} pops starts =
        let (rest, begins) : Relies (popping datagram) u.queue = rw pops at i.relies in
        let same : first ∷ queue ≡ datagram ∷ rest = sym starts ∙ begins in
        let first_same : first ≡ datagram = cc in
        record {
          exclusive = rw pops at i.exclusive;
          held = rw pops at i.held;
          relies = tt;
          in_order = rw first_same at (rw (pops, starts) at i.in_order);
          served = i.served;
        }

    pub handle_taken-Inv :
        {datagram : Bytes} {t : S} {reply : Option Bytes}
        → u.main ≡ handling datagram
        → handle u.state datagram ≡ ok (t, reply)
        → Inv handle s (record u {
          main = polling;
          state = t;
          handled = u.handled ++ datagram ∷ [];
          sent = sent_with u.sent reply;
        })
    handle_taken-Inv {datagram} handles returns = record {
      exclusive = rw handles at i.exclusive;
      held = rw handles at i.held;
      relies = tt;
      in_order = (rw handles at i.in_order) ∙ rw append_assoc;
      served = run_all-snoc handle s u.handled datagram i.served returns;
    }
