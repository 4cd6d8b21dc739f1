-- ===== src/UdpListener/Order.antt =====
-- The queue of dhcp/src/UdpListener.cpp under every order of the steps.
use klevret_english_ver.Base.{
  ◌≡◌, ◌≢◌, refl, true, false, List, [], ◌∷◌, ◌++◌, Bytes, Option, Result, ok,
}
use klevret_english_ver.UdpListener.{
  receiving, listening, polling, testing, tested, filled, fronting, popping, handling, ended,
  undefined_behaviour, UdpServer, is_blank, ReceiverStep, MainStep, Step, Reach,
}
use klevret_english_ver.UdpListener.Invariant.{arriving, taken, run_all, Inv}
use klevret_english_ver.UdpListener.Moves.{
  stay, lock, unlock, receiver_stays, receive-Inv, lock_push-Inv, push-Inv, unlock_push-Inv,
  pop-Inv, handle_taken-Inv,
}

module _ {S : Type 0} (handle : S → Bytes → Result (S × Option Bytes)) where
  true_not_false : true ≡ false → ⊥
  true_not_false h = cc

  nil_not_cons : {datagram : Bytes} {rest : List Bytes} → [] ≡ datagram ∷ rest → ⊥
  nil_not_cons h = cc

  ReceiverStep-Inv :
      {s : S} {u v : UdpServer S} → Inv handle s u → ReceiverStep u v → Inv handle s v
  ReceiverStep-Inv i (ReceiverStep.listen at_head running) =
      receiver_stays handle i listening at_head refl refl
  ReceiverStep-Inv i (ReceiverStep.receive_nothing at_recv) =
      receiver_stays handle i receiving at_recv refl refl
  ReceiverStep-Inv i (ReceiverStep.receive datagram at_recv) = receive-Inv handle i datagram at_recv
  ReceiverStep-Inv i (ReceiverStep.lock_push waits free) = lock_push-Inv handle i waits free
  ReceiverStep-Inv i (ReceiverStep.push pushes) = push-Inv handle i pushes
  ReceiverStep-Inv i (ReceiverStep.unlock_push unlocks) = unlock_push-Inv handle i unlocks

  MainStep-Inv : {s : S} {u v : UdpServer S} → Inv handle s u → MainStep handle u v → Inv handle s v
  MainStep-Inv i (MainStep.lock_test polls free) = lock handle i testing polls free refl refl tt
  MainStep-Inv {u = u} i (MainStep.test tests) =
      stay handle i (tested (is_blank u.queue)) tests refl refl refl
  MainStep-Inv i (MainStep.unlock_blank at_end) = unlock handle i polling at_end refl refl refl tt
  MainStep-Inv i (MainStep.unlock_filled at_end) =
      unlock handle i filled at_end refl refl refl (rw at_end at i.relies)
  MainStep-Inv i (MainStep.lock_get gets free) =
      lock handle i fronting gets free refl refl (rw gets at i.relies)
  MainStep-Inv i (MainStep.front {datagram} {queue} fronts begins) =
      stay handle i (popping datagram) fronts refl refl (queue, begins)
  MainStep-Inv i (MainStep.front_empty fronts empty) =
      let filled_queue = rw (fronts, empty) at i.relies in absurd (true_not_false filled_queue)
  MainStep-Inv i (MainStep.pop pops begins) = pop-Inv handle i pops begins
  MainStep-Inv i (MainStep.pop_empty pops empty) =
      let (rest, begins) = rw (pops, empty) at i.relies in absurd (nil_not_cons begins)
  MainStep-Inv i (MainStep.unlock_get {datagram} leaves) =
      unlock handle i (handling datagram) leaves refl refl refl tt
  MainStep-Inv i (MainStep.handle_taken handles returns) = handle_taken-Inv handle i handles returns
  MainStep-Inv i (MainStep.handle_throws {datagram} {cause} handles throws) =
      stay handle i (ended datagram cause) handles refl refl tt

  Step-Inv : {s : S} {u v : UdpServer S} → Inv handle s u → Step handle u v → Inv handle s v
  Step-Inv i (Step.receiver_moves step) = ReceiverStep-Inv i step
  Step-Inv i (Step.main_moves step) = MainStep-Inv i step
  Step-Inv i Step.stop = record {
    exclusive = i.exclusive;
    held = i.held;
    relies = i.relies;
    in_order = i.in_order;
    served = i.served;
  }

  Reach-Inv : {s : S} {u : UdpServer S} → Reach handle s u → Inv handle s u
  unfolding run_all
  Reach-Inv Reach.start = record {
    exclusive = refl;
    held = refl;
    relies = tt;
    in_order = refl;
    served = refl;
  }
  Reach-Inv (Reach.later r step) = Step-Inv (Reach-Inv r) step

  -- Whatever the order of the steps, the loop never reads or pops an empty queue, and the datagrams
  -- that the socket has given are those handled, the one that the loop has in hand, those in the
  -- queue, and the one that the receiver has in hand, in this order: none is lost, doubled or
  -- overtaken.
  pub datagrams_in_order :
      (s : S) (u : UdpServer S)
      → Reach handle s u
      → (u.main ≢ undefined_behaviour)
        × (u.datagrams ≡ u.handled ++ (taken u.main ++ (u.queue ++ arriving u.receiver)))
  datagrams_in_order s u r =
      let i = Reach-Inv r in (λ undefined_here. rw undefined_here at i.relies, i.in_order)

  -- The loop's state is that of handling the datagrams one by one.
  pub served :
      {s : S} {u : UdpServer S} → Reach handle s u → run_all handle s u.handled ≡ ok u.state
  served r = (Reach-Inv r).served
