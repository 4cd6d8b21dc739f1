-- ===== src/TcpListener/Threads/Sessions.antt =====
-- What becomes of the packets of each client, and of the threads when the listener has stopped.
use klevret_english_ver.Base.{
  ℕ, ◌+◌, ◌<◌, ◌≡◌, refl, sym, ap, ◌∙◌, inl, inr, Bool, true, [], ◌++◌, append-nil, Option, none,
  some, ==_ne, ltb, ltb→lt, Bool-cases, All, arith,
}
use mathlib.Core.Path.{subst}
use klevret_english_ver.TcpListener.Threads.{
  Holder, Client, checking, reading, pushing, returned, Acceptor, testing, accepting, joining,
  closing, ended, terminated, TcpListener, put, ClientStep, AcceptorStep, Step, Reach,
}
use klevret_english_ver.TcpListener.Threads.Invariant.{
  in_flight, of_client, packets, IsQuiet, HasJoined, Fits, Inv, put_all, moves-Inv, read-Inv,
  push-Inv,
}

-- The acceptor moves on; where it has joined the handlers, none runs.
acceptor-Inv :
    {t : TcpListener} (acceptor : Acceptor)
    → (HasJoined acceptor → (i : ℕ) → IsQuiet (t.clients i))
    → Inv t
    → Inv (record t { acceptor = acceptor })
acceptor-Inv acceptor quiet v = record {
  in_order = v.in_order;
  queued = v.queued;
  fits = v.fits;
  flying_fits = v.flying_fits;
  fresh = v.fresh;
  quiet = quiet;
}

accept-Inv :
    {t : TcpListener}
    → Inv t
    → Inv (record t {
      acceptor = testing;
      accepted = t.accepted + 1;
      clients = put t.clients t.accepted checking;
    })
accept-Inv {t} v =
    let unused = v.fresh t.accepted (omega arith) in
    record {
      in_order =
          put_all (λ j client. t.reads j ≡ of_client j t.pushed ++ in_flight client) t.clients
            t.accepted checking
            (subst
              (λ client. t.reads t.accepted ≡ of_client t.accepted t.pushed ++ in_flight client)
              unused (v.in_order t.accepted))
            v.in_order;
      queued = v.queued;
      fits = v.fits;
      flying_fits =
          put_all (λ j client. All Fits (in_flight client)) t.clients t.accepted checking tt
            v.flying_fits;
      fresh = λ j le.
          rw (==_ne j t.accepted (λ same. omega (arith, same, le))) (v.fresh j (omega (arith, le)));
      quiet = λ no. absurd no;
    }

all_returned :
    {t : TcpListener}
    → Inv t
    → ((i : ℕ) → i < t.accepted → t.clients i ≡ returned)
    → (i : ℕ) → IsQuiet (t.clients i)
all_returned {t} v returns i = elim (Bool-cases (ltb i t.accepted)) [
  | inl lt ↦ subst IsQuiet (sym (returns i (ltb→lt i t.accepted lt))) tt
  | inr ge ↦ subst IsQuiet (sym (v.fresh i (ground arith))) tt
]

client-Inv : {t : TcpListener} (i : ℕ) {u : TcpListener} → Inv t → ClientStep t i u → Inv u
client-Inv {t} i v (ClientStep.go_on at_c f) = moves-Inv v i at_c (λ no. no) reading t.mutex refl
client-Inv {t} i v (ClientStep.leave at_c f) = moves-Inv v i at_c (λ no. no) returned t.mutex refl
client-Inv {t} i v (ClientStep.read_nothing at_c) =
    moves-Inv v i at_c (λ no. no) checking t.mutex refl
client-Inv i v (ClientStep.read packet at_c some_bytes few) =
    read-Inv v i packet at_c (some_bytes, few)
client-Inv i v (ClientStep.lock {packet} at_c free) =
    moves-Inv v i at_c (λ no. no) (pushing packet) (some (Holder.handler i)) refl
client-Inv i v (ClientStep.push at_c) = push-Inv v i at_c
client-Inv i v (ClientStep.unlock at_c) = moves-Inv v i at_c (λ no. no) checking none refl

acceptor_moves-Inv : {t u : TcpListener} → Inv t → AcceptorStep t u → Inv u
acceptor_moves-Inv v (AcceptorStep.listen at_a) = acceptor-Inv testing (λ no. absurd no) v
acceptor_moves-Inv v (AcceptorStep.throw at_a) = acceptor-Inv terminated (λ no. absurd no) v
acceptor_moves-Inv v (AcceptorStep.go_on at_a f) = acceptor-Inv accepting (λ no. absurd no) v
acceptor_moves-Inv v (AcceptorStep.accept_fails at_a) = acceptor-Inv testing (λ no. absurd no) v
acceptor_moves-Inv v (AcceptorStep.accept at_a) = accept-Inv v
acceptor_moves-Inv v (AcceptorStep.leave at_a f) = acceptor-Inv joining (λ no. absurd no) v
acceptor_moves-Inv v (AcceptorStep.join_all at_a returns) =
    acceptor-Inv closing (λ joined. all_returned v returns) v
acceptor_moves-Inv v (AcceptorStep.close at_a) =
    acceptor-Inv ended (λ joined. v.quiet (subst HasJoined (sym at_a) tt)) v

-- A change of the mutex or of the flag alone.
flags-Inv :
    {t : TcpListener} (mutex : Option Holder) (stop_flag : Bool)
    → Inv t
    → Inv (record t { mutex = mutex; stop_flag = stop_flag })
flags-Inv mutex stop_flag v = record {
  in_order = v.in_order;
  queued = v.queued;
  fits = v.fits;
  flying_fits = v.flying_fits;
  fresh = v.fresh;
  quiet = v.quiet;
}

pub reach-Inv : (t : TcpListener) → Reach t → Inv t
reach-Inv _ Reach.start = record {
  in_order = λ i. refl;
  queued = refl;
  fits = tt;
  flying_fits = λ i. tt;
  fresh = λ i le. refl;
  quiet = λ no. absurd no;
}
reach-Inv _ (Reach.later r (Step.client_moves i step)) = client-Inv i (reach-Inv _ r) step
reach-Inv _ (Reach.later r (Step.acceptor_moves step)) = acceptor_moves-Inv (reach-Inv _ r) step
reach-Inv _ (Reach.later {t} r (Step.owner_locks free)) =
    flags-Inv (some Holder.owner) t.stop_flag (reach-Inv t r)
reach-Inv _ (Reach.later {t} r (Step.owner_unlocks held)) =
    flags-Inv none t.stop_flag (reach-Inv t r)
reach-Inv _ (Reach.later {t} r Step.stop) = flags-Inv t.mutex true (reach-Inv t r)

-- Whatever the order of the steps, the queue is what the handlers have pushed, and the packets
-- that a client has sent have been pushed in the order of its reads, all but the one that its
-- handler holds.
pub packets_in_order :
    (t : TcpListener)
    → Reach t
    → (t.queue ≡ packets t.pushed)
      × ((i : ℕ) → t.reads i ≡ of_client i t.pushed ++ in_flight (t.clients i))
packets_in_order t r = let v = reach-Inv t r in (v.queued, v.in_order)

-- Whatever the order of the steps, when the thread that stop joins has ended, no handler runs,
-- and every packet that was read from a client has been pushed.
pub stopped-IsQuiet :
    (t : TcpListener)
    → Reach t
    → t.acceptor ≡ ended
    → (i : ℕ) → IsQuiet (t.clients i) × (t.reads i ≡ of_client i t.pushed)
stopped-IsQuiet t r done i =
    let v = reach-Inv t r in
    let quiet = v.quiet (subst HasJoined (sym done) tt) i in
    (
      quiet,
      v.in_order i
          ∙ ap (λ rest. of_client i t.pushed ++ rest) (flies_not (t.clients i) quiet)
          ∙ append-nil (of_client i t.pushed),
    )
  where
    flies_not : (client : Client) → IsQuiet client → in_flight client ≡ []
    flies_not client quiet = ground arith
