-- ===== src/TcpListener/Threads/Invariant.antt =====
-- The invariant of a listener's threads, and the steps of a handler.
use klevret_english_ver.Base.{
  ℕ, ◌≤◌, ◌<◌, ◌≡◌, refl, sym, ap, ◌∙◌, inl, inr, List, [], ◌∷◌, ◌++◌, append-nil, Bytes, Option,
  length, ◌==◌, ==→eq, Bool-cases, if◌then◌else◌, All, All-append, arith,
}
use mathlib.Core.Path.{subst}
use klevret_english_ver.TcpListener.Threads.{
  Holder, Client, absent, reading, locking, pushing, unlocking, returned, Acceptor, closing, ended,
  TcpListener, put, buffer_size,
}

-- The packet that a handler has read and not yet pushed.
abbrev pub in_flight : Client → List Bytes
in_flight (locking packet) = packet ∷ []
in_flight (pushing packet) = packet ∷ []
in_flight client = []

abbrev pub of_client : ℕ → List (ℕ × Bytes) → List Bytes
of_client i [] = []
of_client i ((j, packet) ∷ pushed) =
    let rest = of_client i pushed in if i == j then packet ∷ rest else rest

abbrev pub packets : List (ℕ × Bytes) → List Bytes
packets [] = []
packets ((j, packet) ∷ pushed) = packet ∷ packets pushed

-- Not a thread that runs.
abbrev pub IsQuiet : Client → Type 0
IsQuiet absent = Unit
IsQuiet returned = Unit
IsQuiet client = ⊥

-- The acceptor has joined the handlers.
abbrev pub HasJoined : Acceptor → Type 0
HasJoined closing = Unit
HasJoined ended = Unit
HasJoined acceptor = ⊥

-- A packet fits the buffer, with a byte to spare.
abbrev pub Fits : Bytes → Type 0
Fits packet = (0 < length packet) × (length packet < buffer_size)

pub record Inv (t : TcpListener) : Type 0 where
  pub in_order : (i : ℕ) → t.reads i ≡ of_client i t.pushed ++ in_flight (t.clients i)
  pub queued : t.queue ≡ packets t.pushed
  pub fits : All Fits t.queue
  pub flying_fits : (i : ℕ) → All Fits (in_flight (t.clients i))
  pub fresh : (i : ℕ) → t.accepted ≤ i → t.clients i ≡ absent
  pub quiet : HasJoined t.acceptor → (i : ℕ) → IsQuiet (t.clients i)

of_client-snoc :
    (i j : ℕ) (pushed : List (ℕ × Bytes)) (packet : Bytes)
    → of_client i (pushed ++ (j, packet) ∷ [])
      ≡ of_client i pushed ++ (if i == j then packet ∷ [] else [])
of_client-snoc i j [] packet = ground arith
of_client-snoc i j ((k, first) ∷ pushed) packet = ground (arith, of_client-snoc i j pushed packet)

packets-snoc :
    (j : ℕ) (pushed : List (ℕ × Bytes)) (packet : Bytes)
    → packets (pushed ++ (j, packet) ∷ []) ≡ packets pushed ++ packet ∷ []
packets-snoc j [] packet = refl
packets-snoc j ((k, first) ∷ pushed) packet = ap (◌∷◌ first) (packets-snoc j pushed packet)

-- A property of every client behind a change of one.
pub put_all :
    {A : Type 0} (P : ℕ → A → Type 0) (f : ℕ → A) (i : ℕ) (a : A)
    → P i a
    → ((j : ℕ) → P j (f j))
    → (j : ℕ) → P j (put f i a j)
put_all P f i a here there j = elim (Bool-cases (j == i)) [
  | inl same ↦ rw same (subst (λ j. P j a) (sym (==→eq j i same)) here)
  | inr other ↦ rw other (there j)
]

module _ {t : TcpListener} (v : Inv t) (i : ℕ) where
  -- A handler that runs has been accepted, and the acceptor has not joined it.
  module _ {c : Client} (at_c : t.clients i ≡ c) (runs : IsQuiet c → ⊥) where
    not_joined : HasJoined t.acceptor → ⊥
    not_joined joined = runs (subst IsQuiet at_c (v.quiet joined i))

    accepted_before : t.accepted ≤ i → ⊥
    accepted_before le = runs (subst IsQuiet (sym (v.fresh i le) ∙ at_c) tt)

    fresh-put : (c' : Client) (j : ℕ) → t.accepted ≤ j → put t.clients i c' j ≡ absent
    fresh-put c' j le = elim (Bool-cases (j == i)) [
      | inl same ↦ absurd (accepted_before (subst (λ j. t.accepted ≤ j) (==→eq j i same) le))
      | inr other ↦ rw other (v.fresh j le)
    ]

    -- The handler moves on, with the packet that it has.
    pub moves-Inv :
        (c' : Client) (mutex : Option Holder)
        → in_flight c' ≡ in_flight c
        → Inv (record t { clients = put t.clients i c'; mutex = mutex })
    moves-Inv c' mutex flies = record {
      in_order =
          put_all (λ j client. t.reads j ≡ of_client j t.pushed ++ in_flight client) t.clients i c'
            (rw flies (
              subst (λ client. t.reads i ≡ of_client i t.pushed ++ in_flight client) at_c
                (v.in_order i)))
            v.in_order;
      queued = v.queued;
      fits = v.fits;
      flying_fits =
          put_all (λ j client. All Fits (in_flight client)) t.clients i c'
            (subst (All Fits) (ap in_flight at_c ∙ sym flies) (v.flying_fits i)) v.flying_fits;
      fresh = fresh-put c';
      quiet = λ joined. absurd (not_joined joined);
    }

  pub read-Inv :
      (packet : Bytes)
      → t.clients i ≡ reading
      → Fits packet
      → Inv (record t {
        clients = put t.clients i (locking packet);
        reads = put t.reads i (t.reads i ++ packet ∷ []);
      })
  read-Inv packet at_read fits = record {
    in_order = λ j. elim (Bool-cases (j == i)) [
      | inl same ↦ rw same (
          ap (λ given. given ++ packet ∷ [])
            (subst (λ client. t.reads i ≡ of_client i t.pushed ++ in_flight client) at_read
              (v.in_order i))
          ∙ simp (append-nil, ==→eq j i same))
      | inr other ↦ rw other (v.in_order j)
    ];
    queued = v.queued;
    fits = v.fits;
    flying_fits =
        put_all (λ j client. All Fits (in_flight client)) t.clients i (locking packet) (fits, tt)
          v.flying_fits;
    fresh = fresh-put at_read (λ no. no) (locking packet);
    quiet = λ joined. absurd (not_joined at_read (λ no. no) joined);
  }

  pub push-Inv :
      {packet : Bytes}
      → t.clients i ≡ pushing packet
      → Inv (record t {
        clients = put t.clients i unlocking;
        queue = t.queue ++ packet ∷ [];
        pushed = t.pushed ++ (i, packet) ∷ [];
      })
  push-Inv {packet} at_push = record {
    in_order = λ j. elim (Bool-cases (j == i)) [
      | inl same ↦ rw same (
          rw (of_client-snoc j i t.pushed packet, same, append-nil, ==→eq j i same)
            (subst (λ client. t.reads i ≡ of_client i t.pushed ++ in_flight client) at_push
              (v.in_order i)))
      | inr other ↦ rw (of_client-snoc j i t.pushed packet, other, append-nil) (v.in_order j)
    ];
    queued = ap (λ queue. queue ++ packet ∷ []) v.queued ∙ sym (packets-snoc i t.pushed packet);
    fits =
        All-append Fits t.queue (packet ∷ []) v.fits
          (subst (λ client. All Fits (in_flight client)) at_push (v.flying_fits i));
    flying_fits =
        put_all (λ j client. All Fits (in_flight client)) t.clients i unlocking tt v.flying_fits;
    fresh = fresh-put at_push (λ no. no) unlocking;
    quiet = λ joined. absurd (not_joined at_push (λ no. no) joined);
  }
