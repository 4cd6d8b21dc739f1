-- ===== src/Singleton/Once.antt =====
-- The calls of `instance` under every order of the steps.
use klevret_english_ver.Base.{
  ℕ, ◌+◌, ◌≤◌, ◌≡◌, ◌≢◌, refl, ap, sym, ◌∙◌, ◌⊎◌, inl, inr, Bool, false, Bool-cases, ◌==◌, ==→eq,
  if◌then◌else◌, Option, none, some, arith,
}
use klevret_english_ver.Singleton.{
  Pc, waiting, locked, creating, leaving, returned, System, update, Step, Run, Reach,
}

-- Behind the lock.
abbrev Inside : Pc → Type 0
Inside locked = Unit
Inside creating = Unit
Inside leaving = Unit
Inside _ = ⊥

-- What a thread relies on where it stands.
record Relies (created : ℕ) (mutex : Option ℕ) (i : ℕ) (p : Pc) : Type 0 where
  holds : Inside p → mutex ≡ some i
  null : p ≡ creating → created ≡ 0
  made : p ≡ leaving → created ≡ 1

record Inv (releases : Bool) (s : System) : Type 0 where
  once : s.created ≤ 1
  threads : (i : ℕ) → Relies s.created s.mutex i (s.pc i)
  kept : releases ≡ false → s.created ≢ 0 → s.mutex ≢ none

-- The thread that moved, and every other.
update-cases :
    (pc : ℕ → Pc) (i : ℕ) (p : Pc) (j : ℕ)
    → (i ≡ j) × (update pc i p j ≡ p) ⊎ (i ≢ j) × (update pc i p j ≡ pc j)
unfolding update
update-cases pc i p j = elim (Bool-cases (i == j)) [
  | inl e ↦ inl (==→eq i j e, rw e)
  | inr e ↦ inr (λ h. ground arith, rw e)
]

creating-Inside : {p : Pc} → p ≡ creating → Inside p
creating-Inside e = rw e tt

leaving-Inside : {p : Pc} → p ≡ leaving → Inside p
leaving-Inside e = rw e tt

module _ {releases : Bool} {s : System} (v : Inv releases s) where
  -- What a step has to show: of its own thread, and that the others' facts stand.
  move :
      (i : ℕ) (p : Pc) (created : ℕ) (mutex : Option ℕ)
      → created ≤ 1
      → (releases ≡ false → created ≢ 0 → mutex ≢ none)
      → Relies created mutex i p
      → ((j : ℕ) → i ≢ j → Relies created mutex j (s.pc j))
      → Inv releases (record { created = created; mutex = mutex; pc = update s.pc i p })
  move i p created mutex once kept own others = record {
    once = once;
    threads = λ j. elim (update-cases s.pc i p j) [
      | inl (same, e) ↦ rw (e, sym same) own
      | inr (other, e) ↦ rw e (others j other)
    ];
    kept = kept;
  }

  -- Two threads are not both behind the lock.
  alone : (i j : ℕ) → i ≢ j → Inside (s.pc i) → Inside (s.pc j) → ⊥
  alone i j other at_i at_j =
      let one = (v.threads i).holds at_i in
      let two = (v.threads j).holds at_j in other (some_injective (sym one ∙ two))
    where
      some_injective : {i j : ℕ} → some i ≡ some j → i ≡ j
      some_injective h = cc

  -- A thread outside of the lock relies on nothing.
  outside :
      (i : ℕ) {p : Pc} (created : ℕ) (mutex : Option ℕ) → (Inside p → ⊥) → Relies created mutex i p
  outside i created mutex out = record {
    holds = λ h. absurd (out h);
    null = λ h. absurd (out (creating-Inside h));
    made = λ h. absurd (out (leaving-Inside h));
  }

  -- A step that leaves the shared state as it is.
  stay :
      (i : ℕ) (p : Pc)
      → Relies s.created s.mutex i p
      → Inv releases (record s { pc = update s.pc i p })
  stay i p own = move i p s.created s.mutex v.once v.kept own (λ j other. v.threads j)

  lock-Inv :
      (i : ℕ)
      → s.mutex ≡ none
      → Inv releases (record s { mutex = some i; pc = update s.pc i locked })
  lock-Inv i free =
      move i locked s.created (some i) v.once (λ r c h. some_ne_none h)
        (record { holds = λ h. refl; null = λ h. cc; made = λ h. cc })
        (λ j other. record {
          holds = λ h. absurd (some_ne_none (sym ((v.threads j).holds h) ∙ free));
          null = (v.threads j).null;
          made = (v.threads j).made;
        })
    where
      some_ne_none : {i : ℕ} → some i ≡ none → ⊥
      some_ne_none h = cc

  create-Inv :
      (i : ℕ)
      → s.pc i ≡ creating
      → Inv releases (record s { created = s.created + 1; pc = update s.pc i leaving })
  create-Inv i at_i =
      let null = (v.threads i).null at_i in
      let inside = creating-Inside at_i in
      let held = (v.threads i).holds inside in
      move i leaving (s.created + 1) s.mutex (omega arith) (λ r c h. some_ne_none (sym held ∙ h))
        (record { holds = λ h. held; null = λ h. cc; made = λ h. omega arith })
        (λ j other. outside j (s.created + 1) s.mutex (λ at_j. alone i j other inside at_j))
    where
      some_ne_none : {i : ℕ} → some i ≡ none → ⊥
      some_ne_none h = cc

  leave-Inv :
      (i : ℕ)
      → s.pc i ≡ leaving
      → Inv releases
          (record s { mutex = if releases then none else s.mutex; pc = update s.pc i returned })
  leave-Inv i at_i =
      let inside = leaving-Inside at_i in
      move i returned s.created (if releases then none else s.mutex) v.once
        (λ r c h. v.kept r c (rw r at h)) (outside i s.created _ (λ h. h))
        (λ j other. outside j s.created _ (λ at_j. alone i j other inside at_j))

Step-Inv : {releases : Bool} {s t : System} → Inv releases s → Step releases s t → Inv releases t
Step-Inv v (Step.find_null i at_i null) = stay v i waiting (outside v i _ _ (λ h. h))
Step-Inv v (Step.find_object i at_i made) = stay v i returned (outside v i _ _ (λ h. h))
Step-Inv v (Step.lock i at_i free) = lock-Inv v i free
Step-Inv {s = s} v (Step.find_null_again i at_i null) =
    stay v i creating
      (record { holds = λ h. (v.threads i).holds (rw at_i tt); null = λ h. null; made = λ h. cc })
Step-Inv {s = s} v (Step.find_object_again i at_i made) = stay v i leaving (record {
  holds = λ h. (v.threads i).holds (rw at_i tt);
  null = λ h. cc;
  made = λ h. ground (arith, v.once);
})
Step-Inv v (Step.create i at_i) = create-Inv v i at_i
Step-Inv v (Step.leave i at_i) = leave-Inv v i at_i

Reach-Inv : {releases : Bool} {s : System} → Reach releases s → Inv releases s
Reach-Inv Run.start = record {
  once = omega arith;
  threads = λ i. record { holds = λ h. absurd h; null = λ h. cc; made = λ h. cc };
  kept = λ r made h. made refl;
}
Reach-Inv (Run.later r step) = Step-Inv (Reach-Inv r) step

-- Whatever the order of the steps, and whether or not the mutex is freed, at most one object is made,
-- and a call that is at the end of the block finds it made.
pub instance_once :
    (releases : Bool) (s : System)
    → Reach releases s
    → (s.created ≤ 1) × ((i : ℕ) → s.pc i ≡ leaving → s.created ≡ 1)
instance_once releases s r = let v = Reach-Inv r in (v.once, λ i at_end. (v.threads i).made at_end)

-- Another thread's move leaves a waiting thread waiting.
others_wait :
    (s : System) (i j : ℕ) (p : Pc) {here : Pc}
    → s.pc i ≡ waiting
    → s.pc j ≡ here
    → here ≢ waiting
    → update s.pc j p i ≡ waiting
others_wait s i j p waits at_j moves = elim (update-cases s.pc j p i) [
  | inl (same, e) ↦ absurd (moves (sym at_j ∙ (ap s.pc same ∙ waits)))
  | inr (other, e) ↦ e ∙ waits
]

-- With an object made and the mutex not freed, a waiting thread is passed over by every step.
still_waits :
    {s t : System} (i : ℕ)
    → Inv false s
    → s.created ≢ 0
    → s.pc i ≡ waiting
    → Step false s t
    → (t.pc i ≡ waiting) × (t.created ≢ 0)
still_waits {s} i v made waits (Step.find_null j at_j null) = absurd (made null)
still_waits {s} i v made waits (Step.find_object j at_j _) =
    (others_wait s i j returned waits at_j (λ h. cc), made)
still_waits {s} i v made waits (Step.lock j at_j free) = absurd (v.kept refl made free)
still_waits {s} i v made waits (Step.find_null_again j at_j null) = absurd (made null)
still_waits {s} i v made waits (Step.find_object_again j at_j _) =
    (others_wait s i j leaving waits at_j (λ h. cc), made)
still_waits {s} i v made waits (Step.create j at_j) =
    (others_wait s i j leaving waits at_j (λ h. cc), λ h. omega arith)
still_waits {s} i v made waits (Step.leave j at_j) =
    (others_wait s i j returned waits at_j (λ h. cc), made)

Run-Inv : {releases : Bool} {s t : System} → Inv releases s → Run releases s t → Inv releases t
Run-Inv v Run.start = v
Run-Inv v (Run.later run step) = Step-Inv (Run-Inv v run) step

waits_through :
    {s t : System} (i : ℕ)
    → Inv false s
    → s.created ≢ 0
    → s.pc i ≡ waiting
    → Run false s t
    → (t.pc i ≡ waiting) × (t.created ≢ 0)
waits_through i v made waits Run.start = (waits, made)
waits_through i v made waits (Run.later run step) =
    let (still, kept) = waits_through i v made waits run in
    still_waits i (Run-Inv v run) kept still step

-- If the mutex is not freed, a call that waits for it when the object has been made waits for ever:
-- no sequence of steps of the threads moves it on.
pub waits_for_ever :
    (s t : System) (i : ℕ)
    → Reach false s
    → s.created ≢ 0
    → s.pc i ≡ waiting
    → Run false s t
    → t.pc i ≡ waiting
waits_for_ever s t i r made waits run = (waits_through i (Reach-Inv r) made waits run).0
