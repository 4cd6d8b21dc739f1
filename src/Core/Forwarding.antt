-- ===== src/Core/Forwarding.antt =====
-- What the loop of the core process does with the packets that come in.
use klevret_english_ver.Base.{
  ◌≡◌, refl, ap, sym, ◌∙◌, ◌⊎◌, inl, inr, List, [], ◌∷◌, Bytes, Option, none, some, Error, Result,
  ok, err, queue_not_empty,
}
use mathlib.Core.Path.{subst}
use klevret_english_ver.Core.{core_round, Core, forwarded_with, Step, Reach}

module _ (read_component : Bytes → Option Bytes) where
  -- A round finds nothing to do, or ends the program.
  core_round_cases :
      (queue : List Bytes)
      → (queue ≡ []) × (core_round read_component queue ≡ ok ([], none))
        ⊎ (core_round read_component queue ≡ err queue_not_empty)
  unfolding core_round
  core_round_cases [] = inl (refl, refl)
  core_round_cases (packet ∷ queue) = inr refl

  ok_not_err : {A : Type 0} {a : A} {cause : Error} → ◌≡◌ {A = Result A} (ok a) (err cause) → ⊥
  ok_not_err h = cc

  ok_pair :
      {queue queue' : List Bytes} {sent sent' : Option Bytes}
      → ◌≡◌ {A = Result (List Bytes × Option Bytes)} (ok (queue, sent)) (ok (queue', sent'))
      → (queue ≡ queue') × (sent ≡ sent')
  ok_pair h = (cc, cc)

  err_injective :
      {A : Type 0} {cause cause' : Error}
      → ◌≡◌ {A = Result A} (err cause) (err cause')
      → cause ≡ cause'
  err_injective h = cc

  -- However packets come in, nothing is ever passed on, and the loop is in its first round without
  -- an exception or was ended by the test in `get_next_packet`.
  pub nothing_forwarded :
      (c : Core)
      → Reach read_component c
      → (c.forwarded ≡ []) × ((c.ended ≡ none) ⊎ (c.ended ≡ some queue_not_empty))
  nothing_forwarded _ Reach.start = (refl, inl refl)
  nothing_forwarded _ (Reach.later r (Step.push packet)) = nothing_forwarded _ r
  nothing_forwarded _ (Reach.later {c} r (Step.round_returns runs returns)) =
      let (none_yet, how) = nothing_forwarded c r in
      elim (core_round_cases c.queue) [
        | inl (empty, idle) ↦
            let (queue, sent) = ok_pair (sym returns ∙ idle) in
            (subst (λ sent. forwarded_with c.forwarded sent ≡ []) (sym sent) none_yet, inl runs)
        | inr throws ↦ absurd (ok_not_err (sym returns ∙ throws))
      ]
  nothing_forwarded _ (Reach.later {c} r (Step.round_throws runs throws)) =
      let (none_yet, how) = nothing_forwarded c r in
      elim (core_round_cases c.queue) [
        | inl (empty, idle) ↦ absurd (ok_not_err (sym idle ∙ throws))
        | inr same ↦ (none_yet, inr (ap some (err_injective (sym throws ∙ same))))
      ]
