-- ===== src/Cli/Editor/Returns.antt =====
-- Exceptions and the keys that edit the line, in the loop of cli/src/main.cpp.
use klevret_english_ver.Base.{
  ℕ, ◌≡◌, ◌≢◌, refl, inl, inr, List, [], ◌∷◌, Bytes, ◌==◌, Bool-cases, ==_ne, All, ok, Result,
}
use klevret_english_ver.Cli.Tree.{CommandTree}
use klevret_english_ver.Cli.Handlers.{Object}
use klevret_english_ver.Cli.Editor.{
  tab, enter, esc, backspace, no_key, Awaited, key, ch_1, ch_2, Editor, arrow, on_character, on_key,
  on_result_at, on_result, run_results, to_esq_sequence,
}
use klevret_english_ver.Cli.Editor.Keeping.{InBounds, on_backspace_returns}
use klevret_english_ver.Cli.Editor.Cursor.{on_result_at-InBounds}

module _ (send_cmd : List Object → Object → Result (Unit {0})) (split : Bytes → List Bytes)
    (root : CommandTree) where
  on_key_returns :
      (ch : ℕ) (s : Editor)
      → InBounds s.console
      → ch ≢ tab
      → ch ≢ enter
      → (s' : Editor) × (on_key send_cmd split root ch s ≡ ok s')
  unfolding on_key
  on_key_returns ch s v not_tab not_enter =
      let t = ==_ne ch tab not_tab in
      let n = ==_ne ch enter not_enter in
      elim (Bool-cases (ch == no_key)) [
        | inl e ↦ (s, rw (on_key, e))
        | inr e ↦ elim (Bool-cases (ch == backspace)) [
          | inl b ↦
              let (after, returns, inside) = on_backspace_returns s.console v in
              (record s { console = after }, rw (on_key, e, t, n, b, returns))
          | inr b ↦ elim (Bool-cases (ch == esc)) [
            | inl c ↦ (record s { awaited = ch_1 }, rw (on_key, e, t, n, b, c))
            | inr c ↦ (record s { console = on_character ch s.console }, rw (on_key, e, t, n, b, c))
          ]
        ]
      ]

  on_result_at_returns :
      (awaited : Awaited) (ch : ℕ) (s : Editor)
      → InBounds s.console
      → ch ≢ tab
      → ch ≢ enter
      → (s' : Editor) × (on_result_at send_cmd split root awaited ch s ≡ ok s')
  unfolding on_result_at
  on_result_at_returns key ch s v not_tab not_enter = on_key_returns ch s v not_tab not_enter
  on_result_at_returns ch_1 ch s v not_tab not_enter = (record s { awaited = ch_2 ch }, refl)
  on_result_at_returns (ch_2 first) ch s v not_tab not_enter =
      (record s { console = arrow (to_esq_sequence first ch) s.console; awaited = key }, refl)

  -- Editing never throws: with the cursor in the line, and neither TAB nor ENTER among the results,
  -- the loop handles them all, and the cursor is in the line.
  pub run_results_returns :
      (results : List ℕ) (s : Editor)
      → InBounds s.console
      → All (λ ch. (ch ≢ tab) × (ch ≢ enter)) results
      → (s' : Editor) × (run_results send_cmd split root results s ≡ ok s') × InBounds s'.console
  unfolding run_results on_result
  run_results_returns [] s v plain = (s, refl, v)
  run_results_returns (ch ∷ results) s v (plain, others) =
      let (next, handled) = on_result_at_returns s.awaited ch s v plain.0 plain.1 in
      let inside = on_result_at-InBounds send_cmd split root s.awaited ch s v handled in
      let (last, ran, v') = run_results_returns results next inside others in
      (last, rw handled ran, v')
