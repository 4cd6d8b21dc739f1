-- ===== src/Cli/Editor/Cursor.antt =====
-- The cursor and the line under the keys of the loop of cli/src/main.cpp.
use klevret_english_ver.Base.{
  ℕ, ◌≡◌, inl, inr, List, [], ◌∷◌, Bytes, ◌==◌, Bool-cases, Option, Option-cases, none, some,
  Result, ok, ok_injective, >>=-eq-ok, arith,
}
use mathlib.Core.Path.{subst}
use klevret_english_ver.Cli.Tree.{CommandTree, childs}
use klevret_english_ver.Cli.Analyze.{analyze_command}
use klevret_english_ver.Cli.Console.{Console}
use klevret_english_ver.Cli.Console.Line.{SameLine, trans, write_str-SameLine, print_title-SameLine}
use klevret_english_ver.Cli.Handlers.{Object, run_handler}
use klevret_english_ver.Cli.Editor.{
  tab, enter, esc, backspace, no_key, Awaited, key, ch_1, ch_2, Editor, new_line, send, on_tab,
  on_enter, on_key, on_result_at, on_result, run_results, only_handler, to_esq_sequence,
}
use klevret_english_ver.Cli.Editor.Keeping.{
  InBounds, SameLine-InBounds, new_line-SameLine, write_hints-SameLine, ok_first, arrow-InBounds,
  on_backspace_returns, on_character-InBounds, finish_line-empty,
}

module _ (send_cmd : List Object → Object → Result (Unit {0})) (split : Bytes → List Bytes)
    (root : CommandTree) where
  on_tab-SameLine :
      (c : Console) {after : Console} → on_tab split root c ≡ ok after → SameLine c after
  unfolding on_tab
  on_tab-SameLine c h =
      let ((current, stack), e, back) =
        >>=-eq-ok (analyze_command split c.current_command_input root) _ h in
      subst (λ after. SameLine c after) (ok_injective back)
        (trans
          (trans
            (trans (trans (new_line-SameLine c 1) (write_hints-SameLine _ (childs current)))
              (write_str-SameLine _ _))
            (print_title-SameLine _))
          (write_str-SameLine _ _))

  -- Behind ENTER the line is empty, and the cursor at its start.
  on_enter-empty :
      (sent : List Object) (c : Console) {after : Console} {object : Option Object}
      → on_enter split root (send_cmd sent) c ≡ ok (after, object)
      → (after.current_command_input ≡ []) × (after.current_command_input_cursor_pos ≡ 0)
  unfolding on_enter
  on_enter-empty sent c h =
      let ((current, stack), e, back) =
        >>=-eq-ok (analyze_command split c.current_command_input root) _ h in
      elim (Option-cases (only_handler (childs current))) [
        | inl no_handler ↦ finish_line-empty (new_line c 2) (ok_first (rw no_handler at back))
        | inr (handler, only) ↦
            let ((after', object), ran, ends) =
              >>=-eq-ok (run_handler (send_cmd sent) handler stack (new_line c 2)) _
                (rw only at back) in
            finish_line-empty after' (ok_first ends)
      ]

  send-InBounds :
      (s : Editor) (c : Console) (object : Option Object)
      → (c.current_command_input ≡ []) × (c.current_command_input_cursor_pos ≡ 0)
      → InBounds (send s c object).console
  send-InBounds s c none (line, cursor) = rw (line, cursor) (omega arith)
  send-InBounds s c (some object) (line, cursor) = rw (line, cursor) (omega arith)

  moved : {s s' : Editor} → s ≡ s' → InBounds s.console → InBounds s'.console
  moved e v = subst (λ (s : Editor). InBounds s.console) e v

  on_key-InBounds :
      (ch : ℕ) (s : Editor) {s' : Editor}
      → InBounds s.console
      → on_key send_cmd split root ch s ≡ ok s'
      → InBounds s'.console
  unfolding on_key
  on_key-InBounds ch s v h = elim (Bool-cases (ch == no_key)) [
    | inl e ↦ moved (ok_injective (rw (on_key, e) at h)) v
    | inr e ↦ elim (Bool-cases (ch == tab)) [
      | inl t ↦
          let (c, done, back) =
            >>=-eq-ok (on_tab split root s.console) _ (rw (on_key, e, t) at h) in
          moved (ok_injective back) (SameLine-InBounds (on_tab-SameLine s.console done) v)
      | inr t ↦ elim (Bool-cases (ch == enter)) [
        | inl n ↦
            let ((c, object), done, back) =
              >>=-eq-ok (on_enter split root (send_cmd s.sent) s.console) _
                (rw (on_key, e, t, n) at h) in
            moved (ok_injective back)
              (send-InBounds s c object (on_enter-empty s.sent s.console done))
        | inr n ↦ elim (Bool-cases (ch == backspace)) [
          | inl b ↦
              let (after, returns, inside) = on_backspace_returns s.console v in
              moved (ok_injective (rw (on_key, e, t, n, b, returns) at h)) inside
          | inr b ↦ elim (Bool-cases (ch == esc)) [
            | inl c ↦ moved (ok_injective (rw (on_key, e, t, n, b, c) at h)) v
            | inr c ↦
                moved (ok_injective (rw (on_key, e, t, n, b, c) at h))
                  (on_character-InBounds ch s.console v)
          ]
        ]
      ]
    ]
  ]

  pub on_result_at-InBounds :
      (awaited : Awaited) (ch : ℕ) (s : Editor) {s' : Editor}
      → InBounds s.console
      → on_result_at send_cmd split root awaited ch s ≡ ok s'
      → InBounds s'.console
  unfolding on_result_at
  on_result_at-InBounds key ch s v h = on_key-InBounds ch s v h
  on_result_at-InBounds ch_1 ch s v h = moved (ok_injective h) v
  on_result_at-InBounds (ch_2 first) ch s v h =
      moved (ok_injective h) (arrow-InBounds (to_esq_sequence first ch) s.console v)

  -- Whatever keys come, if the cursor is in the line at first and no exception ends the loop, the
  -- cursor is in the line afterwards.
  pub run_results-InBounds :
      (results : List ℕ) (s : Editor) {s' : Editor}
      → InBounds s.console
      → run_results send_cmd split root results s ≡ ok s'
      → InBounds s'.console
  unfolding run_results on_result
  run_results-InBounds [] s v h = subst (λ (s : Editor). InBounds s.console) (ok_injective h) v
  run_results-InBounds (ch ∷ results) s v h =
      let (next, handled, later) = >>=-eq-ok (on_result send_cmd split root ch s) _ h in
      run_results-InBounds results next (on_result_at-InBounds s.awaited ch s v handled) later
