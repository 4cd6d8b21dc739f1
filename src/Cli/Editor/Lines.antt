-- ===== src/Cli/Editor/Lines.antt =====
-- What typing a line and ending it does.
use klevret_english_ver.Base.{
  ℕ, ◌+◌, ◌≡◌, refl, ap, ◌∙◌, false, ◌||◌, List, [], ◌∷◌, ◌++◌, append_assoc, append-nil, Bytes,
  All, length, ◌==◌, Option, some, Result, ok, err, ◌>>=◌, arith,
}
use klevret_english_ver.Cli.Elements.{CommandHandler}
use klevret_english_ver.Cli.Tree.{CommandTree, childs}
use klevret_english_ver.Cli.Analyze.{ValueStack, analyze_command}
use klevret_english_ver.Cli.Console.{Console}
use klevret_english_ver.Cli.Handlers.{Object, run_handler}
use klevret_english_ver.Cli.Editor.{
  tab, enter, esc, backspace, no_key, key, Editor, on_character, on_key, on_enter, on_result_at,
  on_result, run_results, only_handler, new_line, finish_line, send, run_current,
}

-- A result of `getkey` that is a character of the line.
abbrev pub IsCharacter : ℕ → Type 0
IsCharacter ch = (ch == no_key || ch == tab || ch == enter || ch == backspace || ch == esc) ≡ false

-- The characters are added behind the line; the cursor moves on by as many places.
abbrev pub typed : Bytes → Editor → Editor
typed text s = record s {
  console = record s.console {
    current_command_input = s.console.current_command_input ++ text;
    current_command_input_cursor_pos = s.console.current_command_input_cursor_pos + length text;
  };
}

add-zero : (n : ℕ) → n + 0 ≡ n
add-zero n = omega arith

typed_step :
    (text : Bytes) (ch : ℕ) (s : Editor)
    → typed text (record s { console = on_character ch s.console }) ≡ typed (ch ∷ text) s
unfolding on_character
typed_step text ch s =
    let places : s.console.current_command_input_cursor_pos + 1 + length text
        ≡ s.console.current_command_input_cursor_pos + length (ch ∷ text) =
      omega arith in
    rw (append_assoc s.console.current_command_input (ch ∷ []) text, places)

module _ (send_cmd : List Object → Object → Result (Unit {0})) (split : Bytes → List Bytes)
    (root : CommandTree) where
  on_result-key :
      (ch : ℕ) (s : Editor)
      → s.awaited ≡ key
      → on_result send_cmd split root ch s ≡ on_key send_cmd split root ch s
  unfolding on_result
  on_result-key ch s waits = ap (λ awaited. on_result_at send_cmd split root awaited ch s) waits

  on_character_key :
      (ch : ℕ) (s : Editor)
      → s.awaited ≡ key
      → IsCharacter ch
      → on_result send_cmd split root ch s ≡ ok (record s { console = on_character ch s.console })
  unfolding on_key
  on_character_key ch s waits plain =
      let a : (ch == no_key) ≡ false = ground arith in
      let b : (ch == tab) ≡ false = ground arith in
      let c : (ch == enter) ≡ false = ground arith in
      let d : (ch == backspace) ≡ false = ground arith in
      let e : (ch == esc) ≡ false = ground arith in
      on_result-key ch s waits ∙ rw (on_key, a, b, c, d, e)

  pub run_results-characters :
      (text rest : Bytes) (s : Editor)
      → s.awaited ≡ key
      → All IsCharacter text
      → run_results send_cmd split root (text ++ rest) s
        ≡ run_results send_cmd split root rest (typed text s)
  unfolding run_results
  run_results-characters [] rest s waits plain = rw (append-nil, add-zero)
  run_results-characters (ch ∷ text) rest s waits plain = rw (on_character_key ch s waits plain.0) (
      run_results-characters text rest _ waits plain.1
      ∙ ap (run_results send_cmd split root rest) (typed_step text ch s))

  -- ENTER, where the words of the line lead to a node whose only child has a handler that ends with
  -- the sending of an object: as the sending ends.
  pub on_result-enter :
      (s : Editor) {current : CommandTree} {stack : ValueStack} {handler : CommandHandler}
      (after : Console) (object : Object)
      → s.awaited ≡ key
      → analyze_command split s.console.current_command_input root ≡ ok (current, stack)
      → only_handler (childs current) ≡ some handler
      → run_handler (send_cmd s.sent) handler stack (new_line s.console 2)
        ≡ (send_cmd s.sent object >>= λ u. ok (after, some object))
      → on_result send_cmd split root enter s
        ≡ (send_cmd s.sent object >>= λ u. ok (send s (finish_line after) (some object)))
  unfolding on_key on_enter run_current
  on_result-enter s {stack = stack} after object waits found only ran =
      let below = new_line s.console 2 in
      let Ended : Type 0 = Result (Console × Option Object) in
      let finish : Ended → Ended = λ r. r >>= λ (after, object). ok (finish_line after, object) in
      let pass : Ended → Result Editor = λ r. r >>= λ (c, object). ok (send s c object) in
      on_result-key enter s waits
      ∙ rw found (
          ap (λ handler. pass (run_current (send_cmd s.sent) below handler stack)) only
          ∙ ap (λ r. pass (finish r)) ran
          ∙ passed (send_cmd s.sent object))
    where
      passed :
          (outcome : Result (Unit {0}))
          → ((outcome >>= λ u. ok (after, some object))
              >>= (λ (after, object). ok (finish_line after, object))
              >>= (λ (c, object). ok (send s c object)))
            ≡ (outcome >>= λ u. ok (send s (finish_line after) (some object)))
      passed (ok u) = refl
      passed (err cause) = refl

  pub run_results-last :
      (ch : ℕ) (s : Editor) (outcome : Result (Unit {0})) (s' : Editor)
      → on_result send_cmd split root ch s ≡ (outcome >>= λ u. ok s')
      → run_results send_cmd split root (ch ∷ []) s ≡ (outcome >>= λ u. ok s')
  unfolding run_results
  run_results-last ch s outcome s' handled =
      ap (λ (r : Result Editor). r >>= λ s. ok s) handled ∙ again outcome
    where
      again :
          (outcome : Result (Unit {0}))
          → ((outcome >>= λ u. ok s') >>= (λ s. ok s)) ≡ (outcome >>= λ u. ok s')
      again (ok u) = refl
      again (err cause) = refl
