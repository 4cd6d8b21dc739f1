-- ===== src/Cli/Editor/Keeping.antt =====
-- The steps of the editor that keep the cursor in the line.
use klevret_english_ver.Base.{
  ℕ, ◌+◌, ◌-◌, ◌≤◌, ◌<◌, ◌≡◌, refl, inl, inr, false, [], ◌∷◌, ◌++◌, Bytes, length, length-append,
  length-take, take, drop, ltb, ◌==◌, Bool-cases, Option, Result, ok, >>=-eq-ok, arith,
}
use mathlib.Core.Path.{subst}
use klevret_english_ver.Base.Int.{pos}
use klevret_english_ver.Cli.Elements.{
  CommandHandler, cmd_version, blank, cmd_ip_address_ipv4, cmd_dhcp_pool_create, element_to_string,
}
use klevret_english_ver.Cli.Tree.{CommandTrees, no_childs, child}
use klevret_english_ver.Cli.Analyze.{ValueStack, element_of}
use klevret_english_ver.Cli.Console.{
  Console, write_str, move_cursor_to_left, clear_line_from_cursor_position,
}
use klevret_english_ver.Cli.Console.Line.{
  SameLine, trans, write_str-SameLine, move_cursor_to_left-SameLine, clear_line-SameLine,
  print_title-SameLine,
}
use klevret_english_ver.Cli.Handlers.{Object, run_handler, ip_address_ipv4, dhcp_pool_create}
use klevret_english_ver.Cli.Editor.{
  EscSequense, arrow_left, arrow_right, arrow_up, arrow_down, unknown, place_cursor, arrow, erase,
  on_backspace, on_character, write_hints, new_line, finish_line,
}

abbrev pub InBounds : Console → Type 0
InBounds c = c.current_command_input_cursor_pos ≤ length c.current_command_input

pub SameLine-InBounds : {a b : Console} → SameLine a b → InBounds a → InBounds b
SameLine-InBounds h v = rw (h.input, h.cursor) v

pub new_line-SameLine : (c : Console) (number : ℕ) → SameLine c (new_line c number)
unfolding new_line
new_line-SameLine c number =
    trans (trans (move_cursor_to_left-SameLine c (pos number)) (clear_line-SameLine _))
      (write_str-SameLine _ _)

pub write_hints-SameLine : (c : Console) (below : CommandTrees) → SameLine c (write_hints c below)
unfolding write_hints
write_hints-SameLine c no_childs = record { input = refl; cursor = refl }
write_hints-SameLine c (child tree rest) =
    let line = element_to_string (element_of tree) ++ 10 ∷ [] in
    trans (write_str-SameLine c line) (write_hints-SameLine (write_str c line) rest)

place_cursor-SameLine : (c : Console) → SameLine c (place_cursor c)
unfolding place_cursor
place_cursor-SameLine c = move_cursor_to_left-SameLine c _

pub ok_first :
    {a a' : Console} {b b' : Option Object}
    → ◌≡◌ {A = Result (Console × Option Object)} (ok (a, b)) (ok (a', b'))
    → a ≡ a'
ok_first h = cc

run_handler-SameLine :
    (send_cmd : Object → Result (Unit {0})) (handler : CommandHandler) (cmd : ValueStack)
    (c : Console) {after : Console} {object : Option Object}
    → run_handler send_cmd handler cmd c ≡ ok (after, object)
    → SameLine c after
unfolding run_handler
run_handler-SameLine send_cmd cmd_version cmd c h =
    subst (λ after. SameLine c after) (ok_first h) (write_str-SameLine c _)
run_handler-SameLine send_cmd blank cmd c h =
    subst (λ after. SameLine c after) (ok_first h) (write_str-SameLine c _)
run_handler-SameLine send_cmd cmd_ip_address_ipv4 cmd c h =
    let (sent, e, back) = >>=-eq-ok (ip_address_ipv4 send_cmd cmd) _ h in
    subst (λ after. SameLine c after) (ok_first back) (record { input = refl; cursor = refl })
run_handler-SameLine send_cmd cmd_dhcp_pool_create cmd c h =
    let (sent, e, back) = >>=-eq-ok (dhcp_pool_create send_cmd cmd) _ h in
    subst (λ after. SameLine c after) (ok_first back) (record { input = refl; cursor = refl })

-- The line is written anew from its start.
rewritten :
    (c : Console) (number : ℕ)
    → SameLine c (
        write_str
          (clear_line_from_cursor_position (move_cursor_to_left c (pos number)))
          c.current_command_input)
rewritten c number =
    trans (trans (move_cursor_to_left-SameLine c (pos number)) (clear_line-SameLine _))
      (write_str-SameLine _ _)

erase_returns :
    (str : Bytes) (position : ℕ)
    → position < length str
    → (shorter : Bytes) × (erase str position ≡ ok shorter) × (position ≤ length shorter)
unfolding erase
erase_returns str position h =
    let inside : ltb (length str) position ≡ false = ground arith in
    (
      take position str ++ drop (position + 1) str,
      rw inside,
      omega (
        arith,
        length-append (take position str) (drop (position + 1) str),
        length-take position str,
      ),
    )

pub arrow-InBounds :
    (sequence : EscSequense) (c : Console) → InBounds c → InBounds (arrow sequence c)
unfolding arrow
arrow-InBounds arrow_up c v = v
arrow-InBounds arrow_down c v = v
arrow-InBounds unknown c v = v
arrow-InBounds arrow_left c v =
    let same = rewritten c (c.current_command_input_cursor_pos + 4) in
    SameLine-InBounds (place_cursor-SameLine _) (rw same.input (ground arith))
arrow-InBounds arrow_right c v =
    let same = rewritten c (c.current_command_input_cursor_pos + 4) in
    SameLine-InBounds (place_cursor-SameLine _) (rw same.input (ground arith))

-- A key within the line is handled without an exception.
pub on_backspace_returns :
    (c : Console) → InBounds c → (after : Console) × (on_backspace c ≡ ok after) × InBounds after
unfolding on_backspace
on_backspace_returns c v = elim (Bool-cases (c.current_command_input_cursor_pos == 0)) [
  | inl e ↦
      let moved = move_cursor_to_left c (pos (c.current_command_input_cursor_pos + 2)) in
      let cleared = clear_line_from_cursor_position moved in
      (
        place_cursor cleared,
        rw e,
        SameLine-InBounds
            (trans (trans (move_cursor_to_left-SameLine c _) (clear_line-SameLine moved))
              (place_cursor-SameLine cleared))
            v,
      )
  | inr e ↦
      let moved = move_cursor_to_left c (pos (c.current_command_input_cursor_pos + 2)) in
      let cleared = clear_line_from_cursor_position moved in
      let (shorter, erased, long) =
        erase_returns c.current_command_input (c.current_command_input_cursor_pos - 1)
          (ground arith) in
      let after = record (write_str cleared shorter) {
        current_command_input = shorter;
        current_command_input_cursor_pos = c.current_command_input_cursor_pos - 1;
      } in
      (place_cursor after, rw (e, erased), SameLine-InBounds (place_cursor-SameLine after) long)
]

pub on_character-InBounds : (ch : ℕ) (c : Console) → InBounds c → InBounds (on_character ch c)
unfolding on_character
on_character-InBounds ch c v = omega (arith, length-append c.current_command_input (ch ∷ []))

-- Behind a line that is done with, the line is empty and the cursor at its start.
pub finish_line-empty :
    (c : Console) {after : Console}
    → finish_line c ≡ after
    → (after.current_command_input ≡ []) × (after.current_command_input_cursor_pos ≡ 0)
finish_line-empty c h =
    let same =
      print_title-SameLine
        (record c { current_command_input = []; current_command_input_cursor_pos = 0 }) in
    subst
      (λ (after : Console).
        (after.current_command_input ≡ []) × (after.current_command_input_cursor_pos ≡ 0))
      h (same.input, same.cursor)
