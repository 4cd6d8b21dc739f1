-- ===== src/Cli/Editor.antt =====
-- cli/src/main.cpp: the loop over the keys. A result of `getkey` is a `char`, and no_key stands for
-- -1. The branch of `prev`, which is never assigned, is never taken.
pub mod Cursor
pub mod Keeping
pub mod Returns
pub mod PoolCommand
pub mod Lines
use klevret_english_ver.Base.{
  ℕ, ◌+◌, ◌-◌, Bool, true, false, not, ◌&&◌, List, [], ◌∷◌, ◌++◌, Bytes, length, take, drop, ltb,
  leb, ◌==◌, if◌then◌else◌, Option, none, some, Result, ok, err, out_of_range, ◌>>=◌,
}
use klevret_english_ver.Base.Int.{ℤ, pos, negsuc}
use klevret_english_ver.Cli.Elements.{CommandHandler, element_to_string}
use klevret_english_ver.Cli.Tree.{CommandTree, CommandTrees, no_childs, child, childs}
use klevret_english_ver.Cli.Analyze.{ValueStack, element_of, analyze_command}
use klevret_english_ver.Cli.Console.{
  Console, write_str, move_cursor_to_left, clear_line_from_cursor_position, print_title,
}
use klevret_english_ver.Cli.Handlers.{Object, run_handler}

abbrev pub tab : ℕ
tab = 9

abbrev pub enter : ℕ
enter = 13

abbrev pub esc : ℕ
esc = 27

abbrev pub space : ℕ
space = 32

abbrev pub backspace : ℕ
backspace = 127

abbrev pub no_key : ℕ
no_key = 255

pub data EscSequense : Type 0 where
  arrow_left : EscSequense
  arrow_right : EscSequense
  arrow_up : EscSequense
  arrow_down : EscSequense
  unknown : EscSequense

unfoldable pub to_esq_sequence : ℕ → ℕ → EscSequense
to_esq_sequence ch_1 ch_2 =
    if (ch_1 == 91) && (ch_2 == 68)
    then arrow_left
    else (if (ch_1 == 91) && (ch_2 == 67) then arrow_right else unknown)

-- At which of the three calls of `getkey` the loop is.
pub data Awaited : Type 0 where
  key : Awaited
  ch_1 : Awaited
  ch_2 : ℕ → Awaited

-- `sent` is what the handlers have sent, the last first.
pub record Editor : Type 0 where
  pub console : Console
  pub awaited : Awaited
  pub sent : List Object

-- The `int` that the difference of two sizes is passed on as.
unfoldable pub difference : ℕ → ℕ → ℤ
difference a b = if leb b a then pos (a - b) else negsuc (b - a - 1)

-- What ends the handling of a key within the line: the cursor of the terminal goes back to its place.
unfoldable pub place_cursor : Console → Console
unfolding difference
place_cursor c =
    move_cursor_to_left c
      (difference (length c.current_command_input) c.current_command_input_cursor_pos)

abbrev pub plus : ℕ → ℕ → ℤ
plus a b = pos (a + b)

unfoldable pub arrow : EscSequense → Console → Console
arrow arrow_up c = c
arrow arrow_down c = c
arrow unknown c = c
arrow arrow_left c =
    let cursor = c.current_command_input_cursor_pos in
    let cleared = clear_line_from_cursor_position (move_cursor_to_left c (plus cursor 4)) in
    let written = write_str cleared c.current_command_input in
    place_cursor (record written {
      current_command_input_cursor_pos = if cursor == 0 then cursor else cursor - 1;
    })
arrow arrow_right c =
    let cursor = c.current_command_input_cursor_pos in
    let cleared = clear_line_from_cursor_position (move_cursor_to_left c (plus cursor 4)) in
    let written = write_str cleared c.current_command_input in
    place_cursor (record written {
      current_command_input_cursor_pos =
          if ltb cursor (length c.current_command_input) then cursor + 1 else cursor;
    })

-- `std::string::erase(position, 1)`
unfoldable pub erase : Bytes → ℕ → Result Bytes
erase str position =
    if ltb (length str) position
    then err out_of_range
    else ok (take position str ++ drop (position + 1) str)

unfoldable pub on_backspace : Console → Result Console
on_backspace c =
    let cursor = c.current_command_input_cursor_pos in
    let cleared = clear_line_from_cursor_position (move_cursor_to_left c (plus cursor 2)) in
    if cursor == 0
    then ok (place_cursor cleared)
    else (erase c.current_command_input (cursor - 1) >>= (λ shorter. ok (
        place_cursor (record (write_str cleared shorter) {
          current_command_input = shorter;
          current_command_input_cursor_pos = cursor - 1;
        }))))

-- A character is added behind the line, wherever the cursor is.
unfoldable pub on_character : ℕ → Console → Console
on_character ch c = record c {
  current_command_input = c.current_command_input ++ ch ∷ [];
  current_command_input_cursor_pos = c.current_command_input_cursor_pos + 1;
}

-- The elements that may come next, a line for each.
unfoldable pub write_hints : Console → CommandTrees → Console
write_hints c no_childs = c
write_hints c (child tree rest) =
    write_hints (write_str c (element_to_string (element_of tree) ++ 10 ∷ [])) rest

-- The handler of an only child.
unfoldable pub only_handler : CommandTrees → Option CommandHandler
only_handler (child tree no_childs) = (element_of tree).handler
only_handler _ = none

unfoldable pub new_line : Console → ℕ → Console
new_line c number =
    write_str (clear_line_from_cursor_position (move_cursor_to_left c (pos number))) (10 ∷ [])

-- Behind the handler the line is empty again.
abbrev pub finish_line : Console → Console
finish_line c =
    print_title (record c { current_command_input = []; current_command_input_cursor_pos = 0 })

-- The call of the handler, if there is one.
unfoldable pub run_current :
    (Object → Result (Unit {0}))
    → Console
    → Option CommandHandler
    → ValueStack
    → Result (Console × Option Object)
run_current send_cmd below none stack = ok (finish_line below, none)
run_current send_cmd below (some handler) stack =
    run_handler send_cmd handler stack below >>= (λ (after, object). ok (finish_line after, object))

abbrev pub send : Editor → Console → Option Object → Editor
send s c none = record s { console = c }
send s c (some object) = record s { console = c; sent = object ∷ s.sent }

module _ (split : Bytes → List Bytes) (root : CommandTree) where
  unfoldable pub on_tab : Console → Result Console
  on_tab c = do
    let below = new_line c 1
    (current, stack) ← analyze_command split c.current_command_input root
    let hinted = print_title (write_str (write_hints below (childs current)) (13 ∷ []))
    ok (write_str hinted c.current_command_input)

  unfoldable pub on_enter :
      (Object → Result (Unit {0})) → Console → Result (Console × Option Object)
  unfolding run_current
  on_enter send_cmd c = do
    let below = new_line c 2
    (current, stack) ← analyze_command split c.current_command_input root
    run_current send_cmd below (only_handler (childs current)) stack

-- `send_cmd` is how a call with an object ends, behind those with the objects that have been sent.
module _ (send_cmd : List Object → Object → Result (Unit {0})) (split : Bytes → List Bytes)
    (root : CommandTree) where
  -- The `switch` over the key.
  unfoldable pub on_key : ℕ → Editor → Result Editor
  on_key ch s =
      if ch == no_key
      then ok s
      else (if ch == tab
          then on_tab split root s.console >>= (λ c. ok (record s { console = c }))
          else (if ch == enter
              then on_enter split root (send_cmd s.sent) s.console
                >>= (λ (c, object). ok (send s c object))
              else (if ch == backspace
                  then on_backspace s.console >>= (λ c. ok (record s { console = c }))
                  else (if ch == esc
                      then ok (record s { awaited = ch_1 })
                      else ok (record s { console = on_character ch s.console })))))

  -- A result of `getkey`, at the call where the loop is.
  unfoldable pub on_result_at : Awaited → ℕ → Editor → Result Editor
  on_result_at key ch s = on_key ch s
  on_result_at ch_1 ch s = ok (record s { awaited = ch_2 ch })
  on_result_at (ch_2 first) ch s =
      ok (record s { console = arrow (to_esq_sequence first ch) s.console; awaited = key })

  unfoldable pub on_result : ℕ → Editor → Result Editor
  unfolding on_result_at
  on_result ch s = on_result_at s.awaited ch s

  -- The loop, as far as results of `getkey` have come.
  unfoldable pub run_results : List ℕ → Editor → Result Editor
  run_results [] s = ok s
  run_results (ch ∷ results) s = on_result ch s >>= (λ s'. run_results results s')

-- The state before the first key.
unfoldable pub new_editor : Console → Editor
new_editor c = record { console = print_title c; awaited = key; sent = [] }
