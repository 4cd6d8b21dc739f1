-- ===== src/Cli/Console/Line.antt =====
-- The line and the cursor under the members of cli/src/Console.cpp that write to the terminal.
use klevret_english_ver.Base.{◌≡◌, refl, ◌∙◌, inl, inr, Bytes, ◌==◌, Bool-cases}
use klevret_english_ver.Base.Int.{ℤ, pos, negsuc}
use klevret_english_ver.Cli.Console.{
  Console, write_str, move_cursor_to_left, clear_line_from_cursor_position, print_title,
}

-- The line and the cursor are as before: only the terminal may differ.
pub record SameLine (c c' : Console) : Type 0 where
  pub input : c'.current_command_input ≡ c.current_command_input
  pub cursor : c'.current_command_input_cursor_pos ≡ c.current_command_input_cursor_pos

pub trans : {a b c : Console} → SameLine a b → SameLine b c → SameLine a c
trans h k = record { input = k.input ∙ h.input; cursor = k.cursor ∙ h.cursor }

pub write_str-SameLine : (c : Console) (str : Bytes) → SameLine c (write_str c str)
unfolding write_str
write_str-SameLine c str = record { input = refl; cursor = refl }

pub move_cursor_to_left-SameLine :
    (c : Console) (number : ℤ) → SameLine c (move_cursor_to_left c number)
unfolding move_cursor_to_left
move_cursor_to_left-SameLine c (pos n) = elim (Bool-cases (n == 0)) [
  | inl e ↦ rw e (record { input = refl; cursor = refl })
  | inr e ↦ rw e (record { input = refl; cursor = refl })
]
move_cursor_to_left-SameLine c (negsuc n) = record { input = refl; cursor = refl }

pub clear_line-SameLine : (c : Console) → SameLine c (clear_line_from_cursor_position c)
unfolding clear_line_from_cursor_position
clear_line-SameLine c = record { input = refl; cursor = refl }

pub print_title-SameLine : (c : Console) → SameLine c (print_title c)
unfolding print_title
print_title-SameLine c = record { input = refl; cursor = refl }
