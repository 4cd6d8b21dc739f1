-- ===== src/Cli/Console.antt =====
-- cli/src/Console.hpp and Console.cpp: the input line and what is written to the terminal. Keys
-- is the reading of a key. What the terminal does with the colour is not modelled.
pub mod Line
pub mod Keys
pub mod Restored
use klevret_english_ver.Base.{ℕ, ◌+◌, Bool, false, [], ◌∷◌, ◌++◌, Bytes, ◌==◌, if◌then◌else◌, codes}
use klevret_english_ver.Base.Int.{ℤ, pos, negsuc}
use klevret_english_ver.IpAddress.{decimal}

pub data Color : Type 0 where
  black : Color
  red : Color
  green : Color
  yellow : Color
  blue : Color
  purple : Color
  dark_green : Color
  white : Color

abbrev color_code : Color → ℕ
color_code black = 0
color_code red = 1
color_code green = 2
color_code yellow = 3
color_code blue = 4
color_code purple = 5
color_code dark_green = 6
color_code white = 7

-- `terminal` is all that has been written.
pub record Console : Type 0 where
  pub current_command_input : Bytes
  pub current_command_input_cursor_pos : ℕ
  pub current_text_color : Color
  pub terminal : Bytes

-- The initial values of the members.
abbrev pub new_console : Console
new_console = record {
  current_command_input = [];
  current_command_input_cursor_pos = 0;
  current_text_color = white;
  terminal = [];
}

-- Writing an empty text writes nothing.
unfoldable pub write_str : Console → Bytes → Console
write_str c str = record c { terminal = c.terminal ++ str }

-- `std::to_string(int)`
abbrev int_to_string : ℤ → Bytes
int_to_string (pos n) = decimal n
int_to_string (negsuc n) = b'-' ∷ decimal (n + 1)

abbrev is_zero : ℤ → Bool
is_zero (pos n) = n == 0
is_zero (negsuc n) = false

unfoldable pub move_cursor_to_left : Console → ℤ → Console
unfolding write_str
move_cursor_to_left c number =
    if is_zero number then c else write_str c (27 ∷ b'[' ∷ (int_to_string number ++ b'D' ∷ []))

unfoldable pub move_cursor_to_right : Console → ℤ → Console
unfolding write_str
move_cursor_to_right c number =
    if is_zero number then c else write_str c (27 ∷ b'[' ∷ (int_to_string number ++ b'C' ∷ []))

unfoldable pub clear_line_from_cursor_position : Console → Console
clear_line_from_cursor_position c = record c { terminal = c.terminal ++ 27 ∷ b'[' ∷ b'K' ∷ [] }

unfoldable pub change_text_color : Console → Color → Console
unfolding write_str
change_text_color c color =
    write_str (record c { current_text_color = color })
      (27 ∷ b'[' ∷ b'3' ∷ (decimal (color_code color) ++ b'm' ∷ []))

-- main.cpp: `print_title`
unfoldable pub print_title : Console → Console
unfolding write_str change_text_color
print_title c =
    let old_color = c.current_text_color in
    change_text_color (write_str (change_text_color c green) (codes "klevret> ")) old_color
