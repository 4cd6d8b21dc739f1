-- ===== src/Tests/Keys.antt =====
-- A key that is read from a terminal.
use klevret_english_ver.Base.{ℕ, ◌≡◌, refl, true, inl, if◌then◌else◌, ◌==◌}
use klevret_english_ver.Base.{some, ◌-◌, ◌/◌, ◌%◌, ◌*◌}
use klevret_english_ver.Base.Int.{pos}
use klevret_english_ver.Cli.Console.Keys.{
  Termios, Terminal, getkey, read_and_restore, read_key, key_result, key_attributes,
}
use klevret_english_ver.Cli.Console.Restored.{EachOf, Settings, getkey_restores}

-- A terminal whose state is its settings, and on which "a" is typed.
abbrev typing : Terminal (Termios × ℕ)
typing = record {
  tcgetattr = λ (attr, flags). (some attr, (attr, flags));
  tcsetattr = λ a (attr, flags). (true, (a, flags));
  fcntl_getfl = λ (attr, flags). (flags, (attr, flags));
  fcntl_setfl = λ f (attr, flags). (attr, f);
  select = λ w. w;
  read = λ w. (some 97, w);
  clear_icanon = λ flag. flag - flag / 2 % 2 * 2;
  o_nonblock = 2048;
}

-- The settings by a number.
abbrev part : ℕ → Termios → ℕ
part k a =
    if k == 0
    then a.c_iflag
    else if k == 1
    then a.c_oflag
    else if k == 2
    then a.c_lflag
    else if k == 3
    then a.vmin
    else if k == 4
    then a.vtime
    else a.rest

typing-Settings : Settings part typing (λ w. w.0) (λ w. w.1) (λ f g. f)
typing-Settings = record {
  get_attr = λ w. refl;
  get_keeps = λ w. refl;
  set_attr = λ a w k. inl refl;
  set_keeps = λ a w. refl;
  getfl = λ w. refl;
  getfl_keeps = λ w. refl;
  getfl_attr = λ w. refl;
  setfl = λ f w. refl;
  setfl_attr = λ f w. refl;
  merge_back = λ f g. refl;
  select_keeps = λ w. refl;
  select_attr = λ w. refl;
  read_keeps = λ w. refl;
  read_attr = λ w. refl;
}

abbrev cooked : Termios
cooked = record { c_iflag = 1280; c_oflag = 5; c_lflag = 35387; vmin = 1; vtime = 0; rest = 0 }

types_a : (getkey typing cooked (cooked, 2)).0 ≡ pos 97
unfolding getkey read_and_restore read_key key_result
types_a = refl

getkey_restores_example :
    ((getkey typing cooked (cooked, 2)).1.1 ≡ 2)
    × ((last : Termios × ℕ) × ((getkey typing cooked (cooked, 2)).1.0
          ≡ (typing.tcsetattr cooked last).1.0))
    × EachOf part cooked (key_attributes typing cooked) (getkey typing cooked (cooked, 2)).1.0
getkey_restores_example =
    getkey_restores part typing (λ w. w.0) (λ w. w.1) (λ f g. f) typing-Settings cooked (cooked, 2)
      refl
