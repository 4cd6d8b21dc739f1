-- ===== src/Cli/Console/Keys.antt =====
-- `Console::getkey` of cli/src/Console.cpp: the terminal is set up for one key, the key is read, and the
-- settings are put back. The terminal is an argument: `W` is its state, and each field of `Terminal`
-- is the C function of that name, with the request of `fcntl` in the name.
use klevret_english_ver.Base.{ℕ, ◌-◌, Bool, true, false, Option, none, some, ltb, if◌then◌else◌}
use klevret_english_ver.Base.Int.{ℤ, pos, negsuc}

-- The fields of `struct termios` that are set; `rest` stands for the others.
pub record Termios : Type 0 where
  pub c_iflag : ℕ
  pub c_oflag : ℕ
  pub c_lflag : ℕ
  pub vmin : ℕ
  pub vtime : ℕ
  pub rest : ℕ

-- `read` gives one char, or not one; `clear_icanon` is `&= ~ICANON`, and `o_nonblock` the flag.
pub record Terminal (W : Type 0) : Type 0 where
  pub tcgetattr : W → Option Termios × W
  pub tcsetattr : Termios → W → Bool × W
  pub fcntl_getfl : W → ℕ × W
  pub fcntl_setfl : ℕ → W → W
  pub select : W → W
  pub read : W → Option ℕ × W
  pub clear_icanon : ℕ → ℕ
  pub o_nonblock : ℕ

-- The `int` of a `char`, which is signed.
abbrev pub int_of_char : ℕ → ℤ
int_of_char ch = if ltb ch 128 then pos ch else negsuc (255 - ch)

module _ {W : Type 0} (t : Terminal W) where
  unfoldable pub key_attributes : Termios → Termios
  key_attributes old = record old {
    c_iflag = 0;
    c_oflag = 0;
    c_lflag = t.clear_icanon old.c_lflag;
    vmin = 1;
    vtime = 1;
  }

  -- `if (error == 0) error = (read(fd, &ch, 1) != 1);`
  unfoldable pub read_key : Bool → W → Option ℕ × W
  read_key true w = t.read w
  read_key false w = (none, w)

  -- `error |= tcsetattr(…)` and the value that is returned.
  unfoldable pub key_result : Option ℕ → Bool → ℤ
  key_result (some ch) true = int_of_char ch
  key_result key restored = negsuc 0

  -- `indeterminate` is what `oldAttr` holds where `tcgetattr` fails.
  abbrev pub attr_or : Termios → Option Termios → Termios
  attr_or indeterminate none = indeterminate
  attr_or indeterminate (some attr) = attr

  -- Behind the first `tcsetattr`: the pause, the key, and the old settings.
  unfoldable pub read_and_restore : Termios → ℕ → Bool → W → ℤ × W
  read_and_restore old_attr old_flags set w =
      let (key, w) = read_key set (t.select w) in
      let (restored, w) = t.tcsetattr old_attr w in
      (key_result key restored, t.fcntl_setfl old_flags w)

  unfoldable pub getkey : Termios → W → ℤ × W
  getkey indeterminate w =
      let (attr, w) = t.tcgetattr w in
      let old_attr = attr_or indeterminate attr in
      let (old_flags, w) = t.fcntl_getfl w in
      let w = t.fcntl_setfl t.o_nonblock w in
      let (set, w) = t.tcsetattr (key_attributes old_attr) w in
      read_and_restore old_attr old_flags set w
