-- ===== src/Cli/Console/Restored.antt =====
-- What `getkey` leaves of the settings of the terminal.
use klevret_english_ver.Base.{ℕ, ◌≡◌, refl, ap, ◌∙◌, ◌⊎◌, inl, inr, Bool, true, false, some}
use klevret_english_ver.Cli.Console.Keys.{
  Termios, Terminal, getkey, read_and_restore, read_key, key_attributes, attr_or,
}

module _ {S : Type 0} (part : S → Termios → ℕ) where
  -- Each setting has its value in `a` or in `b`.
  abbrev pub EachOf : Termios → Termios → Termios → Type 0
  EachOf a b now = (k : S) → (part k now ≡ part k a) ⊎ (part k now ≡ part k b)

module _ {W S : Type 0} (part : S → Termios → ℕ) where
  -- The documented behaviour: `part` gives the settings one by one, and `tcsetattr` may make some of the
  -- changes that are asked for and not the others, whatever it returns. `merge` are the flags behind
  -- F_SETFL, which changes some of the flags only; all else changes no settings.
  pub record Settings (t : Terminal W) (attr : W → Termios) (flags : W → ℕ) (merge : ℕ → ℕ → ℕ)
      : Type 0 where
    pub get_attr : (w : W) → attr (t.tcgetattr w).1 ≡ attr w
    pub get_keeps : (w : W) → flags (t.tcgetattr w).1 ≡ flags w
    pub set_attr : (a : Termios) (w : W) → EachOf part a (attr w) (attr (t.tcsetattr a w).1)
    pub set_keeps : (a : Termios) (w : W) → flags (t.tcsetattr a w).1 ≡ flags w
    pub getfl : (w : W) → (t.fcntl_getfl w).0 ≡ flags w
    pub getfl_keeps : (w : W) → flags (t.fcntl_getfl w).1 ≡ flags w
    pub getfl_attr : (w : W) → attr (t.fcntl_getfl w).1 ≡ attr w
    pub setfl : (f : ℕ) (w : W) → flags (t.fcntl_setfl f w) ≡ merge f (flags w)
    pub setfl_attr : (f : ℕ) (w : W) → attr (t.fcntl_setfl f w) ≡ attr w
    pub merge_back : (f g : ℕ) → merge f (merge g f) ≡ f
    pub select_keeps : (w : W) → flags (t.select w) ≡ flags w
    pub select_attr : (w : W) → attr (t.select w) ≡ attr w
    pub read_keeps : (w : W) → flags (t.read w).1 ≡ flags w
    pub read_attr : (w : W) → attr (t.read w).1 ≡ attr w

  module _ (t : Terminal W) (attr : W → Termios) (flags : W → ℕ) (merge : ℕ → ℕ → ℕ)
      (s : Settings t attr flags merge) where
    read_key_keeps :
        (set : Bool) (w : W)
        → (flags (read_key t set w).1 ≡ flags w) × (attr (read_key t set w).1 ≡ attr w)
    unfolding read_key
    read_key_keeps true w = (s.read_keeps w, s.read_attr w)
    read_key_keeps false w = (refl, refl)

    -- The old settings are asked for where each is as it was or as it was set for the key.
    restored_each :
        (old new : Termios) (w : W)
        → EachOf part new old (attr w)
        → EachOf part old new (attr (t.tcsetattr old w).1)
    restored_each old new w changed k = elim (s.set_attr old w k) [
      | inl as_asked ↦ inl as_asked
      | inr kept ↦ elim (changed k) [
        | inl for_key ↦ inr (kept ∙ for_key)
        | inr as_before ↦ inl (kept ∙ as_before)
      ]
    ]

    -- Where `tcgetattr` gives the settings, and a `tcsetattr` may make some of the changes only:
    -- `getkey` leaves the flags of the terminal as they were, whether a key is read or not. The
    -- attributes are those behind a last `tcsetattr` that asks for the old ones, and each is as it was
    -- or, where that change was not made, as `getkey` had set it for the key.
    pub getkey_restores :
        (indeterminate : Termios) (w : W)
        → (t.tcgetattr w).0 ≡ some (attr w)
        → (flags (getkey t indeterminate w).1 ≡ flags w)
          × ((last : W) × (attr (getkey t indeterminate w).1 ≡ attr (t.tcsetattr (attr w) last).1))
          × EachOf part (attr w) (key_attributes t (attr w)) (attr (getkey t indeterminate w).1)
    unfolding getkey read_and_restore
    getkey_restores indeterminate w given =
        let old = attr w in
        let new = key_attributes t old in
        let asked = (t.tcgetattr w).1 in
        let (old_flags, w1) = t.fcntl_getfl asked in
        let w2 = t.fcntl_setfl t.o_nonblock w1 in
        let (set, w3) = t.tcsetattr new w2 in
        let w4 = (read_key t set (t.select w3)).1 in
        let w5 = (t.tcsetattr old w4).1 in
        let same_flags : old_flags ≡ flags w = s.getfl asked ∙ s.get_keeps w in
        let kept : flags w5 ≡ merge t.o_nonblock (flags w) =
          s.set_keeps old w4
          ∙ (read_key_keeps set (t.select w3)).0
          ∙ s.select_keeps w3
          ∙ s.set_keeps new w2
          ∙ s.setfl t.o_nonblock w1
          ∙ ap (merge t.o_nonblock) (s.getfl_keeps asked ∙ s.get_keeps w) in
        let before_key : attr w2 ≡ old =
          s.setfl_attr t.o_nonblock w1 ∙ s.getfl_attr asked ∙ s.get_attr w in
        let behind_key : attr w4 ≡ attr w3 =
          (read_key_keeps set (t.select w3)).1 ∙ s.select_attr w3 in
        let set_for_key : EachOf part new old (attr w4) =
          λ k. rw behind_key (rw before_key at (s.set_attr new w2 k)) in
        let last : attr (t.fcntl_setfl old_flags w5) ≡ attr w5 = s.setfl_attr old_flags w5 in
        rw (given, attr_or)
          (
            s.setfl old_flags w5
                ∙ ap (merge old_flags) kept
                ∙ ap (λ f. merge f (merge t.o_nonblock (flags w))) same_flags
                ∙ s.merge_back (flags w) t.o_nonblock,
            (w4, last),
            λ k. rw last (restored_each old new w4 set_for_key k),
          )
