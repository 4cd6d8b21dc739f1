-- ===== src/Cli/Tree/Made.antt =====
-- The tree of cli/src/Command.cpp, made from commands whose patterns the constructor has read.
use klevret_english_ver.Base.{
  ℕ, zero, suc, ◌≡◌, refl, Bool-cases, not, List, [], ◌∷◌, ◌++◌, Bytes, All, All-append, none,
  Option-cases, ◌==◌, Result, ok, ok_injective, >>=-eq-ok, throw_if, inl, inr,
}
use mathlib.Core.Path.{subst}
use klevret_english_ver.WrapperForParsing.{WrapperForParsing, get_next, open_text}
use klevret_english_ver.IpAddress.{array_eq}
use klevret_english_ver.Cli.Reader.{read_while, is_alpha, is_alnum, is_end, skip_whitespaces}
use klevret_english_ver.Cli.Elements.{CommandElement, default_element}
use klevret_english_ver.Cli.Pattern.{
  Command, KlevretComponent, find_type, str_to_element_type_map, parse_fixed_word,
  parse_variable_element, parse_pattern_element, parse_rounds, parse_pattern, make_command,
}
use klevret_english_ver.Cli.Tree.{node, no_childs, childs, add_commands}
use klevret_english_ver.Cli.Tree.Lookup.{
  IsInner, handlers_at, handlers_with, handlers_at-no_childs, handlers_at-add_commands,
}

-- A command that the constructor has made.
pub record IsMade (command : Command) : Type 0 where
  pub component : KlevretComponent
  pub pattern : Bytes
  pub made : make_command component pattern command.handler ≡ ok command

element_of_ok :
    {e e' : CommandElement} {w w' : WrapperForParsing}
    → ◌≡◌ {A = Result (CommandElement × WrapperForParsing)} (ok (e, w)) (ok (e', w'))
    → e.handler ≡ none
    → IsInner e'
element_of_ok h inner =
    let same = ok_injective h in
    subst (λ (p : CommandElement × WrapperForParsing). IsInner p.0) same inner

parse_variable_element-IsInner :
    (w : WrapperForParsing) {e : CommandElement} {w' : WrapperForParsing}
    → parse_variable_element w ≡ ok (e, w')
    → IsInner e
unfolding parse_variable_element
parse_variable_element-IsInner w h =
    let (u, opens, h1) = >>=-eq-ok (throw_if (not (w.ch == b'<')) _) _ h in
    let (word, after) = read_while is_alnum (get_next w).ch (get_next w).rest in
    let (u', filled, h2) = >>=-eq-ok (throw_if (array_eq word []) _) _ h1 in
    elim (Option-cases (find_type word str_to_element_type_map)) [
      | inl missing ↦ let refused = rw missing at h2 in cc
      | inr (t, found) ↦
          let (u'', closes, h3) =
            >>=-eq-ok (throw_if (not (after.ch == b'>')) _) _ (rw found at h2) in
          element_of_ok h3 refl
    ]

parse_pattern_element-IsInner :
    (w : WrapperForParsing) {e : CommandElement} {w' : WrapperForParsing}
    → parse_pattern_element w ≡ ok (e, w')
    → IsInner e
unfolding parse_pattern_element parse_fixed_word
parse_pattern_element-IsInner w h = elim (Bool-cases (is_alpha w.ch)) [
  | inl letter ↦ element_of_ok (rw letter at h) refl
  | inr other ↦ elim (Bool-cases (w.ch == b'<')) [
    | inl bracket ↦ parse_variable_element-IsInner w (rw (other, bracket) at h)
    | inr neither ↦ let refused = rw (other, neither) at h in cc
  ]
]

parse_rounds-IsInner :
    (fuel : ℕ) (w : WrapperForParsing) (acc : List CommandElement) {elements : List CommandElement}
    {w' : WrapperForParsing}
    → All IsInner acc
    → parse_rounds fuel w acc ≡ ok (elements, w')
    → All IsInner elements
unfolding parse_rounds
parse_rounds-IsInner zero w acc inner h = cc
parse_rounds-IsInner (suc fuel) w acc inner h = elim (Bool-cases (is_end w)) [
  | inl ends ↦
      subst (λ (p : List CommandElement × WrapperForParsing). All IsInner p.0)
        (ok_injective (rw (parse_rounds, ends) at h)) inner
  | inr more ↦
      let ((e, w''), parsed, later) =
        >>=-eq-ok (parse_pattern_element (skip_whitespaces w)) _ (rw (parse_rounds, more) at h) in
      parse_rounds-IsInner fuel w'' (acc ++ e ∷ [])
        (All-append IsInner acc (e ∷ []) inner
          (parse_pattern_element-IsInner (skip_whitespaces w) parsed, tt))
        later
]

-- The elements that a pattern gives have no handler.
IsMade-IsInner : (command : Command) → IsMade command → All IsInner command.elements
unfolding make_command parse_pattern
IsMade-IsInner command m =
    let ((elements, w), parsed, later) = >>=-eq-ok (parse_pattern (open_text m.pattern)) _ m.made in
    let (u, ends, back) = >>=-eq-ok (throw_if (not (is_end w)) _) _ later in
    subst (λ (c : Command). All IsInner c.elements) (ok_injective back)
      (parse_rounds-IsInner _ (open_text m.pattern) [] tt parsed)

All-IsInner :
    (commands : List Command)
    → All IsMade commands
    → All (λ command. All IsInner command.elements) commands
All-IsInner [] m = tt
All-IsInner (command ∷ commands) (first, others) =
    (IsMade-IsInner command first, All-IsInner commands others)

-- In the tree that is made from commands whose patterns the constructor has read, a path from the
-- root leads to the handlers of exactly those commands whose elements it is, in the order in which
-- the commands were added.
pub handlers_at-created :
    (commands : List Command) (path : List CommandElement)
    → All IsMade commands
    → handlers_at (childs (add_commands (node default_element no_childs) commands)) path
      ≡ handlers_with commands path
handlers_at-created commands path made = rw handlers_at-no_childs at (
    handlers_at-add_commands (node default_element no_childs) commands path
      (All-IsInner commands made))
