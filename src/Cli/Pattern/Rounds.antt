-- ===== src/Cli/Pattern/Rounds.antt =====
-- The rounds of `parse_pattern` of cli/src/Command.cpp, and what each reads.
use klevret_english_ver.Base.{
  ℕ, zero, suc, ◌+◌, ◌≤◌, ◌<◌, ◌≡◌, refl, ◌⊎◌, inl, inr, Bool, true, false, not, Bool-cases,
  Option-cases, List, [], ◌∷◌, ◌++◌, Bytes, length, ◌==◌, Result, ok, err, Settles, >>=-eq-ok,
  bind_out, throw_out, throw_if, unknown_symbol, element_expected, bracket_expected, arith,
}
use mathlib.Core.Path.{subst}
use klevret_english_ver.WrapperForParsing.{WrapperForParsing, get_next, open_text}
use klevret_english_ver.IpAddress.{array_eq}
use klevret_english_ver.Cli.Reader.{
  read_while, read_while-rest-le, is_alpha, is_alnum, is_end, is_space, skip_whitespaces,
}
use klevret_english_ver.Cli.Elements.{CommandElement, CommandHandler}
use klevret_english_ver.Cli.Pattern.{
  KlevretComponent, find_type, str_to_element_type_map, parse_fixed_word, parse_variable_element,
  parse_pattern_element, parse_rounds, parse_pattern, make_command,
}

-- A reader that has moved on from `w`, or is at the end.
abbrev Moved : WrapperForParsing → WrapperForParsing → Type 0
Moved w w' = (is_end w' ≡ true) ⊎ (length w'.rest < length w.rest)

-- A word of one letter at least takes a character away.
read_while-Moved :
    (p : ℕ → Bool) (c : ℕ) (rest : Bytes)
    → p c ≡ true
    → Moved (record { ch = c; rest = rest }) (read_while p c rest).1
unfolding read_while is_end
read_while-Moved p c [] letter = inl (rw letter refl)
read_while-Moved p c (d ∷ rest) letter =
    let shorter = read_while-rest-le p d rest in rw letter (inr (omega arith))

get_next-rest-le : (w : WrapperForParsing) → length (get_next w).rest ≤ length w.rest
get_next-rest-le w = by_rest w.rest
  where
    by_rest : (rest : Bytes) → length (open_text rest).rest ≤ length rest
    by_rest [] = omega arith
    by_rest (c ∷ rest) = omega arith

reader_of_ok :
    {e e' : CommandElement} {w w' : WrapperForParsing}
    → ◌≡◌ {A = Result (CommandElement × WrapperForParsing)} (ok (e, w)) (ok (e', w'))
    → w ≡ w'
reader_of_ok h = cc

-- A name that is not empty takes a character away.
name_filled :
    (rest : Bytes) {u : Unit {0}}
    → throw_if
        (array_eq (read_while is_alnum (open_text rest).ch (open_text rest).rest).0 [])
        element_expected
      ≡ ok u
    → length (open_text rest).rest < length rest
unfolding read_while array_eq
name_filled [] h = absurd (err_not_ok h)
  where
    err_not_ok : {u : Unit {0}} → ◌≡◌ {A = Result (Unit {0})} (err element_expected) (ok u) → ⊥
    err_not_ok h = cc
name_filled (d ∷ rest) h = omega arith

-- What stands in brackets ends behind where it began, as its name is not empty.
bracketed-Moved :
    (c : ℕ) (rest : Bytes) {e : CommandElement} {w' : WrapperForParsing}
    → parse_variable_element (record { ch = c; rest = rest }) ≡ ok (e, w')
    → length w'.rest < length rest
unfolding parse_variable_element
bracketed-Moved c rest {w' = w'} h =
    let (u, opens, h1) = >>=-eq-ok (throw_if (not (c == b'<')) bracket_expected) _ h in
    let opened = open_text rest in
    let (name, after) = read_while is_alnum opened.ch opened.rest in
    let (u', named, h2) = >>=-eq-ok (throw_if (array_eq name []) element_expected) _ h1 in
    elim (Option-cases (find_type name str_to_element_type_map)) [
      | inl missing ↦ let refused = rw missing at h2 in cc
      | inr (t, found) ↦
          let (u'', closes, h3) =
            >>=-eq-ok (throw_if (not (after.ch == b'>')) bracket_expected) _ (rw found at h2) in
          let last : get_next after ≡ w' = reader_of_ok h3 in
          let shorter = get_next-rest-le after in
          let read = read_while-rest-le is_alnum opened.ch opened.rest in
          let first = name_filled rest named in
          subst (λ (w : WrapperForParsing). length w.rest < length rest) last (omega arith)
    ]

parse_pattern_element-Moved :
    (w : WrapperForParsing) {e : CommandElement} {w' : WrapperForParsing}
    → parse_pattern_element w ≡ ok (e, w')
    → Moved w w'
unfolding parse_pattern_element parse_fixed_word
parse_pattern_element-Moved w h = elim (Bool-cases (is_alpha w.ch)) [
  | inl letter ↦
      subst (Moved w) (reader_of_ok (rw letter at h)) (read_while-Moved is_alpha w.ch w.rest letter)
  | inr other ↦ elim (Bool-cases (w.ch == b'<')) [
    | inl bracket ↦ inr (bracketed-Moved w.ch w.rest (rw (other, bracket) at h))
    | inr neither ↦ let refused = rw (other, neither) at h in cc
  ]
]

parse_variable_element-Settles : (w : WrapperForParsing) → Settles (parse_variable_element w)
unfolding parse_variable_element
parse_variable_element-Settles w h =
    let h1 = throw_out (not (w.ch == b'<')) bracket_expected _ (λ k. cc) h in
    let (name, after) = read_while is_alnum (get_next w).ch (get_next w).rest in
    let h2 = throw_out (array_eq name []) element_expected _ (λ k. cc) h1 in
    elim (Option-cases (find_type name str_to_element_type_map)) [
      | inl missing ↦ let refused = rw missing at h2 in cc
      | inr (t, found) ↦
          let h3 =
            throw_out (not (after.ch == b'>')) bracket_expected _ (λ k. cc) (rw found at h2) in
          cc
    ]

parse_pattern_element-Settles : (w : WrapperForParsing) → Settles (parse_pattern_element w)
unfolding parse_pattern_element parse_fixed_word
parse_pattern_element-Settles w h = elim (Bool-cases (is_alpha w.ch)) [
  | inl letter ↦ let refused = rw letter at h in cc
  | inr other ↦ elim (Bool-cases (w.ch == b'<')) [
    | inl bracket ↦ parse_variable_element-Settles w (rw (other, bracket) at h)
    | inr neither ↦ let refused = rw (other, neither) at h in cc
  ]
]

skip_whitespaces-rest-le :
    (w : WrapperForParsing) → length (skip_whitespaces w).rest ≤ length w.rest
unfolding skip_whitespaces
skip_whitespaces-rest-le w = read_while-rest-le is_space w.ch w.rest

enough_here :
    (w : WrapperForParsing) (fuel : ℕ)
    → is_end w ≡ false
    → (is_end w ≡ true) × (0 < suc fuel) ⊎ (length w.rest + 1 < suc fuel)
    → length w.rest < fuel
enough_here w fuel more (inl (ends, some_fuel)) = cc
enough_here w fuel more (inr enough) = omega arith

next_round :
    (w w' : WrapperForParsing) (fuel : ℕ)
    → length w.rest < fuel
    → length (skip_whitespaces w).rest ≤ length w.rest
    → Moved (skip_whitespaces w) w'
    → (is_end w' ≡ true) × (0 < fuel) ⊎ (length w'.rest + 1 < fuel)
next_round w w' fuel left skipped (inl ends) = inl (ends, omega arith)
next_round w w' fuel left skipped (inr shorter) = inr (omega arith)

parse_rounds-Settles :
    (fuel : ℕ) (w : WrapperForParsing) (acc : List CommandElement)
    → (is_end w ≡ true) × (0 < fuel) ⊎ (length w.rest + 1 < fuel)
    → Settles (parse_rounds fuel w acc)
unfolding parse_rounds
parse_rounds-Settles zero w acc (inl (ends, some_fuel)) = absurd (omega arith)
parse_rounds-Settles zero w acc (inr enough) = absurd (omega arith)
parse_rounds-Settles (suc fuel) w acc enough = elim (Bool-cases (is_end w)) [
  | inl ends ↦ λ h. let refused = rw (parse_rounds, ends) at h in cc
  | inr more ↦ λ h.
      let left = enough_here w fuel more enough in
      let ((e, w'), parsed, later) =
        bind_out (parse_pattern_element (skip_whitespaces w)) _ (rw (parse_rounds, more) at h)
          (parse_pattern_element-Settles (skip_whitespaces w)) in
      let skipped = skip_whitespaces-rest-le w in
      parse_rounds-Settles fuel w' (acc ++ e ∷ [])
        (next_round w w' fuel left skipped
          (parse_pattern_element-Moved (skip_whitespaces w) parsed))
        later
]

-- The constructor of Command never ends for want of rounds, whatever the pattern.
pub make_command-Settles :
    (component : KlevretComponent) (pattern : Bytes) (handler : CommandHandler)
    → Settles (make_command component pattern handler)
unfolding make_command parse_pattern
make_command-Settles component pattern handler h =
    let w = open_text pattern in
    let ((elements, w'), parsed, later) =
      bind_out (parse_rounds (length w.rest + 2) w []) _ h
        (parse_rounds-Settles (length w.rest + 2) w [] (inr (omega arith))) in
    let refused = throw_out (not (is_end w')) unknown_symbol _ (λ k. cc) later in cc
