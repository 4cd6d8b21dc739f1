-- ===== src/Cli/Pattern/RoundTrip.antt =====
-- Patterns as they are written, and what the constructor of Command reads from them.
use klevret_english_ver.Base.{
  ℕ, zero, suc, ◌+◌, ◌≤◌, ◌<◌, ◌≡◌, refl, ap, ◌∙◌, true, false, List, [], ◌∷◌, ◌++◌, map,
  append_assoc, append-nil, Bytes, All, length, length-append, some, ◌==◌, ok, arith,
}
use klevret_english_ver.WrapperForParsing.{WrapperForParsing, eot, open_text, get_next}
use klevret_english_ver.IpAddress.{array_eq}
use klevret_english_ver.Cli.Reader.{
  read_while, is_alpha, is_alnum, is_space, skip_whitespaces, is_end, read_while-append,
}
use klevret_english_ver.Cli.Elements.{
  CommandElementType, CommandElement, CommandHandler, make_element,
}
use klevret_english_ver.Cli.Pattern.{
  KlevretComponent, str_to_element_type_map, find_type, parse_fixed_word, parse_variable_element,
  parse_pattern_element, parse_rounds, parse_pattern, make_command,
}
use klevret_english_ver.Cli.Pattern.Printing.{
  word, variable, PatternElement, type_name, IsPatternElement, print_element, denoted, print_more,
  print_pattern, type_name_lem,
}

-- What is read in angle brackets, from what the loop over letters and digits gives.
parse_variable_element_lem :
    (w w' : WrapperForParsing) (found_name : Bytes) (t : CommandElementType)
    → (w.ch == b'<') ≡ true
    → read_while is_alnum (get_next w).ch (get_next w).rest ≡ (found_name, w')
    → array_eq found_name [] ≡ false
    → find_type found_name str_to_element_type_map ≡ some t
    → (w'.ch == b'>') ≡ true
    → parse_variable_element w ≡ ok (make_element t [], get_next w')
unfolding parse_variable_element
parse_variable_element_lem w w' found_name t opens read filled found closes =
    rw (opens, read, filled, found, read, closes)

-- An element is read, up to a character that is neither letter nor digit.
parse_pattern_element-print_element :
    (e : PatternElement) (text : Bytes)
    → IsPatternElement e
    → is_alnum (open_text text).ch ≡ false
    → parse_pattern_element (open_text (print_element e ++ text)) ≡ ok (denoted e, open_text text)
unfolding parse_pattern_element parse_fixed_word print_element
parse_pattern_element-print_element (word c letters) text v stop =
    let not_alpha : is_alpha (open_text text).ch ≡ false = ground arith in
    rw (v.0, read_while-append is_alpha (c ∷ letters) text v not_alpha)
parse_pattern_element-print_element (variable t) text v stop =
    let (alnum, filled, found) = type_name_lem t v in
    let read = read_while-append is_alnum (type_name t) (b'>' ∷ text) alnum refl in
    parse_variable_element_lem _ (open_text (b'>' ∷ text)) (type_name t) t refl
      (rw (append_assoc (type_name t) (b'>' ∷ []) text) read) filled found refl

-- The first character of an element is neither white nor the end.
print_element_first :
    (e : PatternElement) (text : Bytes)
    → IsPatternElement e
    → (is_space (open_text (print_element e ++ text)).ch ≡ false)
      × ((open_text (print_element e ++ text)).ch == eot ≡ false)
unfolding print_element
print_element_first (word c letters) text v = let letter = v.0 in (ground arith, ground arith)
print_element_first (variable t) text v = (refl, refl)

print_more_first :
    (elements : List PatternElement) → is_alnum (open_text (print_more elements)).ch ≡ false
unfolding print_more
print_more_first [] = refl
print_more_first (e ∷ elements) = refl

-- White space before an element is skipped, and it is not the end.
skip_whitespaces-append :
    (spaces : Bytes) (e : PatternElement) (text : Bytes)
    → All (λ c. is_space c ≡ true) spaces
    → IsPatternElement e
    → (is_end (open_text (spaces ++ (print_element e ++ text))) ≡ false)
      × (skip_whitespaces (open_text (spaces ++ (print_element e ++ text)))
          ≡ open_text (print_element e ++ text))
unfolding is_end skip_whitespaces
skip_whitespaces-append [] e text white v =
    let (visible, here) = print_element_first e text v in
    (here, ap (λ r. r.1) (read_while-append is_space [] (print_element e ++ text) tt visible))
skip_whitespaces-append (c ∷ spaces) e text white v =
    let (visible, here) = print_element_first e text v in
    let space = white.0 in
    (
      ground arith,
      ap (λ r. r.1)
          (read_while-append is_space (c ∷ spaces) (print_element e ++ text) white visible),
    )

-- One round, at an element with white space before it or not.
parse_rounds_step :
    (fuel : ℕ) (spaces : Bytes) (e : PatternElement) (elements : List PatternElement)
    (acc : List CommandElement)
    → All (λ c. is_space c ≡ true) spaces
    → IsPatternElement e
    → parse_rounds (suc fuel) (open_text (spaces ++ (print_element e ++ print_more elements))) acc
      ≡ parse_rounds fuel (open_text (print_more elements)) (acc ++ denoted e ∷ [])
unfolding parse_rounds
parse_rounds_step fuel spaces e elements acc white v =
    let (more, skipped) = skip_whitespaces-append spaces e (print_more elements) white v in
    rw (
      parse_rounds,
      more,
      skipped,
      parse_pattern_element-print_element e (print_more elements) v (print_more_first elements),
    )

parse_rounds_end :
    (fuel : ℕ) (acc : List CommandElement)
    → parse_rounds (suc fuel) (open_text []) acc ≡ ok (acc, open_text [])
unfolding parse_rounds is_end
parse_rounds_end fuel acc = refl

-- The rounds over the elements behind the first.
parse_rounds-print_more :
    (fuel : ℕ) (elements : List PatternElement) (acc : List CommandElement)
    → length elements < fuel
    → All IsPatternElement elements
    → parse_rounds fuel (open_text (print_more elements)) acc
      ≡ ok (acc ++ map denoted elements, open_text [])
unfolding print_more
parse_rounds-print_more zero elements acc enough v = absurd (omega arith)
parse_rounds-print_more (suc fuel) [] acc enough v = rw append-nil (parse_rounds_end fuel acc)
parse_rounds-print_more (suc fuel) (e ∷ elements) acc enough v =
    parse_rounds_step fuel (b' ' ∷ []) e elements acc (refl, tt) v.0
    ∙ (parse_rounds-print_more fuel elements (acc ++ denoted e ∷ []) (omega arith) v.1
        ∙ rw append_assoc)

length-print_more :
    (elements : List PatternElement) → length elements ≤ length (print_more elements)
unfolding print_more
length-print_more [] = omega arith
length-print_more (e ∷ elements) =
    omega (arith, length-append (print_element e) (print_more elements), length-print_more elements)

-- The fuel that the loop is given.
enough_rounds :
    (e : PatternElement) (elements : List PatternElement)
    → length elements < length (open_text (print_element e ++ print_more elements)).rest + 1
unfolding print_element
enough_rounds (word c letters) elements =
    omega (arith, length-append letters (print_more elements), length-print_more elements)
enough_rounds (variable t) elements = omega (
  arith,
  length-append (type_name t ++ b'>' ∷ []) (print_more elements),
  length-print_more elements,
)

make_command-parse_rounds :
    (component : KlevretComponent) (pattern : Bytes) (handler : CommandHandler)
    (elements : List CommandElement)
    → parse_rounds (length (open_text pattern).rest + 2) (open_text pattern) []
      ≡ ok (elements, open_text [])
    → make_command component pattern handler
      ≡ ok (record { elements = elements; handler = handler; klevret_component = component })
unfolding make_command parse_pattern is_end
make_command-parse_rounds component pattern handler elements read = rw read

-- A pattern that is printed from words of letters and known types, a space between each two, is read
-- back as the elements that it was printed from.
pub make_command-print_pattern :
    (component : KlevretComponent) (elements : List PatternElement) (handler : CommandHandler)
    → All IsPatternElement elements
    → make_command component (print_pattern elements) handler
      ≡ ok (record {
        elements = map denoted elements;
        handler = handler;
        klevret_component = component;
      })
unfolding print_pattern
make_command-print_pattern component [] handler v =
    make_command-parse_rounds component [] handler [] (parse_rounds_end 1 [])
make_command-print_pattern component (e ∷ elements) handler v =
    let text = print_element e ++ print_more elements in
    let fuel = length (open_text text).rest + 1 in
    let rounds : length (open_text text).rest + 2 ≡ suc fuel = omega arith in
    let read =
      parse_rounds_step fuel [] e elements [] tt v.0
      ∙ parse_rounds-print_more fuel elements (denoted e ∷ []) (enough_rounds e elements) v.1 in
    make_command-parse_rounds component text handler (map denoted (e ∷ elements)) (rw rounds read)
