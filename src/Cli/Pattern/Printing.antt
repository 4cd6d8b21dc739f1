-- ===== src/Cli/Pattern/Printing.antt =====
-- How a pattern is written.
use klevret_english_ver.Base.{
  ℕ, ◌≡◌, refl, true, false, List, [], ◌∷◌, ◌++◌, Bytes, All, some, codes,
}
use klevret_english_ver.IpAddress.{array_eq}
use klevret_english_ver.Cli.Reader.{is_alpha, is_alnum}
use klevret_english_ver.Cli.Elements.{
  CommandElementType, none_type, fixed_word, string, name, ip_v4_address, ip_v4_subnet_mask,
  ip_v6_address, ip_v6_subnet_mask, CommandElement, make_element,
}
use klevret_english_ver.Cli.Pattern.{str_to_element_type_map, find_type}

-- A word of letters, or a type in angle brackets.
pub data PatternElement : Type 0 where
  word : ℕ → Bytes → PatternElement
  variable : CommandElementType → PatternElement

abbrev pub type_name : CommandElementType → Bytes
type_name none_type = []
type_name fixed_word = []
type_name string = codes "string"
type_name name = codes "name"
type_name ip_v4_address = codes "IPv4Address"
type_name ip_v4_subnet_mask = codes "IPv4SubnetMask"
type_name ip_v6_address = codes "IPv6Address"
type_name ip_v6_subnet_mask = codes "IPv6SubnetMask"

abbrev pub IsVariable : CommandElementType → Type 0
IsVariable none_type = ⊥
IsVariable fixed_word = ⊥
IsVariable _ = Unit

abbrev pub IsPatternElement : PatternElement → Type 0
IsPatternElement (word c letters) =
    (is_alpha c ≡ true) × All (λ letter. is_alpha letter ≡ true) letters
IsPatternElement (variable t) = IsVariable t

unfoldable pub print_element : PatternElement → Bytes
print_element (word c letters) = c ∷ letters
print_element (variable t) = b'<' ∷ (type_name t ++ b'>' ∷ [])

-- The element that the class stores.
abbrev pub denoted : PatternElement → CommandElement
denoted (word c letters) = make_element fixed_word (c ∷ letters)
denoted (variable t) = make_element t []

-- The elements behind the first, a space before each.
unfoldable pub print_more : List PatternElement → Bytes
unfolding print_element
print_more [] = []
print_more (e ∷ elements) = b' ' ∷ (print_element e ++ print_more elements)

unfoldable pub print_pattern : List PatternElement → Bytes
unfolding print_more
print_pattern [] = []
print_pattern (e ∷ elements) = print_element e ++ print_more elements

-- The name of a type has letters and digits only, and the map has it under that name.
pub type_name_lem :
    (t : CommandElementType)
    → IsVariable t
    → All (λ c. is_alnum c ≡ true) (type_name t)
      × (array_eq (type_name t) [] ≡ false)
      × (find_type (type_name t) str_to_element_type_map ≡ some t)
unfolding find_type str_to_element_type_map array_eq
type_name_lem none_type v = elim v [ ]
type_name_lem fixed_word v = elim v [ ]
type_name_lem string v = ((refl, (refl, (refl, (refl, (refl, (refl, tt)))))), refl, refl)
type_name_lem name v = ((refl, (refl, (refl, (refl, tt)))), refl, refl)
type_name_lem ip_v4_address v = (
  (refl, (refl, (refl, (refl, (refl, (refl, (refl, (refl, (refl, (refl, (refl, tt))))))))))),
  refl,
  refl,
)
type_name_lem ip_v4_subnet_mask v = (
  (
    refl,
    (
      refl,
      (
        refl,
        (refl, (refl, (refl, (refl, (refl, (refl, (refl, (refl, (refl, (refl, (refl, tt))))))))))),
      ),
    ),
  ),
  refl,
  refl,
)
type_name_lem ip_v6_address v = (
  (refl, (refl, (refl, (refl, (refl, (refl, (refl, (refl, (refl, (refl, (refl, tt))))))))))),
  refl,
  refl,
)
type_name_lem ip_v6_subnet_mask v = (
  (
    refl,
    (
      refl,
      (
        refl,
        (refl, (refl, (refl, (refl, (refl, (refl, (refl, (refl, (refl, (refl, (refl, tt))))))))))),
      ),
    ),
  ),
  refl,
  refl,
)
