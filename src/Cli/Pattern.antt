-- ===== src/Cli/Pattern.antt =====
-- cli/src/Command.hpp and Command.cpp: the class Command, whose constructor reads a pattern such as
-- `ip address <IPv4Address>`, and the commands that the program knows. The descriptions of a
-- command, which nothing reads, are left out.
pub mod RoundTrip
pub mod Printing
pub mod Rounds
use klevret_english_ver.Base.{
  ℕ, zero, suc, ◌+◌, Bool, true, false, not, List, [], ◌∷◌, ◌++◌, Bytes, length, Option, none, some,
  ◌==◌, if◌then◌else◌, Result, ok, err, element_expected, unknown_element, bracket_expected,
  unknown_symbol, out_of_fuel, throw_if, ◌>>=◌, ◌>>◌, codes,
}
use klevret_english_ver.WrapperForParsing.{WrapperForParsing, get_next, open_text}
use klevret_english_ver.IpAddress.{array_eq}
use klevret_english_ver.Cli.Reader.{read_while, is_alpha, is_alnum, skip_whitespaces, is_end}
use klevret_english_ver.Cli.Elements.{
  CommandElementType, fixed_word, string, name, ip_v4_address, ip_v4_subnet_mask, ip_v6_address,
  ip_v6_subnet_mask, CommandHandler, cmd_version, blank, cmd_ip_address_ipv4, cmd_dhcp_pool_create,
  CommandElement, make_element,
}

pub data KlevretComponent : Type 0 where
  cli : KlevretComponent
  core : KlevretComponent
  dhcp : KlevretComponent

pub record Command : Type 0 where
  pub elements : List CommandElement
  pub handler : CommandHandler
  pub klevret_component : KlevretComponent

unfoldable pub str_to_element_type_map : List (Bytes × CommandElementType)
str_to_element_type_map =
    (codes "string", string)
    ∷ (codes "name", name)
    ∷ (codes "IPv4Address", ip_v4_address)
    ∷ (codes "IPv4SubnetMask", ip_v4_subnet_mask)
    ∷ (codes "IPv6Address", ip_v6_address)
    ∷ (codes "IPv6SubnetMask", ip_v6_subnet_mask)
    ∷ []

-- `std::map::find`; the keys are different.
unfoldable pub find_type : Bytes → List (Bytes × CommandElementType) → Option CommandElementType
find_type word [] = none
find_type word ((key, t) ∷ entries) = if array_eq key word then some t else find_type word entries

-- The new element, and the reader behind it.
abbrev pub Parsed : Type 0
Parsed = Result (CommandElement × WrapperForParsing)

unfoldable pub parse_fixed_word : WrapperForParsing → Parsed
parse_fixed_word w =
    let (word, w') = read_while is_alpha w.ch w.rest in ok (make_element fixed_word word, w')

unfoldable pub parse_variable_element : WrapperForParsing → Parsed
unfolding str_to_element_type_map
parse_variable_element w = do
  throw_if (not (w.ch == b'<')) bracket_expected
  let opened = get_next w
  let (variable_element, w') = read_while is_alnum opened.ch opened.rest
  throw_if (array_eq variable_element []) element_expected
  elim (find_type variable_element str_to_element_type_map) [
    | none ↦ err unknown_element
    | some t ↦
        throw_if (not (w'.ch == b'>')) bracket_expected >> ok (make_element t [], get_next w')
  ]

unfoldable pub parse_pattern_element : WrapperForParsing → Parsed
parse_pattern_element w =
    if is_alpha w.ch
    then parse_fixed_word w
    else (if w.ch == b'<' then parse_variable_element w else err element_expected)

-- The loop of `parse_pattern`, on fuel.
unfoldable pub parse_rounds :
    ℕ → WrapperForParsing → List CommandElement → Result (List CommandElement × WrapperForParsing)
parse_rounds zero w elements = err out_of_fuel
parse_rounds (suc fuel) w elements = elim (is_end w) [
  | true ↦ ok (elements, w)
  | false ↦
      parse_pattern_element (skip_whitespaces w)
      >>= (λ (element, w'). parse_rounds fuel w' (elements ++ element ∷ []))
]

-- A round reads a character at least.
unfoldable pub parse_pattern : WrapperForParsing → Result (List CommandElement × WrapperForParsing)
parse_pattern w = parse_rounds (length w.rest + 2) w []

-- The constructor.
unfoldable pub make_command : KlevretComponent → Bytes → CommandHandler → Result Command
make_command component pattern handler = do
  (elements, w) ← parse_pattern (open_text pattern)
  throw_if (not (is_end w)) unknown_symbol
  ok (record { elements = elements; handler = handler; klevret_component = component })

-- `all_commands`, and `get_all_commands`, which returns it.
unfoldable pub all_commands : Result (List Command)
all_commands = do
  version ← make_command cli (codes "version") cmd_version
  ip_show ← make_command dhcp (codes "ip show") blank
  address_show ← make_command dhcp (codes "ip address show") blank
  address ← make_command dhcp (codes "ip address <IPv4Address>") cmd_ip_address_ipv4
  pool ←
      make_command dhcp (codes "dhcp pool create <IPv4Address> <IPv4Address>") cmd_dhcp_pool_create
  ok (version ∷ ip_show ∷ address_show ∷ address ∷ pool ∷ [])
