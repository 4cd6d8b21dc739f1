-- ===== src/Cli/Elements.antt =====
-- cli/src/Command.hpp and Command.cpp: the elements of a command, and which word of an input line
-- an element accepts. A handler is named, not stored as a function.
use klevret_english_ver.Base.{
  ℕ, Bool, true, false, not, ◌&&◌, [], Bytes, Option, none, ◌==◌, if◌then◌else◌, Result, ok, codes,
}
use klevret_english_ver.WrapperForParsing.{get_next, open_text}
use klevret_english_ver.IpAddress.{array_eq}
use klevret_english_ver.Cli.Reader.{read_while, is_alpha}
use klevret_english_ver.Cli.Numbers.{parse_ipv4_address, parse_ipv4_subnet_mask}

pub data CommandElementType : Type 0 where
  none_type : CommandElementType
  fixed_word : CommandElementType
  string : CommandElementType
  name : CommandElementType
  ip_v4_address : CommandElementType
  ip_v4_subnet_mask : CommandElementType
  ip_v6_address : CommandElementType
  ip_v6_subnet_mask : CommandElementType

-- The functions that `all_commands` stores as handlers.
pub data CommandHandler : Type 0 where
  cmd_version : CommandHandler
  blank : CommandHandler
  cmd_ip_address_ipv4 : CommandHandler
  cmd_dhcp_pool_create : CommandHandler

-- `handler` is none for `nullptr`.
pub record CommandElement : Type 0 where
  pub element_type : CommandElementType
  pub fixed_value : Bytes
  pub handler : Option CommandHandler

-- The two constructors.
abbrev pub default_element : CommandElement
default_element = record { element_type = none_type; fixed_value = []; handler = none }

abbrev pub make_element : CommandElementType → Bytes → CommandElement
make_element t value = record { element_type = t; fixed_value = value; handler = none }

abbrev pub type_code : CommandElementType → ℕ
type_code none_type = 0
type_code fixed_word = 1
type_code string = 2
type_code name = 3
type_code ip_v4_address = 4
type_code ip_v4_subnet_mask = 5
type_code ip_v6_address = 6
type_code ip_v6_subnet_mask = 7

-- `operator==`: the handlers are not compared.
unfoldable pub element_eq : CommandElement → CommandElement → Bool
element_eq a b =
    (type_code a.element_type == type_code b.element_type) && array_eq a.fixed_value b.fixed_value

unfoldable pub parse_string : Bytes → Bool
unfolding read_while
parse_string str =
    let w = open_text str in
    let w' = get_next w in
    if not (w.ch == b'"')
    then false
    else (let (letters, w'') = read_while is_alpha w'.ch w'.rest in
        if not (w''.ch == b'"') then false else true)

unfoldable pub check_command_element : Bytes → CommandElement → Result Bool
check_command_element str element = elim element.element_type [
  | none_type ↦ ok false
  | fixed_word ↦ ok (array_eq element.fixed_value str)
  | string ↦ ok (parse_string str)
  | name ↦ ok true
  | ip_v4_address ↦ parse_ipv4_address str
  | ip_v4_subnet_mask ↦ parse_ipv4_subnet_mask str
  | ip_v6_address ↦ ok true
  | ip_v6_subnet_mask ↦ ok true
]

-- `to_string` of an element.
unfoldable pub element_to_string : CommandElement → Bytes
element_to_string element = elim element.element_type [
  | none_type ↦ codes "<UNKNOWN>"
  | fixed_word ↦ element.fixed_value
  | string ↦ codes "<string>"
  | name ↦ codes "<name>"
  | ip_v4_address ↦ codes "<IPv4 address>"
  | ip_v4_subnet_mask ↦ codes "<subnet mask (IPv4)>"
  | ip_v6_address ↦ codes "<IPv6 address>"
  | ip_v6_subnet_mask ↦ codes "<subnet mask (IPv6)>"
]
