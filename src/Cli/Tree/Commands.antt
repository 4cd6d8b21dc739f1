-- ===== src/Cli/Tree/Commands.antt =====
-- The tree of the commands that the program knows, and the path of one of them in it.
use klevret_english_ver.Base.{◌≡◌, refl, [], Bytes, ok, codes}
use klevret_english_ver.IpAddress.{array_eq}
use klevret_english_ver.Cli.Reader.{read_while, skip_whitespaces, is_end}
use klevret_english_ver.Cli.Elements.{
  CommandElement, CommandHandler, cmd_version, blank, cmd_ip_address_ipv4, cmd_dhcp_pool_create,
  default_element, make_element, fixed_word, ip_v4_address, element_eq,
}
use klevret_english_ver.Cli.Pattern.{
  find_type, str_to_element_type_map, parse_fixed_word, parse_variable_element,
  parse_pattern_element, parse_rounds, parse_pattern, make_command, all_commands,
}
use klevret_english_ver.Cli.Tree.{
  CommandTree, CommandTrees, node, no_childs, child, append_child, handler_element, add_elements,
  add_command_to_tree, add_commands, create_command_tree,
}

abbrev only : CommandTree → CommandTrees
only tree = child tree no_childs

abbrev leaf : CommandHandler → CommandTrees
leaf handler = only (node (handler_element handler) no_childs)

abbrev pub word : Bytes → CommandElement
word text = make_element fixed_word text

abbrev pub address : CommandElement
address = make_element ip_v4_address []

abbrev pub version_tree : CommandTree
version_tree = node (word (codes "version")) (leaf cmd_version)

abbrev pub ip_tree : CommandTree
ip_tree = node (word (codes "ip")) (
    child (node (word (codes "show")) (leaf blank)) (
      only (
        node (word (codes "address")) (
          child (node (word (codes "show")) (leaf blank))
            (only (node address (leaf cmd_ip_address_ipv4)))))))

abbrev pub second_address : CommandTree
second_address = node address (leaf cmd_dhcp_pool_create)

abbrev pub first_address : CommandTree
first_address = node address (only second_address)

abbrev pub dhcp_tree : CommandTree
dhcp_tree =
    node (word (codes "dhcp"))
      (only (node (word (codes "pool")) (only (node (word (codes "create")) (only first_address)))))

abbrev pub command_tree : CommandTree
command_tree = node default_element (child version_tree (child ip_tree (only dhcp_tree)))

-- Every pattern of the list is accepted, and this is the tree.
pub create_command_tree_lem : create_command_tree ≡ ok command_tree
unfolding create_command_tree all_commands make_command parse_pattern parse_rounds is_end
    skip_whitespaces read_while parse_pattern_element parse_fixed_word parse_variable_element
    find_type str_to_element_type_map array_eq add_commands add_command_to_tree add_elements
    append_child element_eq
create_command_tree_lem = refl
