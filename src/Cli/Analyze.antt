-- ===== src/Cli/Analyze.antt =====
-- cli/src/main.cpp: `print_tree`, and `analyze_command`, which follows the words of an input line down the tree.
-- `boost::algorithm::split` at spaces is the argument `split`. A member of std::variant is a
-- constructor; an address of IPv6 and the masks keep the zeros that their constructors write.
use klevret_english_ver.Base.{
  ℕ, zero, suc, ◌+◌, ◌++◌, List, [], ◌∷◌, Bytes, replicate, Option, none, some, if◌then◌else◌,
  Result, ok, ◌>>=◌,
}
use klevret_english_ver.IpAddress.{IPv4Address}
use klevret_english_ver.Cli.Numbers.{address_of_text}
use klevret_english_ver.Cli.Elements.{
  CommandElementType, ip_v4_address, ip_v4_subnet_mask, ip_v6_address, ip_v6_subnet_mask,
  CommandElement, CommandHandler, check_command_element, element_to_string,
}
use klevret_english_ver.Cli.Tree.{CommandTree, CommandTrees, node, no_childs, child, childs}

pub data CommandElementRealValue : Type 0 where
  string_value : Bytes → CommandElementRealValue
  ipv4_value : IPv4Address → CommandElementRealValue
  ipv6_value : Bytes → CommandElementRealValue
  ipv4_mask_value : Bytes → CommandElementRealValue
  ipv6_mask_value : Bytes → CommandElementRealValue

-- A stack, its top first.
abbrev pub ValueStack : Type 0
ValueStack = List CommandElementRealValue

-- The `switch`: what is pushed for a word that an element of this type accepts.
unfoldable pub real_value : CommandElementType → Bytes → Result CommandElementRealValue
real_value t part = elim t [
  | ip_v4_address ↦ address_of_text part >>= (λ ip. ok (ipv4_value ip))
  | ip_v6_address ↦ ok (ipv6_value (replicate 6 0))
  | ip_v4_subnet_mask ↦ ok (ipv4_mask_value (replicate 4 0))
  | ip_v6_subnet_mask ↦ ok (ipv6_mask_value (replicate 6 0))
  | _ ↦ ok (string_value part)
]

abbrev pub element_of : CommandTree → CommandElement
element_of (node element below) = element

-- The inner loop: the first child that accepts the word.
unfoldable pub find_child : Bytes → CommandTrees → Result (Option CommandTree)
find_child part no_childs = ok none
find_child part (child tree rest) =
    check_command_element part (element_of tree)
    >>= (λ accepts. if accepts then ok (some tree) else find_child part rest)

-- The outer loop. A word that no child accepts is passed over.
unfoldable pub analyze_parts :
    List Bytes → CommandTree → ValueStack → Result (CommandTree × ValueStack)
analyze_parts [] current stack = ok (current, stack)
analyze_parts (part ∷ parts) current stack = find_child part (childs current) >>= (λ found.
    elim found [
      | none ↦ analyze_parts parts current stack
      | some next ↦
          real_value (element_of next).element_type part
          >>= (λ value. analyze_parts parts next (value ∷ stack))
    ])

unfoldable pub analyze_command :
    (Bytes → List Bytes) → Bytes → CommandTree → Result (CommandTree × ValueStack)
analyze_command split command root = analyze_parts (split command) root []

-- `print_tree` from the node whose childs these are: a line for each element without a handler,
-- behind two dashes for each step from the root.
unfoldable pub print_tree : ℕ → CommandTrees → Bytes
print_tree tab no_childs = []
print_tree tab (child (node element below) rest) =
    tree_line element.handler tab element ++ (print_tree (tab + 1) below ++ print_tree tab rest)
  where
    dashes : ℕ → Bytes
    dashes zero = []
    dashes (suc n) = b'-' ∷ b'-' ∷ dashes n

    tree_line : Option CommandHandler → ℕ → CommandElement → Bytes
    tree_line none tab element = dashes tab ++ (element_to_string element ++ 10 ∷ [])
    tree_line (some handler) tab element = []
