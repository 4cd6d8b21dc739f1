-- ===== src/Cli/Tree.antt =====
-- cli/src/Command.hpp and Command.cpp: the tree of commands. A handler stands in a child of its own,
-- an element of the type NONE, below the last element of its command.
pub mod Lookup
pub mod Made
pub mod Commands
use klevret_english_ver.Base.{
  true, false, List, [], ◌∷◌, none, some, if◌then◌else◌, Result, ok, ◌>>=◌, codes,
}
use klevret_english_ver.Cli.Elements.{
  CommandHandler, CommandElement, none_type, default_element, element_eq,
}
use klevret_english_ver.Cli.Pattern.{Command, all_commands}

-- `CommandTree`, and the vector `childs` of such.
mutual
  pub data CommandTree : Type 0 where
    node : CommandElement → CommandTrees → CommandTree

  pub data CommandTrees : Type 0 where
    no_childs : CommandTrees
    child : CommandTree → CommandTrees → CommandTrees

abbrev pub childs : CommandTree → CommandTrees
childs (node element below) = below

-- `push_back`
unfoldable pub append_child : CommandTrees → CommandTree → CommandTrees
append_child no_childs new = child new no_childs
append_child (child tree rest) new = child tree (append_child rest new)

abbrev pub handler_element : CommandHandler → CommandElement
handler_element handler = record default_element { handler = some handler }

-- The loop over the elements that are left, at the node whose childs these are. Where the first of
-- them is found, the loop goes on below it; else it is added behind the childs there are.
unfoldable pub add_elements : List CommandElement → CommandHandler → CommandTrees → CommandTrees
unfolding append_child
add_elements [] handler below = append_child below (node (handler_element handler) no_childs)
add_elements (element ∷ elements) handler no_childs =
    child (node element (add_elements elements handler no_childs)) no_childs
add_elements (element ∷ elements) handler (child (node e below) rest) =
    if element_eq e element
    then child (node e (add_elements elements handler below)) rest
    else child (node e below) (add_elements (element ∷ elements) handler rest)

unfoldable pub add_command_to_tree : CommandTree → Command → CommandTree
add_command_to_tree (node e below) command =
    node e (add_elements command.elements command.handler below)

unfoldable pub add_commands : CommandTree → List Command → CommandTree
add_commands tree [] = tree
add_commands tree (command ∷ commands) = add_commands (add_command_to_tree tree command) commands

unfoldable pub create_command_tree : Result CommandTree
create_command_tree = do
  commands ← all_commands
  ok (add_commands (node default_element no_childs) commands)
