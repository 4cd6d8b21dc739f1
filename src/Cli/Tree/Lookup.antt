-- ===== src/Cli/Tree/Lookup.antt =====
-- What the tree of commands stands for: the handlers of the commands with a given path.
use klevret_english_ver.Base.{
  Bool, true, false, ◌≡◌, refl, ◌∙◌, inl, inr, Bool-cases, List, [], ◌∷◌, ◌++◌, append_assoc,
  append-nil, All, Option-cases, none, some, if◌then◌else◌, ◌&&◌, arith,
}
use klevret_english_ver.IpAddress.Order.{array_eq→eq}
use klevret_english_ver.Cli.Elements.{CommandHandler, CommandElement, element_eq, type_code}
use klevret_english_ver.Cli.Pattern.{Command}
use klevret_english_ver.Cli.Tree.{
  CommandTree, CommandTrees, node, no_childs, child, childs, append_child, handler_element,
  add_elements, add_command_to_tree, add_commands,
}

-- The handlers that stand in childs of a node.
unfoldable pub leaf_handlers : CommandTrees → List CommandHandler
leaf_handlers no_childs = []
leaf_handlers (child (node e below) rest) = elim e.handler [
  | none ↦ leaf_handlers rest
  | some h ↦ h ∷ leaf_handlers rest
]

-- The handlers at the end of a path, from the childs of a node.
unfoldable pub handlers_at : CommandTrees → List CommandElement → List CommandHandler
unfolding leaf_handlers
handlers_at below [] = leaf_handlers below
handlers_at no_childs (element ∷ path) = []
handlers_at (child (node e below) rest) (element ∷ path) =
    if element_eq e element then handlers_at below path else handlers_at rest (element ∷ path)

unfoldable pub path_eq : List CommandElement → List CommandElement → Bool
path_eq [] [] = true
path_eq [] (b ∷ bs) = false
path_eq (a ∷ path) [] = false
path_eq (a ∷ path) (b ∷ bs) = element_eq a b && path_eq path bs

-- An element of a pattern has no handler.
abbrev pub IsInner : CommandElement → Type 0
IsInner e = e.handler ≡ none

-- `operator==` does not tell apart two elements that it takes for equal, on either side.
element_eq_congr :
    (a b c : CommandElement)
    → element_eq a b ≡ true
    → (element_eq a c ≡ element_eq b c) × (element_eq c a ≡ element_eq c b)
unfolding element_eq
element_eq_congr a b c h =
    let types : type_code a.element_type ≡ type_code b.element_type = ground arith in
    let values : a.fixed_value ≡ b.fixed_value =
      array_eq→eq a.fixed_value b.fixed_value (ground arith) in
    (rw (types, values) refl, rw (types, values) refl)

element_eq_apart :
    (e a q : CommandElement)
    → element_eq e q ≡ true
    → element_eq e a ≡ false
    → element_eq a q ≡ false
element_eq_apart e a q same other = elim (Bool-cases (element_eq a q)) [
  | inl h ↦ let right = (element_eq_congr a q e h).1 in cc
  | inr h ↦ h
]

leaf_handlers-append_child :
    (below : CommandTrees) (h : CommandHandler)
    → leaf_handlers (append_child below (node (handler_element h) no_childs))
      ≡ leaf_handlers below ++ h ∷ []
unfolding leaf_handlers append_child
leaf_handlers-append_child no_childs h = refl
leaf_handlers-append_child (child (node f below) rest) h = elim (Option-cases f.handler) [
  | inl e ↦ rw (e, leaf_handlers-append_child rest h)
  | inr (g, e) ↦ rw (e, leaf_handlers-append_child rest h)
]

pub handlers_at-no_childs : (path : List CommandElement) → handlers_at no_childs path ≡ []
unfolding handlers_at
handlers_at-no_childs [] = refl
handlers_at-no_childs (q ∷ path) = refl

-- A handler's own node lies on no path.
handlers_at-append_child :
    (below : CommandTrees) (h : CommandHandler) (q : CommandElement) (path : List CommandElement)
    → handlers_at (append_child below (node (handler_element h) no_childs)) (q ∷ path)
      ≡ handlers_at below (q ∷ path)
unfolding handlers_at append_child
handlers_at-append_child no_childs h q path = elim (Bool-cases (element_eq (handler_element h) q)) [
  | inl e ↦ rw (e, handlers_at-no_childs path)
  | inr e ↦ rw e
]
handlers_at-append_child (child (node f below) rest) h q path = elim (Bool-cases (element_eq f q)) [
  | inl e ↦ rw e
  | inr e ↦ rw e (handlers_at-append_child rest h q path)
]

leaf_handlers-add_elements :
    (a : CommandElement) (elements : List CommandElement) (h : CommandHandler)
    (below : CommandTrees)
    → IsInner a
    → leaf_handlers (add_elements (a ∷ elements) h below) ≡ leaf_handlers below
unfolding leaf_handlers add_elements
leaf_handlers-add_elements a elements h no_childs inner = rw inner
leaf_handlers-add_elements a elements h (child (node e below) rest) inner =
    elim (Bool-cases (element_eq e a)) [
      | inl t ↦ rw t
      | inr t ↦
          let others = leaf_handlers-add_elements a elements h rest inner in
          elim (Option-cases e.handler) [
            | inl none_here ↦ rw (t, none_here, others)
            | inr (g, here) ↦ rw (t, here, others)
          ]
    ]

-- What a command adds at a path.
abbrev added : List CommandElement → CommandHandler → List CommandElement → List CommandHandler
added elements h path = if path_eq elements path then h ∷ [] else []

-- Adding a command adds its handler at its own path, behind those there are, and nothing elsewhere.
pub handlers_at-add_elements :
    (elements : List CommandElement) (h : CommandHandler) (below : CommandTrees)
    (path : List CommandElement)
    → All IsInner elements
    → handlers_at (add_elements elements h below) path
      ≡ handlers_at below path ++ (if path_eq elements path then h ∷ [] else [])
unfolding handlers_at add_elements path_eq
handlers_at-add_elements [] h below [] inner = leaf_handlers-append_child below h
handlers_at-add_elements [] h below (q ∷ path) inner =
    rw append-nil (handlers_at-append_child below h q path)
handlers_at-add_elements (a ∷ elements) h below [] inner =
    rw append-nil (leaf_handlers-add_elements a elements h below inner.0)
handlers_at-add_elements (a ∷ elements) h no_childs (q ∷ path) inner =
    elim (Bool-cases (element_eq a q)) [
      | inl t ↦ rw (
        t,
        handlers_at-add_elements elements h no_childs path inner.1,
        handlers_at-no_childs path,
      )
      | inr t ↦ rw t
    ]
handlers_at-add_elements (a ∷ elements) h (child (node e below) rest) (q ∷ path) inner =
    elim (Bool-cases (element_eq e a)) [
      | inl same ↦
          let left = (element_eq_congr e a q same).0 in
          elim (Bool-cases (element_eq a q)) [
            | inl t ↦ rw (same, left, t) (handlers_at-add_elements elements h below path inner.1)
            | inr t ↦ rw (same, left, t, append-nil)
          ]
      | inr other ↦ elim (Bool-cases (element_eq e q)) [
        | inl t ↦ rw (other, t, element_eq_apart e a q t other, append-nil)
        | inr t ↦ rw (other, t) (handlers_at-add_elements (a ∷ elements) h rest (q ∷ path) inner)
      ]
    ]

-- The specification: the handlers of the commands that have the path, in the order of the list.
unfoldable pub handlers_with : List Command → List CommandElement → List CommandHandler
unfolding path_eq
handlers_with [] path = []
handlers_with (command ∷ commands) path =
    if path_eq command.elements path
    then command.handler ∷ handlers_with commands path
    else handlers_with commands path

pub handlers_at-add_commands :
    (tree : CommandTree) (commands : List Command) (path : List CommandElement)
    → All (λ command. All IsInner command.elements) commands
    → handlers_at (childs (add_commands tree commands)) path
      ≡ handlers_at (childs tree) path ++ handlers_with commands path
unfolding add_commands handlers_with add_command_to_tree
handlers_at-add_commands (node e below) [] path inner = rw append-nil
handlers_at-add_commands (node e below) (command ∷ commands) path inner =
    let first = handlers_at-add_elements command.elements command.handler below path inner.0 in
    let others =
      handlers_at-add_commands (add_command_to_tree (node e below) command) commands path inner.1 in
    elim (Bool-cases (path_eq command.elements path)) [
      | inl t ↦ rw t (others ∙ rw (first, t, append_assoc))
      | inr t ↦ rw t (others ∙ rw (first, t, append-nil))
    ]
