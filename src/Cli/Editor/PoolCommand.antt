-- ===== src/Cli/Editor/PoolCommand.antt =====
-- From the keys to the object that is sent: the command that makes an address pool.
use klevret_english_ver.Base.{
  ◌≡◌, refl, ap, ◌∙◌, List, [], ◌∷◌, ◌++◌, Bytes, All, All-append, Option, some, Result, ok, err,
  ◌>>=◌, ◌>>◌, arith, codes,
}
use klevret_english_ver.IpAddress.{IPv4Address, array_eq}
use klevret_english_ver.IpAddress.Network.{IsAddress}
use klevret_english_ver.Cli.Numbers.{address_to_text}
use klevret_english_ver.Cli.Numbers.Text.{address_of_text-address_to_text}
use klevret_english_ver.Cli.Words.{IsWord, join, Splits, All-dotted, dotted-IsWord}
use klevret_english_ver.Cli.Elements.{check_command_element, cmd_dhcp_pool_create, CommandElement}
use klevret_english_ver.Cli.Tree.{
  CommandTree, CommandTrees, node, no_childs, child, create_command_tree,
}
use klevret_english_ver.Cli.Tree.Commands.{
  address, word, command_tree, first_address, second_address, create_command_tree_lem,
}
use klevret_english_ver.Cli.Analyze.{
  ValueStack, string_value, ipv4_value, real_value, find_child, analyze_parts, analyze_command,
}
use klevret_english_ver.Cli.Console.{Console}
use klevret_english_ver.Sockets.{Os}
use klevret_english_ver.Cli.Handlers.{
  Object, check_args_size, top, pop, get_ipv4, dhcp_pool_create, run_handler, sends,
}
use klevret_english_ver.Cli.Editor.{
  enter, key, Editor, only_handler, run_results, new_line, finish_line, send,
}
use klevret_english_ver.Cli.Editor.Keeping.{finish_line-empty}
use klevret_english_ver.Cli.Editor.Lines.{
  IsCharacter, typed, run_results-characters, run_results-last, on_result-enter,
}

module _ (first last : IPv4Address) where
  abbrev pub pool_words : List Bytes
  pool_words = codes "pool" ∷ codes "create" ∷ address_to_text first ∷ address_to_text last ∷ []

  -- `dhcp pool create <first> <last>`
  abbrev pub pool_line : Bytes
  pool_line = join (codes "dhcp") pool_words

  abbrev pub pool_object : Object
  pool_object =
      (codes "component", codes "dhcp")
      ∷ (codes "cmd", codes "dhcp.pool.create")
      ∷ (codes "ip_start", address_to_text first)
      ∷ (codes "ip_end", address_to_text last)
      ∷ []

  abbrev pool_stack : ValueStack
  pool_stack =
      ipv4_value last
      ∷ ipv4_value first
      ∷ string_value (codes "create")
      ∷ string_value (codes "pool")
      ∷ string_value (codes "dhcp")
      ∷ []

-- An address leads to a child that takes addresses, and is pushed.
address_part :
    (ip : IPv4Address) (below rest : CommandTrees) (e : CommandElement) (parts : List Bytes)
    (stack : ValueStack)
    → IsAddress ip
    → analyze_parts (address_to_text ip ∷ parts) (node e (child (node address below) rest)) stack
      ≡ analyze_parts parts (node address below) (ipv4_value ip ∷ stack)
unfolding analyze_parts find_child check_command_element real_value
address_part ip below rest e parts stack v =
    let (accepted, read) = address_of_text-address_to_text ip v in rw (accepted, read)

-- The node below which the addresses follow.
abbrev create_node : CommandTree
create_node = node (word (codes "create")) (child first_address no_childs)

create_part :
    (parts : List Bytes)
    → analyze_parts (codes "dhcp" ∷ codes "pool" ∷ codes "create" ∷ parts) command_tree []
      ≡ analyze_parts parts create_node (
          string_value (codes "create")
          ∷ string_value (codes "pool")
          ∷ string_value (codes "dhcp")
          ∷ [])
unfolding analyze_parts find_child check_command_element real_value array_eq
create_part parts = refl

no_parts :
    (current : CommandTree) (stack : ValueStack)
    → analyze_parts [] current stack ≡ ok (current, stack)
unfolding analyze_parts
no_parts current stack = refl

analyze_pool :
    (first last : IPv4Address)
    → IsAddress first
    → IsAddress last
    → analyze_parts (codes "dhcp" ∷ pool_words first last) command_tree []
      ≡ ok (second_address, pool_stack first last)
analyze_pool first last v w =
    create_part (address_to_text first ∷ address_to_text last ∷ [])
    ∙ (address_part first _ _ _ (address_to_text last ∷ []) _ v
        ∙ (address_part last _ _ _ [] _ w ∙ no_parts second_address (pool_stack first last)))

run_pool :
    (send_cmd : Object → Result (Unit {0})) (first last : IPv4Address) (c : Console)
    → run_handler send_cmd cmd_dhcp_pool_create (pool_stack first last) c
      ≡ (send_cmd (pool_object first last) >>= λ u. ok (c, some (pool_object first last)))
unfolding run_handler dhcp_pool_create check_args_size top pop get_ipv4
run_pool send_cmd first last c = sent (send_cmd (pool_object first last))
  where
    next : Object → Result (Console × Option Object)
    next object = ok (c, some object)

    sent :
        (outcome : Result (Unit {0}))
        → ((outcome >> ok (pool_object first last)) >>= next)
          ≡ (outcome >>= λ u. ok (c, some (pool_object first last)))
    sent (ok u) = refl
    sent (err cause) = refl

-- The words of the line are words.
pool-IsWord :
    (first last : IPv4Address)
    → IsAddress first
    → IsAddress last
    → All IsWord (codes "dhcp" ∷ pool_words first last)
unfolding address_to_text
pool-IsWord first last v w = (
  record { not_empty = λ h. cc; no_space = (refl, (refl, (refl, (refl, tt)))) },
  (
    record { not_empty = λ h. cc; no_space = (refl, (refl, (refl, (refl, tt)))) },
    (
      record { not_empty = λ h. cc; no_space = (refl, (refl, (refl, (refl, (refl, (refl, tt)))))) },
      (dotted-IsWord first.octets v, (dotted-IsWord last.octets w, tt)),
    ),
  ),
)

address-IsCharacter : (ip : IPv4Address) → IsAddress ip → All IsCharacter (address_to_text ip)
unfolding address_to_text
address-IsCharacter ip v = All-dotted IsCharacter (λ d h. ground arith) ip.octets refl v

-- The characters of the line are characters.
pool_line-IsCharacter :
    (first last : IPv4Address)
    → IsAddress first
    → IsAddress last
    → All IsCharacter (pool_line first last)
pool_line-IsCharacter first last v w =
    let tail =
      All-append IsCharacter (address_to_text first) (b' ' ∷ address_to_text last)
        (address-IsCharacter first v) (refl, address-IsCharacter last w) in
    All-append IsCharacter (codes "dhcp pool create ") _
      (
        refl,
        (
          refl,
          (
            refl,
            (
              refl,
              (
                refl,
                (
                  refl,
                  (
                    refl,
                    (
                      refl,
                      (refl, (refl, (refl, (refl, (refl, (refl, (refl, (refl, (refl, tt))))))))),
                    ),
                  ),
                ),
              ),
            ),
          ),
        ),
      )
      tail

analyze_pool_line :
    (split : Bytes → List Bytes) (first last : IPv4Address) (line : Bytes)
    → Splits split
    → IsAddress first
    → IsAddress last
    → line ≡ pool_line first last
    → analyze_command split line command_tree ≡ ok (second_address, pool_stack first last)
unfolding analyze_command
analyze_pool_line split first last line law v w same =
    let words = law.splits (codes "dhcp") (pool_words first last) (pool-IsWord first last v w) in
    rw (same, words) (analyze_pool first last v w)

-- When the editor waits for a key with an empty line, `split` splits as documented, and the two
-- addresses have four octets: typing the line that makes their pool, and ENTER, calls `send_cmd` with
-- the object that has the two addresses, the first and the last. If that call returns, the object is
-- the last that is sent and the line is empty; if it throws, its exception ends the loop.
pub pool_line_sent :
    {W : Type 0} (os : Os W) (write_json : Object → Bytes) (world : W) (split : Bytes → List Bytes)
    (first last : IPv4Address) (s : Editor)
    → Splits split
    → IsAddress first
    → IsAddress last
    → s.awaited ≡ key
    → s.console.current_command_input ≡ []
    → (s' : Editor) × ((create_command_tree >>= λ root.
          run_results (sends os write_json world) split root (pool_line first last ++ enter ∷ []) s)
        ≡ (sends os write_json world s.sent (pool_object first last) >>= λ u. ok s'))
      × (s'.sent ≡ pool_object first last ∷ s.sent)
      × (s'.console.current_command_input ≡ [])
      × (s'.console.current_command_input_cursor_pos ≡ 0)
unfolding only_handler
pool_line_sent os write_json world split first last s law v w waits blank =
    let send_cmd = sends os write_json world in
    let whole = typed (pool_line first last) s in
    let line : whole.console.current_command_input ≡ pool_line first last =
      ap (λ (input : Bytes). input ++ pool_line first last) blank in
    let done = finish_line (new_line whole.console 2) in
    let (empty, start) = finish_line-empty (new_line whole.console 2) refl in
    let found =
      analyze_pool_line split first last whole.console.current_command_input law v w line in
    let ended =
      on_result-enter send_cmd split command_tree whole _ (pool_object first last) waits found refl
        (run_pool (send_cmd s.sent) first last _) in
    (
      send whole done (some (pool_object first last)),
      rw create_command_tree_lem (
          run_results-characters send_cmd split command_tree (pool_line first last) (enter ∷ []) s
            waits (pool_line-IsCharacter first last v w)
          ∙ run_results-last send_cmd split command_tree enter whole _ _ ended),
      refl,
      empty,
      start,
    )
