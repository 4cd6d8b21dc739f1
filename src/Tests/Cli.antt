-- ===== src/Tests/Cli.antt =====
-- Patterns, the tree, words and keys of the command line.
use klevret_english_ver.Base.{
  ℕ, ◌≡◌, ◌≢◌, refl, ap, ◌∙◌, true, List, [], ◌∷◌, ◌++◌, Bytes, All, ◌==◌, if◌then◌else◌, Result,
  ok, err, no_socket, digit_expected, undefined, false, element_expected, ◌>>=◌, arith, codes,
}
use klevret_english_ver.IpAddress.{IPv4Address, array_eq}
use klevret_english_ver.IpAddress.Network.{IsAddress}
use klevret_english_ver.Cli.Reader.{read_while, skip_whitespaces, is_end}
use klevret_english_ver.Cli.Numbers.{
  scan_int, parse_number, check_octets, parse_ipv4_address, parse_ipv4_subnet_mask, address_of_text,
}
use klevret_english_ver.Cli.Numbers.Addresses.{address_of_text-parse_ipv4_address}
use klevret_english_ver.Cli.Elements.{
  blank, cmd_version, default_element, make_element, fixed_word, ip_v4_address,
  check_command_element,
}
use klevret_english_ver.Cli.Pattern.{
  Command, cli, dhcp, parse_fixed_word, parse_pattern_element, parse_rounds, parse_pattern,
  make_command,
}
use klevret_english_ver.Cli.Pattern.Printing.{PatternElement, variable, print_pattern}
use klevret_english_ver.Cli.Pattern.RoundTrip.{make_command-print_pattern}
use klevret_english_ver.Cli.Tree.{node, no_childs, childs, add_commands, create_command_tree}
use klevret_english_ver.Cli.Tree.Lookup.{handlers_at, handlers_with}
use klevret_english_ver.Cli.Tree.Commands.{word, command_tree}
use klevret_english_ver.Cli.Tree.Made.{IsMade, handlers_at-created}
use klevret_english_ver.Cli.Words.{NoSpace, IsWord, join, Splits}
use klevret_english_ver.Cli.Analyze.{analyze_command, find_child, analyze_parts, real_value}
use klevret_english_ver.Cli.Console.{
  new_console, move_cursor_to_left, clear_line_from_cursor_position,
}
use klevret_english_ver.Cli.Editor.{
  Editor, key, tab, enter, run_results, on_result, on_key, on_backspace, on_character, arrow,
  to_esq_sequence, erase, place_cursor,
}
use klevret_english_ver.Cli.Editor.Keeping.{InBounds}
use klevret_english_ver.Cli.Editor.Cursor.{run_results-InBounds}
use klevret_english_ver.Cli.Editor.Returns.{run_results_returns}
use klevret_english_ver.Cli.Editor.PoolCommand.{pool_line, pool_object, pool_line_sent}
use klevret_english_ver.Cli.Handlers.{Object, sends}
use klevret_english_ver.Sockets.Client.{send_string, send_cmd}
use klevret_english_ver.Tests.Sockets.{two_os, none_open}
use klevret_english_ver.Tests.{ip_10, ip_11, ip_10-IsAddress, ip_11-IsAddress}

-- Behind a space: an empty token between two spaces is left out.
after_space : Bytes → List Bytes → List Bytes
after_space [] (token ∷ others) = token ∷ others
after_space first others = first ∷ others

-- `boost::algorithm::split` at spaces with `token_compress_on`: the first token, and those behind.
tokens : Bytes → Bytes × List Bytes
unfolding after_space
tokens [] = ([], [])
tokens (c ∷ text) =
    let (first, others) = tokens text in
    if c == b' ' then ([], after_space first others) else (c ∷ first, others)

split_spaces : Bytes → List Bytes
unfolding tokens
split_spaces text = let (first, others) = tokens text in first ∷ others

tokens-NoSpace : (text : Bytes) → NoSpace text → tokens text ≡ (text, [])
unfolding tokens
tokens-NoSpace [] v = refl
tokens-NoSpace (c ∷ text) (plain, v) = rw (plain, tokens-NoSpace text v)

tokens-space :
    (text rest : Bytes) {first : Bytes} {others : List Bytes}
    → NoSpace text
    → tokens rest ≡ (first, others)
    → tokens (text ++ b' ' ∷ rest) ≡ (text, after_space first others)
unfolding tokens
tokens-space [] rest v read = rw read
tokens-space (c ∷ text) rest (plain, v) read = rw (plain, tokens-space text rest v read)

after_space_filled :
    (first : Bytes) (others : List Bytes) → first ≢ [] → after_space first others ≡ first ∷ others
unfolding after_space
after_space_filled [] others filled = absurd (filled refl)
after_space_filled (c ∷ first) others filled = refl

tokens-join :
    (first : Bytes) (words : List Bytes)
    → All IsWord (first ∷ words)
    → tokens (join first words) ≡ (first, words)
tokens-join first [] (w, v) = tokens-NoSpace first w.no_space
tokens-join first (second ∷ words) (w, v) =
    tokens-space first (join second words) w.no_space (tokens-join second words v)
    ∙ ap (λ others. (first, others)) (after_space_filled second words v.0.not_empty)

split_spaces-Splits : Splits split_spaces
unfolding split_spaces
split_spaces-Splits = record { splits = λ first words v. rw (tokens-join first words v) refl }

abbrev idle : Editor
idle = record { console = new_console; awaited = key; sent = [] }

-- A text with the keys of an object.
abbrev keys_only : Object → Bytes
keys_only [] = []
keys_only ((name, value) ∷ object) = name ++ keys_only object

abbrev two_sends : List Object → Object → Result (Unit {0})
two_sends = sends two_os keys_only none_open

pool_line_sent_example :
    (s' : Editor) × ((create_command_tree >>= λ root.
    run_results two_sends split_spaces root (pool_line ip_10 ip_11 ++ enter ∷ []) idle)
      ≡ (two_sends [] (pool_object ip_10 ip_11) >>= λ u. ok s'))
    × (s'.sent ≡ pool_object ip_10 ip_11 ∷ [])
    × (s'.console.current_command_input ≡ [])
    × (s'.console.current_command_input_cursor_pos ≡ 0)
pool_line_sent_example =
    pool_line_sent two_os keys_only none_open split_spaces ip_10 ip_11 idle split_spaces-Splits
      ip_10-IsAddress ip_11-IsAddress refl refl

-- On the system with two descriptors, which `send_cmd` keeps, the third call throws.
third_throws :
    (two_sends [] (pool_object ip_10 ip_11) ≡ ok tt)
    × (two_sends (pool_object ip_10 ip_11 ∷ pool_object ip_10 ip_11 ∷ []) (pool_object ip_10 ip_11)
        ≡ err no_socket)
unfolding send_cmd send_string array_eq
third_throws = (refl, refl)

abbrev typed_keys : List ℕ
typed_keys = b'a' ∷ b'b' ∷ 27 ∷ 91 ∷ 68 ∷ b'c' ∷ 127 ∷ []

-- The state behind `a`, `b`, the left arrow, `c` and BACKSPACE.
edited : (s : Editor) × (run_results two_sends split_spaces command_tree typed_keys idle ≡ ok s)
unfolding run_results on_result on_key on_backspace on_character arrow to_esq_sequence erase
    place_cursor move_cursor_to_left clear_line_from_cursor_position
edited = (_, refl)

run_results-InBounds_example : InBounds edited.0.console
run_results-InBounds_example =
    run_results-InBounds two_sends split_spaces command_tree typed_keys idle (omega arith) edited.1

edits : (ch : ℕ) → (ch == tab) ≡ false → (ch == enter) ≡ false → (ch ≢ tab) × (ch ≢ enter)
edits ch t n = (λ h. ground arith, λ h. ground arith)

run_results_returns_example :
    (s : Editor) × (run_results two_sends split_spaces command_tree typed_keys idle ≡ ok s)
    × InBounds s.console
run_results_returns_example =
    run_results_returns two_sends split_spaces command_tree typed_keys idle (omega arith) (
      edits b'a' refl refl,
      (
        edits b'b' refl refl,
        (
          edits 27 refl refl,
          (
            edits 91 refl refl,
            (edits 68 refl refl, (edits b'c' refl refl, (edits 127 refl refl, tt))),
          ),
        ),
      ),
    )

make_command-print_pattern_example :
    make_command dhcp
      (print_pattern (PatternElement.word b'i' (b'p' ∷ []) ∷ variable ip_v4_address ∷ []))
      blank
    ≡ ok (record {
      elements = make_element fixed_word (codes "ip") ∷ make_element ip_v4_address [] ∷ [];
      handler = blank;
      klevret_component = dhcp;
    })
make_command-print_pattern_example =
    make_command-print_pattern dhcp
      (PatternElement.word b'i' (b'p' ∷ []) ∷ variable ip_v4_address ∷ []) blank
      ((refl, (refl, tt)), (tt, tt))

accepted : parse_ipv4_address (codes "192.168.1.007") ≡ ok true
unfolding parse_ipv4_address check_octets parse_number scan_int is_end
accepted = refl

address_of_text-parse_ipv4_address_example :
    (ip : IPv4Address) × (address_of_text (codes "192.168.1.007") ≡ ok ip) × IsAddress ip
address_of_text-parse_ipv4_address_example =
    address_of_text-parse_ipv4_address (codes "192.168.1.007") accepted

abbrev version_command : Command
version_command = record {
  elements = word (codes "version") ∷ [];
  handler = cmd_version;
  klevret_component = cli;
}

abbrev show_command : Command
show_command = record {
  elements = word (codes "ip") ∷ word (codes "show") ∷ [];
  handler = blank;
  klevret_component = dhcp;
}

version-IsMade : IsMade version_command
unfolding make_command parse_pattern parse_rounds parse_pattern_element parse_fixed_word read_while
    skip_whitespaces is_end
version-IsMade = record { component = cli; pattern = codes "version"; made = refl }

show-IsMade : IsMade show_command
unfolding make_command parse_pattern parse_rounds parse_pattern_element parse_fixed_word read_while
    skip_whitespaces is_end
show-IsMade = record { component = dhcp; pattern = codes "ip show"; made = refl }

handlers_at-created_example :
    handlers_at
      (childs (add_commands (node default_element no_childs) (version_command ∷ show_command ∷ [])))
      (word (codes "ip") ∷ word (codes "show") ∷ [])
    ≡ handlers_with
        (version_command ∷ show_command ∷ [])
        (word (codes "ip") ∷ word (codes "show") ∷ [])
handlers_at-created_example =
    handlers_at-created (version_command ∷ show_command ∷ [])
      (word (codes "ip") ∷ word (codes "show") ∷ []) (version-IsMade, (show-IsMade, tt))

-- A word that no child accepts is passed over.
skipped :
    analyze_command split_spaces (codes "please version now") command_tree
    ≡ analyze_command split_spaces (codes "version") command_tree
unfolding analyze_command analyze_parts find_child check_command_element array_eq real_value
    split_spaces
skipped = refl

-- A mask is tested without a test of what follows it, and throws on what is no number.
mask_prefix : parse_ipv4_subnet_mask (codes "24x") ≡ ok true
unfolding parse_ipv4_subnet_mask parse_number scan_int
mask_prefix = refl

mask_throws : parse_ipv4_subnet_mask (codes "x") ≡ err digit_expected
unfolding parse_ipv4_subnet_mask parse_number scan_int
mask_throws = refl

-- A closing space in a pattern is refused.
closing_space : make_command dhcp (codes "ip ") blank ≡ err element_expected
unfolding make_command parse_pattern parse_rounds parse_pattern_element parse_fixed_word read_while
    skip_whitespaces is_end
closing_space = refl

-- A row of digits that is too long for an `int`.
overflow : parse_ipv4_address (codes "99999999999") ≡ err undefined
unfolding parse_ipv4_address check_octets parse_number scan_int
overflow = refl
