-- ===== src/Cli/Handlers.antt =====
-- cli/src/command_handlers.cpp: the functions that run a command. `send_cmd` passes an object, its
-- keys and values in order, on to the core process over a socket: how a call of it ends, with what it
-- throws, is an argument here. `sends` gives that of the `send_cmd` of Sockets.Client.
use klevret_english_ver.Base.{
  ℕ, not, List, [], ◌∷◌, Bytes, length, ◌==◌, Result, ok, err, wrong_arguments, undefined,
  bad_variant, throw_if, ◌>>=◌, ◌>>◌, codes, Option, none, some,
}
use klevret_english_ver.IpAddress.{IPv4Address}
use klevret_english_ver.Cli.Numbers.{address_to_text}
use klevret_english_ver.Cli.Elements.{
  CommandHandler, cmd_version, blank, cmd_ip_address_ipv4, cmd_dhcp_pool_create,
}
use klevret_english_ver.Cli.Analyze.{CommandElementRealValue, ipv4_value, ValueStack}
use klevret_english_ver.Cli.Console.{Console, write_str}
use klevret_english_ver.Sockets.{Os}
use klevret_english_ver.Sockets.Client.{send_cmd}

abbrev pub Object : Type 0
Object = List (Bytes × Bytes)

module _ {W : Type 0} (os : Os W) (write_json : Object → Bytes) (w : W) where
  -- The system behind the calls of `send_cmd` with these objects, the last first.
  abbrev pub world_after : List Object → W
  world_after [] = w
  world_after (object ∷ sent) = (send_cmd os write_json object (world_after sent)).1

  -- How the next call ends.
  abbrev pub sends : List Object → Object → Result (Unit {0})
  sends sent object = (send_cmd os write_json object (world_after sent)).0

unfoldable pub check_args_size : ValueStack → ℕ → Result (Unit {0})
check_args_size cmd number_of_args = throw_if (not (length cmd == number_of_args)) wrong_arguments

-- `cmd.top()`
unfoldable pub top : ValueStack → Result CommandElementRealValue
top [] = err undefined
top (value ∷ cmd) = ok value

-- `cmd.pop()`
unfoldable pub pop : ValueStack → Result ValueStack
pop [] = err undefined
pop (value ∷ cmd) = ok cmd

-- `std::get<IPv4Address>`
unfoldable pub get_ipv4 : CommandElementRealValue → Result IPv4Address
get_ipv4 (ipv4_value ip) = ok ip
get_ipv4 _ = err bad_variant

-- The handlers' texts, in UTF-8.
abbrev version_text : Bytes
version_text =
    208 ∷ 154 ∷ 208 ∷ 187 ∷ 208 ∷ 181 ∷ 208 ∷ 178 ∷ 209 ∷ 128 ∷ 208 ∷ 181 ∷ 209 ∷ 130 ∷ 46 ∷ 32
    ∷ 208 ∷ 146 ∷ 208 ∷ 181 ∷ 209 ∷ 128 ∷ 209 ∷ 129 ∷ 208 ∷ 184 ∷ 209 ∷ 143 ∷ 32 ∷ 48 ∷ 46 ∷ 49 ∷ 32
    ∷ 40 ∷ 208 ∷ 178 ∷ 32 ∷ 209 ∷ 128 ∷ 208 ∷ 176 ∷ 208 ∷ 183 ∷ 209 ∷ 128 ∷ 208 ∷ 176 ∷ 208 ∷ 177
    ∷ 208 ∷ 190 ∷ 209 ∷ 130 ∷ 208 ∷ 186 ∷ 208 ∷ 181 ∷ 41 ∷ 10 ∷ []

abbrev blank_text : Bytes
blank_text =
    208 ∷ 191 ∷ 209 ∷ 131 ∷ 209 ∷ 129 ∷ 209 ∷ 130 ∷ 208 ∷ 176 ∷ 209 ∷ 143 ∷ 32 ∷ 208 ∷ 186 ∷ 208
    ∷ 190 ∷ 208 ∷ 188 ∷ 208 ∷ 176 ∷ 208 ∷ 189 ∷ 208 ∷ 180 ∷ 208 ∷ 176 ∷ 10 ∷ []

module _ (send_cmd : Object → Result (Unit {0})) where
  -- The result is the object that has been sent.
  unfoldable pub ip_address_ipv4 : ValueStack → Result Object
  unfolding check_args_size top get_ipv4
  ip_address_ipv4 cmd = do
    check_args_size cmd 3
    value ← top cmd
    ip ← get_ipv4 value
    let json : Object =
        (codes "component", codes "dhcp")
        ∷ (codes "cmd", codes "ip.address")
        ∷ (codes "ip", address_to_text ip)
        ∷ []
    send_cmd json
    ok json

  unfoldable pub dhcp_pool_create : ValueStack → Result Object
  unfolding check_args_size top pop get_ipv4
  dhcp_pool_create cmd = do
    check_args_size cmd 5
    last ← top cmd
    ip_end ← get_ipv4 last
    cmd' ← pop cmd
    next ← top cmd'
    ip_start ← get_ipv4 next
    let json : Object =
        (codes "component", codes "dhcp")
        ∷ (codes "cmd", codes "dhcp.pool.create")
        ∷ (codes "ip_start", address_to_text ip_start)
        ∷ (codes "ip_end", address_to_text ip_end)
        ∷ []
    send_cmd json
    ok json

  -- A call of a handler: the console, and the object that has been sent, if one has.
  unfoldable pub run_handler :
      CommandHandler → ValueStack → Console → Result (Console × Option Object)
  unfolding ip_address_ipv4 dhcp_pool_create
  run_handler cmd_version cmd c = ok (write_str c version_text, none)
  run_handler blank cmd c = ok (write_str c blank_text, none)
  run_handler cmd_ip_address_ipv4 cmd c = ip_address_ipv4 cmd >>= (λ object. ok (c, some object))
  run_handler cmd_dhcp_pool_create cmd c = dhcp_pool_create cmd >>= (λ object. ok (c, some object))
