-- ===== src/Tests/Sockets.antt =====
-- A system with two descriptors, 0 and 1, and what is done on it: sockets, interfaces, and the
-- beginning of the server.
use klevret_english_ver.Base.{
  ℕ, ◌≡◌, refl, ap, Bool, true, false, List, [], ◌∷◌, Bytes, Option, none, some, replicate, codes,
  if◌then◌else◌, ◌==◌, arith, length,
}
use mathlib.Core.Path.{fun_ext}
use klevret_english_ver.IpAddress.{array_eq}
use klevret_english_ver.Endian.{little}
use klevret_english_ver.Sockets.{Os, pton_converted, pton_not_an_address, PtonStatus, zero_addr}
use klevret_english_ver.Sockets.Descriptors.{Fds, Accounts, Allocates, closed}
use klevret_english_ver.Base.{◌<◌, err, no_socket, All}
use klevret_english_ver.Sockets.{◌>>◌}
use klevret_english_ver.Sockets.Descriptors.{Ends}
use klevret_english_ver.Sockets.Client.{send_string, LeavesOne, NoneOrOne, send_string_leaks}
use klevret_english_ver.IpAddress.Network.{IsQuad}
use klevret_english_ver.TcpListener.{create_socket_and_listen}
use klevret_english_ver.TcpListener.Descriptors.{Adds, Restores, create_socket_and_listen_accounts}
use klevret_english_ver.UdpListener.Sending.{send_to}
use klevret_english_ver.UdpListener.Descriptors.{send_to_accounts}
use klevret_english_ver.NetworkInterface.{Ifaddrs, af_inet, af_inet6, get_all_interfaces}
use klevret_english_ver.NetworkInterface.Listing.{
  IsListed, Answers, CanOpen, reported, get_all_interfaces_returns,
}

abbrev pub World : Type 0
World = Bool × Bool

abbrev pub fds : World → Fds
fds (a, b) n = if n == 0 then a else if n == 1 then b else false

abbrev pub two_socket : World → Option ℕ × World
two_socket (false, b) = (some 0, (true, b))
two_socket (true, false) = (some 1, (true, true))
two_socket (true, true) = (none, (true, true))

abbrev pub two_close : ℕ → World → World
two_close fd (a, b) = (if fd == 0 then false else a, if fd == 1 then false else b)

abbrev pub two_pton : Bytes → Bytes → PtonStatus × Bytes
two_pton text dst =
    if array_eq text (codes "0.0.0.0")
    then (pton_converted, zero_addr)
    else if array_eq text (codes "127.0.0.1")
    then (pton_converted, 127 ∷ 0 ∷ 0 ∷ 1 ∷ [])
    else (pton_not_an_address, dst)

abbrev pub hwaddr : Bytes → Bytes
hwaddr name = replicate 14 7

abbrev pub two_os : Os World
two_os = record {
  socket = λ kind w. two_socket w;
  close = two_close;
  setsockopt = λ fd option w. (true, w);
  bind = λ fd sa w. (true, w);
  listen = λ fd backlog w. (true, w);
  connect = λ fd sa w. (true, w);
  send = λ fd bytes w. (some (length bytes), w);
  sendto = λ fd bytes sa w. (some (length bytes), w);
  ioctl_broadcast = λ fd name w. (some (0 ∷ 0 ∷ 192 ∷ 168 ∷ 1 ∷ 255 ∷ []), w);
  ioctl_index = λ fd name w. (some 2, w);
  ioctl_hwaddr = λ fd name w. (some (hwaddr name), w);
  inet_pton = two_pton;
  inet_addr = λ text. 192 ∷ 168 ∷ 1 ∷ 255 ∷ [];
}

two_socket-Allocates : (w : World) → Allocates (fds w) (two_socket w).0 (fds (two_socket w).1)
two_socket-Allocates (false, b) = (refl, λ n free. ground arith, fun_ext λ n. ground arith)
two_socket-Allocates (true, false) = (refl, λ n free. ground arith, fun_ext λ n. ground arith)
two_socket-Allocates (true, true) = refl

two_closes : (fd : ℕ) (w : World) → fds (two_close fd w) ≡ closed fd (fds w)
two_closes fd (a, b) = fun_ext λ n. ground arith

pub two_os-Accounts : Accounts two_os fds
two_os-Accounts = record {
  socket_allocates = λ kind w. two_socket-Allocates w;
  close_closes = two_closes;
  setsockopt_keeps = λ fd option w. refl;
  bind_keeps = λ fd sa w. refl;
  listen_keeps = λ fd backlog w. refl;
  connect_keeps = λ fd sa w. refl;
  send_keeps = λ fd bytes w. refl;
  sendto_keeps = λ fd bytes sa w. refl;
  broadcast_keeps = λ fd name w. refl;
  index_keeps = λ fd name w. refl;
  hwaddr_keeps = λ fd name w. refl;
}

abbrev pub none_open : World
none_open = (false, false)

create_socket_and_listen_accounts_example :
    Ends fds
      (Adds (fds none_open))
      (Restores (fds none_open))
      (create_socket_and_listen two_os (codes "127.0.0.1") 40236 5 none_open)
create_socket_and_listen_accounts_example =
    create_socket_and_listen_accounts two_os fds two_os-Accounts (codes "127.0.0.1") 40236 5
      none_open

send_to_accounts_example : fds (send_to two_os (1 ∷ 2 ∷ []) none_open).1 ≡ fds none_open
send_to_accounts_example = send_to_accounts two_os fds two_os-Accounts (1 ∷ 2 ∷ []) none_open

send_string_leaks_example :
    Ends fds
      (λ a. LeavesOne (fds none_open))
      (NoneOrOne (fds none_open))
      (send_string two_os 40236 (codes "{}") none_open)
send_string_leaks_example =
    send_string_leaks two_os fds two_os-Accounts 40236 (codes "{}") none_open

-- After two strings no third can be sent.
two_sent :
    (send_string two_os 40236 (codes "{}")
        >> send_string two_os 40236 (codes "{}")
        >> send_string two_os 40236 (codes "{}"))
      none_open
    ≡ (err no_socket, (true, true))
unfolding send_string array_eq
two_sent = refl

-- An interface of IPv4 and one of IPv6.
abbrev listed : List Ifaddrs
listed =
    record {
      ifa_name = codes "eth0";
      ifa_addr = some (af_inet (10 ∷ 0 ∷ 0 ∷ 1 ∷ []));
      ifa_netmask = some (255 ∷ 255 ∷ 255 ∷ 0 ∷ []);
    }
    ∷ record { ifa_name = codes "eth0"; ifa_addr = some af_inet6; ifa_netmask = none }
    ∷ []

quad : (a b c d : ℕ) → a < 256 → b < 256 → c < 256 → d < 256 → IsQuad (a ∷ b ∷ c ∷ d ∷ [])
quad a b c d ha hb hc hd = record { four = refl; bytes = (ha, (hb, (hc, (hd, tt)))) }

listed-IsListed : All IsListed listed
listed-IsListed = (
  (
    (
      quad 10 0 0 1 (omega arith) (omega arith) (omega arith) (omega arith),
      quad 255 255 255 0 (omega arith) (omega arith) (omega arith) (omega arith),
    ),
    omega arith,
  ),
  ((tt, omega arith), tt),
)

listed-Answers : All (Answers two_os fds (fds none_open) hwaddr) listed
listed-Answers = ((λ fd w same gives. refl, refl), ((λ fd w same gives. refl, refl), tt))

can_open : CanOpen two_os fds (fds none_open)
can_open (false, b) same = (0, refl)
can_open (true, b) same = let no : true ≡ false = ap (λ (s : Fds). s 0) same in cc

get_all_interfaces_returns_example :
    (w' : World) × (get_all_interfaces two_os little (replicate 6 9) (some listed) none_open
      ≡ (reported hwaddr listed, w'))
    × (fds w' ≡ fds none_open)
get_all_interfaces_returns_example =
    get_all_interfaces_returns two_os fds two_os-Accounts hwaddr little (replicate 6 9)
      (fds none_open) refl can_open listed none_open listed-IsListed listed-Answers refl
