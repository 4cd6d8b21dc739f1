-- ===== src/Sockets.antt =====
-- The calls of the operating system that the programs make, and bodies of such calls. The system is
-- an argument: `W` is its state, and each field of `Os` is the C function of that name as one thread
-- sees it, with no call of another thread in between. A descriptor is a number; where a call reports
-- -1 the field gives `none` or `false`.
pub mod Descriptors
pub mod Leaving
pub mod Client
use klevret_english_ver.Base.{
  ℕ, Bool, true, false, List, [], ◌∷◌, Bytes, Option, none, some, Error, Result, ok, err, ◌==◌,
  if◌then◌else◌, replicate,
}

-- The domain, type and protocol of a socket.
pub data SocketKind : Type 0 where
  tcp_socket : SocketKind  -- AF_INET, SOCK_STREAM, 0
  udp_socket : SocketKind  -- AF_INET, SOCK_DGRAM, IPPROTO_UDP
  raw_packet_socket : SocketKind  -- AF_PACKET, SOCK_RAW, htons(ETH_P_ALL)
  query_socket : SocketKind  -- PF_INET, SOCK_DGRAM, IPPROTO_IP

pub data SocketOption : Type 0 where
  reuseaddr : SocketOption  -- SO_REUSEADDR
  broadcast : SocketOption  -- SO_BROADCAST

-- A `sockaddr_in` of the family AF_INET: the number given to `htons`, and the bytes of `s_addr`.
pub record SockaddrIn : Type 0 where
  pub sin_port : ℕ
  pub sin_addr : Bytes

-- What `inet_pton` returns: 1, 0 or -1.
pub data PtonStatus : Type 0 where
  pton_converted : PtonStatus
  pton_not_an_address : PtonStatus
  pton_failed : PtonStatus

-- `ioctl` is a field for each of its requests, which gets the name in the `ifreq` and gives the part
-- of the `ifreq` that it fills in. `inet_pton` gets and gives what is behind its last argument.
pub record Os (W : Type 0) : Type 0 where
  pub socket : SocketKind → W → Option ℕ × W
  pub close : ℕ → W → W
  pub setsockopt : ℕ → SocketOption → W → Bool × W
  pub bind : ℕ → SockaddrIn → W → Bool × W
  pub listen : ℕ → ℕ → W → Bool × W
  pub connect : ℕ → SockaddrIn → W → Bool × W
  pub send : ℕ → Bytes → W → Option ℕ × W
  pub sendto : ℕ → Bytes → SockaddrIn → W → Option ℕ × W
  pub ioctl_broadcast : ℕ → Bytes → W → Option Bytes × W
  pub ioctl_index : ℕ → Bytes → W → Option ℕ × W
  pub ioctl_hwaddr : ℕ → Bytes → W → Option Bytes × W
  pub inet_pton : Bytes → Bytes → PtonStatus × Bytes
  pub inet_addr : Bytes → Bytes

-- A body: how it ends, and what the system is then.
abbrev pub Call : Type 0 → Type 0 → Type 0
Call W A = W → Result A × W

module _ {W : Type 0} where
  abbrev pub and_then : {A B : Type 0} → Result A × W → (A → Call W B) → Result B × W
  and_then (ok a, w) rest = rest a w
  and_then (err cause, w) rest = (err cause, w)

  infixl 5 ◌>>=◌ ◌>>◌
  abbrev pub ◌>>=◌ : {A B : Type 0} → Call W A → (A → Call W B) → Call W B
  ◌>>=◌ call rest w = and_then (call w) rest

  abbrev pub ◌>>◌ : {B : Type 0} → Call W (Unit {0}) → Call W B → Call W B
  call >> rest = call >>= (λ u. rest)

  abbrev pub pure : {A : Type 0} → A → Call W A
  pure a w = (ok a, w)

  abbrev pub throw : {A : Type 0} → Error → Call W A
  throw cause w = (err cause, w)

  -- A call of the system that does not throw.
  abbrev pub call : {A : Type 0} → (W → A × W) → Call W A
  call f w = let (a, w') = f w in (ok a, w')

  -- `if (result == -1) throw e;`
  abbrev pub or_throw : {A : Type 0} → Error → Option A → Call W A
  or_throw cause none = throw cause
  or_throw cause (some a) = pure a

  abbrev pub unless_throw : Error → Bool → Call W (Unit {0})
  unless_throw cause true = pure tt
  unless_throw cause false = throw cause

  -- The test that only -1 fails.
  abbrev pub pton_or_throw : PtonStatus → Call W (Unit {0})
  pton_or_throw pton_failed = throw Error.bad_address
  pton_or_throw _ = pure tt

  -- common/src/Defer.hpp: an object whose destructor makes a call, whether the rest of its block
  -- returns or throws.
  abbrev pub deferring : {A : Type 0} → (W → W) → Call W A → Call W A
  deferring callable_object rest w = let (ended, w') = rest w in (ended, callable_object w')

-- `memset(&sa, 0, sizeof sa)` before `inet_pton`
abbrev pub zero_addr : Bytes
zero_addr = replicate 4 0
