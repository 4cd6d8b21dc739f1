-- ===== src/Sockets/Descriptors.antt =====
-- Which descriptors are open: what the documentation of the calls says of them, and bodies that keep
-- account of them.
use klevret_english_ver.Base.{
  ℕ, ◌≤◌, ◌≡◌, refl, sym, ◌∙◌, ap, inl, inr, Bool, true, false, Bytes, Option, none, some, Error,
  Result, ok, err, ◌==◌, if◌then◌else◌, ==→eq, Bool-cases,
}
use mathlib.Core.Path.{fun_ext, subst}
use klevret_english_ver.Sockets.{
  SocketKind, SocketOption, SockaddrIn, Os, Call, and_then, or_throw, pure, deferring,
}

-- The set of the open descriptors.
abbrev pub Fds : Type 0
Fds = ℕ → Bool

abbrev pub opened : ℕ → Fds → Fds
opened fd fds n = if n == fd then true else fds n

abbrev pub closed : ℕ → Fds → Fds
closed fd fds n = if n == fd then false else fds n

pub closed-opened : (fd : ℕ) (fds : Fds) → fds fd ≡ false → closed fd (opened fd fds) ≡ fds
closed-opened fd fds free = fun_ext λ n. elim (Bool-cases (n == fd)) [
  | inl same ↦ rw same (sym free ∙ ap fds (sym (==→eq n fd same)))
  | inr other ↦ rw other refl
]

pub closed_free : (fd : ℕ) (fds : Fds) → fds fd ≡ false → closed fd fds ≡ fds
closed_free fd fds free = fun_ext λ n. elim (Bool-cases (n == fd)) [
  | inl same ↦ rw same (sym free ∙ ap fds (sym (==→eq n fd same)))
  | inr other ↦ rw other refl
]

-- `socket` gives the lowest number that is not open, or fails and opens none.
abbrev pub Allocates : Fds → Option ℕ → Fds → Type 0
Allocates before none after = after ≡ before
Allocates before (some fd) after =
    (before fd ≡ false) × ((n : ℕ) → before n ≡ false → fd ≤ n) × (after ≡ opened fd before)

module _ {W : Type 0} where
  -- The documented behaviour: `socket` opens, `close` closes, and no other call does either.
  pub record Accounts (os : Os W) (fds : W → Fds) : Type 0 where
    pub socket_allocates :
        (kind : SocketKind) (w : W)
        → Allocates (fds w) (os.socket kind w).0 (fds (os.socket kind w).1)
    pub close_closes : (fd : ℕ) (w : W) → fds (os.close fd w) ≡ closed fd (fds w)
    pub setsockopt_keeps :
        (fd : ℕ) (option : SocketOption) (w : W) → fds (os.setsockopt fd option w).1 ≡ fds w
    pub bind_keeps : (fd : ℕ) (sa : SockaddrIn) (w : W) → fds (os.bind fd sa w).1 ≡ fds w
    pub listen_keeps : (fd backlog : ℕ) (w : W) → fds (os.listen fd backlog w).1 ≡ fds w
    pub connect_keeps : (fd : ℕ) (sa : SockaddrIn) (w : W) → fds (os.connect fd sa w).1 ≡ fds w
    pub send_keeps : (fd : ℕ) (bytes : Bytes) (w : W) → fds (os.send fd bytes w).1 ≡ fds w
    pub sendto_keeps :
        (fd : ℕ) (bytes : Bytes) (sa : SockaddrIn) (w : W) → fds (os.sendto fd bytes sa w).1 ≡ fds w
    pub broadcast_keeps :
        (fd : ℕ) (name : Bytes) (w : W) → fds (os.ioctl_broadcast fd name w).1 ≡ fds w
    pub index_keeps : (fd : ℕ) (name : Bytes) (w : W) → fds (os.ioctl_index fd name w).1 ≡ fds w
    pub hwaddr_keeps : (fd : ℕ) (name : Bytes) (w : W) → fds (os.ioctl_hwaddr fd name w).1 ≡ fds w

  module _ (fds : W → Fds) where
    -- What the descriptors are when the body returns, and when it throws.
    abbrev pub Ends :
        {A : Type 0} → (A → Fds → Type 0) → (Error → Fds → Type 0) → Result A × W → Type 0
    Ends Returns Throws (ok a, w) = Returns a (fds w)
    Ends Returns Throws (err cause, w) = Throws cause (fds w)

    -- A body whose first call leaves `during` open when it returns.
    pub >>=-Ends :
        {A B : Type 0} (Returns : B → Fds → Type 0) (Throws : Error → Fds → Type 0) (during : Fds)
        (first : Result A × W) (rest : A → Call W B)
        → Ends (λ a after. after ≡ during) Throws first
        → ((a : A) (w : W) → fds w ≡ during → Ends Returns Throws (rest a w))
        → Ends Returns Throws (and_then first rest)
    >>=-Ends Returns Throws during (ok a, w) rest first_ends rest_ends = rest_ends a w first_ends
    >>=-Ends Returns Throws during (err cause, w) rest first_ends rest_ends = first_ends

    -- A body that makes its value from that of a call.
    pub map-Ends :
        {A B : Type 0} (Returns : A → Fds → Type 0) (Returns' : B → Fds → Type 0)
        (Throws : Error → Fds → Type 0) (f : A → B) (ended : Result A × W)
        → ((a : A) (after : Fds) → Returns a after → Returns' (f a) after)
        → Ends Returns Throws ended
        → Ends Returns' Throws (and_then ended (λ a. pure (f a)))
    map-Ends Returns Returns' Throws f (ok a, w) maps returns = maps a (fds w) returns
    map-Ends Returns Returns' Throws f (err cause, w) maps throws = throws

    -- A body that begins with a socket.
    pub socket-Ends :
        {A : Type 0} (Returns : A → Fds → Type 0) (Throws : Error → Fds → Type 0) (cause : Error)
        (before : Fds) (made : Option ℕ × W) (rest : ℕ → Call W A)
        → Allocates before made.0 (fds made.1)
        → Throws cause before
        → ((fd : ℕ) (w : W)
            → before fd ≡ false
            → ((n : ℕ) → before n ≡ false → fd ≤ n)
            → fds w ≡ opened fd before
            → Ends Returns Throws (rest fd w))
        → Ends Returns Throws (and_then (or_throw cause made.0 made.1) rest)
    socket-Ends Returns Throws cause before (none, w) rest same throws goes_on =
        subst (Throws cause) (sym same) throws
    socket-Ends Returns Throws cause before (some fd, w) rest (free, lowest, opens) throws goes_on =
        goes_on fd w free lowest opens

    -- A body behind which a descriptor is closed.
    pub deferring-Ends :
        {A : Type 0} (os : Os W) (accounts : Accounts os fds) (fd : ℕ) (before : Fds)
        (rest : Call W A) (w : W)
        → Ends
            (λ a after. closed fd after ≡ before)
            (λ cause after. closed fd after ≡ before)
            (rest w)
        → fds (deferring (os.close fd) rest w).1 ≡ before
    deferring-Ends os accounts fd before rest w ends =
        accounts.close_closes fd (rest w).1 ∙ either (rest w) ends
      where
        either :
            {A : Type 0} (ended : Result A × W)
            → Ends
                (λ a after. closed fd after ≡ before)
                (λ cause after. closed fd after ≡ before)
                ended
            → closed fd (fds ended.1) ≡ before
        either (ok a, w) ends = ends
        either (err cause, w) ends = ends
