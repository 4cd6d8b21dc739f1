-- ===== src/ApiServer/Reading.antt =====
-- The bounds of the buffer that a packet is printed from.
use klevret_english_ver.Base.{
  ◌≡◌, ◌<◌, ◌≤◌, ◌-◌, ℕ, Option, none, some, refl, [], ◌∷◌, ◌++◌, Bytes, length, length-drop, drop,
  set, lt→ltb, ◌==◌, if◌then◌else◌, ok, arith, Bool-cases, inl, inr,
}
use klevret_english_ver.Core.{c_string}
use klevret_english_ver.ApiServer.{buffer_size, terminate, print_packet, receive}

-- The text up to the first NUL.
abbrev pub until_nul : Bytes → Bytes
until_nul [] = []
until_nul (c ∷ rest) = let text = until_nul rest in if c == 0 then [] else c ∷ text

c_string-until_nul :
    (packet rest : Bytes)
    → 0 < length rest
    → c_string (set (packet ++ rest) (length packet) 0) ≡ ok (until_nul packet)
unfolding c_string
c_string-until_nul [] [] some_room = absurd (omega arith)
c_string-until_nul [] (c ∷ rest) some_room = refl
c_string-until_nul (c ∷ packet) rest some_room = elim (Bool-cases (c == 0)) [
  | inl nul ↦ rw nul refl
  | inr other ↦ rw (other, c_string-until_nul packet rest some_room) refl
]

-- What is printed of a packet: nothing of none, and nothing of an empty one.
abbrev pub printed : Option Bytes → Option Bytes
printed none = none
printed (some []) = none
printed (some (c ∷ packet)) = some (until_nul (c ∷ packet))

print_packet_lem :
    (buffer : Bytes) (found : Option Bytes)
    → ((packet : Bytes) → found ≡ some packet → length packet < length buffer)
    → print_packet buffer found ≡ ok (printed found)
unfolding print_packet terminate
print_packet_lem buffer none fits = refl
print_packet_lem buffer (some []) fits = refl
print_packet_lem buffer (some (c ∷ packet)) fits =
    let short : length (c ∷ packet) < length buffer = fits (c ∷ packet) refl in
    let room : 0 < length (drop (length (c ∷ packet)) buffer) =
      omega (arith, length-drop (length (c ∷ packet)) buffer) in
    rw
      (
        lt→ltb 0 (length (c ∷ packet)) (omega arith),
        lt→ltb (length (c ∷ packet)) (length buffer) short,
        c_string-until_nul (c ∷ packet) (drop (length (c ∷ packet)) buffer) room,
      )
      refl

-- For a buffer of the declared size and a `read` that gives at most as many bytes as it is asked for:
-- a round never writes or reads behind the buffer, prints a packet that is not empty up to its first
-- NUL, and prints nothing where `read` gives nothing or no byte.
pub receive_returns :
    (read : ℕ → Option Bytes) (buffer : Bytes)
    → length buffer ≡ buffer_size
    → ((n : ℕ) (packet : Bytes) → read n ≡ some packet → length packet ≤ n)
    → receive read buffer ≡ ok (printed (read (buffer_size - 1)))
unfolding receive
receive_returns read buffer size bounded =
    print_packet_lem buffer (read (buffer_size - 1))
      (λ packet found. let short = bounded (buffer_size - 1) packet found in omega arith)
