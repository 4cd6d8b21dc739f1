-- ===== src/Cli/Reader.antt =====
-- cli/src/WrapperForParsing.cpp: the members that the reader of the DHCP server does not have, and
-- the classes of characters of <cctype>, of which no code above 127 is a member.
use klevret_english_ver.Base.{
  ℕ, ◌≡◌, Bool, false, ◌&&◌, ◌||◌, [], ◌∷◌, ◌++◌, Bytes, All, true, length, leb, ◌==◌,
  if◌then◌else◌, Error, Result, ok, err, ◌≤◌, arith,
}
use klevret_english_ver.WrapperForParsing.{WrapperForParsing, eot, get_next, open_text}

-- `std::isspace`
abbrev pub is_space : ℕ → Bool
is_space c = c == b' ' || leb 9 c && leb c 13

-- `std::isalpha`
abbrev pub is_alpha : ℕ → Bool
is_alpha c = leb b'A' c && leb c b'Z' || leb b'a' c && leb c b'z'

-- `std::isalnum`
abbrev pub is_alnum : ℕ → Bool
is_alnum c = is_alpha c || leb b'0' c && leb c b'9'

-- The loops `while (p(wrap.ch)) { word += wrap.ch; wrap.get_next(); }`, at the character `c` with
-- `rest` unread: the word, and the reader behind it. `p` fails on `EOT`.
unfoldable pub read_while : (ℕ → Bool) → ℕ → Bytes → Bytes × WrapperForParsing
read_while p c [] =
    if p c then (c ∷ [], record { ch = eot; rest = [] }) else ([], record { ch = c; rest = [] })
read_while p c (d ∷ rest) =
    let (word, w) = read_while p d rest in
    if p c then (c ∷ word, w) else ([], record { ch = c; rest = d ∷ rest })

unfoldable pub skip_whitespaces : WrapperForParsing → WrapperForParsing
unfolding read_while
skip_whitespaces w = (read_while is_space w.ch w.rest).1

unfoldable pub is_end : WrapperForParsing → Bool
is_end w = w.ch == eot

unfoldable pub check : Error → WrapperForParsing → ℕ → Result WrapperForParsing
check cause w c = if w.ch == c then ok (get_next w) else err cause

-- Where the loop stops: the first character that fails the test, or the end.
pub read_while-append :
    (p : ℕ → Bool) (word text : Bytes)
    → All (λ c. p c ≡ true) word
    → p (open_text text).ch ≡ false
    → read_while p (open_text (word ++ text)).ch (open_text (word ++ text)).rest
      ≡ (word, open_text text)
unfolding read_while
read_while-append p [] [] h stop = rw stop
read_while-append p [] (d ∷ []) h stop = rw stop
read_while-append p [] (d ∷ e ∷ text) h stop = rw stop
read_while-append p (c ∷ []) [] (pc, h) stop = rw pc
read_while-append p (c ∷ []) (d ∷ text) (pc, h) stop =
    rw (pc, read_while-append p [] (d ∷ text) tt stop)
read_while-append p (c ∷ d ∷ word) text (pc, h) stop =
    rw (pc, read_while-append p (d ∷ word) text h stop)

-- The reader moves forward only.
pub read_while-rest-le :
    (p : ℕ → Bool) (c : ℕ) (rest : Bytes) → length (read_while p c rest).1.rest ≤ length rest
unfolding read_while
read_while-rest-le p c [] = ground arith
read_while-rest-le p c (d ∷ rest) = ground (arith, read_while-rest-le p d rest)
