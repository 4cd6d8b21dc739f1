-- ===== src/WrapperForParsing.antt =====
-- dhcp/src/WrapperForParsing.hpp and .cpp: a text read one character at a time. `_data` and `pos`
-- are kept as what is still unread, `_data[pos..]`.
use klevret_english_ver.Base.{ℕ, [], ◌∷◌, Bytes}

-- `EOT`
abbrev pub eot : ℕ
eot = 3

pub record WrapperForParsing : Type 0 where
  pub ch : ℕ
  pub rest : Bytes

abbrev read_from : Bytes → WrapperForParsing
read_from [] = record { ch = eot; rest = [] }
read_from (c ∷ cs) = record { ch = c; rest = cs }

abbrev pub get_next : WrapperForParsing → WrapperForParsing
get_next w = read_from w.rest

-- The constructor.
abbrev pub open_text : Bytes → WrapperForParsing
open_text str = read_from str
