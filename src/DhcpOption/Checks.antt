-- ===== src/DhcpOption/Checks.antt =====
-- The table is consistent, and the constraints admit what they say.
use klevret_english_ver.Base.{
  ℕ, ◌<◌, ◌≡◌, refl, ◌⊎◌, inl, inr, Bool, true, ◌&&◌, ◌||◌, List, [], ◌∷◌, ◌==◌, ltb, ok, arith,
  Bool-cases,
}
use klevret_english_ver.Base.Int.{eq_ℤ}
use klevret_english_ver.DhcpOption.Description.{
  DhcpOptionDescription, variable_dhcp_option_length, get_one_element_payload_length_in_bytes,
  is_allowed,
}
use klevret_english_ver.DhcpOption.Table.{options_descriptions, find_in, description_at}

-- An entry is filed under its own code, which is a byte. Its length is variable, or it is that of
-- one element.
abbrev pub entry_ok : ℕ → DhcpOptionDescription → Bool
entry_ok key d =
    (d.code == key)
    && (ltb key 256
        && (eq_ℤ d.payload_length variable_dhcp_option_length
            || eq_ℤ d.payload_length
                (get_one_element_payload_length_in_bytes d.payload_description.type)))

table_ok : List (ℕ × DhcpOptionDescription) → Bool
table_ok [] = true
table_ok ((key, d) ∷ rest) = entry_ok key d && table_ok rest

find_in_ok :
    (table : List (ℕ × DhcpOptionDescription)) (code : ℕ) {d : DhcpOptionDescription}
    → table_ok table ≡ true
    → find_in table code ≡ ok d
    → entry_ok code d ≡ true
unfolding table_ok find_in
find_in_ok [] code h f = cc
find_in_ok ((key, d') ∷ rest) code {d} h f = elim (Bool-cases (key == code)) [
  | inl t ↦
      let e : d ≡ d' = ground arith in
      let k : key ≡ code = ground arith in
      let here : entry_ok key d' ≡ true = ground arith in rw (e, ← k) here
  | inr t ↦ find_in_ok rest code (ground arith) (rw t at f)
]

options_descriptions_ok : table_ok options_descriptions ≡ true
unfolding table_ok options_descriptions
options_descriptions_ok = refl

-- Every description that the table gives is filed under its own code.
pub description_at_ok :
    (code : ℕ) {d : DhcpOptionDescription} → description_at code ≡ ok d → entry_ok code d ≡ true
unfolding description_at
description_at_ok code h = find_in_ok options_descriptions code options_descriptions_ok h

pub description_at-code :
    (code : ℕ) {d : DhcpOptionDescription}
    → description_at code ≡ ok d
    → (d.code ≡ code) × (code < 256)
description_at-code code {d} h = ground (arith, description_at_ok code h)

-- The value is in the list of the enumeration.
abbrev pub IsMember : ℕ → List ℕ → Type 0
IsMember x [] = ⊥
IsMember x (y ∷ ys) = (y ≡ x) ⊎ IsMember x ys

pub is_allowed-IsMember : (ys : List ℕ) (x : ℕ) → is_allowed ys x ≡ true → IsMember x ys
unfolding is_allowed
is_allowed-IsMember [] x h = cc
is_allowed-IsMember (y ∷ ys) x h = elim (Bool-cases (y == x)) [
  | inl t ↦ inl (ground arith)
  | inr t ↦ inr (is_allowed-IsMember ys x (ground arith))
]
