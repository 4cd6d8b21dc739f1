-- ===== src/IpAddress/Order.antt =====
-- How addresses compare.
use klevret_english_ver.Base.{◌≡◌, refl, sym, ap, ◌∙◌, ◌↔◌, ◌⊎◌, true, false, [], ◌∷◌, Bytes, arith}
use klevret_english_ver.Endian.{Endianness}
use klevret_english_ver.SortedMap.{Order}
use klevret_english_ver.IpAddress.{
  IPv4Address, of_uint32, to_uint32, array_eq, address_eq, address_lt,
}
use klevret_english_ver.IpAddress.Network.{IsAddress, of_uint32-to_uint32}

module _ (e : Endianness) where
  pub lt_irrefl : (a : IPv4Address) → address_lt e a a ≡ false
  unfolding address_lt
  lt_irrefl a = ground arith

  pub lt_trans :
      (a b c : IPv4Address)
      → address_lt e a b ≡ true
      → address_lt e b c ≡ true
      → address_lt e a c ≡ true
  unfolding address_lt
  lt_trans a b c h k = ground arith

  pub lt_split :
      (a b c : IPv4Address)
      → address_lt e a c ≡ true
      → (address_lt e a b ≡ true) ⊎ (address_lt e b c ≡ true)
  unfolding address_lt
  lt_split a b c h = ground arith

  -- `operator<` is what `std::map` asks for.
  unfoldable pub address_order : Order IPv4Address
  address_order = record {
    lt = address_lt e;
    irrefl = lt_irrefl;
    trans = lt_trans;
    split = lt_split;
  }

pub array_eq→eq : (a b : Bytes) → array_eq a b ≡ true → a ≡ b
unfolding array_eq
array_eq→eq [] [] h = refl
array_eq→eq [] (y ∷ b) h = cc
array_eq→eq (x ∷ a) [] h = cc
array_eq→eq (x ∷ a) (y ∷ b) h = ground (arith, array_eq→eq a b)

pub array_eq_refl : (a : Bytes) → array_eq a a ≡ true
unfolding array_eq
array_eq_refl [] = refl
array_eq_refl (x ∷ a) = ground (arith, array_eq_refl a)

-- `operator==` decides equality.
pub address_eq_iff : (a b : IPv4Address) → (address_eq a b ≡ true) ↔ (a ≡ b)
unfolding address_eq
address_eq_iff a b = (
  λ h. ap (λ (o : Bytes). record { octets = o }) (array_eq→eq a.octets b.octets h),
  λ p. rw p (array_eq_refl b.octets),
)

-- Two addresses of which neither is below the other are equal.
pub same_address :
    (e : Endianness) (a b : IPv4Address)
    → IsAddress a
    → IsAddress b
    → address_lt e a b ≡ false
    → address_lt e b a ≡ false
    → a ≡ b
unfolding address_lt
same_address e a b va vb h k =
    let eq : to_uint32 e a ≡ to_uint32 e b = ground arith in
    sym (of_uint32-to_uint32 e a va) ∙ (ap (of_uint32 e) eq ∙ of_uint32-to_uint32 e b vb)
