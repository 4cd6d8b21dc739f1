-- ===== src/SortedMap/Laws.antt =====
-- What a lookup sees after an update.
use klevret_english_ver.Base.{
  ◌≡◌, refl, ◌||◌, true, false, [], ◌∷◌, none, some, arith, if◌then◌else◌,
}
use klevret_english_ver.SortedMap.{Order, same, Map, lookup, contains, assign, erase}

module _ {ℓ} {K : Type ℓ} ⦃o : Order K⦄ where
  pub same_refl : (a : K) → same a a ≡ true
  same_refl a = ground (arith, o.irrefl a)

  pub same_sym : (a b : K) → same a b ≡ same b a
  same_sym a b = ground arith

  pub same_trans : (a b c : K) → same a b ≡ true → same b c ≡ true → same a c ≡ true
  same_trans a b c h k = ground (arith, o.split a b c, o.split c b a)

  pub same_of_same : (a b c : K) → same a b ≡ true → same a c ≡ same b c
  same_of_same a b c h = ground (arith, o.split a b c, o.split c b a, o.split b a c, o.split c a b)

module _ {ℓ κ} {K : Type ℓ} {V : Type κ} ⦃o : Order K⦄ where
  -- After an assignment the key has the value, and every other key is as before.
  pub lookup-assign :
      (k i : K) (v : V) (m : Map K V)
      → lookup i (assign k v m) ≡ (if same k i then some v else lookup i m)
  unfolding lookup assign
  lookup-assign k i v [] = refl
  lookup-assign k i v ((j, w) ∷ m) =
      ground (arith, lookup-assign k i v m, same_of_same j k i, o.split j i k, o.split k i j)

  -- After an erasure the key is not found, and every other key is as before.
  pub lookup-erase :
      (k i : K) (m : Map K V) → lookup i (erase k m) ≡ (if same k i then none else lookup i m)
  unfolding lookup erase
  lookup-erase k i [] = ground arith
  lookup-erase k i ((j, w) ∷ m) =
      ground (arith, lookup-erase k i m, same_of_same j k i, o.split k i j, o.split j i k)

  pub lookup-same : (i j : K) (m : Map K V) → same i j ≡ true → lookup i m ≡ lookup j m
  unfolding lookup
  lookup-same i j [] h = refl
  lookup-same i j ((k, w) ∷ m) h =
      ground (arith, lookup-same i j m h, same_sym k i, same_sym k j, same_of_same i j k h)

  pub contains-lookup :
      (k : K) (m : Map K V) → contains k m ≡ elim (lookup k m) [ none ↦ false | some _ ↦ true ]
  unfolding lookup contains
  contains-lookup k [] = refl
  contains-lookup k ((j, w) ∷ m) = ground (arith, contains-lookup k m)

  pub contains-assign :
      (k i : K) (v : V) (m : Map K V) → contains i (assign k v m) ≡ (same k i || contains i m)
  contains-assign k i v m =
      ground (arith, contains-lookup i (assign k v m), contains-lookup i m, lookup-assign k i v m)

  pub contains-same : (i j : K) (m : Map K V) → same i j ≡ true → contains i m ≡ contains j m
  contains-same i j m h =
      ground (arith, contains-lookup i m, contains-lookup j m, lookup-same i j m h)
