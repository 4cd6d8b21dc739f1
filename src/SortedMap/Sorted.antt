-- ===== src/SortedMap/Sorted.antt =====
-- The entries stand in the order of their keys.
use klevret_english_ver.Base.{◌≡◌, true, [], ◌∷◌, arith}
use klevret_english_ver.SortedMap.{Order, Map, contains, assign, erase}

module _ {ℓ κ} {K : Type ℓ} {V : Type κ} ⦃o : Order K⦄ where
  -- Every key of the map is behind `k`.
  abbrev pub Above : K → Map K V → Type 0
  Above k [] = Unit
  Above k ((j, v) ∷ m) = (o.lt k j ≡ true) × Above k m

  abbrev pub IsSorted : Map K V → Type 0
  IsSorted [] = Unit
  IsSorted ((j, v) ∷ m) = Above j m × IsSorted m

  Above-trans : (k j : K) (m : Map K V) → o.lt k j ≡ true → Above j m → Above k m
  Above-trans k j [] h a = tt
  Above-trans k j ((i, v) ∷ m) h (lt, a) = (o.trans k j i h lt, Above-trans k j m h a)

  Above-assign :
      (i k : K) (v : V) (m : Map K V) → o.lt i k ≡ true → Above i m → Above i (assign k v m)
  unfolding assign
  Above-assign i k v [] h a = (h, tt)
  Above-assign i k v ((j, w) ∷ m) h (lt, a) = ground (arith, Above-assign i k v m h a)

  Above-erase : (i k : K) (m : Map K V) → Above i m → Above i (erase k m)
  unfolding erase
  Above-erase i k [] a = tt
  Above-erase i k ((j, w) ∷ m) (lt, a) = ground (arith, Above-erase i k m a)

  pub assign-IsSorted : (k : K) (v : V) (m : Map K V) → IsSorted m → IsSorted (assign k v m)
  unfolding assign
  assign-IsSorted k v [] s = (tt, tt)
  assign-IsSorted k v ((j, w) ∷ m) (a, s) =
      ground (arith, assign-IsSorted k v m s, Above-assign j k v m, Above-trans k j m)

  pub erase-IsSorted : (k : K) (m : Map K V) → IsSorted m → IsSorted (erase k m)
  unfolding erase
  erase-IsSorted k [] s = tt
  erase-IsSorted k ((j, w) ∷ m) (a, s) = ground (arith, erase-IsSorted k m s, Above-erase j k m a)

  pub lt_of_contains : (k i : K) (m : Map K V) → Above k m → contains i m ≡ true → o.lt k i ≡ true
  unfolding contains
  lt_of_contains k i [] a h = cc
  lt_of_contains k i ((j, v) ∷ m) (lt, a) h = ground (arith, lt_of_contains k i m a, o.split k i j)

-- An update with what a key was just given changes nothing.
pub assign-assign {ℓ κ} :
    {K : Type ℓ} {V : Type κ} ⦃o : Order K⦄ (k : K) (v : V) (m : Map K V)
    → assign k v (assign k v m) ≡ assign k v m
unfolding assign
assign-assign ⦃o⦄ k v [] = ground (arith, o.irrefl k)
assign-assign ⦃o⦄ k v ((j, w) ∷ m) = ground (arith, o.irrefl k, assign-assign k v m)
