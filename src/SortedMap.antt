-- ===== src/SortedMap.antt =====
-- `std::map` and `std::set`, as the address pool uses them: entries in the order of the keys, found
-- by the comparator alone.
pub mod Laws
pub mod Sorted
use klevret_english_ver.Base.{
  ℕ, ◌≡◌, ◌⊎◌, Bool, true, false, not, ◌&&◌, List, [], ◌∷◌, Option, none, some, if◌then◌else◌,
}

-- What `std::map` asks of `operator<` on its keys: a strict weak order.
pub record Order {ℓ} (K : Type ℓ) : Type ℓ where
  pub lt : K → K → Bool
  pub irrefl : (a : K) → lt a a ≡ false
  pub trans : (a b c : K) → lt a b ≡ true → lt b c ≡ true → lt a c ≡ true
  pub split : (a b c : K) → lt a c ≡ true → (lt a b ≡ true) ⊎ (lt b c ≡ true)

-- Two keys that the comparator does not tell apart are one key.
abbrev pub same {ℓ} : {K : Type ℓ} ⦃o : Order K⦄ → K → K → Bool
same ⦃o⦄ a b = not (o.lt a b) && not (o.lt b a)

-- `std::map<K, V>`
abbrev pub Map {ℓ κ} : Type ℓ → Type κ → Type (ℓ ⊔ κ)
Map K V = List (K × V)

module _ {ℓ κ} {K : Type ℓ} {V : Type κ} ⦃o : Order K⦄ where
  -- `find`, and `at` or `operator[]` on a key that is present
  unfoldable pub lookup : K → Map K V → Option V
  lookup k [] = none
  lookup k ((j, v) ∷ m) = if same j k then some v else lookup k m

  unfoldable pub contains : K → Map K V → Bool
  contains k [] = false
  contains k ((j, v) ∷ m) = if same j k then true else contains k m

  -- `m[k] = v`: a key that is there is kept and gets the new value.
  unfoldable pub assign : K → V → Map K V → Map K V
  assign k v [] = (k, v) ∷ []
  assign k v ((j, w) ∷ m) =
      let later = (j, w) ∷ assign k v m in
      if o.lt j k then later else if o.lt k j then (k, v) ∷ (j, w) ∷ m else (j, v) ∷ m

  -- `erase(k)`: a map in order has at most one entry under `k`.
  unfoldable pub erase : K → Map K V → Map K V
  erase k [] = []
  erase k ((j, v) ∷ m) = if same j k then erase k m else (j, v) ∷ erase k m

-- `std::set<K>`
abbrev pub Set {ℓ} : Type ℓ → Type ℓ
Set K = Map K (Unit {0})

-- `insert(k)`: a key that is there stays.
abbrev pub insert {ℓ} : {K : Type ℓ} ⦃o : Order K⦄ → K → Set K → Set K
insert k s = assign k tt s
