-- ===== src/Cli/Words.antt =====
-- What cli/src/main.cpp relies on when it calls boost::algorithm::split at spaces, and the lines it
-- meets.
use klevret_english_ver.Base.{
  ℕ, ◌+◌, ◌/◌, ◌%◌, ◌<◌, ◌≡◌, ◌≢◌, refl, inl, inr, false, List, [], ◌∷◌, ◌++◌, Bytes, All,
  All-append, ◌==◌, arith,
}
use klevret_english_ver.IpAddress.{decimal, dotted}
use klevret_english_ver.IpAddress.Network.{IsQuad}
use klevret_english_ver.IpAddress.Text.{decimal_cases}

abbrev pub NoSpace : Bytes → Type 0
NoSpace = All (λ c. (c == b' ') ≡ false)

pub record IsWord (word : Bytes) : Type 0 where
  pub not_empty : word ≢ []
  pub no_space : NoSpace word

-- Words with a space between each two.
abbrev pub join : Bytes → List Bytes → Bytes
join first [] = first
join first (word ∷ words) = first ++ b' ' ∷ join word words

-- As documented: the words between the separators are the result, in order.
pub record Splits (split : Bytes → List Bytes) : Type 0 where
  pub splits :
      (first : Bytes) (words : List Bytes)
      → All IsWord (first ∷ words)
      → split (join first words) ≡ first ∷ words

-- What holds of the digits and of the dot holds of every character of an address.
module _ {κ} (P : ℕ → Type κ) (digits : (d : ℕ) → d < 10 → P (b'0' + d)) where
  All-decimal : (n : ℕ) → n < 256 → All P (decimal n)
  All-decimal n h = elim (decimal_cases n h) [
    | inl (e, lt) ↦ rw e (digits n lt, tt)
    | inr (inl (e, lo, hi)) ↦
        rw e (digits (n / 10) (omega arith), (digits (n % 10) (omega arith), tt))
    | inr (inr (e, lo)) ↦ rw e (
      digits (n / 10 / 10) (omega arith),
      (digits (n / 10 % 10) (omega arith), (digits (n % 10) (omega arith), tt)),
    )
  ]

  pub All-dotted : (octets : Bytes) → P b'.' → IsQuad octets → All P (dotted octets)
  unfolding dotted
  All-dotted (a ∷ b ∷ c ∷ d ∷ []) dot v =
      let part = λ (n : ℕ) (text : Bytes) (h : n < 256) (k : All P text).
        All-append P (decimal n) (b'.' ∷ text) (All-decimal n h) (dot, k) in
      part a _ v.bytes.0
        (part b _ v.bytes.1.0 (part c _ v.bytes.1.1.0 (All-decimal d v.bytes.1.1.1.0)))
  All-dotted _ dot v = absurd (omega (arith, v.four))

decimal_not_empty : (n : ℕ) (text : Bytes) → n < 256 → (decimal n ++ text) ≢ []
decimal_not_empty n text h = elim (decimal_cases n h) [
  | inl (e, lt) ↦ rw e (λ k. cc)
  | inr (inl (e, lo, hi)) ↦ rw e (λ k. cc)
  | inr (inr (e, lo)) ↦ rw e (λ k. cc)
]

dotted_not_empty : (octets : Bytes) → IsQuad octets → dotted octets ≢ []
unfolding dotted
dotted_not_empty (a ∷ b ∷ c ∷ d ∷ []) v = decimal_not_empty a _ v.bytes.0
dotted_not_empty _ v = absurd (omega (arith, v.four))

-- The text of an address is a word.
pub dotted-IsWord : (octets : Bytes) → IsQuad octets → IsWord (dotted octets)
dotted-IsWord octets v = record {
  not_empty = dotted_not_empty octets v;
  no_space = All-dotted (λ c. (c == b' ') ≡ false) (λ d h. ground arith) octets refl v;
}
