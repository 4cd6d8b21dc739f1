-- ===== src/Base/Results.antt =====
-- How a call ends: with a value, an exception, or undefined behaviour.
use mathlib.Core.Path.{◌≡◌, refl}
use mathlib.Core.Logic.{◌⊎◌, ◌≢◌, inl, inr}
use native.Mathlib.Omega.{arith}
use mathlib.Core.Bool.{Bool, true, false}

-- The exceptions by their cause; `undefined` is undefined behaviour, such as a read through an
-- iterator past the end; `out_of_fuel` is a loop of the model that ran out of rounds.
pub data Error : Type 0 where
  size_mismatch : Error
  not_enough_octets : Error
  octet_too_large : Error
  dot_expected : Error
  unknown_symbol : Error
  bad_mask_octet : Error
  mask_not_contiguous : Error
  bad_prefix : Error
  mac_incomplete : Error
  not_included : Error
  already_reserved : Error
  already_taken : Error
  not_reserved : Error
  no_free_address : Error
  type_mismatch : Error
  length_mismatch : Error
  empty_value : Error
  constraint_violated : Error
  too_short : Error
  not_in_list : Error
  message_too_short : Error
  unsupported_hardware : Error
  bad_cookie : Error
  out_of_range : Error
  bad_variant : Error
  digit_expected : Error
  element_expected : Error
  unknown_element : Error
  bracket_expected : Error
  wrong_arguments : Error
  queue_not_empty : Error
  no_socket : Error
  option_refused : Error
  bad_address : Error
  bind_failed : Error
  listen_failed : Error
  connect_failed : Error
  ioctl_failed : Error
  send_failed : Error
  no_interfaces : Error
  undefined : Error
  out_of_fuel : Error

pub data Result {ℓ} (A : Type ℓ) : Type ℓ where
  ok : A → Result A
  err : Error → Result A

-- The rest of a body runs only behind a call that has not thrown.
infixl 5 ◌>>=◌
abbrev pub ◌>>=◌ {μ ν} : {X : Type μ} {Y : Type ν} → Result X → (X → Result Y) → Result Y
err cause >>= rest = err cause
ok value >>= rest = rest value

infixl 5 ◌>>◌
abbrev pub ◌>>◌ {ν} : {Y : Type ν} → Result (Unit {0}) → Result Y → Result Y
call >> rest = call >>= (λ u. rest)

-- `if (test) throw e;`
abbrev pub throw_if : Bool → Error → Result (Unit {0})
throw_if true e = err e
throw_if false e = ok tt

module _ {μ ν} {X : Type μ} {Y : Type ν} where
  -- A body that returns has had a value from its first call.
  pub >>=-eq-ok :
      (call : Result X) (rest : X → Result Y) {y : Y}
      → (call >>= rest) ≡ ok y
      → (x : X) × (call ≡ ok x) × (rest x ≡ ok y)
  >>=-eq-ok (err cause) rest returns = cc
  >>=-eq-ok (ok x) rest returns = (x, refl, returns)

  pub >>=_assoc {κ} :
      {Z : Type κ} (call : Result X) (rest : X → Result Y) (last : Y → Result Z)
      → ((call >>= rest) >>= last) ≡ (call >>= λ x. rest x >>= last)
  >>=_assoc (err cause) rest last = refl
  >>=_assoc (ok x) rest last = refl

pub Result-cases {ℓ} :
    {A : Type ℓ} (r : Result A) → ((cause : Error) × (r ≡ err cause)) ⊎ ((x : A) × (r ≡ ok x))
Result-cases (err cause) = inl (cause, refl)
Result-cases (ok x) = inr (x, refl)

pub ok_injective {ℓ} : {A : Type ℓ} {a b : A} → ok a ≡ ok b → a ≡ b
ok_injective h = cc

-- The call does not end for want of rounds.
abbrev pub Settles {ℓ} : {A : Type ℓ} → Result A → Type ℓ
Settles r = r ≢ err out_of_fuel

pub >>=-Settles {ℓ κ} :
    {A : Type ℓ} {B : Type κ} (m : Result A) (f : A → Result B)
    → Settles m
    → ((a : A) → m ≡ ok a → Settles (f a))
    → Settles (m >>= f)
>>=-Settles (ok a) f h k = k a refl
>>=-Settles (err e) f h k = λ q. h (ground arith)

-- When two calls in turn end for want of rounds, and the first does not, the second does.
pub bind_out {ℓ κ} :
    {A : Type ℓ} {B : Type κ} (m : Result A) (f : A → Result B)
    → (m >>= f) ≡ err out_of_fuel
    → Settles m
    → (a : A) × (m ≡ ok a) × (f a ≡ err out_of_fuel)
bind_out (ok a) f h k = (a, refl, h)
bind_out (err e) f h k = absurd (k (ground arith))

pub ok-Settles {ℓ} : {A : Type ℓ} (a : A) → Settles (ok a)
ok-Settles a = λ h. cc

pub throw_out {ℓ} :
    {B : Type ℓ} (test : Bool) (x : Error) (k : Result B)
    → x ≢ out_of_fuel
    → (throw_if test x >> k) ≡ err out_of_fuel
    → k ≡ err out_of_fuel
throw_out true x k ne h = absurd (ne (ground arith))
throw_out false x k ne h = h
