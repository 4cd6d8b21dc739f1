-- ===== src/Sockets/Leaving.antt =====
-- Bodies of calls of the system that leave the descriptors alike, however they end.
use klevret_english_ver.Base.{
  ◌≡◌, sym, Bool, true, false, Option, none, some, Result, ok, err, Error, bad_address,
}
use mathlib.Core.Path.{subst}
use klevret_english_ver.Sockets.{
  or_throw, unless_throw, pton_or_throw, PtonStatus, pton_converted, pton_not_an_address,
  pton_failed,
}
use klevret_english_ver.Sockets.Descriptors.{Fds, Ends}

module _ {W : Type 0} (fds : W → Fds) where
  -- However the body ends, the descriptors are as `P` says.
  abbrev pub Leaves : {A : Type 0} → (Fds → Type 0) → Result A × W → Type 0
  Leaves P = Ends fds (λ a. P) (λ cause. P)

  -- A test behind a call: what holds of the descriptors where it throws.
  module _ (Throws : Error → Fds → Type 0) (during : Fds) where
    pub or_throw-Ends :
        {A : Type 0} (cause : Error) (found : Option A) (w : W)
        → Throws cause during
        → fds w ≡ during
        → Ends fds (λ a after. after ≡ during) Throws (or_throw cause found w)
    or_throw-Ends cause none w throws same = subst (Throws cause) (sym same) throws
    or_throw-Ends cause (some a) w throws same = same

    pub unless_throw-Ends :
        (cause : Error) (passes : Bool) (w : W)
        → Throws cause during
        → fds w ≡ during
        → Ends fds (λ a after. after ≡ during) Throws (unless_throw cause passes w)
    unless_throw-Ends cause false w throws same = subst (Throws cause) (sym same) throws
    unless_throw-Ends cause true w throws same = same

    pub pton-Ends :
        (status : PtonStatus) (w : W)
        → Throws bad_address during
        → fds w ≡ during
        → Ends fds (λ a after. after ≡ during) Throws (pton_or_throw status w)
    pton-Ends pton_converted w throws same = same
    pton-Ends pton_not_an_address w throws same = same
    pton-Ends pton_failed w throws same = subst (Throws bad_address) (sym same) throws

  pub either-Leaves :
      {A : Type 0} (P : Fds → Type 0) (ended : Result A) (w : W) → P (fds w) → Leaves P (ended, w)
  either-Leaves P (ok a) w p = p
  either-Leaves P (err cause) w p = p

  pub Leaves-world :
      {A : Type 0} (P : Fds → Type 0) (ends : Result A × W) → Leaves P ends → P (fds ends.1)
  Leaves-world P (ok a, w) p = p
  Leaves-world P (err cause, w) p = p
