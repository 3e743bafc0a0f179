-- ===== src/Effect.antt =====
-- Computations of the program over an unknown world: they may fail, and leave a world in any case.
-- `?` is the bind; `let _ = …` is `attempt`.
pub mod Laws
pub mod Keeps
pub mod Outcome
pub mod Gives
use schelk.Base.{Bool, true, false, Option, none, some, Result, ok, err}
use schelk.Error.{Error}

abbrev pub M : Type 0 → Type 0 → Type 0
M W A = W → Result Error A × W

abbrev pub passed : Bool → Error → Result Error (Unit {0})
passed true e = ok tt
passed false e = err e

abbrev pub given : {A : Type 0} → Option A → Error → Result Error A
given none e = err e
given (some a) e = ok a

module _ {W : Type 0} where
  abbrev pub pure : {A : Type 0} → A → M W A
  pure a w = (ok a, w)

  abbrev pub fail : {A : Type 0} → Error → M W A
  fail e w = (err e, w)

  abbrev pub continue : {A B : Type 0} → (A → M W B) → Result Error A × W → Result Error B × W
  continue f (ok a, w) = f a w
  continue f (err e, w) = (err e, w)

  infixl 5 ◌>>=◌ ◌>>◌
  abbrev pub ◌>>=◌ : {A B : Type 0} → M W A → (A → M W B) → M W B
  ◌>>=◌ c f w = continue f (c w)

  abbrev pub ◌>>◌ : {A B : Type 0} → M W A → M W B → M W B
  ◌>>◌ c d w = continue (λ _. d) (c w)

  -- A call of the machine that cannot fail.
  abbrev pub ask : {A : Type 0} → (W → A × W) → M W A
  ask c w = (ok (c w).0, (c w).1)

  -- A call of the machine whose failure is an error.
  abbrev pub check : (W → Bool × W) → Error → M W (Unit {0})
  check c e w = (passed (c w).0 e, (c w).1)

  abbrev pub need : {A : Type 0} → (W → Option A × W) → Error → M W A
  need c e w = (given (c w).0 e, (c w).1)

  -- An early return with an error, unless the condition holds.
  abbrev pub ensure : Bool → Error → M W (Unit {0})
  ensure b e w = (passed b e, w)

  -- let _ = …: the outcome is dropped.
  abbrev pub attempt : {A : Type 0} → M W A → M W (Unit {0})
  attempt c w = (ok tt, (c w).1)

  -- On an error, the cleanup runs and the error is returned.
  abbrev pub recovered : {A : Type 0} → M W (Unit {0}) → Result Error A × W → Result Error A × W
  recovered cleanup (ok a, w) = (ok a, w)
  recovered cleanup (err e, w) = (err e, (cleanup w).1)

  abbrev pub or_cleanup : {A : Type 0} → M W A → M W (Unit {0}) → M W A
  or_cleanup c cleanup w = recovered cleanup (c w)
