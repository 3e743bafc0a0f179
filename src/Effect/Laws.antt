-- ===== src/Effect/Laws.antt =====
-- What a computation that succeeds has done: its parts have succeeded one after the other.
use schelk.Base.{◌≡◌, refl, Bool, true, false, Option, none, some, Result, ok, err}
use schelk.Error.{Error}
use schelk.Effect.{M, ◌>>=◌, ◌>>◌, continue, passed, given}

module _ {W : Type 0} where
  -- The first part gave a value, with which the second ran in the world the first left.
  abbrev pub Then : {A B : Type 0} → M W A → (A → M W B) → W → B → Type 0
  Then {A = A} {B = B} c f w b =
      (a : A) × ((c w).0 ≡ ok a) × ((f a (c w).1).0 ≡ ok b) × (((c >>= f) w).1 ≡ (f a (c w).1).1)

  continue-Then :
      {A B : Type 0} (f : A → M W B) (x : Result Error A × W) (b : B)
      → (continue f x).0 ≡ ok b
      → (a : A) × (x.0 ≡ ok a) × ((f a x.1).0 ≡ ok b) × ((continue f x).1 ≡ (f a x.1).1)
  continue-Then f (ok a, w) b e = (a, refl, e, refl)
  continue-Then f (err x, w) b e = absurd (cc)

  pub bind_ok :
      {A B : Type 0} (c : M W A) (f : A → M W B) (w : W) (b : B)
      → ((c >>= f) w).0 ≡ ok b
      → Then c f w b
  bind_ok c f w b e = continue-Then f (c w) b e

  pub seq_ok :
      {A B : Type 0} (c : M W A) (d : M W B) (w : W) (b : B)
      → ((c >> d) w).0 ≡ ok b
      → Then c (λ _. d) w b
  seq_ok c d w b e = continue-Then (λ _. d) (c w) b e

pub passed_ok : (b : Bool) (e : Error) → passed b e ≡ ok tt → b ≡ true
passed_ok true e h = refl
passed_ok false e h = absurd (cc)

pub given_ok : {A : Type 0} (o : Option A) (e : Error) (a : A) → given o e ≡ ok a → o ≡ some a
given_ok none e a h = absurd (cc)
given_ok (some b) e a h = cc
