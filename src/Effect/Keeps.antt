-- ===== src/Effect/Keeps.antt =====
-- Computations that leave a part of the world as it is, on every outcome.
use schelk.Base.{◌≡◌, refl, ◌∙◌, Bool, true, false, Option, Result, ok, err, if◌then◌else◌}
use schelk.Error.{Error}
use schelk.Effect.{M, ◌>>=◌, ◌>>◌, ask, check, need, attempt, or_cleanup, recovered, continue}

module _ {W X : Type 0} where
  -- A call of the machine that leaves the part.
  pub record CallKeeps {A : Type 0} (view : W → X) (c : W → A × W) : Type 0 where
    pub at : (w : W) → view (c w).1 ≡ view w

  pub record Keeps {A : Type 0} (view : W → X) (c : M W A) : Type 0 where
    pub at : (w : W) → view (c w).1 ≡ view w

module _ {W X : Type 0} {view : W → X} where
  continue-at :
      {A B : Type 0} (f : A → M W B) (x : Result Error A × W)
      → ((a : A) → Keeps view (f a))
      → view (continue f x).1 ≡ view x.1
  continue-at f (ok a, w) k = (k a).at w
  continue-at f (err e, w) k = refl

  recovered-at :
      {A : Type 0} (cleanup : M W (Unit {0})) (x : Result Error A × W)
      → Keeps view cleanup
      → view (recovered cleanup x).1 ≡ view x.1
  recovered-at cleanup (ok a, w) k = refl
  recovered-at cleanup (err e, w) k = k.at w

  pub bind-Keeps :
      {A B : Type 0} (c : M W A) (f : A → M W B)
      → Keeps view c
      → ((a : A) → Keeps view (f a))
      → Keeps view (c >>= f)
  bind-Keeps c f h k = record { at = λ w. continue-at f (c w) k ∙ h.at w }

  pub seq-Keeps :
      {A B : Type 0} (c : M W A) (d : M W B) → Keeps view c → Keeps view d → Keeps view (c >> d)
  seq-Keeps c d h k = record { at = λ w. continue-at (λ _. d) (c w) (λ _. k) ∙ h.at w }

  pub or_cleanup-Keeps :
      {A : Type 0} (c : M W A) (cleanup : M W (Unit {0}))
      → Keeps view c
      → Keeps view cleanup
      → Keeps view (or_cleanup c cleanup)
  or_cleanup-Keeps c cleanup h k = record { at = λ w. recovered-at cleanup (c w) k ∙ h.at w }

  -- What does not look at the world.
  pub result-Keeps : {A : Type 0} (r : Result Error A) → Keeps view (λ w. (r, w))
  result-Keeps r = record { at = λ w. refl }

  pub ask-Keeps : {A : Type 0} (c : W → A × W) → CallKeeps view c → Keeps view (ask c)
  ask-Keeps c h = record { at = h.at }

  pub check-Keeps : (c : W → Bool × W) (e : Error) → CallKeeps view c → Keeps view (check c e)
  check-Keeps c e h = record { at = h.at }

  pub need-Keeps :
      {A : Type 0} (c : W → Option A × W) (e : Error) → CallKeeps view c → Keeps view (need c e)
  need-Keeps c e h = record { at = h.at }

  pub attempt-Keeps : {A : Type 0} (c : M W A) → Keeps view c → Keeps view (attempt c)
  attempt-Keeps c h = record { at = h.at }

  pub if-Keeps :
      {A : Type 0} (b : Bool) (c d : M W A)
      → Keeps view c
      → Keeps view d
      → Keeps view (if b then c else d)
  if-Keeps true c d h k = h
  if-Keeps false c d h k = k

pub ruleset keeps_rules = (
  bind-Keeps, seq-Keeps, or_cleanup-Keeps, result-Keeps, ask-Keeps, check-Keeps, need-Keeps,
  attempt-Keeps, if-Keeps,
)
