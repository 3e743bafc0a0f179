-- ===== src/Effect/Gives.antt =====
-- Computations that give a value, from every world.
use schelk.Base.{◌≡◌, refl, ap, ◌∙◌, Bool, true, Option, some, Result, ok, err}
use schelk.Error.{Error}
use schelk.Effect.{M, ◌>>=◌, ◌>>◌, ask, check, need, attempt, passed, given, continue}

module _ {W : Type 0} where
  -- A value of the computation in the world.
  abbrev pub Value : {A : Type 0} → M W A → W → Type 0
  Value {A} c w = (a : A) × ((c w).0 ≡ ok a)

  pub record Gives {A : Type 0} (c : M W A) : Type 0 where
    pub at : (w : W) → Value c w

  continue_lem :
      {A B : Type 0} (f : A → M W B) (x : Result Error A × W) (a : A)
      → x.0 ≡ ok a
      → (continue f x).0 ≡ (f a x.1).0
  continue_lem f (ok b, w) a e = let same : b ≡ a = cc in ap (λ b. (f b w).0) same
  continue_lem f (err e, w) a h = absurd (cc)

  -- After a value, what follows decides.
  pub bind_next :
      {A B : Type 0} (c : M W A) (f : A → M W B) (w : W) (a : A)
      → (c w).0 ≡ ok a
      → ((c >>= f) w).0 ≡ (f a (c w).1).0
  bind_next c f w a e = continue_lem f (c w) a e

  pub seq_next :
      {A B : Type 0} (c : M W A) (d : M W B) (w : W) → Value c w → ((c >> d) w).0 ≡ (d (c w).1).0
  seq_next c d w (a, e) = continue_lem (λ _. d) (c w) a e

  pub bind-Value :
      {A B : Type 0} (c : M W A) (f : A → M W B) (w : W) (a : A)
      → (c w).0 ≡ ok a
      → Value (f a) (c w).1
      → Value (c >>= f) w
  bind-Value c f w a e (b, h) = (b, continue_lem f (c w) a e ∙ h)

  pub seq-Value :
      {A B : Type 0} (c : M W A) (d : M W B) (w : W)
      → Value c w
      → Value d (c w).1
      → Value (c >> d) w
  seq-Value c d w (a, e) h = bind-Value c (λ _. d) w a e h

  pub bind-Gives :
      {A B : Type 0} (c : M W A) (f : A → M W B)
      → Gives c
      → ((a : A) → Gives (f a))
      → Gives (c >>= f)
  bind-Gives c f h k = record {
    at = λ w. let (a, e) = h.at w in bind-Value c f w a e ((k a).at (c w).1);
  }

  pub seq-Gives : {A B : Type 0} (c : M W A) (d : M W B) → Gives c → Gives d → Gives (c >> d)
  seq-Gives c d h k = record { at = λ w. seq-Value c d w (h.at w) (k.at (c w).1) }

  pub pure-Gives : {A : Type 0} (a : A) → Gives {A = A} (λ w. (ok a, w))
  pure-Gives a = record { at = λ w. (a, refl) }

  pub ask-Gives : {A : Type 0} (c : W → A × W) → Gives (ask c)
  ask-Gives c = record { at = λ w. ((c w).0, refl) }

  pub check-Gives : (c : W → Bool × W) (e : Error) → ((w : W) → (c w).0 ≡ true) → Gives (check c e)
  check-Gives c e h = record { at = λ w. (tt, ap (λ b. passed b e) (h w)) }

  pub need-Gives :
      {A : Type 0} (c : W → Option A × W) (e : Error)
      → ((w : W) → (a : A) × ((c w).0 ≡ some a))
      → Gives (need c e)
  need-Gives c e h = record { at = λ w. let (a, s) = h w in (a, ap (λ o. given o e) s) }

  pub attempt-Gives : {A : Type 0} (c : M W A) → Gives (attempt c)
  attempt-Gives c = record { at = λ w. (tt, refl) }

pub ruleset gives_rules =
    (bind-Gives, seq-Gives, pure-Gives, ask-Gives, check-Gives, need-Gives, attempt-Gives)
