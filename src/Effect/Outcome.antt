-- ===== src/Effect/Outcome.antt =====
-- Computations that fail and leave a part of the world as it was, or bring it where a condition holds.
use schelk.Base.{◌≡◌, refl, ◌∙◌, ◌⊎◌, inl, Bool, true, false, Result, ok, err, Option, none, some}
use schelk.Error.{Error}
use schelk.Effect.{M, ◌>>=◌, ◌>>◌, continue, ensure, given}
use schelk.Effect.Keeps.{Keeps}

-- No value was returned.
abbrev pub Fails : {A : Type 0} → Result Error A → Type 0
Fails r = (e : Error) × (r ≡ err e)

module _ {W X : Type 0} where
  abbrev pub Outcome : {A : Type 0} → (W → X) → X → (X → Type 0) → Result Error A × W → Type 0
  Outcome view old Q x = ((view x.1 ≡ old) × Fails x.0) ⊎ Q (view x.1)

  -- So it is from any world in which the part is the old one.
  pub record Leads {A : Type 0} (view : W → X) (old : X) (Q : X → Type 0) (c : M W A) : Type 0 where
    pub at : (w : W) → view w ≡ old → Outcome view old Q (c w)

module _ {W X : Type 0} (view : W → X) (old : X) (Q : X → Type 0) where
  pub continue-Outcome :
      {A B : Type 0} (f : A → M W B) (x : Result Error A × W)
      → view x.1 ≡ old
      → ((a : A) → x.0 ≡ ok a → Outcome view old Q (f a x.1))
      → Outcome view old Q (continue f x)
  continue-Outcome f (ok a, w) same k = k a refl
  continue-Outcome f (err e, w) same k = inl (same, (e, refl))

module _ {W X : Type 0} {view : W → X} {old : X} {Q : X → Type 0} where
  pub bind-Leads :
      {A B : Type 0} (c : M W A) (f : A → M W B)
      → Keeps view c
      → ((a : A) → Leads view old Q (f a))
      → Leads view old Q (c >>= f)
  bind-Leads c f h k = record {
    at = λ w same.
        let now = h.at w ∙ same in
        continue-Outcome view old Q f (c w) now (λ a e. (k a).at (c w).1 now);
  }

  pub seq-Leads :
      {A B : Type 0} (c : M W A) (d : M W B)
      → Keeps view c
      → Leads view old Q d
      → Leads view old Q (c >> d)
  seq-Leads c d h k = bind-Leads c (λ _. d) h (λ _. k)

  -- What follows a success may use what that shows.
  pub after-Leads :
      {A B : Type 0} (c : M W A) (f : A → M W B)
      → Keeps view c
      → ((a : A) (w : W) → view w ≡ old → (c w).0 ≡ ok a → Leads view old Q (f a))
      → Leads view old Q (c >>= f)
  after-Leads c f h k = record {
    at = λ w same.
        let now = h.at w ∙ same in
        continue-Outcome view old Q f (c w) now (λ a e. (k a w same e).at (c w).1 now);
  }

  pub ensure-Leads :
      {B : Type 0} (b : Bool) (e : Error) (d : M W B)
      → (b ≡ true → Leads view old Q d)
      → Leads view old Q (ensure b e >> d)
  ensure-Leads true e d k = k refl
  ensure-Leads false e d k = record { at = λ w same. inl (same, (e, refl)) }

  pub given-Leads :
      {A B : Type 0} (o : Option A) (e : Error) (f : A → M W B)
      → ((a : A) → o ≡ some a → Leads view old Q (f a))
      → Leads view old Q ((λ w. (given o e, w)) >>= f)
  given-Leads none e f k = record { at = λ w same. inl (same, (e, refl)) }
  given-Leads (some a) e f k = k a refl

pub ruleset leads_rules = (bind-Leads, seq-Leads)
