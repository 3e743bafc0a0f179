-- ===== src/Session/Outcomes.antt =====
-- src/main.rs: the stored state before and after the parts of a command.
use schelk.Base.{ℕ, ◌≡◌, refl, sym, ap, subst, List, Option, inl, inr, ◌⊎◌, ◌∙◌, ok, err, Result}
use schelk.Error.{Error}
use schelk.Machine.{Machine, AppState}
use schelk.Effect.{M, ◌>>◌, continue}
use schelk.Effect.Keeps.{Keeps}
use schelk.Cli.{Command}
use schelk.Session.Stored.{StateFile, parsed, stored}
use schelk.Session.Spec.{Does}
use schelk.Session.Runs.{Performs}

module _ (m : Machine) (f : StateFile m) where
  open m use {World}

  pub Performs-ok :
      (command : Command) (c : M World (Unit {0})) (w : World)
      → ((old : Option (List ℕ)) → Performs m f command old c)
      → (c w).0 ≡ ok tt
      → Does command (stored m f w) (stored m f (c w).1)
  Performs-ok command c w h e = elim ((h (f.file w)).at w refl) [
    | inl (kept, (error, fails)) ↦ absurd (cc)
    | inr does ↦ does
  ]

  -- The file is left, or the step is done.
  pub Performs-cases :
      (command : Command) (c : M World (Unit {0})) (w : World)
      → ((old : Option (List ℕ)) → Performs m f command old c)
      → (stored m f (c w).1 ≡ stored m f w) ⊎ Does command (stored m f w) (stored m f (c w).1)
  Performs-cases command c w h = elim ((h (f.file w)).at w refl) [
    | inl (kept, fails) ↦ inl (ap (parsed m f) kept)
    | inr does ↦ inr does
  ]

  pub Keeps-stored :
      {A : Type 0} (c : M World A) (w : World) → Keeps f.file c → stored m f (c w).1 ≡ stored m f w
  Keeps-stored c w h = ap (parsed m f) (h.at w)

  -- A second step after one that is done, if it comes to that.
  pub continue-Does :
      (first last both : Command) (d : M World (Unit {0})) (x : Result Error (Unit {0}) × World)
      (old : Option AppState)
      → ((mid new : Option AppState) → Does first old mid → Does last mid new → Does both old new)
      → ((file : Option (List ℕ)) → Performs m f last file d)
      → Does first old (stored m f x.1)
      → let new = stored m f (continue (λ _. d) x).1 in Does first old new ⊎ Does both old new
  continue-Does first last both d (err e, w) old compose h did = inl did
  continue-Does first last both d (ok u, w) old compose h did = elim (Performs-cases last d w h) [
    | inl kept ↦ inl (subst (Does first old) (sym kept) did)
    | inr does ↦ inr (compose (stored m f w) (stored m f (d w).1) did does)
  ]

  -- What follows a computation that keeps the file starts from the same state, if it comes to that.
  continue_kept :
      {A : Type 0} (P : Option AppState → Type 0) (d : M World (Unit {0}))
      (x : Result Error A × World) (old : Option AppState)
      → stored m f x.1 ≡ old
      → P old
      → ((w : World) → stored m f w ≡ old → P (stored m f (d w).1))
      → P (stored m f (continue (λ _. d) x).1)
  continue_kept P d (ok a, w) old same p h = h w same
  continue_kept P d (err e, w) old same p h = subst P (sym same) p

  pub seq_kept :
      {A : Type 0} (P : Option AppState → Type 0) (c : M World A) (d : M World (Unit {0}))
      (w : World) (old : Option AppState)
      → Keeps f.file c
      → stored m f w ≡ old
      → P old
      → ((v : World) → stored m f v ≡ old → P (stored m f (d v).1))
      → P (stored m f ((c >> d) w).1)
  seq_kept P c d w old kept same p h =
      continue_kept P d (c w) old (Keeps-stored c w kept ∙ same) p h
