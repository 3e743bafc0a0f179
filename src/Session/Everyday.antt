-- ===== src/Session/Everyday.antt =====
-- The everyday commands, and the devices for which a state is stored.
use schelk.Base.{
  ℕ, ◌≡◌, refl, sym, ap, ◌∙◌, subst, Bool, List, Option, some, inl, inr, ok, err, Result,
}
use schelk.Error.{Error}
use schelk.Machine.{Machine, AppState}
use schelk.Effect.{M, ◌>>◌, continue, pure, ◌>>=◌}
use schelk.Effect.Keeps.{Keeps, bind-Keeps, result-Keeps}
use schelk.Env.{require_root}
use schelk.State.{lock}
use schelk.Commands.Mount
use schelk.Commands.Recover
use schelk.Commands.Restore
use schelk.Commands.Status
use schelk.Cli.{
  Command, init_new, init_from, full_recover, mount, recover, restore, promote, status, run_command,
}
use schelk.Session.Apart.{require_root-Keeps, lock-Keeps}
use schelk.Session.Apart.Steps.{status-Keeps}
use schelk.Session.Stored.{StateFile, parsed, stored}
use schelk.Session.Spec.{Does, mounted, recovered, recovered_same, rehashed}
use schelk.Session.Runs.{Performs, mount_locked-Performs, recover_locked-Performs}
use schelk.Session.Setup.{full_recover-Performs}
use schelk.Session.Main.{mount-Performs, recover-Performs}

-- The commands but `init-new`, `init-from` and `promote`.
abbrev pub IsEveryday : Command → Type 0
IsEveryday (init_new args) = ⊥
IsEveryday (init_from args fstype no_copy) = ⊥
IsEveryday full_recover = Unit
IsEveryday mount = Unit
IsEveryday (recover kill) = Unit
IsEveryday (restore kill) = Unit
IsEveryday (promote kill) = ⊥
IsEveryday status = Unit

-- The state is for the same volumes and the same RAM disk.
pub record SameDevices (s t : AppState) : Type 0 where
  pub virgin : t.virgin ≡ s.virgin
  pub scratch : t.scratch ≡ s.scratch
  pub ramdisk : t.ramdisk ≡ s.ramdisk

module _ (s : AppState) where
  -- A state is stored that is for the same devices.
  abbrev pub Serves : Option AppState → Type 0
  Serves o = (t : AppState) × (o ≡ some t) × SameDevices s t

  recovered-SameDevices : (t : AppState) → SameDevices s t → SameDevices s (recovered t)
  recovered-SameDevices t d = record {
    virgin = recovered_same (λ state. state.virgin) t refl ∙ d.virgin;
    scratch = recovered_same (λ state. state.scratch) t refl ∙ d.scratch;
    ramdisk = recovered_same (λ state. state.ramdisk) t refl ∙ d.ramdisk;
  }

  found : (o : Option AppState) (t : AppState) → o ≡ some t → Serves o → SameDevices s t
  found o t e (u, there, d) = let same : u ≡ t = cc in subst (SameDevices s) same d

  pub Does-Serves :
      (command : Command) (old new : Option AppState)
      → IsEveryday command
      → Does command old new
      → Serves old
      → Serves new
  Does-Serves full_recover old new every (t, hash, was, now) h =
      let d = recovered-SameDevices t (found old t was h) in
      (
        rehashed hash (recovered t),
        now,
        record { virgin = d.virgin; scratch = d.scratch; ramdisk = d.ramdisk },
      )
  Does-Serves mount old new every (t, was, off, now) h =
      let d = found old t was h in
      (mounted t, now, record { virgin = d.virgin; scratch = d.scratch; ramdisk = d.ramdisk })
  Does-Serves (recover kill) old new every (t, was, now) h =
      (recovered t, now, recovered-SameDevices t (found old t was h))
  Does-Serves (restore kill) old new every (t, was, now) h =
      let d = recovered-SameDevices t (found old t was h) in
      (
        mounted (recovered t),
        now,
        record { virgin = d.virgin; scratch = d.scratch; ramdisk = d.ramdisk },
      )
  Does-Serves status old new every now h = subst Serves (sym now) h
  Does-Serves (init_new args) old new every does h = absurd every
  Does-Serves (init_from args fstype no_copy) old new every does h = absurd every
  Does-Serves (promote kill) old new every does h = absurd every

module _ (m : Machine) (f : StateFile m) (s : AppState) where
  -- On every outcome, a state for the same devices is stored.
  record KeepsServing {A : Type 0} (c : M m.World A) : Type 0 where
    at : (w : m.World) → Serves s (stored m f w) → Serves s (stored m f (c w).1)

  Keeps-KeepsServing : {A : Type 0} (c : M m.World A) → Keeps f.file c → KeepsServing c
  Keeps-KeepsServing c h = record {
    at = λ w k. subst (Serves s) (sym (ap (parsed m f) (h.at w))) k;
  }

  Performs-KeepsServing :
      (command : Command) (c : M m.World (Unit {0}))
      → IsEveryday command
      → ((old : Option (List ℕ)) → Performs m f command old c)
      → KeepsServing c
  Performs-KeepsServing command c every h = record {
    at = λ w k. elim ((h (f.file w)).at w refl) [
      | inl (kept, fails) ↦ subst (Serves s) (sym (ap (parsed m f) kept)) k
      | inr does ↦ Does-Serves s command (stored m f w) (stored m f (c w).1) every does k
    ];
  }

  continue-Serves :
      {A B : Type 0} (d : M m.World B) (x : Result Error A × m.World)
      → KeepsServing d
      → Serves s (stored m f x.1)
      → Serves s (stored m f (continue (λ _. d) x).1)
  continue-Serves d (ok a, w) h k = h.at w k
  continue-Serves d (err e, w) h k = k

  seq-KeepsServing :
      {A B : Type 0} (c : M m.World A) (d : M m.World B)
      → KeepsServing c
      → KeepsServing d
      → KeepsServing (c >> d)
  seq-KeepsServing c d h k = record { at = λ w p. continue-Serves d (c w) k (h.at w p) }

  restore-KeepsServing : (kill : Bool) → KeepsServing (Restore.run m kill)
  unfolding Restore.run
  restore-KeepsServing kill =
      let root = Keeps-KeepsServing (require_root m) (require_root-Keeps m f.file f.apart) in
      let locked = Keeps-KeepsServing (lock m) (lock-Keeps m f.file f.apart) in
      let recovers =
        Performs-KeepsServing (recover kill) (Recover.run_locked m kill) tt
          (recover_locked-Performs m f kill) in
      let mounts =
        Performs-KeepsServing mount (Mount.run_locked m) tt (mount_locked-Performs m f) in
      search seq-KeepsServing

  pub run_command-Serves :
      (skip : Bool) (command : Command) (w : m.World)
      → IsEveryday command
      → Serves s (stored m f w)
      → Serves s (stored m f (run_command m skip command w).1)
  unfolding run_command
  run_command-Serves skip (init_new args) w every k = absurd every
  run_command-Serves skip (init_from args fstype no_copy) w every k = absurd every
  run_command-Serves skip (promote kill) w every k = absurd every
  run_command-Serves skip full_recover w every k =
      (Performs-KeepsServing full_recover _ tt (full_recover-Performs m f skip)).at w k
  run_command-Serves skip mount w every k =
      (Performs-KeepsServing mount _ tt (mount-Performs m f)).at w k
  run_command-Serves skip (recover kill) w every k =
      (Performs-KeepsServing (recover kill) _ tt (recover-Performs m f kill)).at w k
  run_command-Serves skip (restore kill) w every k = (restore-KeepsServing kill).at w k
  run_command-Serves skip status w every k =
      (Keeps-KeepsServing (Status.run m >>= λ lines. pure tt) (
          bind-Keeps (Status.run m) (λ lines. pure tt) (status-Keeps m f.file f.apart)
            (λ lines. result-Keeps (ok tt)))).at
        w k
