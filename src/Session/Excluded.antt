-- ===== src/Session/Excluded.antt =====
-- What root privileges and the lock of src/state.rs are for.
use schelk.Base.{◌≡◌, ◌≢◌, refl, ap, ◌∙◌, Bool, true, false, Result, ok, err}
use schelk.Error.{Error, requires_root, already_running, os_error}
use schelk.Machine.{Machine, write}
use schelk.Effect.{M, ◌>>◌, ◌>>=◌, continue}
use schelk.Env.{require_root}
use schelk.State.{lock, lock_path}
use schelk.Commands.InitCommon.{InitArgs, check_arguments}
use schelk.Commands.InitNew
use schelk.Commands.InitFrom
use schelk.Commands.FullRecover
use schelk.Commands.Mount
use schelk.Commands.Recover
use schelk.Commands.Restore
use schelk.Commands.Promote
use schelk.Cli.{
  Command, init_new, init_from, full_recover, mount, recover, restore, promote, status, run_command,
}

module _ (m : Machine) where
  open m use {World}

  -- Root privileges are asked for, and the lock is taken.
  abbrev admission : M World (Unit {0})
  admission = require_root m >> lock m

  -- It stops where that fails.
  record IsGuarded {A : Type 0} (c : M World A) : Type 0 where
    stops : (w : World) (e : Error) → (admission w).0 ≡ err e → c w ≡ (err e, (admission w).1)

  failed_pair :
      {A B : Type 0} (f : A → M World B) (x : Result Error A × World) (e : Error)
      → x.0 ≡ err e
      → continue f x ≡ (err e, x.1)
  failed_pair f x e h = ap (λ r. continue f (r, x.1)) h

  guarded_from :
      {A : Type 0} (d : M World A) (x : Result Error (Unit {0}) × World) (e : Error)
      → (continue (λ (_ : Unit {0}). lock m) x).0 ≡ err e
      → continue (λ (_ : Unit {0}). lock m >> d) x
        ≡ (err e, (continue (λ (_ : Unit {0}). lock m) x).1)
  guarded_from d (ok u, w) e h = failed_pair (λ _. d) (lock m w) e h
  guarded_from d (err x, w) e h = let same : x ≡ e = cc in ap (λ y. (err y, w)) same

  guarded : {A : Type 0} (d : M World A) → IsGuarded (require_root m >> (lock m >> d))
  guarded d = record { stops = λ w e h. guarded_from d (require_root m w) e h }

  bind-IsGuarded :
      {A B : Type 0} (c : M World A) (f : A → M World B) → IsGuarded c → IsGuarded (c >>= f)
  bind-IsGuarded c f g = record {
    stops = λ w e h.
        let stopped = g.stops w e h in
        failed_pair f (c w) e (ap (λ x. x.0) stopped) ∙ ap (λ x. (err e, x.1)) stopped;
  }

  check_arguments-IsGuarded : (args : InitArgs) → IsGuarded (check_arguments m args)
  unfolding check_arguments
  check_arguments-IsGuarded args = guarded _

  command-IsGuarded :
      (skip : Bool) (command : Command) → command ≢ status → IsGuarded (run_command m skip command)
  unfolding run_command InitNew.run InitFrom.run FullRecover.run Mount.run Recover.run Restore.run
      Promote.run
  command-IsGuarded skip (init_new args) h =
      bind-IsGuarded (check_arguments m args) _ (check_arguments-IsGuarded args)
  command-IsGuarded skip (init_from args fstype no_copy) h =
      bind-IsGuarded (check_arguments m args) _ (check_arguments-IsGuarded args)
  command-IsGuarded skip full_recover h = guarded _
  command-IsGuarded skip mount h = guarded _
  command-IsGuarded skip (recover kill) h = guarded _
  command-IsGuarded skip (restore kill) h = guarded _
  command-IsGuarded skip (promote kill) h = guarded _
  command-IsGuarded skip status h = absurd (h refl)

  -- The world after root privileges have been asked for, after the directory of the lock has been made,
  -- and after its file has been opened.
  abbrev pub asked : World → World
  asked w = (m.is_root w).1

  abbrev pub made : World → World
  made w = (m.create_dir_all m.state_dir (asked w)).1

  abbrev pub opened : World → World
  opened w = (m.open_as write (lock_path m) (made w)).1

  -- What the system answers to a user without root privileges, or who cannot have the lock: another
  -- process holds it, or its directory cannot be made or its file not be opened. With the error and the
  -- world after the call that failed.
  pub data IsRefused (w : World) : Error → World → Type 0 where
    unprivileged : (m.is_root w).0 ≡ false → IsRefused w requires_root (asked w)
    no_directory :
        (m.is_root w).0 ≡ true
        → (m.create_dir_all m.state_dir (asked w)).0 ≡ false
        → IsRefused w os_error (made w)
    no_file :
        (m.is_root w).0 ≡ true
        → (m.create_dir_all m.state_dir (asked w)).0 ≡ true
        → (m.open_as write (lock_path m) (made w)).0 ≡ false
        → IsRefused w os_error (opened w)
    held :
        (m.is_root w).0 ≡ true
        → (m.create_dir_all m.state_dir (asked w)).0 ≡ true
        → (m.open_as write (lock_path m) (made w)).0 ≡ true
        → (m.flock (lock_path m) (opened w)).0 ≡ false
        → IsRefused w already_running (m.flock (lock_path m) (opened w)).1

  admission-IsRefused : {w w' : World} {e : Error} → IsRefused w e w' → admission w ≡ (err e, w')
  unfolding require_root lock
  admission-IsRefused (unprivileged denied) = rw denied refl
  admission-IsRefused (no_directory root failed) = rw (root, failed) refl
  admission-IsRefused (no_file root there failed) = rw (root, there, failed) refl
  admission-IsRefused (held root there free taken) = rw (root, there, free, taken) refl

  -- Every command but `status` that is run without root privileges, or while another process holds the
  -- lock, or where the lock's directory cannot be made or its file not be opened, fails with the error of
  -- that, and calls nothing after what has failed.
  pub run_command-excluded :
      (skip : Bool) (command : Command) (w w' : World) (e : Error)
      → command ≢ status
      → IsRefused w e w'
      → run_command m skip command w ≡ (err e, w')
  run_command-excluded skip command w w' e h refused =
      let stopped = admission-IsRefused refused in
      (command-IsGuarded skip command h).stops w e (ap (λ x. x.0) stopped)
      ∙ ap (λ x. (err e, x.1)) stopped
