-- ===== src/Session/Main.antt =====
-- src/main.rs: what a command line does to the stored state, and what a series of them keeps.
use schelk.Base.{
  Result, err, ℕ, ◌≡◌, refl, sym, ap, ◌∙◌, subst, Bool, List, [], ◌∷◌, Option, some, inl, inr, ok,
  err, Result,
}
use schelk.Error.{Error}
use schelk.Machine.{Machine, AppState}
use schelk.Effect.{continue, M, pure, ◌>>=◌, ◌>>◌}
use schelk.Effect.Laws.{seq_ok}
use schelk.Effect.Keeps.{bind-Keeps, result-Keeps}
use schelk.Effect.Outcome.{leads_rules}
use schelk.Env.{require_root}
use schelk.State.{lock}
use schelk.Commands.Mount
use schelk.Commands.Recover
use schelk.Commands.Restore
use schelk.Commands.Promote
use schelk.Commands.Status
use schelk.Cli.{
  Command, init_new, init_from, full_recover, mount, recover, restore, promote, status, run_command,
}
use schelk.Session.Apart.{require_root-Keeps, lock-Keeps}
use schelk.Session.Apart.Steps.{status-Keeps}
use schelk.Session.Stored.{StateFile, stored, parsed}
use schelk.Session.Spec.{Does, MayDo, recovered, mounted, IsConsistent, MayDo-IsConsistent}
use schelk.Session.Runs.{
  Performs, mount_locked-Performs, recover_locked-Performs, promote_loaded-Performs,
}
use schelk.Session.Setup.{init_new-Performs, init_from-Performs, full_recover-Performs}
use schelk.Session.Outcomes.{Performs-ok, Performs-cases, Keeps-stored, continue-Does, seq_kept}

-- The commands of a session one after the other, each with the flag -y or without, whether the one
-- before has succeeded or not.
abbrev pub run_session : (m : Machine) → List (Bool × Command) → m.World → m.World
run_session m [] w = w
run_session m ((skip, command) ∷ commands) w =
    run_session m commands (run_command m skip command w).1

module _ (m : Machine) (f : StateFile m) where
  open m use {World}

  pub mount-Performs : (old : Option (List ℕ)) → Performs m f mount old (Mount.run m)
  unfolding Mount.run
  mount-Performs old =
      let root = require_root-Keeps m f.file f.apart in
      let locked = lock-Keeps m f.file f.apart in
      let rest = mount_locked-Performs m f old in search leads_rules

  pub recover-Performs :
      (kill : Bool) (old : Option (List ℕ)) → Performs m f (recover kill) old (Recover.run m kill)
  unfolding Recover.run
  recover-Performs kill old =
      let root = require_root-Keeps m f.file f.apart in
      let locked = lock-Keeps m f.file f.apart in
      let rest = recover_locked-Performs m f kill old in search leads_rules

  promote-Performs :
      (skip kill : Bool) (old : Option (List ℕ))
      → Performs m f (promote kill) old (Promote.run m skip kill)
  unfolding Promote.run
  promote-Performs skip kill old =
      let root = require_root-Keeps m f.file f.apart in
      let locked = lock-Keeps m f.file f.apart in
      let rest = promote_loaded-Performs m f skip kill old in search leads_rules

  recovered_then_mounted :
      (kill : Bool) (old mid new : Option AppState)
      → Does (recover kill) old mid
      → Does mount mid new
      → Does (restore kill) old new
  recovered_then_mounted kill old mid new (s, was, recovers) (t, there, free, mounts) =
      let same : recovered s ≡ t = cc in
      (s, was, mounts ∙ ap (λ state. some (mounted state)) (sym same))

  -- The recovery and the mount that follows it.
  restoring-MayDo :
      (kill : Bool) (w : World)
      → MayDo
          (restore kill)
          (stored m f w)
          (stored m f ((Recover.run_locked m kill >> Mount.run_locked m) w).1)
  restoring-MayDo kill w =
      let recovering = Recover.run_locked m kill in
      let mounting = Mount.run_locked m in
      elim ((recover_locked-Performs m f kill (f.file w)).at w refl) [
        | inl (kept, (error, fails)) ↦ inl (
            ap (stored m f) (failed_world (λ _. mounting) (recovering w) error fails)
            ∙ ap (parsed m f) kept)
        | inr does ↦ inr (
            continue-Does m f (recover kill) mount (restore kill) mounting (recovering w)
              (stored m f w) (recovered_then_mounted kill (stored m f w))
              (mount_locked-Performs m f) does)
      ]
    where
      failed_world :
          {A B : Type 0} (d : A → M World B) (x : Result Error A × World) (e : Error)
          → x.0 ≡ err e
          → (continue d x).1 ≡ x.1
      failed_world d (ok a, w) e h = absurd (cc)
      failed_world d (err y, w) e h = refl

  restore-MayDo :
      (kill : Bool) (w : World)
      → MayDo (restore kill) (stored m f w) (stored m f (Restore.run m kill w).1)
  unfolding Restore.run
  restore-MayDo kill w =
      let restoring = Recover.run_locked m kill >> Mount.run_locked m in
      let may = MayDo (restore kill) (stored m f w) in
      seq_kept m f may (require_root m) (lock m >> restoring) w (stored m f w)
        (require_root-Keeps m f.file f.apart) refl (inl refl)
        λ w1 same1.
          seq_kept m f may (lock m) restoring w1 (stored m f w) (lock-Keeps m f.file f.apart) same1
            (inl refl)
            λ w2 same2.
              subst (λ old. MayDo (restore kill) old (stored m f (restoring w2).1)) same2
                (restoring-MayDo kill w2)

  restore_ok :
      (kill : Bool) (w : World)
      → (Restore.run m kill w).0 ≡ ok tt
      → Does (restore kill) (stored m f w) (stored m f (Restore.run m kill w).1)
  unfolding Restore.run
  restore_ok kill w e =
      let recovering = Recover.run_locked m kill in
      let mounting = Mount.run_locked m in
      let (u, root, rest, last) = seq_ok (require_root m) _ w tt e in
      let w1 = (require_root m w).1 in
      let (u1, locked, rest1, last1) = seq_ok (lock m) (recovering >> mounting) w1 tt rest in
      let w2 = (lock m w1).1 in
      let (u2, recovers, mounts, last2) = seq_ok recovering mounting w2 tt rest1 in
      let w3 = (recovering w2).1 in
      let start =
        Keeps-stored m f (lock m) w1 (lock-Keeps m f.file f.apart)
        ∙ Keeps-stored m f (require_root m) w (require_root-Keeps m f.file f.apart) in
      let finish = ap (stored m f) (last ∙ last1 ∙ last2) in
      let did =
        recovered_then_mounted kill (stored m f w2) (stored m f w3) (stored m f (mounting w3).1)
          (Performs-ok m f (recover kill) recovering w2 (recover_locked-Performs m f kill) recovers)
          (Performs-ok m f mount mounting w3 (mount_locked-Performs m f) mounts) in
      subst (λ new. Does (restore kill) (stored m f w) new) (sym finish)
        (subst (λ old. Does (restore kill) old (stored m f (mounting w3).1)) start did)

  status_still :
      (skip : Bool) (w : World) → stored m f (run_command m skip status w).1 ≡ stored m f w
  unfolding run_command
  status_still skip w = Keeps-stored m f (Status.run m >>= λ lines. pure tt) w (
      bind-Keeps (Status.run m) (λ lines. pure tt) (status-Keeps m f.file f.apart)
        (λ lines. result-Keeps (ok tt)))

  -- A command that succeeds does to the stored state the step of that command in the state machine of a
  -- session: `init-new` and `init-from` store their arguments, which are valid, as an unmounted state,
  -- `mount` takes an unmounted state to the mounted one, `recover` a mounted one to the unmounted one
  -- and an unmounted one to itself, `restore` does both, `promote` takes a mounted state to the
  -- unmounted one with a new hash, `full-recover` any state to the unmounted one with a new hash, and
  -- `status` keeps it: where the calls that are not about the state file leave it as it is, a
  -- rename replaces it at once, and what is written as JSON is read back.
  pub run_command-Does :
      (skip : Bool) (command : Command) (w : World)
      → (run_command m skip command w).0 ≡ ok tt
      → Does command (stored m f w) (stored m f (run_command m skip command w).1)
  unfolding run_command
  run_command-Does skip (init_new args) w e =
      Performs-ok m f (init_new args) _ w (init_new-Performs m f args skip) e
  run_command-Does skip (init_from args fstype no_copy) w e =
      Performs-ok m f (init_from args fstype no_copy) _ w
        (init_from-Performs m f args fstype no_copy skip) e
  run_command-Does skip full_recover w e =
      Performs-ok m f full_recover _ w (full_recover-Performs m f skip) e
  run_command-Does skip mount w e = Performs-ok m f mount _ w mount-Performs e
  run_command-Does skip (recover kill) w e =
      Performs-ok m f (recover kill) _ w (recover-Performs kill) e
  run_command-Does skip (restore kill) w e = restore_ok kill w e
  run_command-Does skip (promote kill) w e =
      Performs-ok m f (promote kill) _ w (promote-Performs skip kill) e
  run_command-Does skip status w e = status_still skip w

  -- Whether a command succeeds or fails, and wherever it fails: the stored state is as it was, or the
  -- step of that very command in the state machine of a session has been done to it, or, for `restore`,
  -- the step of `recover` alone; `status` keeps it; where the calls that are not about the state file
  -- leave it as it is, a rename replaces it at once, and what is written as JSON is read back.
  pub run_command-MayDo :
      (skip : Bool) (command : Command) (w : World)
      → MayDo command (stored m f w) (stored m f (run_command m skip command w).1)
  unfolding run_command
  run_command-MayDo skip (init_new args) w =
      Performs-cases m f (init_new args) _ w (init_new-Performs m f args skip)
  run_command-MayDo skip (init_from args fstype no_copy) w =
      Performs-cases m f (init_from args fstype no_copy) _ w
        (init_from-Performs m f args fstype no_copy skip)
  run_command-MayDo skip full_recover w =
      Performs-cases m f full_recover _ w (full_recover-Performs m f skip)
  run_command-MayDo skip mount w = Performs-cases m f mount _ w mount-Performs
  run_command-MayDo skip (recover kill) w =
      Performs-cases m f (recover kill) _ w (recover-Performs kill)
  run_command-MayDo skip (restore kill) w = restore-MayDo kill w
  run_command-MayDo skip (promote kill) w =
      Performs-cases m f (promote kill) _ w (promote-Performs skip kill)
  run_command-MayDo skip status w = status_still skip w

  -- Whatever commands are run, and wherever they fail: if the stored state is consistent, or there is
  -- none, then so it is afterwards. Consistent means that the granularity is a positive multiple of 512,
  -- the name of the device is accepted, and an era is stored exactly if the state is mounted, which is
  -- then the first. The assumptions are those on the calls: those that are not about the state file leave
  -- it as it is, a rename replaces it at once, and what is written as JSON is read back.
  pub run_session-IsConsistent :
      (commands : List (Bool × Command)) (w : World)
      → IsConsistent (stored m f w)
      → IsConsistent (stored m f (run_session m commands w))
  run_session-IsConsistent [] w c = c
  run_session-IsConsistent ((skip, command) ∷ commands) w c =
      let next = (run_command m skip command w).1 in
      run_session-IsConsistent commands next (
        MayDo-IsConsistent command (stored m f w) (stored m f next)
          (run_command-MayDo skip command w) c)
