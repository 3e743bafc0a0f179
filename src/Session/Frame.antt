-- ===== src/Session/Frame.antt =====
-- src/main.rs: the commands, and the devices that they do not write.
use schelk.Base.{
  ◌≡◌, refl, sym, ap, ◌∙◌, subst, Bool, Option, none, some, inl, inr, ok, err, Result, All,
}
use schelk.Error.{Error, not_initialized}
use schelk.Machine.{Machine, FilePath, AppState}
use schelk.Effect.{M, pure, ◌>>=◌, ◌>>◌, continue, given}
use schelk.Effect.Keeps.{Keeps, keeps_rules, bind-Keeps, result-Keeps}
use schelk.Env.{require_root}
use schelk.State.{load, lock}
use schelk.Commands.FullRecover
use schelk.Commands.Mount
use schelk.Commands.Recover
use schelk.Commands.Promote
use schelk.Commands.Restore
use schelk.Commands.Status
use schelk.Cli.{
  Command, init_new, init_from, full_recover, mount, recover, restore, promote, status, run_command,
}
use schelk.Session.Apart.{require_root-Keeps, lock-Keeps, load-Keeps}
use schelk.Session.Apart.Steps.{clear_stale-Keeps, status-Keeps}
use schelk.Session.Stored.{StateFile, parsed, stored, load_stored}
use schelk.Session.Spec.{recovered_same}
use schelk.Session.Setup.{clear_stale_sound}
use schelk.Session.Runs.{recover_locked-Performs}
use schelk.Session.Written.{
  written, IsSteady, Elsewhere, mount_state-Keeps, recover_state-Keeps, promote_state-Keeps,
  full_recover_state-Keeps, init_new-Keeps, init_from-Keeps,
}

continue_from :
    {W X A B : Type 0} (view : W → X) (v : X) (f : A → M W B) (x : Result Error A × W)
    → view x.1 ≡ v
    → ((a : A) → x.0 ≡ ok a → view (f a x.1).1 ≡ v)
    → view (continue f x).1 ≡ v
continue_from view v f (ok a, w) h k = k a refl
continue_from view v f (err e, w) h k = h

module _ (m : Machine) (f : StateFile m) (path : FilePath) (steady : IsSteady m path) where
  -- From a world whose stored state has the property, the device is left as it is.
  record Leaves {A : Type 0} (P : Option AppState → Type 0) (c : M m.World A) : Type 0 where
    at : (w : m.World) → P (stored m f w) → m.disk path (c w).1 ≡ m.disk path w

  Keeps-Leaves :
      {A : Type 0} (P : Option AppState → Type 0) (c : M m.World A)
      → Keeps (m.disk path) c
      → Leaves P c
  Keeps-Leaves P c h = record { at = λ w p. h.at w }

  seq-Leaves :
      {A B : Type 0} (P : Option AppState → Type 0) (c : M m.World A) (d : M m.World B)
      → Keeps (m.disk path) c
      → Keeps f.file c
      → Leaves P d
      → Leaves P (c >> d)
  seq-Leaves P c d h k next = record {
    at = λ w p.
        continue_from (m.disk path) (m.disk path w) (λ _. d) (c w) (h.at w)
          (λ a e. next.at (c w).1 (subst P (sym (ap (parsed m f) (k.at w))) p) ∙ h.at w);
  }

  load-Leaves :
      {A : Type 0} (P : Option AppState → Type 0) (d : AppState → M m.World A)
      → ((s : AppState) → P (some s) → Keeps (m.disk path) (d s))
      → Leaves P (load m >>= λ loaded. (λ w. (given loaded not_initialized, w)) >>= d)
  load-Leaves P d k = record {
    at = λ w p.
        let kept = (load-Keeps m (m.disk path) steady.apart).at w in
        continue_from (m.disk path) (m.disk path w)
          (λ loaded. (λ w. (given loaded not_initialized, w)) >>= d) (load m w) kept
          (λ loaded e. goes_on loaded (load m w).1 (subst P (load_stored m f loaded w e) p) ∙ kept);
  }
    where
      goes_on :
          (loaded : Option AppState) (w : m.World)
          → P loaded
          → m.disk path (continue d (given loaded not_initialized, w)).1 ≡ m.disk path w
      goes_on none w p = refl
      goes_on (some s) w p = (k s p).at w

  -- The stored state allows it: the device is none of those that the command may write.
  abbrev pub Spares : Command → Option AppState → Type 0
  Spares command o = All (Elsewhere m path steady) (written command o)

  locked-Leaves :
      {A : Type 0} (P : Option AppState → Type 0) (c : M m.World A)
      → Leaves P c
      → Leaves P (require_root m >> (lock m >> c))
  locked-Leaves P c h =
      seq-Leaves P (require_root m) (lock m >> c) (require_root-Keeps m (m.disk path) steady.apart)
        (require_root-Keeps m f.file f.apart)
        (seq-Leaves P (lock m) c (lock-Keeps m (m.disk path) steady.apart)
          (lock-Keeps m f.file f.apart) h)

  mount_locked-Leaves : Leaves (Spares mount) (Mount.run_locked m)
  unfolding Mount.run_locked
  mount_locked-Leaves =
      load-Leaves (Spares mount) (Mount.mount_state m)
        (λ s p. mount_state-Keeps m path steady s p.0)

  recover_locked-Leaves : (kill : Bool) → Leaves (Spares (recover kill)) (Recover.run_locked m kill)
  unfolding Recover.run_locked
  recover_locked-Leaves kill =
      load-Leaves (Spares (recover kill)) _
        (λ s p. let recovers = recover_state-Keeps m path steady kill s p.0 in search keeps_rules)

  cleared-Keeps :
      (skip : Bool) (s : AppState)
      → Elsewhere m path steady s.scratch
      → Keeps
          (m.disk path)
          (FullRecover.clear_stale m s >>= λ state. FullRecover.full_recover_state m state skip)
  cleared-Keeps skip s apart = record {
    at = λ w.
        let kept = (clear_stale-Keeps m (m.disk path) steady.apart s).at w in
        continue_from (m.disk path) (m.disk path w)
          (λ state. FullRecover.full_recover_state m state skip) (FullRecover.clear_stale m s w)
          kept
          (λ new e.
            let same : new.scratch ≡ s.scratch =
              sym (ap (λ (state : AppState). state.scratch) (clear_stale_sound m f s new w e))
              ∙ recovered_same (λ state. state.scratch) s refl in
            (full_recover_state-Keeps m path steady skip new
                (subst (Elsewhere m path steady) (sym same) apart)).at
              (FullRecover.clear_stale m s w).1
            ∙ kept);
  }

  full_recover-Leaves : (skip : Bool) → Leaves (Spares full_recover) (FullRecover.run m skip)
  unfolding FullRecover.run
  full_recover-Leaves skip = locked-Leaves (Spares full_recover) _ (
      load-Leaves (Spares full_recover)
        (λ s. FullRecover.clear_stale m s >>= λ state. FullRecover.full_recover_state m state skip)
        (λ s p. cleared-Keeps skip s p.0))

  promote-Leaves : (skip kill : Bool) → Leaves (Spares (promote kill)) (Promote.run m skip kill)
  unfolding Promote.run
  promote-Leaves skip kill = locked-Leaves (Spares (promote kill)) _ (
      load-Leaves (Spares (promote kill)) _ (λ s p.
        let promotes = promote_state-Keeps m path steady skip kill s p.0 in search keeps_rules))

  mount-Leaves : Leaves (Spares mount) (Mount.run m)
  unfolding Mount.run
  mount-Leaves = locked-Leaves (Spares mount) (Mount.run_locked m) mount_locked-Leaves

  recover-Leaves : (kill : Bool) → Leaves (Spares (recover kill)) (Recover.run m kill)
  unfolding Recover.run
  recover-Leaves kill =
      locked-Leaves (Spares (recover kill)) (Recover.run_locked m kill) (recover_locked-Leaves kill)

  recover-Spares :
      (kill : Bool) (o : Option AppState) → Spares (restore kill) o → Spares (recover kill) o
  recover-Spares kill none p = tt
  recover-Spares kill (some s) p = (p.0, tt)

  mount-Spares :
      (kill : Bool) (w : m.World)
      → Spares (restore kill) (stored m f w)
      → (Recover.run_locked m kill w).0 ≡ ok tt
      → Spares mount (stored m f (Recover.run_locked m kill w).1)
  mount-Spares kill w p e = elim ((recover_locked-Performs m f kill (f.file w)).at w refl) [
    | inl (kept, (error, fails)) ↦ absurd (cc)
    | inr (s, was, now) ↦
        let (scratch, (ramdisk, end)) = subst (Spares (restore kill)) was p in
        let same = recovered_same (λ state. state.ramdisk) s refl in
        subst (Spares mount) (sym now) (subst (Elsewhere m path steady) (sym same) ramdisk, tt)
  ]

  -- The recovery leaves the device and, if it succeeds, a state with the same devices.
  restore_locked-Leaves :
      (kill : Bool)
      → Leaves (Spares (restore kill)) (Recover.run_locked m kill >> Mount.run_locked m)
  restore_locked-Leaves kill = record {
    at = λ w p.
        let recovering = Recover.run_locked m kill in
        let kept = (recover_locked-Leaves kill).at w (recover-Spares kill (stored m f w) p) in
        continue_from (m.disk path) (m.disk path w) (λ _. Mount.run_locked m) (recovering w) kept
          (λ u e. mount_locked-Leaves.at (recovering w).1 (mount-Spares kill w p e) ∙ kept);
  }

  restore-Leaves : (kill : Bool) → Leaves (Spares (restore kill)) (Restore.run m kill)
  unfolding Restore.run
  restore-Leaves kill = locked-Leaves (Spares (restore kill)) _ (restore_locked-Leaves kill)

  -- Whether a command succeeds or fails, and wherever it fails, a device keeps its contents that is none
  -- of those the command may write: `init-new` both volumes of its arguments, `init-from` their scratch
  -- volume, `recover` and `full-recover` the stored scratch volume, `mount` the stored RAM disk, `restore`
  -- both of these, `promote` the stored virgin volume, and `status` none; where the device is changed
  -- by no call but those that write it.
  pub run_command-Spares :
      (skip : Bool) (command : Command) (w : m.World)
      → Spares command (stored m f w)
      → m.disk path (run_command m skip command w).1 ≡ m.disk path w
  unfolding run_command
  run_command-Spares skip (init_new args) w p =
      (init_new-Keeps m path steady args skip p.0 p.1.0).at w
  run_command-Spares skip (init_from args fstype no_copy) w p =
      (init_from-Keeps m path steady args fstype no_copy skip p.0).at w
  run_command-Spares skip full_recover w p = (full_recover-Leaves skip).at w p
  run_command-Spares skip mount w p = mount-Leaves.at w p
  run_command-Spares skip (recover kill) w p = (recover-Leaves kill).at w p
  run_command-Spares skip (restore kill) w p = (restore-Leaves kill).at w p
  run_command-Spares skip (promote kill) w p = (promote-Leaves skip kill).at w p
  run_command-Spares skip status w p =
      (bind-Keeps (Status.run m) (λ lines. pure tt) (status-Keeps m (m.disk path) steady.apart)
          (λ lines. result-Keeps (ok tt))).at
        w
