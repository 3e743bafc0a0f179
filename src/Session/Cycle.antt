-- ===== src/Session/Cycle.antt =====
-- A cycle of a benchmark: `schelk mount`, an experiment on the mounted volume, `schelk recover`.
use schelk.Base.{ℕ, ◌≤◌, ◌<◌, ◌^◌, ◌≡◌, refl, sym, ap, ◌∙◌, Bool, false, List, none, some, ok}
use schelk.Machine.{Machine, AppState}
use schelk.State.{load}
use schelk.State.Disks.{FilesKeep}
use schelk.Io.Chunks.{BlockRange, prepare_chunks}
use schelk.Io.Volume.{blocks_copy_config}
use schelk.Io.Volume.Exact.{IsVolumePair, HonestCopy}
use schelk.Commands.Recover
use schelk.Commands.Recover.Restores.{IsTracked, before_collect, after_collect}
use schelk.State.Loaded.{before_load}
use schelk.Commands.Recover.Whole.{recovering}
use schelk.Commands.Recover.Reported.{Reports, run_restores_reported}
use schelk.Cli.{mount, recover, run_command}
use schelk.Session.Stored.{StateFile, parsed, stored}
use schelk.Session.Loads.{run_loads}
use schelk.Session.Spec.{mounted, recovered}
use schelk.Session.Main.{run_command-Does}

module _ (m : Machine) (f : StateFile m) where
  recover_loads :
      (kill : Bool) (w : m.World) (s : AppState)
      → stored m f w ≡ some s
      → (Recover.run m kill w).0 ≡ ok tt
      → (load m (before_load m w)).0 ≡ ok (some s)
  unfolding Recover.run Recover.run_locked
  recover_loads kill w s was e = run_loads m f (recovering m s kill) w s was e

-- An unmounted state that was mounted and recovered is the same state.
recovered-mounted :
    (s : AppState) → s.is_mounted ≡ false → s.current_era ≡ none → recovered (mounted s) ≡ s
recovered-mounted s off no_era =
    ap (λ b. record s { is_mounted = b; current_era = none }) (sym off)
    ∙ ap (λ era. record s { current_era = era }) (sym no_era)

module _ (m : Machine) (f : StateFile m) (s : AppState) (pair : IsVolumePair m s.virgin s.scratch)
    (virgin_kept : FilesKeep m s.virgin) (scratch_kept : FilesKeep m s.scratch)
    (positive : 0 < s.granularity) (small : s.granularity ≤ 2 ^ 30) where
  -- If `schelk mount` and, after an experiment that leaves the state file as it is, `schelk recover`
  -- succeed, then the stored state is the one before the mount, and every byte of the scratch volume
  -- is that of the virgin volume. The stored state before has no era, era_invalidate prints a report of
  -- ranges outside of which the volumes are the same, the granularity is a gibibyte at most, the kernel
  -- reads and writes as documented and answers operations in flight, in any order, writing the state
  -- file changes neither volume, and the calls are as `StateFile` says.
  pub mount_recover_cycle :
      (skip kill : Bool) (w w2 : m.World) (i : ℕ) (rs : List BlockRange)
      → stored m f w ≡ some s
      → s.current_era ≡ none
      → (run_command m skip mount w).0 ≡ ok tt
      → f.file w2 ≡ f.file (run_command m skip mount w).1
      → let w3 = (load m (before_load m w2)).1 in
        Reports m (mounted s) rs (before_collect m (mounted s) kill w3)
        → IsTracked m (mounted s) rs (after_collect m (mounted s) kill w3)
        → HonestCopy m s.virgin s.scratch
            (blocks_copy_config s.granularity)
            (prepare_chunks rs s.granularity)
        → (run_command m skip (recover kill) w2).0 ≡ ok tt
        → let w' = (run_command m skip (recover kill) w2).1 in
          (stored m f w' ≡ some s) × (m.disk s.scratch w' i ≡ m.disk s.virgin w' i)
  unfolding run_command
  mount_recover_cycle skip kill w w2 i rs was no_era mounts quiet reports tracked honest recovers =
      let (t, there, off, now) = run_command-Does m f skip mount w mounts in
      let same : t ≡ s = cc in
      let (t2, there2, after) = run_command-Does m f skip (recover kill) w2 recovers in
      let mid : stored m f w2 ≡ some (mounted s) =
        ap (parsed m f) quiet ∙ now ∙ ap (λ state. some (mounted state)) same in
      let same2 : t2 ≡ mounted s = cc in
      let unmounted_s : s.is_mounted ≡ false =
        sym (ap (λ (state : AppState). state.is_mounted) same) ∙ off in
      (
        after
            ∙ ap (λ state. some (recovered state)) same2
            ∙ ap some (recovered-mounted s unmounted_s no_era),
        run_restores_reported m (mounted s) pair virgin_kept scratch_kept positive small kill w2 i
            rs (recover_loads m f kill w2 (mounted s) mid recovers) refl reports tracked honest
            recovers,
      )
