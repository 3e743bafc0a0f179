-- ===== src/Commands/Recover/Whole.antt =====
-- The whole of `schelk recover` (src/commands/recover.rs), from the check for root on.
use schelk.Base.{ℕ, ◌≤◌, ◌<◌, ◌^◌, ◌≡◌, sym, ap, ◌∙◌, Bool, true, List, some, ok, if◌then◌else◌}
use schelk.Machine.{Machine, AppState}
use schelk.Effect.{M, pure}
use schelk.State.{load}
use schelk.State.Disks.{FilesKeep}
use schelk.State.Loaded.{before_load, loaded_lem}
use schelk.Io.Chunks.{BlockRange, prepare_chunks}
use schelk.Io.Volume.{blocks_copy_config}
use schelk.Io.Volume.Exact.{IsVolumePair, HonestCopy}
use schelk.Commands.Recover.{collect_changed, recover_state, run_locked, run}
use schelk.Commands.Recover.Restores.{
  IsTracked, before_collect, after_collect, recover_state_restores,
}

module _ (m : Machine) (state : AppState) (kill : Bool) where
  open m use {World}

  abbrev pub recovering : AppState → M World (Unit {0})
  recovering s = if s.is_mounted then recover_state m s kill else pure tt

  recovering_mounted : state.is_mounted ≡ true → recovering state ≡ recover_state m state kill
  recovering_mounted e = ap (λ b. if b then recover_state m state kill else pure tt) e

  -- The command ends as the recovery of the loaded state does.
  run_lem :
      (w : World)
      → (load m (before_load m w)).0 ≡ ok (some state)
      → state.is_mounted ≡ true
      → (run m kill w).0 ≡ ok tt
      → let w1 = (load m (before_load m w)).1 in
        ((recover_state m state kill w1).0 ≡ ok tt)
        × ((run m kill w).1 ≡ (recover_state m state kill w1).1)
  unfolding run run_locked
  run_lem w loads on e =
      let w1 = (load m (before_load m w)).1 in
      let (recovers, ends) = loaded_lem m recovering state w loads e in
      let here = recovering_mounted on in
      (sym (ap (λ c. (c w1).0) here) ∙ recovers, ends ∙ ap (λ c. (c w1).1) here)

module _ (m : Machine) (state : AppState) (pair : IsVolumePair m state.virgin state.scratch)
    (virgin_kept : FilesKeep m state.virgin) (scratch_kept : FilesKeep m state.scratch)
    (positive : 0 < state.granularity) (small : state.granularity ≤ 2 ^ 30) where
  -- If `schelk recover` loads a mounted state and succeeds, every byte of the scratch volume is that of
  -- the virgin volume: for a positive granularity up to a gibibyte, a device that has tracked the
  -- changes, and a kernel that reads and writes as documented and answers operations in flight, in any
  -- order, where writing the state file changes neither volume.
  pub run_restores :
      (kill : Bool) (w : m.World) (i : ℕ)
      → (load m (before_load m w)).0 ≡ ok (some state)
      → state.is_mounted ≡ true
      → ((changed : List BlockRange)
          → let w1 = (load m (before_load m w)).1 in
            (collect_changed m state (before_collect m state kill w1)).0 ≡ ok changed
            → IsTracked m state changed (after_collect m state kill w1)
              × HonestCopy m state.virgin state.scratch
                  (blocks_copy_config state.granularity)
                  (prepare_chunks changed state.granularity))
      → (run m kill w).0 ≡ ok tt
      → let w' = (run m kill w).1 in m.disk state.scratch w' i ≡ m.disk state.virgin w' i
  run_restores kill w i loads on tracked e =
      let (recovers, ends) = run_lem m state kill w loads on e in
      let w1 = (load m (before_load m w)).1 in
      ap (λ v. m.disk state.scratch v i) ends
      ∙ recover_state_restores m state pair virgin_kept scratch_kept positive small kill w1 i
          tracked recovers
      ∙ sym (ap (λ v. m.disk state.virgin v i) ends)
