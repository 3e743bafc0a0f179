-- ===== src/Commands/Promote/Whole.antt =====
-- The whole of `schelk promote` (src/commands/promote.rs), from the check for root on.
use schelk.Base.{ℕ, ◌≤◌, ◌<◌, ◌^◌, ◌≡◌, sym, ap, ◌∙◌, Bool, List, some, ok}
use schelk.Error.{not_mounted}
use schelk.Machine.{Machine, AppState}
use schelk.Effect.{M, ensure, ◌>>◌}
use schelk.Effect.Laws.{seq_ok}
use schelk.State.{load}
use schelk.State.Disks.{FilesKeep}
use schelk.State.Loaded.{before_load, loaded_lem}
use schelk.Io.Chunks.{BlockRange, prepare_chunks}
use schelk.Io.Volume.{blocks_copy_config}
use schelk.Io.Volume.Exact.{IsVolumePair, HonestCopy}
use schelk.Commands.Recover.Restores.{IsTracked}
use schelk.Commands.Recover.Reported.{Reports, reported}
use schelk.Commands.Promote.{promote_state, run}
use schelk.Commands.Promote.Commits.{
  ReadsKeep, before_collect, after_collect, promote_state_commits,
}

module _ (m : Machine) (state : AppState) (skip kill : Bool) where
  unfoldable pub promoting : AppState → M m.World (Unit {0})
  promoting s = ensure s.is_mounted not_mounted >> promote_state m s skip kill

  -- The command ends as the promotion of the loaded state does.
  run_lem :
      (w : m.World)
      → (load m (before_load m w)).0 ≡ ok (some state)
      → (run m skip kill w).0 ≡ ok tt
      → let w1 = (load m (before_load m w)).1 in
        ((promote_state m state skip kill w1).0 ≡ ok tt)
        × ((run m skip kill w).1 ≡ (promote_state m state skip kill w1).1)
  unfolding run promoting
  run_lem w loads e =
      let w1 = (load m (before_load m w)).1 in
      let (promotes, ends) = loaded_lem m promoting state w loads e in
      let (u, on, rest, last) =
        seq_ok (ensure state.is_mounted not_mounted) (promote_state m state skip kill) w1 tt
          promotes in
      (rest, ends ∙ last)

module _ (m : Machine) (state : AppState) (pair : IsVolumePair m state.scratch state.virgin)
    (virgin_kept : FilesKeep m state.virgin) (scratch_kept : FilesKeep m state.scratch)
    (virgin_read : ReadsKeep m state.virgin) (scratch_read : ReadsKeep m state.scratch)
    (positive : 0 < state.granularity) (small : state.granularity ≤ 2 ^ 30) where
  -- If `schelk promote` loads a state, era_invalidate prints a report of ranges outside of which the
  -- volumes are the same, and the command succeeds, then every byte of the virgin volume is that of the
  -- scratch volume: for a positive granularity up to a gibibyte and a kernel that reads and writes as
  -- documented and answers operations in flight, in any order, where reading a superblock and writing
  -- the state file change neither volume.
  pub run_commits :
      (skip kill : Bool) (w : m.World) (i : ℕ) (rs : List BlockRange)
      → (load m (before_load m w)).0 ≡ ok (some state)
      → let w1 = (load m (before_load m w)).1 in
        Reports m state rs (before_collect m state skip kill w1)
        → IsTracked m state rs (after_collect m state skip kill w1)
        → HonestCopy m state.scratch state.virgin
            (blocks_copy_config state.granularity)
            (prepare_chunks rs state.granularity)
        → (run m skip kill w).0 ≡ ok tt
        → let w' = (run m skip kill w).1 in m.disk state.virgin w' i ≡ m.disk state.scratch w' i
  run_commits skip kill w i rs loads reports tracked honest e =
      let w1 = (load m (before_load m w)).1 in
      let (promotes, ends) = run_lem m state skip kill w loads e in
      ap (λ v. m.disk state.virgin v i) ends
      ∙ promote_state_commits m state pair virgin_kept scratch_kept virgin_read scratch_read
          positive small skip kill w1 i
          (λ changed collected.
            reported m state changed rs (before_collect m state skip kill w1) reports collected
              (λ blocks.
                IsTracked m state blocks (after_collect m state skip kill w1)
                × HonestCopy m state.scratch state.virgin (blocks_copy_config state.granularity)
                    (prepare_chunks blocks state.granularity))
              (tracked, honest))
          promotes
      ∙ sym (ap (λ v. m.disk state.scratch v i) ends)
