-- ===== src/Commands/Recover/Succeeds.antt =====
-- `schelk recover` (src/commands/recover.rs) on a machine on which every call does what it is asked.
use schelk.Base.{
  ℕ, ◌%◌, ◌≤◌, ◌<◌, ◌^◌, ◌≡◌, ap, ◌∙◌, Bool, true, false, List, some, ok, if◌then◌else◌, none,
}
use schelk.Machine.{Machine, AppState}
use schelk.Effect.{pure, ◌>>=◌, ◌>>◌}
use schelk.Effect.Gives.{bind_next, seq_next}
use schelk.Env.{require_root}
use schelk.State.{load, lock, save}
use schelk.State.Disks.{FilesKeep}
use schelk.State.Loaded.{before_load, with_state}
use schelk.Io.Chunks.{BlockRange, prepare_chunks}
use schelk.Io.Volume.{copy_blocks, blocks_copy_config}
use schelk.Io.Volume.Exact.{IsVolumePair}
use schelk.Io.Volume.Succeeds.{Carries, Carries-HonestCopy, copy_blocks_succeeds}
use schelk.Commands.Recover.{
  check_tracked, unmount_mounted, collect_changed, recover_state, run_locked, run,
}
use schelk.Commands.Recover.Restores.{IsTracked, before_collect, after_collect}
use schelk.Commands.Recover.Whole.{recovering}
use schelk.Commands.Recover.Reported.{Reports, run_restores_reported}
use schelk.Commands.Recover.Healthy.{
  IsHealthy, require_root-Gives, lock-Gives, save-Gives, check_tracked-Gives, unmount_mounted-Gives,
  collect_changed_gives,
}

module _ (m : Machine) (h : IsHealthy m) (state : AppState)
    (pair : IsVolumePair m state.virgin state.scratch) (virgin_kept : FilesKeep m state.virgin)
    (scratch_kept : FilesKeep m state.scratch) (positive : 0 < state.granularity)
    (small : state.granularity ≤ 2 ^ 30) (aligned : state.granularity % 4096 ≡ 0) where
  recover_state_succeeds :
      (kill : Bool) (w : m.World) (rs : List BlockRange)
      → Reports m state rs (before_collect m state kill w)
      → IsTracked m state rs (after_collect m state kill w)
      → Carries m state.virgin state.scratch
          (blocks_copy_config state.granularity)
          (prepare_chunks rs state.granularity)
      → (recover_state m state kill w).0 ≡ ok tt
  unfolding recover_state
  recover_state_succeeds kill w rs reports tracked carries =
      let saved = save m (record state { is_mounted = false; current_era = none }) in
      let copy = λ (changed : List BlockRange).
        copy_blocks m state.virgin state.scratch changed state.granularity in
      let finish = λ (changed : List BlockRange). copy changed >> saved in
      let collect = collect_changed m state in
      let unmount = unmount_mounted m state kill in
      let w1 = (check_tracked m state w).1 in
      let w2 = before_collect m state kill w in
      let w3 = after_collect m state kill w in
      let (total, copied, there) =
        copy_blocks_succeeds m state.virgin state.scratch pair rs state.granularity w3 positive
          small aligned tracked.fits carries in
      let (u, writes) =
        (save-Gives m h (record state { is_mounted = false; current_era = none })).at
          (copy rs w3).1 in
      seq_next (check_tracked m state) (unmount >> (collect >>= finish)) w
        ((check_tracked-Gives m h state).at w)
      ∙ seq_next unmount (collect >>= finish) w1 ((unmount_mounted-Gives m h state kill).at w1)
      ∙ bind_next collect finish w2 rs (collect_changed_gives m h state rs w2 reports)
      ∙ seq_next (copy rs) saved w3 (total, copied)
      ∙ writes

  run_succeeds :
      (kill : Bool) (w : m.World) (rs : List BlockRange)
      → (load m (before_load m w)).0 ≡ ok (some state)
      → state.is_mounted ≡ true
      → let w1 = (load m (before_load m w)).1 in
        Reports m state rs (before_collect m state kill w1)
        → IsTracked m state rs (after_collect m state kill w1)
        → Carries m state.virgin state.scratch
            (blocks_copy_config state.granularity)
            (prepare_chunks rs state.granularity)
        → (run m kill w).0 ≡ ok tt
  unfolding run run_locked
  run_succeeds kill w rs loads on reports tracked carries =
      let finish = with_state m (recovering m state kill) in
      let v = (require_root m w).1 in
      let w0 = before_load m w in
      let w1 = (load m w0).1 in
      seq_next (require_root m) (lock m >> run_locked m kill) w ((require_root-Gives m h).at w)
      ∙ seq_next (lock m) (run_locked m kill) v ((lock-Gives m h).at v)
      ∙ bind_next (load m) finish w0 (some state) loads
      ∙ ap (λ b. ((if b then recover_state m state kill else pure tt) w1).0) on
      ∙ recover_state_succeeds kill w1 rs reports tracked carries

  -- If `schelk recover` loads a mounted state and era_invalidate prints a report of ranges outside of
  -- which the volumes are the same, then the command succeeds, and every byte of the scratch volume is
  -- that of the virgin volume: for a positive granularity that is a multiple of 4096 up to a gibibyte,
  -- on a machine on which every call of the recovery and every program succeeds, and the kernel does
  -- all that it is asked in the copy, as documented and in any order among the workers, where writing
  -- the state file changes neither volume.
  pub run_succeeds_restored :
      (kill : Bool) (w : m.World) (rs : List BlockRange)
      → (load m (before_load m w)).0 ≡ ok (some state)
      → state.is_mounted ≡ true
      → let w1 = (load m (before_load m w)).1 in
        Reports m state rs (before_collect m state kill w1)
        → IsTracked m state rs (after_collect m state kill w1)
        → Carries m state.virgin state.scratch
            (blocks_copy_config state.granularity)
            (prepare_chunks rs state.granularity)
        → let w' = (run m kill w).1 in
          ((run m kill w).0 ≡ ok tt)
          × ((i : ℕ) → m.disk state.scratch w' i ≡ m.disk state.virgin w' i)
  run_succeeds_restored kill w rs loads on reports tracked carries =
      let succeeds = run_succeeds kill w rs loads on reports tracked carries in
      (
        succeeds,
        λ i.
            run_restores_reported m state pair virgin_kept scratch_kept positive small kill w i rs
              loads on reports tracked
              (Carries-HonestCopy m state.virgin state.scratch
                (blocks_copy_config state.granularity) (prepare_chunks rs state.granularity)
                carries)
              succeeds,
      )
