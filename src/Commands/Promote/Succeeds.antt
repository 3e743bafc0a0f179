-- ===== src/Commands/Promote/Succeeds.antt =====
-- `schelk promote` (src/commands/promote.rs) on a machine on which every call does what it is asked.
use schelk.Base.{ℕ, ◌%◌, ◌≤◌, ◌<◌, ◌^◌, ◌≡◌, refl, ap, ◌∙◌, Bool, true, false, List, some, none, ok}
use schelk.Error.{not_mounted}
use schelk.Machine.{Machine, FilePath, AppState}
use schelk.Effect.{ensure, passed, ◌>>=◌, ◌>>◌}
use schelk.Effect.Gives.{Gives, gives_rules, bind_next, seq_next}
use schelk.Env.{require_root, confirm}
use schelk.State.{load, lock, save}
use schelk.State.Disks.{FilesKeep}
use schelk.State.Loaded.{before_load, with_state}
use schelk.Io.Chunks.{BlockRange, prepare_chunks}
use schelk.Io.Volume.{copy_blocks, blocks_copy_config, hash_superblock, read_superblock}
use schelk.Io.Volume.Exact.{IsVolumePair}
use schelk.Io.Volume.Succeeds.{Carries, Carries-HonestCopy, copy_blocks_succeeds}
use schelk.Commands.Recover.{check_tracked, unmount_mounted, collect_changed}
use schelk.Commands.Recover.Restores.{IsTracked}
use schelk.Commands.Recover.Reported.{Reports}
use schelk.Commands.Recover.Healthy.{
  IsHealthy, require_root-Gives, lock-Gives, save-Gives, check_tracked-Gives, unmount_mounted-Gives,
  collect_changed_gives,
}
use schelk.Commands.Promote.{promote_state, run}
use schelk.Commands.Promote.Commits.{ReadsKeep, before_collect, after_collect}
use schelk.Commands.Promote.Whole.{promoting, run_commits}

module _ (m : Machine) (h : IsHealthy m) (state : AppState)
    (reads : (p : FilePath) (n : ℕ) (w : m.World)
      → (bytes : List ℕ) × ((m.read_exact p n w).0 ≡ some bytes))
    (pair : IsVolumePair m state.scratch state.virgin) (virgin_kept : FilesKeep m state.virgin)
    (scratch_kept : FilesKeep m state.scratch) (virgin_read : ReadsKeep m state.virgin)
    (scratch_read : ReadsKeep m state.scratch) (positive : 0 < state.granularity)
    (small : state.granularity ≤ 2 ^ 30) (aligned : state.granularity % 4096 ≡ 0) where
  hash_superblock-Gives : (p : FilePath) → Gives (hash_superblock m p)
  unfolding hash_superblock read_superblock
  hash_superblock-Gives p = search (gives_rules, h.open_as, reads)

  -- With the flag -y nothing is asked.
  confirm-Gives : Gives (confirm m true)
  unfolding confirm
  confirm-Gives = record { at = λ w. (tt, refl) }

  promote_state_succeeds :
      (kill : Bool) (w : m.World) (rs : List BlockRange)
      → Reports m state rs (before_collect m state true kill w)
      → IsTracked m state rs (after_collect m state true kill w)
      → Carries m state.scratch state.virgin
          (blocks_copy_config state.granularity)
          (prepare_chunks rs state.granularity)
      → (promote_state m state true kill w).0 ≡ ok tt
  unfolding promote_state
  promote_state_succeeds kill w rs reports tracked carries =
      let new = λ (hash : List ℕ). record state {
        is_mounted = false;
        current_era = none;
        virgin_superblock_hash = hash;
      } in
      let hashed = hash_superblock m state.virgin in
      let record_it = hashed >>= λ hash. save m (new hash) in
      let copy = λ (changed : List BlockRange).
        copy_blocks m state.scratch state.virgin changed state.granularity in
      let finish = λ (changed : List BlockRange). copy changed >> record_it in
      let collect = collect_changed m state in
      let unmount = unmount_mounted m state kill in
      let w0 = (check_tracked m state w).1 in
      let w1 = (confirm m true w0).1 in
      let w2 = before_collect m state true kill w in
      let w3 = after_collect m state true kill w in
      let w4 = (copy rs w3).1 in
      let (total, copied, there) =
        copy_blocks_succeeds m state.scratch state.virgin pair rs state.granularity w3 positive
          small aligned tracked.fits carries in
      let (hash, read_back) = (hash_superblock-Gives state.virgin).at w4 in
      let (u, writes) = (save-Gives m h (new hash)).at (hashed w4).1 in
      seq_next (check_tracked m state) (confirm m true >> (unmount >> (collect >>= finish))) w
        ((check_tracked-Gives m h state).at w)
      ∙ seq_next (confirm m true) (unmount >> (collect >>= finish)) w0 (confirm-Gives.at w0)
      ∙ seq_next unmount (collect >>= finish) w1 ((unmount_mounted-Gives m h state kill).at w1)
      ∙ bind_next collect finish w2 rs (collect_changed_gives m h state rs w2 reports)
      ∙ seq_next (copy rs) record_it w3 (total, copied)
      ∙ bind_next hashed (λ hash. save m (new hash)) w4 hash read_back
      ∙ writes

  run_succeeds :
      (kill : Bool) (w : m.World) (rs : List BlockRange)
      → (load m (before_load m w)).0 ≡ ok (some state)
      → state.is_mounted ≡ true
      → let w1 = (load m (before_load m w)).1 in
        Reports m state rs (before_collect m state true kill w1)
        → IsTracked m state rs (after_collect m state true kill w1)
        → Carries m state.scratch state.virgin
            (blocks_copy_config state.granularity)
            (prepare_chunks rs state.granularity)
        → (run m true kill w).0 ≡ ok tt
  unfolding run promoting
  run_succeeds kill w rs loads on reports tracked carries =
      let finish = with_state m (promoting m state true kill) in
      let v = (require_root m w).1 in
      let w0 = before_load m w in
      let w1 = (load m w0).1 in
      let rest = promote_state m state true kill in
      seq_next (require_root m) (lock m >> (load m >>= finish)) w ((require_root-Gives m h).at w)
      ∙ seq_next (lock m) (load m >>= finish) v ((lock-Gives m h).at v)
      ∙ bind_next (load m) finish w0 (some state) loads
      ∙ seq_next (ensure state.is_mounted not_mounted) rest w1
          (tt, ap (λ b. passed b not_mounted) on)
      ∙ promote_state_succeeds kill w1 rs reports tracked carries

  -- If `schelk promote -y` loads a mounted state and era_invalidate prints a report of ranges outside
  -- of which the volumes are the same, then the command succeeds, and every byte of the virgin volume
  -- is that of the scratch volume: for a positive granularity that is a multiple of 4096 up to a
  -- gibibyte, on a machine on which every call of the promotion and every program succeeds, and the
  -- kernel does all that it is asked in the copy, as documented and in any order among the workers,
  -- where reading a superblock and writing the state file change neither volume.
  pub run_succeeds_committed :
      (kill : Bool) (w : m.World) (rs : List BlockRange)
      → (load m (before_load m w)).0 ≡ ok (some state)
      → state.is_mounted ≡ true
      → let w1 = (load m (before_load m w)).1 in
        Reports m state rs (before_collect m state true kill w1)
        → IsTracked m state rs (after_collect m state true kill w1)
        → Carries m state.scratch state.virgin
            (blocks_copy_config state.granularity)
            (prepare_chunks rs state.granularity)
        → let w' = (run m true kill w).1 in
          ((run m true kill w).0 ≡ ok tt)
          × ((i : ℕ) → m.disk state.virgin w' i ≡ m.disk state.scratch w' i)
  run_succeeds_committed kill w rs loads on reports tracked carries =
      let succeeds = run_succeeds kill w rs loads on reports tracked carries in
      let honest =
        Carries-HonestCopy m state.scratch state.virgin (blocks_copy_config state.granularity)
          (prepare_chunks rs state.granularity) carries in
      (
        succeeds,
        λ i.
            run_commits m state pair virgin_kept scratch_kept virgin_read scratch_read positive
              small true kill w i rs loads reports tracked honest succeeds,
      )
