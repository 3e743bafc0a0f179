-- ===== src/Commands/Recover/Misaligned.antt =====
-- `schelk recover` (src/commands/recover.rs) where the alignment check of `run_copy` (src/io/uring.rs)
-- refuses the changed blocks.
use schelk.Base.{
  arith, ℕ, ◌*◌, ◌%◌, ◌<◌, ◌≡◌, ◌≢◌, ap, ◌∙◌, Bool, true, false, List, [], ◌∷◌, some, none, ok, err,
  if◌then◌else◌, All, Result,
}
use schelk.Error.{Error, misaligned}
use schelk.Machine.{Machine, FilePath, Access, AppState, read, write}
use schelk.Effect.{M, pure, ◌>>=◌, ◌>>◌, continue}
use schelk.Effect.Gives.{bind_next, seq_next}
use schelk.Env.{require_root}
use schelk.State.{load, lock, save}
use schelk.State.Loaded.{before_load, with_state}
use schelk.Io.Chunks.{BlockRange, prepare_chunks, total_blocks}
use schelk.Io.Chunks.Merge.{Fits}
use schelk.Io.Copy.Aligned.{run_workers-misaligned}
use schelk.Io.Volume.{copy_blocks, run_copy, open_direct, copy_chunks, blocks_copy_config, returned}
use schelk.Commands.Recover.{
  check_tracked, unmount_mounted, collect_changed, recover_state, run_locked, run,
}
use schelk.Commands.Recover.Restores.{before_collect, after_collect}
use schelk.Commands.Recover.Whole.{recovering}
use schelk.Commands.Recover.Reported.{Reports}
use schelk.Commands.Recover.Healthy.{
  IsHealthy, require_root-Gives, lock-Gives, check_tracked-Gives, unmount_mounted-Gives,
  collect_changed_gives,
}

-- The devices can be opened for direct access.
abbrev pub IsOpening : Machine → Type 0
IsOpening m = (a : Access) (p : FilePath) (w : m.World) → (m.open_direct a p w).0 ≡ ok tt

-- An error is passed on.
fail_next :
    {W A B : Type 0} (f : A → M W B) (x : Result Error A × W) (e : Error)
    → x.0 ≡ err e
    → (continue f x).0 ≡ err e
fail_next f (ok a, w) e h = absurd (cc)
fail_next f (err d, w) e h = let same : d ≡ e = cc in ap err same

module _ (m : Machine) (opens : IsOpening m) (src dst : FilePath) where
  run_copy-misaligned :
      (rs : List BlockRange) (g : ℕ) (w : m.World)
      → 0 < g
      → All (Fits g) rs
      → (total_blocks rs * g) % 4096 ≢ 0
      → (run_copy m src dst (prepare_chunks rs g) (blocks_copy_config g) w).0 ≡ err misaligned
  unfolding run_copy open_direct copy_chunks
  run_copy-misaligned rs g w p f n =
      let c = blocks_copy_config g in
      let w1 = (m.open_direct read src w).1 in
      let w2 = (m.open_direct write dst w1).1 in
      let rig = m.rig src dst c (prepare_chunks rs g) w2 in
      rw (opens read src w, opens write dst w1)
        (ap (λ out. returned m out.result)
          (run_workers-misaligned rig c (m.disk src w2) (m.disk dst w2) rs g p f n))

  copy_blocks-misaligned :
      (rs : List BlockRange) (g : ℕ) (w : m.World)
      → 0 < g
      → All (Fits g) rs
      → (total_blocks rs * g) % 4096 ≢ 0
      → (copy_blocks m src dst rs g w).0 ≡ err misaligned
  unfolding copy_blocks
  copy_blocks-misaligned [] g w p f n = absurd (n (omega arith))
  copy_blocks-misaligned (r ∷ rs) g w p f n =
      fail_next _ (run_copy m src dst (prepare_chunks (r ∷ rs) g) (blocks_copy_config g) w)
        misaligned (run_copy-misaligned (r ∷ rs) g w p f n)

module _ (m : Machine) (h : IsHealthy m) (opens : IsOpening m) (state : AppState)
    (positive : 0 < state.granularity) where
  recover_state-misaligned :
      (kill : Bool) (w : m.World) (rs : List BlockRange)
      → Reports m state rs (before_collect m state kill w)
      → All (Fits state.granularity) rs
      → (total_blocks rs * state.granularity) % 4096 ≢ 0
      → (recover_state m state kill w).0 ≡ err misaligned
  unfolding recover_state
  recover_state-misaligned kill w rs reports fits odd =
      let saved = save m (record state { is_mounted = false; current_era = none }) in
      let copy = λ (changed : List BlockRange).
        copy_blocks m state.virgin state.scratch changed state.granularity in
      let finish = λ (changed : List BlockRange). copy changed >> saved in
      let collect = collect_changed m state in
      let unmount = unmount_mounted m state kill in
      let w1 = (check_tracked m state w).1 in
      let w2 = before_collect m state kill w in
      let w3 = after_collect m state kill w in
      seq_next (check_tracked m state) (unmount >> (collect >>= finish)) w
        ((check_tracked-Gives m h state).at w)
      ∙ seq_next unmount (collect >>= finish) w1 ((unmount_mounted-Gives m h state kill).at w1)
      ∙ bind_next collect finish w2 rs (collect_changed_gives m h state rs w2 reports)
      ∙ fail_next (λ _. saved) (copy rs w3) misaligned
          (copy_blocks-misaligned m opens state.virgin state.scratch rs state.granularity w3
            positive fits odd)

  -- If `schelk recover` loads a mounted state and era_invalidate prints a report of ranges which
  -- together are no multiple of 4096 bytes, then the command fails with the error that a chunk is not
  -- aligned: for a positive granularity and ranges whose byte bounds fit into a u64, on a machine on
  -- which every call of the recovery and every program succeeds and every device opens for direct
  -- access, whatever the kernel does in the copy.
  pub run-misaligned :
      (kill : Bool) (w : m.World) (rs : List BlockRange)
      → (load m (before_load m w)).0 ≡ ok (some state)
      → state.is_mounted ≡ true
      → Reports m state rs (before_collect m state kill (load m (before_load m w)).1)
      → All (Fits state.granularity) rs
      → (total_blocks rs * state.granularity) % 4096 ≢ 0
      → (run m kill w).0 ≡ err misaligned
  unfolding run run_locked
  run-misaligned kill w rs loads on reports fits odd =
      let finish = with_state m (recovering m state kill) in
      let v = (require_root m w).1 in
      let w0 = before_load m w in
      let w1 = (load m w0).1 in
      seq_next (require_root m) (lock m >> run_locked m kill) w ((require_root-Gives m h).at w)
      ∙ seq_next (lock m) (run_locked m kill) v ((lock-Gives m h).at v)
      ∙ bind_next (load m) finish w0 (some state) loads
      ∙ ap (λ b. ((if b then recover_state m state kill else pure tt) w1).0) on
      ∙ recover_state-misaligned kill w1 rs reports fits odd
