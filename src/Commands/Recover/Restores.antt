-- ===== src/Commands/Recover/Restores.antt =====
-- `recover_state` of src/commands/recover.rs and the contents of the volumes.
use schelk.Base.{
  ℕ, ◌/◌, ◌≤◌, ◌<◌, ◌^◌, ◌≡◌, sym, ap, ◌∙◌, false, Bool, List, Bool-cases, inl, inr, All, ok,
  if◌then◌else◌, none,
}
use schelk.Io.Chunks.{BlockRange, has_block, prepare_chunks}
use schelk.Io.Chunks.Merge.{Fits}
use schelk.Io.Volume.{copy_blocks, blocks_copy_config}
use schelk.Io.Volume.Exact.{IsVolumePair, HonestCopy, copy_blocks_exact}
use schelk.Machine.{Machine, FilePath, AppState}
use schelk.Effect.{◌>>◌, ◌>>=◌}
use schelk.Effect.Laws.{bind_ok, seq_ok}
use schelk.State.{save}
use schelk.State.Disks.{FilesKeep, save-disk}
use schelk.Commands.Recover.{check_tracked, unmount_mounted, collect_changed, recover_state}

module _ (m : Machine) (src dst : FilePath) (pair : IsVolumePair m src dst) where
  -- Volumes that differ in the blocks of the ranges at most are equal after a copy of the ranges.
  pub equal_again :
      (rs : List BlockRange) (g total i : ℕ) (w : m.World)
      → 0 < g
      → g ≤ 2 ^ 30
      → All (Fits g) rs
      → HonestCopy m src dst (blocks_copy_config g) (prepare_chunks rs g)
      → (has_block rs (i / g) ≡ false → m.disk dst w i ≡ m.disk src w i)
      → (copy_blocks m src dst rs g w).0 ≡ ok total
      → m.disk dst (copy_blocks m src dst rs g w).1 i
        ≡ m.disk src (copy_blocks m src dst rs g w).1 i
  equal_again rs g total i w p small f h same e =
      let exact = copy_blocks_exact m src dst pair rs g total i w p small f h e in
      elim (Bool-cases (has_block rs (i / g))) [
        | inl changed ↦
            exact.0 ∙ ap (λ b. if b then m.disk src w i else m.disk dst w i) changed ∙ sym exact.1
        | inr unchanged ↦
            exact.0
            ∙ ap (λ b. if b then m.disk src w i else m.disk dst w i) unchanged
            ∙ same unchanged
            ∙ sym exact.1
      ]

-- The world in which the changed blocks are collected, and the one after it.
abbrev pub before_collect : (m : Machine) → AppState → Bool → m.World → m.World
before_collect m state kill w = (unmount_mounted m state kill (check_tracked m state w).1).1

abbrev pub after_collect : (m : Machine) → AppState → Bool → m.World → m.World
after_collect m state kill w = (collect_changed m state (before_collect m state kill w)).1

-- The promise of dm-era: of the ranges that it reports, the byte bounds fit into a u64, and outside
-- of them scratch still has the contents of virgin.
pub record IsTracked (m : Machine) (state : AppState) (changed : List BlockRange) (w : m.World)
    : Type 0 where
  pub fits : All (Fits state.granularity) changed
  pub unchanged :
      (i : ℕ)
      → has_block changed (i / state.granularity) ≡ false
      → m.disk state.scratch w i ≡ m.disk state.virgin w i

module _ (m : Machine) (state : AppState) (pair : IsVolumePair m state.virgin state.scratch)
    (virgin_kept : FilesKeep m state.virgin) (scratch_kept : FilesKeep m state.scratch)
    (positive : 0 < state.granularity) (small : state.granularity ≤ 2 ^ 30) where
  -- If the recovery succeeds, every byte of the scratch volume is that of the virgin volume: for a
  -- positive granularity up to a gibibyte, a device that has tracked the changes, and a kernel that
  -- reads and writes as documented and answers operations in flight, in any order, where writing the
  -- state file changes neither volume.
  pub recover_state_restores :
      (kill : Bool) (w : m.World) (i : ℕ)
      → ((changed : List BlockRange)
          → (collect_changed m state (before_collect m state kill w)).0 ≡ ok changed
          → IsTracked m state changed (after_collect m state kill w)
            × HonestCopy m state.virgin state.scratch
                (blocks_copy_config state.granularity)
                (prepare_chunks changed state.granularity))
      → (recover_state m state kill w).0 ≡ ok tt
      → let w' = (recover_state m state kill w).1 in
        m.disk state.scratch w' i ≡ m.disk state.virgin w' i
  unfolding recover_state
  recover_state_restores kill w i tracked e =
      let saved = save m (record state { is_mounted = false; current_era = none }) in
      let copy = λ (changed : List BlockRange).
        copy_blocks m state.virgin state.scratch changed state.granularity in
      let finish = λ (changed : List BlockRange). copy changed >> saved in
      let collect = collect_changed m state in
      let (u, checked, rest, last) =
        seq_ok (check_tracked m state) (unmount_mounted m state kill >> (collect >>= finish)) w tt
          e in
      let w1 = (check_tracked m state w).1 in
      let (v, unmounted, rest2, last2) =
        seq_ok (unmount_mounted m state kill) (collect >>= finish) w1 tt rest in
      let w2 = before_collect m state kill w in
      let (changed, collected, rest3, last3) = bind_ok collect finish w2 tt rest2 in
      let w3 = after_collect m state kill w in
      let (total, copied, rest4, last4) = seq_ok (copy changed) saved w3 tt rest3 in
      let w4 = (copy changed w3).1 in
      let whole = last ∙ last2 ∙ last3 ∙ last4 in
      let (kept, honest) = tracked changed collected in
      let new = record state { is_mounted = false; current_era = none } in
      ap (λ v. m.disk state.scratch v i) whole
      ∙ ap (λ b. b i) (save-disk m state.scratch scratch_kept new w4)
      ∙ equal_again m state.virgin state.scratch pair changed state.granularity total i w3 positive
          small kept.fits honest (kept.unchanged i) copied
      ∙ sym (ap (λ b. b i) (save-disk m state.virgin virgin_kept new w4))
      ∙ sym (ap (λ v. m.disk state.virgin v i) whole)
