-- ===== src/Commands/Promote/Commits.antt =====
-- `promote_state` of src/commands/promote.rs and the contents of the volumes.
use schelk.Base.{ℕ, ◌≤◌, ◌<◌, ◌^◌, ◌≡◌, sym, ap, ◌∙◌, false, Bool, List, ok, none}
use schelk.Error.{os_error}
use schelk.Io.Chunks.{BlockRange, prepare_chunks}
use schelk.Io.Volume.{copy_blocks, blocks_copy_config, hash_superblock}
use schelk.Io.Volume.Exact.{IsVolumePair, HonestCopy}
use schelk.Machine.{Machine, AppState, FilePath, read}
use schelk.Effect.{◌>>◌, ◌>>=◌, check, need, pure}
use schelk.Effect.Laws.{bind_ok, seq_ok}
use schelk.Env.{confirm}
use schelk.State.{save}
use schelk.State.Disks.{FilesKeep, save-disk}
use schelk.Commands.Recover.{check_tracked, unmount_mounted, collect_changed}
use schelk.Commands.Recover.Restores.{IsTracked, equal_again}
use schelk.Commands.Promote.{promote_state}

-- A superblock that is read stays what it is.
pub record ReadsKeep (m : Machine) (path : FilePath) : Type 0 where
  pub read_keeps :
      (p : FilePath) (len : ℕ) (w : m.World) → m.disk path (m.read_exact p len w).1 ≡ m.disk path w

module _ (m : Machine) (path : FilePath) (files : FilesKeep m path) (reads : ReadsKeep m path) where
  pub hash_superblock-disk :
      (p : FilePath) (hash : List ℕ) (w : m.World)
      → (hash_superblock m p w).0 ≡ ok hash
      → m.disk path (hash_superblock m p w).1 ≡ m.disk path w
  unfolding hash_superblock
  hash_superblock-disk p hash w e =
      let superblock = check (m.open_as read p) os_error >> need (m.read_exact p 4096) os_error in
      let (block, found, hashed, last) =
        bind_ok superblock (λ block. pure (m.sha256 block)) w hash e in
      let (u, opened, rest, last2) =
        seq_ok (check (m.open_as read p) os_error) (need (m.read_exact p 4096) os_error) w block
          found in
      ap (m.disk path) (last ∙ last2)
      ∙ reads.read_keeps p 4096 (m.open_as read p w).1
      ∙ (files.open_keeps read p).at w

-- The world in which the changed blocks are collected, and the one after it.
abbrev pub before_collect : (m : Machine) → AppState → Bool → Bool → m.World → m.World
before_collect m state skip kill w =
    (unmount_mounted m state kill (confirm m skip (check_tracked m state w).1).1).1

abbrev pub after_collect : (m : Machine) → AppState → Bool → Bool → m.World → m.World
after_collect m state skip kill w = (collect_changed m state (before_collect m state skip kill w)).1

module _ (m : Machine) (state : AppState) (pair : IsVolumePair m state.scratch state.virgin)
    (virgin_kept : FilesKeep m state.virgin) (scratch_kept : FilesKeep m state.scratch)
    (virgin_read : ReadsKeep m state.virgin) (scratch_read : ReadsKeep m state.scratch)
    (positive : 0 < state.granularity) (small : state.granularity ≤ 2 ^ 30) where
  -- If the promotion succeeds, every byte of the virgin volume is that of the scratch volume: for a
  -- positive granularity up to a gibibyte, a device that has tracked the changes, and a kernel that
  -- reads and writes as documented and answers operations in flight, in any order, where reading a
  -- superblock and writing the state file change neither volume.
  pub promote_state_commits :
      (skip kill : Bool) (w : m.World) (i : ℕ)
      → ((changed : List BlockRange)
          → (collect_changed m state (before_collect m state skip kill w)).0 ≡ ok changed
          → IsTracked m state changed (after_collect m state skip kill w)
            × HonestCopy m state.scratch state.virgin
                (blocks_copy_config state.granularity)
                (prepare_chunks changed state.granularity))
      → (promote_state m state skip kill w).0 ≡ ok tt
      → let w' = (promote_state m state skip kill w).1 in
        m.disk state.virgin w' i ≡ m.disk state.scratch w' i
  unfolding promote_state
  promote_state_commits skip kill w i tracked e =
      let new = λ (hash : List ℕ). record state {
        is_mounted = false;
        current_era = none;
        virgin_superblock_hash = hash;
      } in
      let hashed = hash_superblock m state.virgin in
      let record_it = hashed >>= λ hash. save m (new hash) in
      let copy = λ (changed : List BlockRange).
        copy_blocks m state.scratch state.virgin changed state.granularity in
      let finish = λ (changed : List BlockRange). copy changed >> record_it in
      let collect = collect_changed m state in
      let unmount = unmount_mounted m state kill in
      let (u, checked, rest, last) =
        seq_ok (check_tracked m state) (confirm m skip >> (unmount >> (collect >>= finish))) w tt
          e in
      let w0 = (check_tracked m state w).1 in
      let (t, confirmed, rest1, last1) =
        seq_ok (confirm m skip) (unmount >> (collect >>= finish)) w0 tt rest in
      let w1 = (confirm m skip w0).1 in
      let (v, unmounted, rest2, last2) = seq_ok unmount (collect >>= finish) w1 tt rest1 in
      let w2 = before_collect m state skip kill w in
      let (changed, collected, rest3, last3) = bind_ok collect finish w2 tt rest2 in
      let w3 = after_collect m state skip kill w in
      let (total, copied, rest4, last4) = seq_ok (copy changed) record_it w3 tt rest3 in
      let w4 = (copy changed w3).1 in
      let (hash, read_back, rest5, last5) =
        bind_ok hashed (λ hash. save m (new hash)) w4 tt rest4 in
      let w5 = (hashed w4).1 in
      let whole = last ∙ last1 ∙ last2 ∙ last3 ∙ last4 ∙ last5 in
      let (kept, honest) = tracked changed collected in
      let virgin_same =
        save-disk m state.virgin virgin_kept (new hash) w5
        ∙ hash_superblock-disk m state.virgin virgin_kept virgin_read state.virgin hash w4
            read_back in
      let scratch_same =
        save-disk m state.scratch scratch_kept (new hash) w5
        ∙ hash_superblock-disk m state.scratch scratch_kept scratch_read state.virgin hash w4
            read_back in
      ap (λ v. m.disk state.virgin v i) whole
      ∙ ap (λ b. b i) virgin_same
      ∙ equal_again m state.scratch state.virgin pair changed state.granularity total i w3 positive
          small kept.fits honest (λ outside. sym (kept.unchanged i outside)) copied
      ∙ sym (ap (λ b. b i) scratch_same)
      ∙ sym (ap (λ v. m.disk state.scratch v i) whole)
