-- ===== src/Commands/FullRecover/Restores.antt =====
-- `full_recover_state` of src/commands/full_recover.rs and the contents of the volumes.
use schelk.Base.{ℕ, ◌+◌, ◌<◌, ◌≡◌, sym, ap, ◌∙◌, Bool, List, ok}
use schelk.Base.Words.{u64_mod}
use schelk.Io.Chunks.{sequential_chunks, full_copy_chunk_size}
use schelk.Io.Volume.{get_size, full_copy, full_copy_config, hash_superblock}
use schelk.Io.Volume.Exact.{IsVolumePair, HonestCopy}
use schelk.Io.Volume.Full.{QueriesKeep, full_copy_exact, get_size-full_copy}
use schelk.Machine.{Machine, AppState, read}
use schelk.Effect.{◌>>◌, ◌>>=◌}
use schelk.Effect.Laws.{bind_ok, seq_ok}
use schelk.Env.{confirm}
use schelk.State.{save}
use schelk.State.Disks.{FilesKeep, save-disk}
use schelk.Commands.InitCommon.{validate_volumes}
use schelk.Commands.Promote.Commits.{ReadsKeep, hash_superblock-disk}
use schelk.Commands.FullRecover.{full_recover_state}

-- The world in which the copy starts.
abbrev pub before_copy : (m : Machine) → AppState → Bool → m.World → m.World
before_copy m state skip w =
    (confirm m skip (validate_volumes m state.virgin read state.scratch w).1).1

module _ (m : Machine) (state : AppState) (pair : IsVolumePair m state.virgin state.scratch)
    (queries : QueriesKeep m state.virgin) (virgin_kept : FilesKeep m state.virgin)
    (scratch_kept : FilesKeep m state.scratch) (virgin_read : ReadsKeep m state.virgin)
    (scratch_read : ReadsKeep m state.scratch) where
  -- If the full recovery succeeds, every byte of the scratch volume below the size of the virgin
  -- volume is that of the virgin volume: for a size that can be rounded up within a u64, and a kernel
  -- that reads and writes as documented and answers operations in flight, in any order, where asking for a
  -- size, reading a superblock and writing the state file change neither volume.
  pub full_recover_state_restores :
      (skip : Bool) (w : m.World) (size i : ℕ)
      → size + 4095 < u64_mod
      → i < size
      → (get_size m state.virgin (before_copy m state skip w)).0 ≡ ok size
      → HonestCopy m state.virgin state.scratch full_copy_config
          (sequential_chunks size full_copy_chunk_size)
      → (full_recover_state m state skip w).0 ≡ ok tt
      → let w' = (full_recover_state m state skip w).1 in
        m.disk state.scratch w' i ≡ m.disk state.virgin w' i
  unfolding full_recover_state
  full_recover_state_restores skip w size i fits inside sized honest e =
      let new = λ (hash : List ℕ). record state { virgin_superblock_hash = hash } in
      let hashed = hash_superblock m state.virgin in
      let record_it = hashed >>= λ hash. save m (new hash) in
      let copy = full_copy m state.virgin state.scratch in
      let validate = validate_volumes m state.virgin read state.scratch in
      let (n, validated, rest, last) =
        seq_ok validate (confirm m skip >> (copy >> record_it)) w tt e in
      let w1 = (validate w).1 in
      let (u, confirmed, rest1, last1) = seq_ok (confirm m skip) (copy >> record_it) w1 tt rest in
      let w2 = before_copy m state skip w in
      let (total, copied, rest2, last2) = seq_ok copy record_it w2 tt rest1 in
      let w3 = (copy w2).1 in
      let (hash, read_back, rest3, last3) =
        bind_ok hashed (λ hash. save m (new hash)) w3 tt rest2 in
      let w4 = (hashed w3).1 in
      let whole = last ∙ last1 ∙ last2 ∙ last3 in
      let returned = get_size-full_copy m state.virgin state.scratch pair queries total w2 copied in
      let same : total ≡ size = cc in
      let (there, here) =
        full_copy_exact m state.virgin state.scratch pair queries size i w2 fits inside honest
          (copied ∙ ap ok same) in
      let scratch_same =
        save-disk m state.scratch scratch_kept (new hash) w4
        ∙ hash_superblock-disk m state.scratch scratch_kept scratch_read state.virgin hash w3
            read_back in
      let virgin_same =
        save-disk m state.virgin virgin_kept (new hash) w4
        ∙ hash_superblock-disk m state.virgin virgin_kept virgin_read state.virgin hash w3
            read_back in
      ap (λ v. m.disk state.scratch v i) whole
      ∙ ap (λ b. b i) scratch_same
      ∙ there
      ∙ sym here
      ∙ sym (ap (λ b. b i) virgin_same)
      ∙ sym (ap (λ v. m.disk state.virgin v i) whole)
