-- ===== src/Session/Initial.antt =====
-- The whole of `schelk init-from` (src/commands/init_from.rs): the volumes and the stored state.
use schelk.Base.{ℕ, ◌+◌, ◌<◌, ◌≡◌, refl, sym, ap, ◌∙◌, Bool, false, List, ok}
use schelk.Base.Text.{String}
use schelk.Base.Words.{u64_mod}
use schelk.Machine.{Machine, read}
use schelk.Effect.{M, pure, ◌>>=◌, ◌>>◌}
use schelk.Effect.Laws.{bind_ok, seq_ok}
use schelk.Env.{confirm}
use schelk.State.{save}
use schelk.State.Disks.{FilesKeep, save-disk}
use schelk.Io.Chunks.{sequential_chunks, full_copy_chunk_size}
use schelk.Io.Volume.{get_size, full_copy, full_copy_config, hash_superblock}
use schelk.Io.Volume.Exact.{IsVolumePair, HonestCopy}
use schelk.Io.Volume.Full.{QueriesKeep, full_copy_exact, get_size-full_copy}
use schelk.Ramdisk.{validate_size}
use schelk.Commands.InitCommon.{
  InitArgs, initial_state, check_arguments, confirm_reinitialize, validate_volumes,
}
use schelk.Commands.InitFrom
use schelk.Commands.InitFrom.{copy_unless}
use schelk.Commands.Promote.Commits.{ReadsKeep, hash_superblock-disk}
use schelk.Cli.{init_from, run_command}
use schelk.Session.Spec.{described}
use schelk.Session.Stored.{StateFile}
use schelk.Session.Main.{run_command-Does}
use schelk.Session.Cycles.{IsReady}

module _ (m : Machine) (args : InitArgs) (pair : IsVolumePair m args.virgin args.scratch)
    (queries : QueriesKeep m args.virgin) (virgin_kept : FilesKeep m args.virgin)
    (scratch_kept : FilesKeep m args.scratch) (virgin_read : ReadsKeep m args.virgin)
    (scratch_read : ReadsKeep m args.scratch) where
  record_it : String → M m.World (Unit {0})
  record_it fstype =
      hash_superblock m args.virgin >>= λ hash. save m (initial_state args fstype hash)

  -- The last part, from the copy on.
  copy_records :
      (fstype : String) (w : m.World) (size i : ℕ)
      → size + 4095 < u64_mod
      → i < size
      → (get_size m args.virgin w).0 ≡ ok size
      → HonestCopy m args.virgin args.scratch full_copy_config
          (sequential_chunks size full_copy_chunk_size)
      → ((copy_unless m false args.virgin args.scratch >> record_it fstype) w).0 ≡ ok tt
      → let w' = ((copy_unless m false args.virgin args.scratch >> record_it fstype) w).1 in
        m.disk args.scratch w' i ≡ m.disk args.virgin w' i
  unfolding copy_unless record_it
  copy_records fstype w size i fits inside sized honest e =
      let new = λ (hash : List ℕ). save m (initial_state args fstype hash) in
      let hashed = hash_superblock m args.virgin in
      let copy = full_copy m args.virgin args.scratch in
      let drop = λ (_ : ℕ). pure {W = m.World} tt in
      let (u, copies, rest, last) = seq_ok (copy >>= drop) (hashed >>= new) w tt e in
      let (total, copied, dropped, last1) = bind_ok copy drop w u copies in
      let w1 = (copy w).1 in
      let w2 = ((copy >>= drop) w).1 in
      let (hash, read_back, saved, last2) = bind_ok hashed new w2 tt rest in
      let w3 = (hashed w2).1 in
      let whole = last ∙ last2 in
      let returned = get_size-full_copy m args.virgin args.scratch pair queries total w copied in
      let same : total ≡ size = cc in
      let (there, here) =
        full_copy_exact m args.virgin args.scratch pair queries size i w fits inside honest
          (copied ∙ ap ok same) in
      let state = initial_state args fstype hash in
      let scratch_same =
        save-disk m args.scratch scratch_kept state w3
        ∙ hash_superblock-disk m args.scratch scratch_kept scratch_read args.virgin hash w2
            read_back
        ∙ ap (m.disk args.scratch) last1 in
      let virgin_same =
        save-disk m args.virgin virgin_kept state w3
        ∙ hash_superblock-disk m args.virgin virgin_kept virgin_read args.virgin hash w2 read_back
        ∙ ap (m.disk args.virgin) last1 in
      ap (λ v. m.disk args.scratch v i) whole
      ∙ ap (λ b. b i) scratch_same
      ∙ there
      ∙ sym here
      ∙ sym (ap (λ b. b i) virgin_same)
      ∙ sym (ap (λ v. m.disk args.virgin v i) whole)

  run_copies :
      (fstype : String) (skip : Bool) (w : m.World) (size i : ℕ)
      → size + 4095 < u64_mod
      → i < size
      → ((v : m.World) → (get_size m args.virgin v).0 ≡ ok size)
      → HonestCopy m args.virgin args.scratch full_copy_config
          (sequential_chunks size full_copy_chunk_size)
      → (InitFrom.run m args fstype false skip w).0 ≡ ok tt
      → let w' = (InitFrom.run m args fstype false skip w).1 in
        m.disk args.scratch w' i ≡ m.disk args.virgin w' i
  unfolding InitFrom.run record_it
  run_copies fstype skip w size i fits inside sized honest e =
      let finish = copy_unless m false args.virgin args.scratch >> record_it fstype in
      let agreed = confirm m skip >> finish in
      let roomy = λ (n : ℕ). validate_size m args.ramdisk n args.granularity >> agreed in
      let validate = validate_volumes m args.virgin read args.scratch in
      let again = confirm_reinitialize m skip in
      let (u, checked, rest, last) =
        seq_ok (check_arguments m args) (again >> (validate >>= roomy)) w tt e in
      let w1 = (check_arguments m args w).1 in
      let (u1, asked, rest1, last1) = seq_ok again (validate >>= roomy) w1 tt rest in
      let w2 = (again w1).1 in
      let (n, valid, rest2, last2) = bind_ok validate roomy w2 tt rest1 in
      let w3 = (validate w2).1 in
      let (u3, fine, rest3, last3) =
        seq_ok (validate_size m args.ramdisk n args.granularity) agreed w3 tt rest2 in
      let w4 = (validate_size m args.ramdisk n args.granularity w3).1 in
      let (u4, agrees, rest4, last4) = seq_ok (confirm m skip) finish w4 tt rest3 in
      let w5 = (confirm m skip w4).1 in
      let whole = last ∙ last1 ∙ last2 ∙ last3 ∙ last4 in
      ap (λ v. m.disk args.scratch v i) whole
      ∙ copy_records fstype w5 size i fits inside (sized w5) honest rest4
      ∙ sym (ap (λ v. m.disk args.virgin v i) whole)

  -- If `schelk init-from` succeeds with a copy, then a state of its arguments is stored, unmounted and with
  -- some hash, and the scratch volume has the contents of the virgin volume up to the size of that, so
  -- that cycles of `mount` and `recover` can begin: for a size that can be rounded up within a u64, and a
  -- kernel that reads and writes as documented and answers operations in flight, in any order, where asking
  -- for a size, reading a superblock and writing the state file change neither volume, and the calls are
  -- as `StateFile` says.
  pub init_from-IsReady :
      (f : StateFile m) (fstype : String) (skip : Bool) (w : m.World) (size : ℕ)
      → size + 4095 < u64_mod
      → ((v : m.World) → (get_size m args.virgin v).0 ≡ ok size)
      → HonestCopy m args.virgin args.scratch full_copy_config
          (sequential_chunks size full_copy_chunk_size)
      → (run_command m skip (init_from args fstype false) w).0 ≡ ok tt
      → let w' = (run_command m skip (init_from args fstype false) w).1 in
        (hash : List ℕ) × IsReady m f (described args fstype hash) size (m.disk args.virgin w') w'
  unfolding run_command
  init_from-IsReady f fstype skip w size fits sized honest e =
      let (hash, valid, there) = run_command-Does m f skip (init_from args fstype false) w e in
      (
        hash,
        record {
          there = there;
          virgin = refl;
          scratch = λ i inside. run_copies fstype skip w size i fits inside sized honest e;
        },
      )
