-- ===== src/Session/Rebuild.antt =====
-- The whole of `schelk full-recover` (src/commands/full_recover.rs): the volumes and the stored state.
use schelk.Base.{ℕ, ◌+◌, ◌<◌, ◌≡◌, sym, ap, ◌∙◌, Bool, true, false, List, some, ok, if◌then◌else◌}
use schelk.Base.Words.{u64_mod}
use schelk.Machine.{Machine, AppState}
use schelk.Effect.{M, ◌>>=◌}
use schelk.Effect.Laws.{bind_ok}
use schelk.State.{load}
use schelk.State.Disks.{FilesKeep}
use schelk.State.Loaded.{before_load, loaded_lem}
use schelk.Io.Chunks.{sequential_chunks, full_copy_chunk_size}
use schelk.Io.Volume.{get_size, full_copy_config}
use schelk.Io.Volume.Exact.{IsVolumePair, HonestCopy}
use schelk.Io.Volume.Full.{QueriesKeep}
use schelk.Commands.Promote.Commits.{ReadsKeep}
use schelk.Commands.FullRecover
use schelk.Commands.FullRecover.{clear_stale, full_recover_state}
use schelk.Commands.FullRecover.Restores.{before_copy, full_recover_state_restores}
use schelk.Cli.{full_recover, run_command}
use schelk.Session.Stored.{StateFile, stored}
use schelk.Session.Spec.{recovered, unmounted}
use schelk.Session.Setup.{clear_stale_sound}
use schelk.Session.Loads.{run_loads}
use schelk.Session.Main.{run_command-Does}

-- The world in which the copy starts.
abbrev pub copy_starts : (m : Machine) → AppState → Bool → m.World → m.World
copy_starts m s skip w = before_copy m s skip (clear_stale m s (load m (before_load m w)).1).1

module _ (m : Machine) (f : StateFile m) (s : AppState) (pair : IsVolumePair m s.virgin s.scratch)
    (queries : QueriesKeep m s.virgin) (virgin_kept : FilesKeep m s.virgin)
    (scratch_kept : FilesKeep m s.scratch) (virgin_read : ReadsKeep m s.virgin)
    (scratch_read : ReadsKeep m s.scratch) where
  rebuilding : Bool → AppState → M m.World (Unit {0})
  rebuilding skip state = clear_stale m state >>= λ new. full_recover_state m new skip

  from_cleared :
      (b skip : Bool) (w : m.World) (size i : ℕ)
      → size + 4095 < u64_mod
      → i < size
      → (get_size m s.virgin (before_copy m s skip w)).0 ≡ ok size
      → HonestCopy m s.virgin s.scratch full_copy_config
          (sequential_chunks size full_copy_chunk_size)
      → (full_recover_state m (if b then unmounted s else s) skip w).0 ≡ ok tt
      → let w' = (full_recover_state m (if b then unmounted s else s) skip w).1 in
        m.disk s.scratch w' i ≡ m.disk s.virgin w' i
  from_cleared true =
      full_recover_state_restores m (unmounted s) pair queries virgin_kept scratch_kept virgin_read
        scratch_read
  from_cleared false =
      full_recover_state_restores m s pair queries virgin_kept scratch_kept virgin_read scratch_read

  -- If `schelk full-recover` succeeds from a stored state, then some hash is stored with the state, which is
  -- unmounted now if it was mounted, and every byte of the scratch volume below the size of the virgin volume is that of
  -- the virgin volume, whatever the scratch volume had before: for a size that can be rounded up within
  -- a u64, and a kernel that reads and writes as documented and answers operations in flight, in any
  -- order, where asking for a size, reading a superblock and writing the state file change neither
  -- volume, and the calls are as `StateFile` says.
  pub full_recover_rebuilds :
      (skip : Bool) (w : m.World) (size i : ℕ)
      → stored m f w ≡ some s
      → size + 4095 < u64_mod
      → i < size
      → (get_size m s.virgin (copy_starts m s skip w)).0 ≡ ok size
      → HonestCopy m s.virgin s.scratch full_copy_config
          (sequential_chunks size full_copy_chunk_size)
      → (run_command m skip full_recover w).0 ≡ ok tt
      → let w' = (run_command m skip full_recover w).1 in
        ((hash : List ℕ) × (stored m f w'
            ≡ some (record (recovered s) { virgin_superblock_hash = hash })))
        × (m.disk s.scratch w' i ≡ m.disk s.virgin w' i)
  unfolding run_command FullRecover.run rebuilding
  full_recover_rebuilds skip w size i was fits inside sized honest e =
      let (t, hash, there, now) = run_command-Does m f skip full_recover w e in
      let same : t ≡ s = cc in
      let loads = run_loads m f (rebuilding skip) w s was e in
      let (rebuilt, ends) = loaded_lem m (rebuilding skip) s w loads e in
      let w1 = (load m (before_load m w)).1 in
      let (new, cleared, rest, last) =
        bind_ok (clear_stale m s) (λ state. full_recover_state m state skip) w1 tt rebuilt in
      let w2 = (clear_stale m s w1).1 in
      let is_new = clear_stale_sound m f s new w1 cleared in
      let from = λ (state : AppState). full_recover_state m state skip w2 in
      let done = ends ∙ last ∙ sym (ap (λ state. (from state).1) is_new) in
      (
        (
          hash,
          now
              ∙ ap (λ state. some (record (recovered state) { virgin_superblock_hash = hash }))
                  same,
        ),
        ap (λ v. m.disk s.scratch v i) done
            ∙ from_cleared s.is_mounted skip w2 size i fits inside sized honest
                (ap (λ state. (from state).0) is_new ∙ rest)
            ∙ sym (ap (λ v. m.disk s.virgin v i) done),
      )
