-- ===== src/Io/Volume.antt =====
-- src/io/mod.rs and src/volume.rs: sizes, superblocks and access of volumes, and the copies between
-- them as src/io/uring.rs runs them.
pub mod Exact
pub mod Zero
pub mod Full
pub mod Total
pub mod Succeeds
use schelk.Base.{
  ℕ, zero, suc, ◌+◌, ◌-◌, ◌*◌, min, true, false, List, [], ◌∷◌, Option, none, some, ltb,
  if◌then◌else◌, Result, ok, err,
}
use schelk.Base.Words.{add64, mul64}
use schelk.Error.{
  Error, os_error, unknown_size, not_a_block_device, device_in_use, hung, command_failed,
}
use schelk.Machine.{Machine, FilePath, Metadata, Access, read, write, Errno, ebusy, other}
use schelk.Effect.{M, pure, ◌>>=◌, ◌>>◌, ask, check, need, ensure}
use schelk.Io.Chunks.{
  BlockRange, CopyChunk, sequential_chunks, prepare_chunks, full_copy_chunk_size, blocks_slot_size,
}
use schelk.Io.Ring.{Config}
use schelk.Io.Copy.{run_workers}

abbrev pub full_copy_config : Config
full_copy_config = record { sq_depth = 256; slots_per_ring = 64; slot_size = full_copy_chunk_size }

unfoldable pub blocks_copy_config : ℕ → Config
unfolding blocks_slot_size
blocks_copy_config granularity = record {
  sq_depth = 512;
  slots_per_ring = 128;
  slot_size = blocks_slot_size granularity;
}

-- blocks.iter().map(|r| r.len).sum()
abbrev pub sum_blocks : List BlockRange → ℕ
sum_blocks [] = 0
sum_blocks (r ∷ rs) = add64 r.len (sum_blocks rs)

module _ (m : Machine) where
  open m use {World}

  abbrev pub positive : Option Metadata → Option ℕ
  positive none = none
  positive (some data_of) = if ltb 0 data_of.len then some data_of.len else none

  abbrev pub or_seek : FilePath → Option ℕ → M World ℕ
  or_seek path (some size) = pure size
  or_seek path none = need (m.seek_end path) unknown_size

  -- The length in the metadata, or for a block device, where that is 0, the seek to the end.
  unfoldable pub get_size : FilePath → M World ℕ
  get_size path = do
    check (m.open_as read path) os_error
    found ← ask (m.metadata path)
    or_seek path (positive found)

  unfoldable pub read_superblock : FilePath → M World (List ℕ)
  read_superblock path = do
    check (m.open_as read path) os_error
    need (m.read_exact path 4096) os_error

  unfoldable pub hash_superblock : FilePath → M World (List ℕ)
  unfolding read_superblock
  hash_superblock path = do superblock ← read_superblock path; pure (m.sha256 superblock)

  -- The loop `while written < size`, with fuel for a round per byte.
  unfoldable pub zero_loop : ℕ → FilePath → ℕ → ℕ → M World (Unit {0})
  zero_loop zero path size written = pure tt
  zero_loop (suc fuel) path size written = elim (ltb written size) [
    | false ↦ pure tt
    | true ↦
        let to_write = min (1024 * 1024) (size - written) in
        check (m.write_zeros path written to_write) os_error
        >> zero_loop fuel path size (written + to_write)
  ]

  unfoldable pub zero_device : FilePath → M World (Unit {0})
  unfolding get_size zero_loop
  zero_device path = do
    size ← get_size path
    check (m.open_as write path) os_error
    zero_loop size path size 0
    check (m.sync_all path) os_error

  unfoldable pub validate_block_device : FilePath → Access → M World (Unit {0})
  validate_block_device path access = do
    found ← need (m.metadata path) os_error
    ensure found.is_block_device not_a_block_device
    check (m.open_as access path) os_error

  unfoldable pub mkfs_ext4 : FilePath → M World (Unit {0})
  mkfs_ext4 path = do
    output ← need (m.exec "mkfs.ext4" ("-F" ∷ "-b" ∷ "4096" ∷ "-L" ∷ "schelk" ∷ path ∷ [])) os_error
    ensure output.success command_failed

  abbrev opened : Result Errno (Unit {0}) → Result Error (Unit {0})
  opened (ok u) = ok u
  opened (err ebusy) = err device_in_use
  opened (err other) = err os_error

  -- open with O_DIRECT and O_EXCL
  unfoldable pub open_direct : FilePath → Access → M World (Unit {0})
  open_direct path access w = let (result, w') = m.open_direct access path w in (opened result, w')

  abbrev pub returned : Option (Result Error (Unit {0})) → Result Error (Unit {0})
  returned none = err hung
  returned (some result) = result

  -- The workers, from the contents of the devices: the destination is changed.
  unfoldable pub copy_chunks : FilePath → FilePath → List CopyChunk → Config → M World (Unit {0})
  copy_chunks src dst chunks c w =
      let out = run_workers (m.rig src dst c chunks w) c (m.disk src w) chunks (m.disk dst w) in
      (returned out.result, m.set_disk dst out.shared.dst w)

  unfoldable pub run_copy : FilePath → FilePath → List CopyChunk → Config → M World (Unit {0})
  unfolding open_direct copy_chunks
  run_copy src dst chunks c = do
    open_direct src read
    open_direct dst write
    copy_chunks src dst chunks c

  -- All of the source, from its first byte on.
  unfoldable pub full_copy : FilePath → FilePath → M World ℕ
  unfolding get_size run_copy
  full_copy src dst = do
    size ← get_size src
    run_copy src dst (sequential_chunks size full_copy_chunk_size) full_copy_config
    pure size

  unfoldable pub copy_blocks : FilePath → FilePath → List BlockRange → ℕ → M World ℕ
  unfolding run_copy blocks_copy_config
  copy_blocks src dst [] granularity = pure 0
  copy_blocks src dst (r ∷ rs) granularity = do
    run_copy src dst (prepare_chunks (r ∷ rs) granularity) (blocks_copy_config granularity)
    pure (mul64 (sum_blocks (r ∷ rs)) granularity)
