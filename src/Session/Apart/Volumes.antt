-- ===== src/Session/Apart/Volumes.antt =====
-- src/volume.rs, src/io and src/ramdisk.rs, and the device that they are called for.
use schelk.Base.{
  ℕ, zero, suc, ◌+◌, ◌-◌, ◌*◌, min, Bool, true, false, List, [], ◌∷◌, Option, none, some, ltb, ok,
}
use schelk.Machine.{Machine, FilePath, Access}
use schelk.Effect.Keeps.{Keeps, keeps_rules, seq-Keeps, result-Keeps}
use schelk.Effect.{M, pure, check, ◌>>◌}
use schelk.Error.{os_error}
use schelk.Io.Chunks.{BlockRange, CopyChunk}
use schelk.Io.Ring.{Config}
use schelk.Io.Volume.{
  get_size, or_seek, read_superblock, hash_superblock, zero_loop, zero_device,
  validate_block_device, mkfs_ext4, open_direct, copy_chunks, run_copy, full_copy, copy_blocks,
}
use schelk.Ramdisk.{validate_size}
use schelk.Session.Apart.{IsApart, IsUnwritten}

module _ (m : Machine) {X : Type 0} (view : m.World → X) (apart : IsApart m view) where
  or_seek-Keeps : (p : FilePath) (o : Option ℕ) → Keeps view (or_seek m p o)
  or_seek-Keeps p (some size) = search keeps_rules
  or_seek-Keeps p none = search (keeps_rules, apart.seek_end)

  pub get_size-Keeps : (p : FilePath) → Keeps view (get_size m p)
  unfolding get_size
  get_size-Keeps p = search (keeps_rules, apart.open_as, apart.metadata, or_seek-Keeps)

  pub hash_superblock-Keeps : (p : FilePath) → Keeps view (hash_superblock m p)
  unfolding hash_superblock read_superblock
  hash_superblock-Keeps p = search (keeps_rules, apart.open_as, apart.read_exact)

  choose-Keeps :
      (b : Bool) (c d : M m.World (Unit {0}))
      → Keeps view c
      → Keeps view d
      → Keeps view (elim b [ false ↦ d | true ↦ c ])
  choose-Keeps true c d h k = h
  choose-Keeps false c d h k = k

  zero_loop-Keeps :
      (fuel : ℕ) (p : FilePath) (size written : ℕ)
      → IsUnwritten m view p
      → Keeps view (zero_loop m fuel p size written)
  unfolding zero_loop
  zero_loop-Keeps zero p size written spared = search keeps_rules
  zero_loop-Keeps (suc fuel) p size written spared =
      let to_write = min (1024 * 1024) (size - written) in
      let write_next = check (m.write_zeros p written to_write) os_error in
      let next = zero_loop m fuel p size (written + to_write) in
      choose-Keeps (ltb written size) (write_next >> next) (pure tt)
        (seq-Keeps write_next next (search (keeps_rules, spared.write_zeros))
          (zero_loop-Keeps fuel p size (written + to_write) spared))
        (result-Keeps (ok tt))

  pub zero_device-Keeps : (p : FilePath) → IsUnwritten m view p → Keeps view (zero_device m p)
  unfolding zero_device
  zero_device-Keeps p spared =
      search (keeps_rules, get_size-Keeps, apart.open_as, zero_loop-Keeps, apart.sync_all)

  pub validate_block_device-Keeps :
      (p : FilePath) (access : Access) → Keeps view (validate_block_device m p access)
  unfolding validate_block_device
  validate_block_device-Keeps p access = search (keeps_rules, apart.metadata, apart.open_as)

  pub mkfs_ext4-Keeps : (p : FilePath) → IsUnwritten m view p → Keeps view (mkfs_ext4 m p)
  unfolding mkfs_ext4
  mkfs_ext4-Keeps p spared = let mkfs = spared.mkfs in search keeps_rules

  open_direct-Keeps : (p : FilePath) (access : Access) → Keeps view (open_direct m p access)
  unfolding open_direct
  open_direct-Keeps p access = record { at = (apart.open_direct access p).at }

  copy_chunks-Keeps :
      (src dst : FilePath) (chunks : List CopyChunk) (c : Config)
      → IsUnwritten m view dst
      → Keeps view (copy_chunks m src dst chunks c)
  unfolding copy_chunks
  copy_chunks-Keeps src dst chunks c spared = record { at = λ w. spared.set_disk _ w }

  run_copy-Keeps :
      (src dst : FilePath) (chunks : List CopyChunk) (c : Config)
      → IsUnwritten m view dst
      → Keeps view (run_copy m src dst chunks c)
  unfolding run_copy
  run_copy-Keeps src dst chunks c spared =
      search (keeps_rules, open_direct-Keeps, copy_chunks-Keeps)

  pub full_copy-Keeps :
      (src dst : FilePath) → IsUnwritten m view dst → Keeps view (full_copy m src dst)
  unfolding full_copy
  full_copy-Keeps src dst spared = search (keeps_rules, get_size-Keeps, run_copy-Keeps)

  pub copy_blocks-Keeps :
      (src dst : FilePath) (rs : List BlockRange) (granularity : ℕ)
      → IsUnwritten m view dst
      → Keeps view (copy_blocks m src dst rs granularity)
  unfolding copy_blocks
  copy_blocks-Keeps src dst [] granularity spared = search keeps_rules
  copy_blocks-Keeps src dst (r ∷ rs) granularity spared = search (keeps_rules, run_copy-Keeps)

  pub validate_size-Keeps :
      (p : FilePath) (volume_size granularity : ℕ)
      → Keeps view (validate_size m p volume_size granularity)
  unfolding validate_size
  validate_size-Keeps p volume_size granularity = search (keeps_rules, get_size-Keeps)
