-- ===== src/Commands/Mount.antt =====
-- src/commands/mount.rs
pub mod Tracking
use schelk.Base.{ℕ, true, not, some}
use schelk.Error.{
  not_initialized, volume_mismatch, already_mounted, mountpoint_in_use, device_exists,
}
use schelk.Machine.{Machine, AppState}
use schelk.Effect.{M, ◌>>=◌, ◌>>◌, ensure, attempt, or_cleanup, given}
use schelk.Env.{require_root}
use schelk.Io.Volume.{get_size, hash_superblock, zero_device}
use schelk.Text.{codes_eq}
use schelk.State.{load, save, lock}
use schelk.Ramdisk.{validate_size}
use schelk.Dmera
use schelk.Mount.{is_mounted, mount}

module _ (m : Machine) where
  open m use {World}

  -- The guards: not mounted, by the state and by the mount table, and no device left over.
  unfoldable pub check_unmounted : AppState → M World (Unit {0})
  unfolding is_mounted Dmera.check_dmsetup Dmera.exists
  check_unmounted state = do
    ensure (not state.is_mounted) already_mounted
    in_use ← is_mounted m state.mount_point
    ensure (not in_use) mountpoint_in_use
    Dmera.check_dmsetup m
    left_over ← Dmera.exists m state.dm_era_name
    ensure (not left_over) device_exists

  -- Both superblocks have the hash of the state.
  unfoldable pub check_superblocks : AppState → M World (Unit {0})
  unfolding hash_superblock
  check_superblocks state = do
    virgin_hash ← hash_superblock m state.virgin
    ensure (codes_eq virgin_hash state.virgin_superblock_hash) volume_mismatch
    scratch_hash ← hash_superblock m state.scratch
    ensure (codes_eq scratch_hash state.virgin_superblock_hash) volume_mismatch

  -- The device is created, era tracking started and the file system mounted; the device is removed
  -- again if one of the last two fails.
  unfoldable pub start_tracking : AppState → ℕ → M World (Unit {0})
  unfolding Dmera.create Dmera.checkpoint Dmera.remove mount Dmera.device_path
  start_tracking state scratch_size = do
    Dmera.create m state.dm_era_name state.ramdisk state.scratch scratch_size state.granularity
    or_cleanup (Dmera.checkpoint m state.dm_era_name) (attempt (Dmera.remove m state.dm_era_name))
    or_cleanup
        (mount m (Dmera.device_path state.dm_era_name) state.mount_point state.fstype
          state.mount_options)
        (attempt (Dmera.remove m state.dm_era_name))

  unfoldable pub mount_state : AppState → M World (Unit {0})
  unfolding check_unmounted get_size validate_size check_superblocks zero_device start_tracking save
  mount_state state = do
    check_unmounted state
    scratch_size ← get_size m state.scratch
    validate_size m state.ramdisk scratch_size state.granularity
    check_superblocks state
    zero_device m state.ramdisk
    start_tracking state scratch_size
    save m (record state { is_mounted = true; current_era = some 1 })

  unfoldable pub run_locked : M World (Unit {0})
  unfolding load mount_state
  run_locked = do loaded ← load m; state ← λ w. (given loaded not_initialized, w); mount_state state

  unfoldable pub run : M World (Unit {0})
  unfolding require_root lock run_locked
  run = do require_root m; lock m; run_locked
