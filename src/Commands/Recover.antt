-- ===== src/Commands/Recover.antt =====
-- src/commands/recover.rs
pub mod Restores
pub mod Whole
pub mod Reported
pub mod Healthy
pub mod Succeeds
pub mod Misaligned
use schelk.Base.{ℕ, ◌%◌, ◌^◌, Bool, true, false, List, Option, none, some, if◌then◌else◌}
use schelk.Error.{not_initialized, device_missing}
use schelk.Machine.{Machine, FilePath, AppState}
use schelk.Effect.{M, pure, ◌>>=◌, ◌>>◌, ensure, attempt, or_cleanup, given}
use schelk.Env.{require_root}
use schelk.Io.Chunks.{BlockRange}
use schelk.Io.Volume.{copy_blocks}
use schelk.State.{load, save, lock}
use schelk.Dmera
use schelk.Mount.{is_mounted, unmount}

module _ (m : Machine) where
  open m use {World}

  -- base_era as u32, which is 0 if no era is stored
  abbrev pub base_era : AppState → ℕ
  base_era state = or_zero state.current_era % 2 ^ 32
    where
      or_zero : Option ℕ → ℕ
      or_zero none = 0
      or_zero (some era) = era

  -- The checks before anything is changed: the tools, and that the device exists.
  unfoldable pub check_tracked : AppState → M World (Unit {0})
  unfolding Dmera.check_dmsetup Dmera.check_era_invalidate Dmera.exists
  check_tracked state = do
    Dmera.check_dmsetup m
    Dmera.check_era_invalidate m
    tracked ← Dmera.exists m state.dm_era_name
    ensure tracked device_missing

  abbrev pub unmount_if : FilePath → Bool → Bool → M World (Unit {0})
  unmount_if mountpoint kill true = unmount m mountpoint kill
  unmount_if mountpoint kill false = pure tt

  unfoldable pub unmount_mounted : AppState → Bool → M World (Unit {0})
  unfolding is_mounted unmount
  unmount_mounted state kill = is_mounted m state.mount_point >>= unmount_if state.mount_point kill

  -- The changed blocks, from a snapshot of the metadata that is dropped again; the device is removed
  -- once they are known.
  unfoldable pub collect_changed : AppState → M World (List BlockRange)
  unfolding Dmera.take_metadata_snapshot Dmera.get_changed_blocks Dmera.drop_metadata_snapshot
      Dmera.remove
  collect_changed state = do
    Dmera.take_metadata_snapshot m state.dm_era_name
    changed ←
        or_cleanup (Dmera.get_changed_blocks m state.ramdisk (base_era state))
          (attempt (Dmera.drop_metadata_snapshot m state.dm_era_name))
    Dmera.drop_metadata_snapshot m state.dm_era_name
    Dmera.remove m state.dm_era_name
    pure changed

  unfoldable pub recover_state : AppState → Bool → M World (Unit {0})
  unfolding check_tracked unmount_mounted collect_changed copy_blocks save
  recover_state state kill = do
    check_tracked state
    unmount_mounted state kill
    changed ← collect_changed state
    copy_blocks m state.virgin state.scratch changed state.granularity
    save m (record state { is_mounted = false; current_era = none })

  -- With nothing mounted there is nothing to recover, and that is no error.
  unfoldable pub run_locked : Bool → M World (Unit {0})
  unfolding load recover_state
  run_locked kill = do
    loaded ← load m
    state ← λ w. (given loaded not_initialized, w)
    if state.is_mounted then recover_state state kill else pure tt

  unfoldable pub run : Bool → M World (Unit {0})
  unfolding require_root lock run_locked
  run kill = do require_root m; lock m; run_locked kill
