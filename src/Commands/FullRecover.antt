-- ===== src/Commands/FullRecover.antt =====
-- src/commands/full_recover.rs
pub mod Restores
use schelk.Base.{Bool, false, not, ◌||◌, none, if◌then◌else◌}
use schelk.Error.{not_initialized, already_mounted}
use schelk.Machine.{Machine, read, AppState}
use schelk.Effect.{M, pure, ◌>>=◌, ◌>>◌, ensure, given}
use schelk.Env.{require_root, confirm}
use schelk.Io.Volume.{hash_superblock, full_copy}
use schelk.State.{load, save, lock}
use schelk.Dmera
use schelk.Mount.{is_mounted}
use schelk.Commands.InitCommon.{validate_volumes}

module _ (m : Machine) where
  open m use {World}

  -- A state that says mounted is stale if the device and the mount are both gone, as after a reboot.
  unfoldable pub clear_stale : AppState → M World AppState
  unfolding Dmera.exists is_mounted
  clear_stale state =
      if state.is_mounted
      then (Dmera.exists m state.dm_era_name >>= λ dm_era_exists.
          is_mounted m state.mount_point >>= λ fs_mounted.
          ensure (not (dm_era_exists || fs_mounted)) already_mounted
          >> pure (record state { is_mounted = false; current_era = none }))
      else pure state

  -- The rest of `run`, from the cleared state on.
  unfoldable pub full_recover_state : AppState → Bool → M World (Unit {0})
  unfolding validate_volumes confirm full_copy hash_superblock save
  full_recover_state state skip = do
    validate_volumes m state.virgin read state.scratch
    confirm m skip
    full_copy m state.virgin state.scratch
    hash ← hash_superblock m state.virgin
    save m (record state { virgin_superblock_hash = hash })

  unfoldable pub run : Bool → M World (Unit {0})
  unfolding require_root lock load clear_stale full_recover_state
  run skip = do
    require_root m
    lock m
    loaded ← load m
    stored ← λ w. (given loaded not_initialized, w)
    state ← clear_stale stored
    full_recover_state state skip
