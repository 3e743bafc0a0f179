-- ===== src/Commands/InitNew.antt =====
-- src/commands/init_new.rs
use schelk.Base.{Bool}
use schelk.Machine.{Machine, write}
use schelk.Effect.{M, ◌>>=◌, ◌>>◌}
use schelk.Env.{confirm}
use schelk.Io.Volume.{hash_superblock, mkfs_ext4, full_copy}
use schelk.State.{save}
use schelk.Ramdisk.{validate_size}
use schelk.Cmd
use schelk.Commands.InitCommon.{
  InitArgs, initial_state, check_arguments, confirm_reinitialize, validate_volumes,
}

module _ (m : Machine) where
  open m use {World}

  unfoldable pub run : InitArgs → Bool → M World (Unit {0})
  unfolding check_arguments Cmd.require confirm_reinitialize validate_volumes validate_size confirm
      mkfs_ext4 full_copy hash_superblock save
  run args skip = do
    check_arguments m args
    Cmd.require m "mkfs.ext4"
    confirm_reinitialize m skip
    scratch_size ← validate_volumes m args.virgin write args.scratch
    validate_size m args.ramdisk scratch_size args.granularity
    confirm m skip
    mkfs_ext4 m args.virgin
    full_copy m args.virgin args.scratch
    hash ← hash_superblock m args.virgin
    save m (initial_state args "ext4" hash)
