-- ===== src/Commands/InitFrom.antt =====
-- src/commands/init_from.rs
use schelk.Base.{Bool, true, false}
use schelk.Base.Text.{String}
use schelk.Machine.{Machine, FilePath, read}
use schelk.Effect.{M, pure, ◌>>=◌, ◌>>◌}
use schelk.Env.{confirm}
use schelk.Io.Volume.{hash_superblock, full_copy}
use schelk.State.{save}
use schelk.Ramdisk.{validate_size}
use schelk.Commands.InitCommon.{
  InitArgs, initial_state, check_arguments, confirm_reinitialize, validate_volumes,
}

module _ (m : Machine) where
  open m use {World}

  -- With --no-copy the scratch volume is left as it is.
  unfoldable pub copy_unless : Bool → FilePath → FilePath → M World (Unit {0})
  unfolding full_copy
  copy_unless true virgin scratch = pure tt
  copy_unless false virgin scratch = full_copy m virgin scratch >>= λ copied. pure tt

  unfoldable pub run : InitArgs → String → Bool → Bool → M World (Unit {0})
  unfolding check_arguments confirm_reinitialize validate_volumes validate_size confirm copy_unless
      hash_superblock save
  run args fstype no_copy skip = do
    check_arguments m args
    confirm_reinitialize m skip
    scratch_size ← validate_volumes m args.virgin read args.scratch
    validate_size m args.ramdisk scratch_size args.granularity
    confirm m skip
    copy_unless no_copy args.virgin args.scratch
    hash ← hash_superblock m args.virgin
    save m (initial_state args fstype hash)
