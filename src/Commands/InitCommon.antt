-- ===== src/Commands/InitCommon.antt =====
-- src/commands/init_common.rs, and the checks with which both init commands begin.
use schelk.Base.{
  ℕ, ◌%◌, Bool, false, not, List, Option, none, some, ◌==◌, if◌then◌else◌, Result, ok, err,
}
use schelk.Base.Text.{String}
use schelk.Error.{Error, granularity_zero, granularity_unaligned, same_device, size_mismatch}
use schelk.Machine.{Machine, FilePath, Access, write, AppState}
use schelk.Effect.{M, pure, ◌>>=◌, ◌>>◌, ask, ensure}
use schelk.Env.{require_root, confirm}
use schelk.Io.Volume.{get_size, validate_block_device}
use schelk.State.{load, lock}
use schelk.Paths.{path_eq}
use schelk.Dmera.Name.{validate_name}

-- Validate granularity is sane for dm-era.
unfoldable pub validate_granularity : ℕ → Result Error (Unit {0})
validate_granularity granularity =
    if granularity == 0
    then err granularity_zero
    else if granularity % 512 == 0
    then ok tt
    else err granularity_unaligned

-- What both init commands are told.
pub record InitArgs : Type 0 where
  pub virgin : FilePath
  pub scratch : FilePath
  pub ramdisk : FilePath
  pub mount_point : FilePath
  pub mount_options : Option String
  pub granularity : ℕ
  pub dm_era_name : String

-- The state of an initialized, unmounted pair of volumes.
abbrev pub initial_state : InitArgs → String → List ℕ → AppState
initial_state args fstype hash = record {
  virgin = args.virgin;
  scratch = args.scratch;
  ramdisk = args.ramdisk;
  mount_point = args.mount_point;
  fstype = fstype;
  mount_options = args.mount_options;
  granularity = args.granularity;
  virgin_superblock_hash = hash;
  dm_era_name = args.dm_era_name;
  is_mounted = false;
  current_era = none;
}

module _ (m : Machine) where
  open m use {World}

  abbrev pub lift : {A : Type 0} → Result Error A → M World A
  lift r w = (r, w)

  abbrev or_self : FilePath → Option FilePath → FilePath
  or_self path none = path
  or_self path (some canonical) = canonical

  unfoldable pub reject_same_device : FilePath → FilePath → M World (Unit {0})
  unfolding path_eq
  reject_same_device virgin scratch = do
    v ← ask (m.canonicalize virgin)
    s ← ask (m.canonicalize scratch)
    ensure (not (path_eq (or_self virgin v) (or_self scratch s))) same_device

  -- Root, the lock, and the arguments.
  unfoldable pub check_arguments : InitArgs → M World (Unit {0})
  unfolding require_root lock validate_granularity reject_same_device validate_name
  check_arguments args = do
    require_root m
    lock m
    lift (validate_granularity args.granularity)
    reject_same_device args.virgin args.scratch
    lift (validate_name args.dm_era_name)

  abbrev pub confirm_again : Option AppState → Bool → M World (Unit {0})
  confirm_again none skip = pure tt
  confirm_again (some existing) skip = confirm m skip

  -- If already initialized, reinitializing is confirmed.
  unfoldable pub confirm_reinitialize : Bool → M World (Unit {0})
  unfolding load confirm
  confirm_reinitialize skip = load m >>= λ existing. confirm_again existing skip

  -- Both volumes are block devices with the access that is needed, of one size, which is returned.
  unfoldable pub validate_volumes : FilePath → Access → FilePath → M World ℕ
  unfolding validate_block_device get_size
  validate_volumes virgin access scratch = do
    validate_block_device m virgin access
    validate_block_device m scratch write
    virgin_size ← get_size m virgin
    scratch_size ← get_size m scratch
    ensure (virgin_size == scratch_size) size_mismatch
    pure scratch_size
