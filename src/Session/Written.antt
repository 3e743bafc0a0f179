-- ===== src/Session/Written.antt =====
-- Which devices each command of src/commands may write.
use schelk.Base.{◌≡◌, Bool, false, List, [], ◌∷◌, Option, some}
use schelk.Base.Text.{String, str_eq}
use schelk.Machine.{Machine, FilePath, AppState}
use schelk.Effect.Keeps.{Keeps, keeps_rules}
use schelk.State.Disks.{FilesKeep, save-Keeps}
use schelk.Commands.InitNew
use schelk.Commands.InitFrom
use schelk.Commands.FullRecover
use schelk.Commands.Mount
use schelk.Commands.Recover
use schelk.Commands.Promote
use schelk.Commands.InitCommon.{InitArgs}
use schelk.Cli.{Command, init_new, init_from, full_recover, mount, recover, restore, promote}
use schelk.Session.Apart.{IsApart, IsUnwritten, require-Keeps, confirm-Keeps}
use schelk.Session.Apart.Volumes.{
  get_size-Keeps, hash_superblock-Keeps, zero_device-Keeps, validate_size-Keeps, copy_blocks-Keeps,
  full_copy-Keeps, mkfs_ext4-Keeps,
}
use schelk.Session.Apart.Steps.{
  check_unmounted-Keeps, check_superblocks-Keeps, start_tracking-Keeps, collect_changed-Keeps,
  check_tracked-Keeps, unmount_mounted-Keeps, validate_volumes-Keeps, check_arguments-Keeps,
  confirm_reinitialize-Keeps, copy_unless-Keeps,
}

-- The devices that a command may write, from the state that is stored.
abbrev pub written : Command → Option AppState → List FilePath
written (init_new args) o = args.virgin ∷ args.scratch ∷ []
written (init_from args fstype no_copy) o = args.scratch ∷ []
written full_recover (some s) = s.scratch ∷ []
written mount (some s) = s.ramdisk ∷ []
written (recover kill) (some s) = s.scratch ∷ []
written (restore kill) (some s) = s.scratch ∷ s.ramdisk ∷ []
written (promote kill) (some s) = s.virgin ∷ []
written command o = []

-- The contents of the device are changed by no call that does not write it: not by writes to another
-- device, the files of the program, or any program but mkfs.
pub record IsSteady (m : Machine) (path : FilePath) : Type 0 where
  pub apart : IsApart m (m.disk path)
  pub files : FilesKeep m path
  pub others : (q : FilePath) → str_eq q path ≡ false → IsUnwritten m (m.disk path) q

module _ (m : Machine) (path : FilePath) (steady : IsSteady m path) where
  abbrev pub Elsewhere : FilePath → Type 0
  Elsewhere q = str_eq q path ≡ false

  pub mount_state-Keeps :
      (s : AppState) → Elsewhere s.ramdisk → Keeps (m.disk path) (Mount.mount_state m s)
  unfolding Mount.mount_state
  mount_state-Keeps s apart =
      let spared = steady.others s.ramdisk apart in
      let zeroed = zero_device-Keeps m (m.disk path) steady.apart s.ramdisk spared in
      search
        (
          keeps_rules,
          check_unmounted-Keeps m (m.disk path) steady.apart,
          get_size-Keeps m (m.disk path) steady.apart,
          validate_size-Keeps m (m.disk path) steady.apart,
          check_superblocks-Keeps m (m.disk path) steady.apart,
          start_tracking-Keeps m (m.disk path) steady.apart,
          save-Keeps m path steady.files,
        )
        depth 9

  pub recover_state-Keeps :
      (kill : Bool) (s : AppState)
      → Elsewhere s.scratch
      → Keeps (m.disk path) (Recover.recover_state m s kill)
  unfolding Recover.recover_state
  recover_state-Keeps kill s apart =
      let spared = steady.others s.scratch apart in
      search
        (
          keeps_rules,
          check_tracked-Keeps m (m.disk path) steady.apart,
          unmount_mounted-Keeps m (m.disk path) steady.apart,
          collect_changed-Keeps m (m.disk path) steady.apart,
          copy_blocks-Keeps m (m.disk path) steady.apart,
          save-Keeps m path steady.files,
        )
        depth 9

  pub promote_state-Keeps :
      (skip kill : Bool) (s : AppState)
      → Elsewhere s.virgin
      → Keeps (m.disk path) (Promote.promote_state m s skip kill)
  unfolding Promote.promote_state
  promote_state-Keeps skip kill s apart =
      let spared = steady.others s.virgin apart in
      search
        (
          keeps_rules,
          check_tracked-Keeps m (m.disk path) steady.apart,
          confirm-Keeps m (m.disk path) steady.apart,
          unmount_mounted-Keeps m (m.disk path) steady.apart,
          collect_changed-Keeps m (m.disk path) steady.apart,
          copy_blocks-Keeps m (m.disk path) steady.apart,
          hash_superblock-Keeps m (m.disk path) steady.apart,
          save-Keeps m path steady.files,
        )
        depth 9

  pub full_recover_state-Keeps :
      (skip : Bool) (s : AppState)
      → Elsewhere s.scratch
      → Keeps (m.disk path) (FullRecover.full_recover_state m s skip)
  unfolding FullRecover.full_recover_state
  full_recover_state-Keeps skip s apart =
      let spared = steady.others s.scratch apart in
      search
        (
          keeps_rules,
          validate_volumes-Keeps m (m.disk path) steady.apart,
          confirm-Keeps m (m.disk path) steady.apart,
          full_copy-Keeps m (m.disk path) steady.apart,
          hash_superblock-Keeps m (m.disk path) steady.apart,
          save-Keeps m path steady.files,
        )
        depth 9

  pub init_new-Keeps :
      (args : InitArgs) (skip : Bool)
      → Elsewhere args.virgin
      → Elsewhere args.scratch
      → Keeps (m.disk path) (InitNew.run m args skip)
  unfolding InitNew.run
  init_new-Keeps args skip virgin_apart scratch_apart =
      let virgin_spared = steady.others args.virgin virgin_apart in
      let scratch_spared = steady.others args.scratch scratch_apart in
      search
        (
          keeps_rules,
          check_arguments-Keeps m (m.disk path) steady.apart,
          require-Keeps m (m.disk path) steady.apart,
          confirm_reinitialize-Keeps m (m.disk path) steady.apart,
          validate_volumes-Keeps m (m.disk path) steady.apart,
          validate_size-Keeps m (m.disk path) steady.apart,
          confirm-Keeps m (m.disk path) steady.apart,
          mkfs_ext4-Keeps m (m.disk path) steady.apart,
          full_copy-Keeps m (m.disk path) steady.apart,
          hash_superblock-Keeps m (m.disk path) steady.apart,
          save-Keeps m path steady.files,
        )
        depth 14

  pub init_from-Keeps :
      (args : InitArgs) (fstype : String) (no_copy skip : Bool)
      → Elsewhere args.scratch
      → Keeps (m.disk path) (InitFrom.run m args fstype no_copy skip)
  unfolding InitFrom.run
  init_from-Keeps args fstype no_copy skip apart =
      let spared = steady.others args.scratch apart in
      search
        (
          keeps_rules,
          check_arguments-Keeps m (m.disk path) steady.apart,
          confirm_reinitialize-Keeps m (m.disk path) steady.apart,
          validate_volumes-Keeps m (m.disk path) steady.apart,
          validate_size-Keeps m (m.disk path) steady.apart,
          confirm-Keeps m (m.disk path) steady.apart,
          copy_unless-Keeps m (m.disk path) steady.apart,
          hash_superblock-Keeps m (m.disk path) steady.apart,
          save-Keeps m path steady.files,
        )
        depth 14
