-- ===== src/Session/Apart/Steps.antt =====
-- Parts of the commands of src/commands that write neither the state file nor a device, but for a copy
-- to the scratch volume.
use schelk.Base.{ℕ, Bool, true, false, Option, none, some, ok}
use schelk.Machine.{Machine, AppState, FilePath, Access}
use schelk.Effect.Keeps.{Keeps, keeps_rules, result-Keeps, bind-Keeps}
use schelk.State.{load}
use schelk.Dmera
use schelk.Mount.{is_mounted}
use schelk.Commands.InitCommon.{
  InitArgs, reject_same_device, check_arguments, confirm_again, confirm_reinitialize,
  validate_volumes,
}
use schelk.Commands.InitFrom
use schelk.Commands.FullRecover
use schelk.Commands.Mount
use schelk.Commands.Recover
use schelk.Commands.Status
use schelk.Effect.{M}
use schelk.Session.Apart.{
  IsApart, IsUnwritten, require_root-Keeps, confirm-Keeps, lock-Keeps, load-Keeps, exists-Keeps,
  check_dmsetup-Keeps, check_era_invalidate-Keeps, dmsetup-Keeps, get_changed_blocks-Keeps,
}
use schelk.Session.Apart.Volumes.{
  get_size-Keeps, hash_superblock-Keeps, validate_block_device-Keeps, full_copy-Keeps,
}
use schelk.Session.Apart.Mounts.{is_mounted-Keeps, mount-Keeps, unmount-Keeps}

module _ (m : Machine) {X : Type 0} (view : m.World → X) (apart : IsApart m view) where
  pub check_unmounted-Keeps : (state : AppState) → Keeps view (Mount.check_unmounted m state)
  unfolding Mount.check_unmounted
  check_unmounted-Keeps state =
      let checked = check_dmsetup-Keeps in
      search (keeps_rules, is_mounted-Keeps, exists-Keeps) depth 9

  pub check_superblocks-Keeps : (state : AppState) → Keeps view (Mount.check_superblocks m state)
  unfolding Mount.check_superblocks
  check_superblocks-Keeps state = search (keeps_rules, hash_superblock-Keeps)

  pub start_tracking-Keeps :
      (state : AppState) (size : ℕ) → Keeps view (Mount.start_tracking m state size)
  unfolding Mount.start_tracking Dmera.create Dmera.checkpoint Dmera.remove Dmera.message
  start_tracking-Keeps state size = search (keeps_rules, dmsetup-Keeps, mount-Keeps)

  pub collect_changed-Keeps : (s : AppState) → Keeps view (Recover.collect_changed m s)
  unfolding Recover.collect_changed Dmera.take_metadata_snapshot Dmera.drop_metadata_snapshot
      Dmera.remove Dmera.message
  collect_changed-Keeps s = search (keeps_rules, dmsetup-Keeps, get_changed_blocks-Keeps) depth 9

  pub check_tracked-Keeps : (s : AppState) → Keeps view (Recover.check_tracked m s)
  unfolding Recover.check_tracked
  check_tracked-Keeps s =
      let checked = check_dmsetup-Keeps in
      let found = check_era_invalidate-Keeps in search (keeps_rules, exists-Keeps)

  pub unmount_if-Keeps :
      (s : AppState) (kill found : Bool)
      → Keeps view (Recover.unmount_if m s.mount_point kill found)
  unmount_if-Keeps s kill true = unmount-Keeps m view apart s.mount_point kill
  unmount_if-Keeps s kill false = result-Keeps (ok tt)

  pub unmount_mounted-Keeps :
      (s : AppState) (kill : Bool) → Keeps view (Recover.unmount_mounted m s kill)
  unfolding Recover.unmount_mounted
  unmount_mounted-Keeps s kill =
      bind-Keeps (is_mounted m s.mount_point) (Recover.unmount_if m s.mount_point kill)
        (is_mounted-Keeps m view apart s.mount_point) (unmount_if-Keeps s kill)

  pub validate_volumes-Keeps :
      (virgin : FilePath) (access : Access) (scratch : FilePath)
      → Keeps view (validate_volumes m virgin access scratch)
  unfolding validate_volumes
  validate_volumes-Keeps virgin access scratch =
      search (keeps_rules, validate_block_device-Keeps, get_size-Keeps) depth 9

  pub clear_stale-Keeps : (s : AppState) → Keeps view (FullRecover.clear_stale m s)
  unfolding FullRecover.clear_stale
  clear_stale-Keeps s = search (keeps_rules, exists-Keeps, is_mounted-Keeps) depth 9

  pub reject_same_device-Keeps :
      (virgin scratch : FilePath) → Keeps view (reject_same_device m virgin scratch)
  unfolding reject_same_device
  reject_same_device-Keeps virgin scratch = search (keeps_rules, apart.canonicalize)

  pub check_arguments-Keeps : (args : InitArgs) → Keeps view (check_arguments m args)
  unfolding check_arguments
  check_arguments-Keeps args =
      let root = require_root-Keeps in
      let locked = lock-Keeps in search (keeps_rules, reject_same_device-Keeps) depth 9

  pub confirm_again-Keeps :
      (o : Option AppState) (skip : Bool) → Keeps view (confirm_again m o skip)
  confirm_again-Keeps none skip = result-Keeps (ok tt)
  confirm_again-Keeps (some s) skip = confirm-Keeps m view apart skip

  pub confirm_reinitialize-Keeps : (skip : Bool) → Keeps view (confirm_reinitialize m skip)
  unfolding confirm_reinitialize
  confirm_reinitialize-Keeps skip =
      bind-Keeps (load m) (λ existing. confirm_again m existing skip) (load-Keeps m view apart)
        (λ existing. confirm_again-Keeps existing skip)

  pub copy_unless-Keeps :
      (no_copy : Bool) (virgin scratch : FilePath)
      → IsUnwritten m view scratch
      → Keeps view (InitFrom.copy_unless m no_copy virgin scratch)
  unfolding InitFrom.copy_unless
  copy_unless-Keeps true virgin scratch spared = result-Keeps (ok tt)
  copy_unless-Keeps false virgin scratch spared = search (keeps_rules, full_copy-Keeps)

  or_false-Keeps : (c : M m.World Bool) → Keeps view c → Keeps view (Status.or_false m c)
  unfolding Status.or_false
  or_false-Keeps c h = record { at = h.at }

  report-Keeps : (o : Option AppState) → Keeps view (Status.report m o)
  report-Keeps none = search keeps_rules
  report-Keeps (some s) = search (keeps_rules, or_false-Keeps, exists-Keeps, is_mounted-Keeps)

  pub status-Keeps : Keeps view (Status.run m)
  unfolding Status.run
  status-Keeps = bind-Keeps (load m) (Status.report m) (load-Keeps m view apart) report-Keeps
