-- ===== src/Session/Apart.antt =====
-- The calls of the machine that write neither the state file nor a device, and what is built of them in
-- src/env.rs, src/confirm.rs, src/cmd.rs, src/state.rs and src/dmera.rs.
pub mod Volumes
pub mod Mounts
pub mod Steps
use schelk.Base.{ℕ, ◌≡◌, refl, Bool, true, false, List, [], ◌∷◌}
use schelk.Base.Text.{String, str_eq}
use schelk.Machine.{Machine, FilePath, Access, AppState}
use schelk.Effect.Keeps.{Keeps, CallKeeps, keeps_rules}
use schelk.Io.Ring.{Bytes}
use schelk.Env.{require_root, confirm, prompt}
use schelk.Cmd
use schelk.Dmera
use schelk.State.{lock, load, or_absent}

-- The program is not the one that writes to a device.
abbrev pub IsQuiet : String → Type 0
IsQuiet cmd = str_eq cmd "mkfs.ext4" ≡ false

-- The view of the world that no call changes but those which write the state file or a device.
pub record IsApart (m : Machine) {X : Type 0} (view : m.World → X) : Type 0 where
  pub is_root : CallKeeps view m.is_root
  pub exists_path : (p : FilePath) → CallKeeps view (m.exists_path p)
  pub metadata : (p : FilePath) → CallKeeps view (m.metadata p)
  pub canonicalize : (p : FilePath) → CallKeeps view (m.canonicalize p)
  pub open_as : (a : Access) (p : FilePath) → CallKeeps view (m.open_as a p)
  pub seek_end : (p : FilePath) → CallKeeps view (m.seek_end p)
  pub read_to_string : (p : FilePath) → CallKeeps view (m.read_to_string p)
  pub read_exact : (p : FilePath) (n : ℕ) → CallKeeps view (m.read_exact p n)
  pub create_dir_all : (p : FilePath) → CallKeeps view (m.create_dir_all p)
  pub sync_all : (p : FilePath) → CallKeeps view (m.sync_all p)
  pub flock : (p : FilePath) → CallKeeps view (m.flock p)
  pub umount2 : (p : FilePath) → CallKeeps view (m.umount2 p)
  pub kill : (pid : ℕ) (w : m.World) → view (m.kill pid w) ≡ view w
  pub read_dir : (p : FilePath) → CallKeeps view (m.read_dir p)
  pub read_link : (p : FilePath) → CallKeeps view (m.read_link p)
  pub exec : (cmd : String) (args : List String) → IsQuiet cmd → CallKeeps view (m.exec cmd args)
  pub prompt : CallKeeps view m.prompt
  pub open_direct : (a : Access) (p : FilePath) → CallKeeps view (m.open_direct a p)

-- No write to the device changes the view.
pub record IsUnwritten (m : Machine) {X : Type 0} (view : m.World → X) (p : FilePath) : Type 0 where
  pub mkfs : CallKeeps view (m.exec "mkfs.ext4" ("-F" ∷ "-b" ∷ "4096" ∷ "-L" ∷ "schelk" ∷ p ∷ []))
  pub write_zeros : (offset len : ℕ) → CallKeeps view (m.write_zeros p offset len)
  pub set_disk : (b : Bytes) (w : m.World) → view (m.set_disk p b w) ≡ view w

module _ (m : Machine) {X : Type 0} (view : m.World → X) (apart : IsApart m view) where
  pub require_root-Keeps : Keeps view (require_root m)
  unfolding require_root
  require_root-Keeps = search (keeps_rules, apart.is_root)

  pub confirm-Keeps : (skip : Bool) → Keeps view (confirm m skip)
  unfolding confirm prompt
  confirm-Keeps skip = search (keeps_rules, apart.prompt)

  pub lock-Keeps : Keeps view (lock m)
  unfolding lock
  lock-Keeps = search (keeps_rules, apart.create_dir_all, apart.open_as, apart.flock)

  or_absent-Keeps : (found : Bool) → Keeps view (or_absent m found)
  or_absent-Keeps false = search keeps_rules
  or_absent-Keeps true = search (keeps_rules, apart.open_as, apart.read_to_string)

  pub load-Keeps : Keeps view (load m)
  unfolding load
  load-Keeps = search (keeps_rules, apart.exists_path, or_absent-Keeps)

  is_available-Keeps : (cmd : String) → Keeps view (Cmd.is_available m cmd)
  unfolding Cmd.is_available
  is_available-Keeps cmd = record { at = (apart.exec "which" (cmd ∷ []) refl).at }

  pub require-Keeps : (cmd : String) → Keeps view (Cmd.require m cmd)
  unfolding Cmd.require
  require-Keeps cmd = search (keeps_rules, is_available-Keeps)

  pub run-Keeps :
      (cmd : String) (args : List String) → IsQuiet cmd → Keeps view (Cmd.run m cmd args)
  unfolding Cmd.run Cmd.run_unchecked
  run-Keeps cmd args quiet = search (keeps_rules, apart.exec)

  pub exists-Keeps : (name : String) → Keeps view (Dmera.exists m name)
  unfolding Dmera.exists Cmd.run_unchecked
  exists-Keeps name = search (keeps_rules, apart.exec)

  pub check_dmsetup-Keeps : Keeps view (Dmera.check_dmsetup m)
  unfolding Dmera.check_dmsetup
  check_dmsetup-Keeps = require-Keeps "dmsetup"

  pub check_era_invalidate-Keeps : Keeps view (Dmera.check_era_invalidate m)
  unfolding Dmera.check_era_invalidate
  check_era_invalidate-Keeps = search (keeps_rules, require-Keeps, apart.exec)

  pub dmsetup-Keeps : (args : List String) → Keeps view (Dmera.dmsetup m args)
  unfolding Dmera.dmsetup
  dmsetup-Keeps args = search (keeps_rules, run-Keeps)

  pub get_changed_blocks-Keeps :
      (path : FilePath) (since_era : ℕ) → Keeps view (Dmera.get_changed_blocks m path since_era)
  unfolding Dmera.get_changed_blocks
  get_changed_blocks-Keeps path since_era = search (keeps_rules, apart.exec)
