-- ===== src/State/Disks.antt =====
-- `save` of src/state.rs and the contents of the volumes.
use schelk.Base.{ℕ, ◌≡◌, List}
use schelk.Machine.{Machine, FilePath, Access, AppState}
use schelk.Effect.Keeps.{CallKeeps, Keeps, keeps_rules}
use schelk.State.{save, temp_path}

-- To write the state file and its temporary copy changes no contents of the device.
pub record FilesKeep (m : Machine) (path : FilePath) : Type 0 where
  pub dir_keeps : (p : FilePath) → CallKeeps (m.disk path) (m.create_dir_all p)
  pub create_keeps : CallKeeps (m.disk path) (m.create (temp_path m))
  pub write_keeps : (bytes : List ℕ) → CallKeeps (m.disk path) (m.write_all (temp_path m) bytes)
  pub sync_keeps : (p : FilePath) → CallKeeps (m.disk path) (m.sync_all p)
  pub rename_keeps : CallKeeps (m.disk path) (m.rename (temp_path m) m.state_path)
  pub open_keeps : (a : Access) (p : FilePath) → CallKeeps (m.disk path) (m.open_as a p)

module _ (m : Machine) (path : FilePath) (files : FilesKeep m path) where
  pub save-Keeps : (state : AppState) → Keeps (m.disk path) (save m state)
  unfolding save
  save-Keeps state =
      let create = files.create_keeps in
      let rename = files.rename_keeps in
      search (keeps_rules, files.dir_keeps, files.write_keeps, files.sync_keeps, files.open_keeps)
        depth 9

  pub save-disk : (state : AppState) (w : m.World) → m.disk path (save m state w).1 ≡ m.disk path w
  save-disk state = (save-Keeps state).at
