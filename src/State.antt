-- ===== src/State.antt =====
-- src/state.rs: the state file and the lock. `AppState` is in `Machine`, beside its codec.
pub mod Disks
pub mod Loaded
use schelk.Base.{Bool, true, false, Option, none, some}
use schelk.Paths.{join}
use schelk.Error.{os_error, corrupted_state, already_running}
use schelk.Machine.{Machine, FilePath, read, write, AppState}
use schelk.Effect.{M, pure, ◌>>=◌, ◌>>◌, ask, check, need, given}

module _ (m : Machine) where
  open m use {World}

  abbrev pub lock_path : FilePath
  lock_path = join m.state_dir "schelk.lock"

  abbrev pub temp_path : FilePath
  temp_path = join m.state_dir ".state.json.tmp"

  abbrev pub or_absent : Bool → M World (Option AppState)
  or_absent false = pure none
  or_absent true = do
    check (m.open_as read m.state_path) os_error
    contents ← need (m.read_to_string m.state_path) os_error
    state ← λ w. (given (m.from_json contents) corrupted_state, w)
    pure (some state)

  -- None if there is no state file.
  unfoldable pub load : M World (Option AppState)
  load = do found ← ask (m.exists_path m.state_path); or_absent found

  -- The lock is held until the program ends.
  unfoldable pub lock : M World (Unit {0})
  lock = do
    check (m.create_dir_all m.state_dir) os_error
    check (m.open_as write lock_path) os_error
    check (m.flock lock_path) already_running

  -- Write to a temporary file, fsync, rename, fsync the directory.
  unfoldable pub save : AppState → M World (Unit {0})
  save state = do
    check (m.create_dir_all m.state_dir) os_error
    check (m.create temp_path) os_error
    check (m.write_all temp_path (m.to_json state)) os_error
    check (m.sync_all temp_path) os_error
    check (m.rename temp_path m.state_path) os_error
    check (m.open_as read m.state_dir) os_error
    check (m.sync_all m.state_dir) os_error
