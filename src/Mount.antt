-- ===== src/Mount.antt =====
-- src/mount.rs: mounting, unmounting and the mount table.
pub mod Table
use schelk.Base.{
  ℕ, Bool, true, false, ◌||◌, List, [], ◌∷◌, ◌++◌, Option, none, some, Result, ok, err,
}
use schelk.Base.Text.{String, codes}
use schelk.Error.{Error, os_error, target_is_busy, unmount_failed}
use schelk.Machine.{Machine, FilePath, Errno, ebusy, other}
use schelk.Effect.{M, pure, fail, ◌>>=◌, ◌>>◌, ask, check, need}
use schelk.Cmd
use schelk.Processes.{find_processes_using}
use schelk.Text.{lines, split_whitespace, codes_eq}

-- The second field of a line of /proc/mounts.
abbrev pub second_is : List ℕ → List (List ℕ) → Bool
second_is path (device ∷ mounted_on ∷ fields) = codes_eq mounted_on path
second_is path _ = false

abbrev pub any_line : List ℕ → List (List ℕ) → Bool
any_line path [] = false
any_line path (line ∷ rest) = second_is path (split_whitespace line) || any_line path rest

-- Whether a text in the format of /proc/mounts lists the path.
unfoldable pub lists_mount : List ℕ → List ℕ → Bool
unfolding lines split_whitespace
lists_mount path mounts = any_line path (lines mounts)

abbrev or_self : FilePath → Option FilePath → FilePath
or_self path none = path
or_self path (some canonical) = canonical

abbrev option_args : Option String → List String
option_args none = []
option_args (some opts) = "-o" ∷ opts ∷ []

module _ (m : Machine) where
  open m use {World}

  unfoldable pub is_mounted : FilePath → M World Bool
  unfolding lists_mount
  is_mounted mountpoint = do
    mounts ← need (m.read_to_string "/proc/mounts") os_error
    canonical ← ask (m.canonicalize mountpoint)
    pure (lists_mount (codes (or_self mountpoint canonical)) mounts)

  abbrev pub ensure_dir : FilePath → Bool → M World (Unit {0})
  ensure_dir mountpoint true = pure tt
  ensure_dir mountpoint false = check (m.create_dir_all mountpoint) os_error

  unfoldable pub mount : FilePath → FilePath → String → Option String → M World (Unit {0})
  unfolding Cmd.run
  mount device mountpoint fstype options = do
    found ← ask (m.exists_path mountpoint)
    ensure_dir mountpoint found
    Cmd.run m "mount" (("-t" ∷ fstype ∷ device ∷ []) ++ option_args options ++ mountpoint ∷ [])
    pure tt

  abbrev pub kill_all : List ℕ → M World (Unit {0})
  kill_all [] = pure tt
  kill_all (pid ∷ pids) = (λ w. (ok tt, m.kill pid w)) >> kill_all pids

  abbrev retried : Result Errno (Unit {0}) → Result Error (Unit {0})
  retried (ok u) = ok u
  retried (err e) = err unmount_failed

  -- After EBUSY with the flag: the processes are killed, if any is found, and it is tried again.
  unfoldable pub kill_and_retry : FilePath → List ℕ → M World (Unit {0})
  kill_and_retry mountpoint [] = fail target_is_busy
  kill_and_retry mountpoint (pid ∷ pids) = kill_all (pid ∷ pids) >> λ w.
      let (result, w') = m.umount2 mountpoint w in (retried result, w')

  abbrev pub after_umount : FilePath → Bool → Result Errno (Unit {0}) → M World (Unit {0})
  after_umount mountpoint kill (ok u) = pure tt
  after_umount mountpoint true (err ebusy) =
      ask (find_processes_using m mountpoint) >>= kill_and_retry mountpoint
  after_umount mountpoint false (err ebusy) =
      ask (find_processes_using m mountpoint) >> fail target_is_busy
  after_umount mountpoint kill (err other) = fail unmount_failed

  unfoldable pub unmount : FilePath → Bool → M World (Unit {0})
  unfolding kill_and_retry find_processes_using
  unmount mountpoint kill =
      (λ w. let (result, w') = m.umount2 mountpoint w in (ok result, w'))
      >>= after_umount mountpoint kill
