-- ===== src/Processes.antt =====
-- src/mount.rs: `find_processes_using`, the walk over /proc.
pub mod Users
use schelk.Base.{
  ℕ, Bool, true, false, ◌&&◌, ◌^◌, List, [], ◌∷◌, ◌++◌, Option, none, some, ◌==◌, if◌then◌else◌,
}
use schelk.Base.Text.{String, ◌<>◌, codes, parse_unsigned}
use schelk.Paths.{path_starts_with}
use schelk.Machine.{Machine, FilePath}

abbrev pub or_path : FilePath → Option FilePath → FilePath
or_path path none = path
or_path path (some canonical) = canonical

module _ (m : Machine) where
  open m use {World}

  abbrev pub target_under : FilePath → Option FilePath → Bool
  target_under mountpoint none = false
  target_under mountpoint (some target) = path_starts_with target mountpoint

  -- Whether a link resolves to a path under the mount point.
  unfoldable pub is_under : FilePath → FilePath → World → Bool × World
  unfolding path_starts_with
  is_under link mountpoint w =
      let (target, w') = m.read_link link w in (target_under mountpoint target, w')

  -- The first entry that is under the mount point ends the loop.
  unfoldable pub any_under : FilePath → FilePath → List String → World → Bool × World
  unfolding is_under
  any_under dir mountpoint [] w = (false, w)
  any_under dir mountpoint (name ∷ names) w =
      let (found, w') = is_under (dir <> "/" <> name) mountpoint w in
      elim found [ true ↦ (true, w') | false ↦ any_under dir mountpoint names w' ]

  abbrev pub any_entry : FilePath → FilePath → Option (List String) → World → Bool × World
  any_entry dir mountpoint none w = (false, w)
  any_entry dir mountpoint (some names) w = any_under dir mountpoint names w

  unfoldable pub has_fd_under : FilePath → FilePath → World → Bool × World
  unfolding any_under
  has_fd_under fd_dir mountpoint w =
      let (entries, w') = m.read_dir fd_dir w in any_entry fd_dir mountpoint entries w'

  -- a || b, where b is asked only if a is false
  abbrev pub or_else : (World → Bool × World) → (World → Bool × World) → World → Bool × World
  or_else a b w = let (found, w') = a w in elim found [ true ↦ (true, w') | false ↦ b w' ]

  unfoldable pub uses_mount : FilePath → FilePath → World → Bool × World
  unfolding is_under has_fd_under
  uses_mount proc_dir mountpoint = or_else (is_under (proc_dir <> "/cwd") mountpoint) (
      or_else (is_under (proc_dir <> "/root") mountpoint)
        (has_fd_under (proc_dir <> "/fd") mountpoint))

  -- The command line of a process that is found is read for the message.
  abbrev pub keep_pid : FilePath → ℕ → Bool → World → List ℕ × World
  keep_pid proc_dir pid false w = ([], w)
  keep_pid proc_dir pid true w =
      let (cmdline, w') = m.read_to_string (proc_dir <> "/cmdline") w in (pid ∷ [], w')

  -- An entry whose name is no number is skipped.
  abbrev pub visit : String → FilePath → Option ℕ → World → List ℕ × World
  visit name mountpoint none w = ([], w)
  visit name mountpoint (some pid) w =
      let (found, w') = uses_mount ("/proc/" <> name) mountpoint w in
      keep_pid ("/proc/" <> name) pid found w'

  unfoldable pub scan : FilePath → List String → World → List ℕ × World
  unfolding uses_mount parse_unsigned
  scan mountpoint [] w = ([], w)
  scan mountpoint (name ∷ names) w =
      let (here, w1) = visit name mountpoint (parse_unsigned (2 ^ 32) (codes name)) w in
      let (rest, w2) = scan mountpoint names w1 in (here ++ rest, w2)

  abbrev pub scan_all : FilePath → Option (List String) → World → List ℕ × World
  scan_all mountpoint none w = ([], w)
  scan_all mountpoint (some names) w = scan mountpoint names w

  unfoldable pub find_processes_using : FilePath → World → List ℕ × World
  unfolding scan
  find_processes_using mountpoint w =
      let (canonical, w1) = m.canonicalize mountpoint w in
      let (entries, w2) = m.read_dir "/proc" w1 in
      scan_all (or_path mountpoint canonical) entries w2
