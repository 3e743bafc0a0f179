-- ===== src/Processes/Users.antt =====
-- Which processes the walk over /proc finds.
use schelk.Base.{
  ℕ, ◌≡◌, refl, ap, ◌∙◌, Bool, true, false, ◌||◌, ◌^◌, List, [], ◌∷◌, ◌++◌, Option, none, some,
  if◌then◌else◌,
}
use schelk.Base.Text.{String, ◌<>◌, codes, parse_unsigned}
use schelk.Machine.{Machine, FilePath}
use schelk.Processes.{
  target_under, is_under, any_under, any_entry, has_fd_under, or_else, uses_mount, keep_pid, visit,
  scan,
}

-- To look at /proc leaves the world as it is.
pub record IsStatic (m : Machine) : Type 0 where
  pub link_static : (p : FilePath) (w : m.World) → (m.read_link p w).1 ≡ w
  pub dir_static : (p : FilePath) (w : m.World) → (m.read_dir p w).1 ≡ w
  pub read_static : (p : FilePath) (w : m.World) → (m.read_to_string p w).1 ≡ w

module _ (m : Machine) (mountpoint : FilePath) (w : m.World) where
  -- The link, an entry of the directory, or anything of the process is under the mount point.
  abbrev pub link_inside : FilePath → Bool
  link_inside link = target_under m mountpoint (m.read_link link w).0

  abbrev pub any_inside : FilePath → List String → Bool
  any_inside dir [] = false
  any_inside dir (name ∷ names) = link_inside (dir <> "/" <> name) || any_inside dir names

  abbrev pub entries_inside : FilePath → Option (List String) → Bool
  entries_inside dir none = false
  entries_inside dir (some names) = any_inside dir names

  abbrev pub process_inside : FilePath → Bool
  process_inside proc_dir =
      link_inside (proc_dir <> "/cwd")
      || (link_inside (proc_dir <> "/root")
          || entries_inside (proc_dir <> "/fd") (m.read_dir (proc_dir <> "/fd") w).0)

  -- The numbers among the names whose process is inside.
  abbrev pub users_from : String → Option ℕ → List ℕ
  users_from name none = []
  users_from name (some pid) = if process_inside ("/proc/" <> name) then pid ∷ [] else []

  abbrev pub users : List String → List ℕ
  users [] = []
  users (name ∷ names) = users_from name (parse_unsigned (2 ^ 32) (codes name)) ++ users names

  module _ (static : IsStatic m) where
    is_under-inside : (link : FilePath) → is_under m link mountpoint w ≡ (link_inside link, w)
    unfolding is_under
    is_under-inside link = rw (static.link_static link w) refl

    or_else-inside :
        (a b : m.World → Bool × m.World) (x y : Bool)
        → a w ≡ (x, w)
        → b w ≡ (y, w)
        → or_else m a b w ≡ (x || y, w)
    or_else-inside a b true y h k = rw (or_else, h) (ap (λ p. (true, p.1)) h)
    or_else-inside a b false y h k = rw (or_else, h) (ap (λ p. b p.1) h ∙ k)

    any_under-inside :
        (dir : FilePath) (names : List String)
        → any_under m dir mountpoint names w ≡ (any_inside dir names, w)
    unfolding any_under
    any_under-inside dir [] = refl
    any_under-inside dir (name ∷ names) =
        or_else-inside (is_under m (dir <> "/" <> name) mountpoint)
          (any_under m dir mountpoint names) (link_inside (dir <> "/" <> name))
          (any_inside dir names) (is_under-inside (dir <> "/" <> name)) (any_under-inside dir names)

    any_entry-inside :
        (dir : FilePath) (entries : Option (List String))
        → any_entry m dir mountpoint entries w ≡ (entries_inside dir entries, w)
    any_entry-inside dir none = refl
    any_entry-inside dir (some names) = any_under-inside dir names

    has_fd_under-inside :
        (dir : FilePath)
        → has_fd_under m dir mountpoint w ≡ (entries_inside dir (m.read_dir dir w).0, w)
    unfolding has_fd_under
    has_fd_under-inside dir =
        rw (static.dir_static dir w) (any_entry-inside dir (m.read_dir dir w).0)

    uses_mount-inside :
        (proc_dir : FilePath) → uses_mount m proc_dir mountpoint w ≡ (process_inside proc_dir, w)
    unfolding uses_mount
    uses_mount-inside proc_dir =
        or_else-inside (is_under m (proc_dir <> "/cwd") mountpoint)
          (or_else m (is_under m (proc_dir <> "/root") mountpoint)
            (has_fd_under m (proc_dir <> "/fd") mountpoint))
          (link_inside (proc_dir <> "/cwd")) _ (is_under-inside (proc_dir <> "/cwd"))
          (or_else-inside (is_under m (proc_dir <> "/root") mountpoint)
            (has_fd_under m (proc_dir <> "/fd") mountpoint) (link_inside (proc_dir <> "/root")) _
            (is_under-inside (proc_dir <> "/root")) (has_fd_under-inside (proc_dir <> "/fd")))

    keep_pid-inside :
        (dir : FilePath) (pid : ℕ) (b : Bool)
        → keep_pid m dir pid b w ≡ ((if b then pid ∷ [] else []), w)
    keep_pid-inside dir pid true = rw (static.read_static (dir <> "/cmdline") w) refl
    keep_pid-inside dir pid false = refl

    visit-users :
        (name : String) (pid : Option ℕ) → visit m name mountpoint pid w ≡ (users_from name pid, w)
    visit-users name none = refl
    visit-users name (some pid) =
        rw (uses_mount-inside ("/proc/" <> name))
          (keep_pid-inside ("/proc/" <> name) pid (process_inside ("/proc/" <> name)))

    -- If looking at /proc changes nothing, the scan finds exactly the entries that are numbers of a
    -- process with its working directory, its root or an open file under the mount point, in order.
    pub scan-users : (names : List String) → scan m mountpoint names w ≡ (users names, w)
    unfolding scan
    scan-users [] = refl
    scan-users (name ∷ names) =
        rw (visit-users name (parse_unsigned (2 ^ 32) (codes name)), scan-users names) refl
