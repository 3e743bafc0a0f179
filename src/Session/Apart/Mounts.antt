-- ===== src/Session/Apart/Mounts.antt =====
-- src/mount.rs, which writes neither the state file nor a device.
use schelk.Base.{
  ℕ, refl, ◌∙◌, Bool, true, false, List, [], ◌∷◌, Option, none, some, Bool-cases, inl, inr, Result,
  ok, err, ◌^◌,
}
use schelk.Base.Text.{String, ◌<>◌, codes, parse_unsigned}
use schelk.Machine.{Machine, FilePath, Errno, ebusy, other}
use schelk.Effect.{ask}
use schelk.Effect.Keeps.{Keeps, CallKeeps, keeps_rules, bind-Keeps, seq-Keeps, ask-Keeps}
use schelk.Cmd
use schelk.Mount.{is_mounted, ensure_dir, mount, kill_all, kill_and_retry, after_umount, unmount}
use schelk.Processes.{
  is_under, any_under, any_entry, has_fd_under, or_else, uses_mount, keep_pid, visit, scan,
  scan_all, find_processes_using, or_path,
}
use schelk.Session.Apart.{IsApart}

module _ (m : Machine) {X : Type 0} (view : m.World → X) (apart : IsApart m view) where
  pub is_mounted-Keeps : (p : FilePath) → Keeps view (is_mounted m p)
  unfolding is_mounted
  is_mounted-Keeps p = search (keeps_rules, apart.read_to_string, apart.canonicalize)

  ensure_dir-Keeps : (p : FilePath) (found : Bool) → Keeps view (ensure_dir m p found)
  ensure_dir-Keeps p true = search keeps_rules
  ensure_dir-Keeps p false = search (keeps_rules, apart.create_dir_all)

  pub mount-Keeps :
      (device mountpoint : FilePath) (fstype : String) (options : Option String)
      → Keeps view (mount m device mountpoint fstype options)
  unfolding mount Cmd.run Cmd.run_unchecked
  mount-Keeps device mountpoint fstype options =
      search (keeps_rules, apart.exists_path, ensure_dir-Keeps, apart.exec) depth 9

  is_under-CallKeeps : (link p : FilePath) → CallKeeps view (is_under m link p)
  unfolding is_under
  is_under-CallKeeps link p = record { at = (apart.read_link link).at }

  any_under-CallKeeps :
      (dir p : FilePath) (names : List String) → CallKeeps view (any_under m dir p names)
  unfolding any_under
  any_under-CallKeeps dir p [] = record { at = λ w. refl }
  any_under-CallKeeps dir p (name ∷ names) = record {
    at = λ w.
        let first = (is_under-CallKeeps (dir <> "/" <> name) p).at w in
        let (found, w') = is_under m (dir <> "/" <> name) p w in
        elim (Bool-cases found) [
          | inl e ↦ rw (e, any_under) first
          | inr e ↦ rw (e, any_under) ((any_under-CallKeeps dir p names).at w' ∙ first)
        ];
  }

  any_entry-CallKeeps :
      (dir p : FilePath) (o : Option (List String)) → CallKeeps view (any_entry m dir p o)
  any_entry-CallKeeps dir p none = record { at = λ w. refl }
  any_entry-CallKeeps dir p (some names) = any_under-CallKeeps dir p names

  has_fd_under-CallKeeps : (dir p : FilePath) → CallKeeps view (has_fd_under m dir p)
  unfolding has_fd_under
  has_fd_under-CallKeeps dir p = record {
    at = λ w.
        (any_entry-CallKeeps dir p (m.read_dir dir w).0).at (m.read_dir dir w).1
        ∙ (apart.read_dir dir).at w;
  }

  or_else-CallKeeps :
      (a b : m.World → Bool × m.World)
      → CallKeeps view a
      → CallKeeps view b
      → CallKeeps view (or_else m a b)
  or_else-CallKeeps a b h k = record {
    at = λ w. elim (Bool-cases (a w).0) [
      | inl e ↦ rw (e, or_else) (h.at w)
      | inr e ↦ rw (e, or_else) (k.at (a w).1 ∙ h.at w)
    ];
  }

  uses_mount-CallKeeps : (dir p : FilePath) → CallKeeps view (uses_mount m dir p)
  unfolding uses_mount
  uses_mount-CallKeeps dir p =
      search (or_else-CallKeeps, is_under-CallKeeps, has_fd_under-CallKeeps)

  keep_pid-CallKeeps :
      (dir : FilePath) (pid : ℕ) (found : Bool) → CallKeeps view (keep_pid m dir pid found)
  keep_pid-CallKeeps dir pid false = record { at = λ w. refl }
  keep_pid-CallKeeps dir pid true = record { at = (apart.read_to_string (dir <> "/cmdline")).at }

  visit-CallKeeps :
      (name : String) (p : FilePath) (pid : Option ℕ) → CallKeeps view (visit m name p pid)
  visit-CallKeeps name p none = record { at = λ w. refl }
  visit-CallKeeps name p (some pid) = record {
    at = λ w.
        let dir = "/proc/" <> name in
        (keep_pid-CallKeeps dir pid (uses_mount m dir p w).0).at (uses_mount m dir p w).1
        ∙ (uses_mount-CallKeeps dir p).at w;
  }

  scan-CallKeeps : (p : FilePath) (names : List String) → CallKeeps view (scan m p names)
  unfolding scan
  scan-CallKeeps p [] = record { at = λ w. refl }
  scan-CallKeeps p (name ∷ names) = record {
    at = λ w.
        let pid = parse_unsigned (2 ^ 32) (codes name) in
        (scan-CallKeeps p names).at (visit m name p pid w).1 ∙ (visit-CallKeeps name p pid).at w;
  }

  scan_all-CallKeeps : (p : FilePath) (o : Option (List String)) → CallKeeps view (scan_all m p o)
  scan_all-CallKeeps p none = record { at = λ w. refl }
  scan_all-CallKeeps p (some names) = scan-CallKeeps p names

  find_processes_using-CallKeeps : (p : FilePath) → CallKeeps view (find_processes_using m p)
  unfolding find_processes_using
  find_processes_using-CallKeeps p = record {
    at = λ w.
        let w1 = (m.canonicalize p w).1 in
        (scan_all-CallKeeps (or_path p (m.canonicalize p w).0) (m.read_dir "/proc" w1).0).at
          (m.read_dir "/proc" w1).1
        ∙ (apart.read_dir "/proc").at w1
        ∙ (apart.canonicalize p).at w;
  }

  kill_all-Keeps : (pids : List ℕ) → Keeps view (kill_all m pids)
  kill_all-Keeps [] = search keeps_rules
  kill_all-Keeps (pid ∷ pids) = record {
    at = λ w. (kill_all-Keeps pids).at (m.kill pid w) ∙ apart.kill pid w;
  }

  kill_and_retry-Keeps : (p : FilePath) (pids : List ℕ) → Keeps view (kill_and_retry m p pids)
  unfolding kill_and_retry
  kill_and_retry-Keeps p [] = search keeps_rules
  kill_and_retry-Keeps p (pid ∷ pids) =
      seq-Keeps (kill_all m (pid ∷ pids)) _ (kill_all-Keeps (pid ∷ pids))
        (record { at = (apart.umount2 p).at })

  after_umount-Keeps :
      (p : FilePath) (kill : Bool) (r : Result Errno (Unit {0}))
      → Keeps view (after_umount m p kill r)
  after_umount-Keeps p kill (ok u) = search keeps_rules
  after_umount-Keeps p true (err ebusy) =
      search (keeps_rules, find_processes_using-CallKeeps, kill_and_retry-Keeps)
  after_umount-Keeps p false (err ebusy) = search (keeps_rules, find_processes_using-CallKeeps)
  after_umount-Keeps p true (err other) = search keeps_rules
  after_umount-Keeps p false (err other) = search keeps_rules

  pub unmount-Keeps : (p : FilePath) (kill : Bool) → Keeps view (unmount m p kill)
  unfolding unmount
  unmount-Keeps p kill =
      bind-Keeps (ask (m.umount2 p)) (after_umount m p kill)
        (ask-Keeps (m.umount2 p) (apart.umount2 p)) (after_umount-Keeps p kill)
