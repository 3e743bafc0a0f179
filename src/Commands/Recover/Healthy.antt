-- ===== src/Commands/Recover/Healthy.antt =====
-- The steps of src/commands/recover.rs on a machine on which every call succeeds.
use schelk.Base.{
  ℕ, ◌≡◌, refl, sym, ap, ◌∙◌, Bool, true, false, List, [], ◌∷◌, some, ok, err, Result,
}
use schelk.Base.Text.{String, decimal}
use schelk.Error.{Error, device_missing}
use schelk.Machine.{Machine, FilePath, Access, AppState, Output}
use schelk.Effect.{M, pure, ensure, attempt, or_cleanup, recovered, ◌>>=◌, ◌>>◌}
use schelk.Effect.Gives.{Gives, gives_rules, bind-Value, bind-Gives, bind_next, seq_next}
use schelk.Env.{require_root}
use schelk.State.{lock, save}
use schelk.Cmd
use schelk.Dmera
use schelk.Mount.{is_mounted, unmount}
use schelk.Io.Chunks.{BlockRange}
use schelk.Dmera.Xml.RoundTrip.{parse_era_invalidate_xml-IsReport}
use schelk.Commands.Recover.{base_era, check_tracked, unmount_if, unmount_mounted, collect_changed}
use schelk.Commands.Recover.Reported.{Reports}

-- Every program that is started succeeds, and so does every system call that the recovery makes.
pub record IsHealthy (m : Machine) : Type 0 where
  pub is_root : (w : m.World) → (m.is_root w).0 ≡ true
  pub create_dir_all : (p : FilePath) (w : m.World) → (m.create_dir_all p w).0 ≡ true
  pub open_as : (a : Access) (p : FilePath) (w : m.World) → (m.open_as a p w).0 ≡ true
  pub flock : (p : FilePath) (w : m.World) → (m.flock p w).0 ≡ true
  pub create : (p : FilePath) (w : m.World) → (m.create p w).0 ≡ true
  pub write_all : (p : FilePath) (bytes : List ℕ) (w : m.World) → (m.write_all p bytes w).0 ≡ true
  pub sync_all : (p : FilePath) (w : m.World) → (m.sync_all p w).0 ≡ true
  pub rename : (p q : FilePath) (w : m.World) → (m.rename p q w).0 ≡ true
  pub mounts :
      (w : m.World) → (bytes : List ℕ) × ((m.read_to_string "/proc/mounts" w).0 ≡ some bytes)
  pub umount2 : (p : FilePath) (w : m.World) → (m.umount2 p w).0 ≡ ok tt
  pub exec :
      (cmd : String) (args : List String) (w : m.World)
      → (output : Output) × ((m.exec cmd args w).0 ≡ some output) × (output.success ≡ true)

module _ (m : Machine) (h : IsHealthy m) where
  open m use {World}

  pub require_root-Gives : Gives (require_root m)
  unfolding require_root
  require_root-Gives = record { at = λ w. (tt, rw (h.is_root w) refl) }

  pub lock-Gives : Gives (lock m)
  unfolding lock
  lock-Gives = search (gives_rules, h.create_dir_all, h.open_as, h.flock)

  pub save-Gives : (state : AppState) → Gives (save m state)
  unfolding save
  save-Gives state =
      search (gives_rules, h.create_dir_all, h.create, h.write_all, h.sync_all, h.rename, h.open_as)
        depth 12

  require-Gives : (cmd : String) → Gives (Cmd.require m cmd)
  unfolding Cmd.require Cmd.is_available
  require-Gives cmd = record {
    at = λ w.
        let (output, started, fine) = h.exec "which" (cmd ∷ []) w in (tt, rw (started, fine) refl);
  }

  run-Gives : (cmd : String) (args : List String) → Gives (Cmd.run m cmd args)
  unfolding Cmd.run Cmd.run_unchecked
  run-Gives cmd args = record {
    at = λ w. let (output, started, fine) = h.exec cmd args w in (output, rw (started, fine) refl);
  }

  dmsetup-Gives : (args : List String) → Gives (Dmera.dmsetup m args)
  unfolding Dmera.dmsetup
  dmsetup-Gives args = search (gives_rules, run-Gives)

  message-Gives : (name text : String) → Gives (Dmera.message m name text)
  unfolding Dmera.message
  message-Gives name text = search (gives_rules, dmsetup-Gives)

  exists_true : (name : String) (w : World) → (Dmera.exists m name w).0 ≡ ok true
  unfolding Dmera.exists Cmd.run_unchecked
  exists_true name w =
      let (output, started, fine) = h.exec "dmsetup" ("info" ∷ name ∷ []) w in
      rw (started, fine) refl

  pub check_tracked-Gives : (state : AppState) → Gives (check_tracked m state)
  unfolding check_tracked Dmera.check_dmsetup Dmera.check_era_invalidate
  check_tracked-Gives state =
      let tools = require-Gives "dmsetup" in
      let exists_ends : Gives
          (Dmera.exists m state.dm_era_name >>= λ tracked. ensure tracked device_missing) =
        record {
          at = λ w.
              bind-Value (Dmera.exists m state.dm_era_name)
                (λ tracked. ensure tracked device_missing) w true (exists_true state.dm_era_name w)
                (tt, refl);
        } in
      search (gives_rules, require-Gives)

  is_mounted-Gives : (p : FilePath) → Gives (is_mounted m p)
  unfolding is_mounted
  is_mounted-Gives p = search (gives_rules, h.mounts)

  unmount-Gives : (p : FilePath) (kill : Bool) → Gives (unmount m p kill)
  unfolding unmount
  unmount-Gives p kill = record { at = λ w. (tt, rw (h.umount2 p w) refl) }

  pub unmount_mounted-Gives :
      (state : AppState) (kill : Bool) → Gives (unmount_mounted m state kill)
  unfolding unmount_mounted
  unmount_mounted-Gives state kill =
      bind-Gives (is_mounted m state.mount_point) (unmount_if m state.mount_point kill)
        (is_mounted-Gives state.mount_point) unmounts
    where
      unmounts : (found : Bool) → Gives (unmount_if m state.mount_point kill found)
      unmounts true = unmount-Gives state.mount_point kill
      unmounts false = record { at = λ w. (tt, refl) }

  module _ (state : AppState) where
    abbrev since : List String
    since =
        "--metadata-snapshot" ∷ "--written-since" ∷ decimal (base_era m state) ∷ state.ramdisk ∷ []

    -- The ranges of the report are the changed blocks.
    get_changed_blocks_ok :
        (rs : List BlockRange) (w : World)
        → Reports m state rs w
        → (Dmera.get_changed_blocks m state.ramdisk
            (base_era m state)
            (Dmera.take_metadata_snapshot m state.dm_era_name w).1).0
          ≡ ok rs
    unfolding Dmera.get_changed_blocks
    get_changed_blocks_ok rs w r =
        let w1 = (Dmera.take_metadata_snapshot m state.dm_era_name w).1 in
        let (output, started, fine) = h.exec "era_invalidate" since w1 in
        let same : output ≡ r.output = let p = r.prints in cc in
        let success : r.output.success ≡ true = sym (ap (λ (o : Output). o.success) same) ∙ fine in
        rw (r.prints, success, r.decodes) (parse_era_invalidate_xml-IsReport r.report)

    kept_ok :
        {A : Type 0} (c : M World A) (d : M World (Unit {0})) (w : World) (a : A)
        → (c w).0 ≡ ok a
        → (or_cleanup c d w).0 ≡ ok a
    kept_ok {A} c d w a e = unchanged (c w) e
      where
        unchanged : (x : Result Error A × World) → x.0 ≡ ok a → (recovered d x).0 ≡ ok a
        unchanged (ok b, v) k = k
        unchanged (err b, v) k = k

    pub collect_changed_gives :
        (rs : List BlockRange) (w : World)
        → Reports m state rs w
        → (collect_changed m state w).0 ≡ ok rs
    unfolding collect_changed Dmera.drop_metadata_snapshot Dmera.take_metadata_snapshot Dmera.remove
    collect_changed_gives rs w r =
        let drop = Dmera.drop_metadata_snapshot m state.dm_era_name in
        let take = Dmera.take_metadata_snapshot m state.dm_era_name in
        let remove = Dmera.remove m state.dm_era_name in
        let get = Dmera.get_changed_blocks m state.ramdisk (base_era m state) in
        let collect = or_cleanup get (attempt drop) in
        let finish = λ (blocks : List BlockRange). drop >> (remove >> pure blocks) in
        let drops : Gives drop = search message-Gives in
        let takes : Gives take = search message-Gives in
        let removes : Gives remove = search dmsetup-Gives in
        let w1 = (take w).1 in
        let w2 = (collect w1).1 in
        let w3 = (drop w2).1 in
        seq_next take (collect >>= finish) w (takes.at w)
        ∙ bind_next collect finish w1 rs
            (kept_ok get (attempt drop) w1 rs (get_changed_blocks_ok rs w r))
        ∙ seq_next drop (remove >> pure rs) w2 (drops.at w2)
        ∙ seq_next remove (pure rs) w3 (removes.at w3)
