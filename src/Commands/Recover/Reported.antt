-- ===== src/Commands/Recover/Reported.antt =====
-- `schelk recover` (src/commands/recover.rs) and the report that era_invalidate prints.
use schelk.Base.{
  ℕ, ◌≤◌, ◌<◌, ◌^◌, ◌≡◌, sym, ap, subst, ◌∙◌, Bool, true, List, [], ◌∷◌, some, ok, err, Result,
}
use schelk.Base.Text.{decimal}
use schelk.Error.{Error, os_error, command_failed, invalid_utf8}
use schelk.Machine.{Machine, AppState, Output}
use schelk.Effect.{M, pure, given, need, ensure, attempt, or_cleanup, recovered, ◌>>=◌, ◌>>◌}
use schelk.Effect.Laws.{bind_ok, seq_ok, given_ok}
use schelk.State.{load}
use schelk.State.Disks.{FilesKeep}
use schelk.Io.Chunks.{BlockRange, prepare_chunks}
use schelk.Io.Volume.{blocks_copy_config}
use schelk.Io.Volume.Exact.{IsVolumePair, HonestCopy}
use schelk.Dmera
use schelk.Dmera.Xml.{parse_era_invalidate_xml}
use schelk.Dmera.Xml.RoundTrip.{IsReport, parse_era_invalidate_xml-IsReport}
use schelk.Commands.Recover.{base_era, collect_changed, run}
use schelk.Commands.Recover.Restores.{IsTracked, before_collect, after_collect}
use schelk.State.Loaded.{before_load}
use schelk.Commands.Recover.Whole.{run_restores}

-- In the world in which the changed blocks are collected, era_invalidate prints a report of the
-- ranges.
pub record Reports (m : Machine) (state : AppState) (rs : List BlockRange) (w : m.World)
    : Type 0 where
  pub output : Output
  pub contents : List ℕ
  pub prints :
      (m.exec "era_invalidate"
        ("--metadata-snapshot"
          ∷ "--written-since"
          ∷ decimal (base_era m state)
          ∷ state.ramdisk
          ∷ [])
        (Dmera.take_metadata_snapshot m state.dm_era_name w).1).0
      ≡ some output
  pub decodes : m.from_utf8 output.stdout ≡ some contents
  pub report : IsReport (m.read_events contents) rs

module _ (m : Machine) (state : AppState) where
  get_changed_blocks_ok :
      (changed rs : List BlockRange) (w : m.World)
      → (r : Reports m state rs w)
      → (Dmera.get_changed_blocks m state.ramdisk
          (base_era m state)
          (Dmera.take_metadata_snapshot m state.dm_era_name w).1).0
        ≡ ok changed
      → changed ≡ rs
  unfolding Dmera.get_changed_blocks
  get_changed_blocks_ok changed rs w r e =
      let w1 = (Dmera.take_metadata_snapshot m state.dm_era_name w).1 in
      let args =
        "--metadata-snapshot"
        ∷ "--written-since"
        ∷ decimal (base_era m state)
        ∷ state.ramdisk
        ∷ [] in
      let ask_it = need (m.exec "era_invalidate" args) os_error in
      let decode : Output → M m.World (List ℕ) =
        λ output v. (given (m.from_utf8 output.stdout) invalid_utf8, v) in
      let parse : List ℕ → M m.World (List BlockRange) =
        λ contents v. (parse_era_invalidate_xml (m.read_events contents), v) in
      let (output, printed, rest, last) =
        bind_ok ask_it (λ output. ensure output.success command_failed >> (decode output >>= parse))
          w1 changed e in
      let w2 = (m.exec "era_invalidate" args w1).1 in
      let there = given_ok (m.exec "era_invalidate" args w1).0 os_error output printed in
      let (u, passes, rest1, last1) =
        seq_ok (ensure output.success command_failed) (decode output >>= parse) w2 changed rest in
      let (contents, decoded, rest2, last2) = bind_ok (decode output) parse w2 changed rest1 in
      let text = given_ok (m.from_utf8 output.stdout) invalid_utf8 contents decoded in
      let same_output : output ≡ r.output = let p = r.prints in cc in
      let same : contents ≡ r.contents =
        let d = r.decodes in
        let t = sym text ∙ ap (λ (o : Output). m.from_utf8 o.stdout) same_output in cc in
      let reads = parse_era_invalidate_xml-IsReport r.report in
      let parsed : parse_era_invalidate_xml (m.read_events r.contents) ≡ ok changed =
        sym (ap (λ c. parse_era_invalidate_xml (m.read_events c)) same) ∙ rest2 in
      cc

  or_cleanup_ok :
      {A : Type 0} (c : M m.World A) (d : M m.World (Unit {0})) (w : m.World) (a : A)
      → (or_cleanup c d w).0 ≡ ok a
      → (c w).0 ≡ ok a
  or_cleanup_ok {A} c d w a e = unchanged (c w) e
    where
      unchanged : (x : Result Error A × m.World) → (recovered d x).0 ≡ ok a → x.0 ≡ ok a
      unchanged (ok b, v) h = h
      unchanged (err b, v) h = absurd (cc)

  collect_changed_ok :
      (changed rs : List BlockRange) (w : m.World)
      → Reports m state rs w
      → (collect_changed m state w).0 ≡ ok changed
      → changed ≡ rs
  unfolding collect_changed
  collect_changed_ok changed rs w r e =
      let w1 = (Dmera.take_metadata_snapshot m state.dm_era_name w).1 in
      let drop = Dmera.drop_metadata_snapshot m state.dm_era_name in
      let get = Dmera.get_changed_blocks m state.ramdisk (base_era m state) in
      let collect = or_cleanup get (attempt drop) in
      let finish =
        λ (blocks : List BlockRange). drop >> (Dmera.remove m state.dm_era_name >> pure blocks) in
      let (u, taken, rest, last) =
        seq_ok (Dmera.take_metadata_snapshot m state.dm_era_name) (collect >>= finish) w changed
          e in
      let (blocks, got, rest1, last1) = bind_ok collect finish w1 changed rest in
      let w2 = (collect w1).1 in
      let (u2, dropped, rest2, last2) =
        seq_ok drop (Dmera.remove m state.dm_era_name >> pure blocks) w2 changed rest1 in
      let (u3, removed, rest3, last3) =
        seq_ok (Dmera.remove m state.dm_era_name) (pure blocks) (drop w2).1 changed rest2 in
      let same : blocks ≡ changed = cc in
      sym same
      ∙ get_changed_blocks_ok blocks rs w r (or_cleanup_ok get (attempt drop) w1 blocks got)

  -- What holds of the reported ranges holds of those that are collected.
  pub reported :
      (changed rs : List BlockRange) (w : m.World)
      → Reports m state rs w
      → (collect_changed m state w).0 ≡ ok changed
      → (P : List BlockRange → Type 0) → P rs
      → P changed
  reported changed rs w r e P p = subst P (sym (collect_changed_ok changed rs w r e)) p

module _ (m : Machine) (state : AppState) (pair : IsVolumePair m state.virgin state.scratch)
    (virgin_kept : FilesKeep m state.virgin) (scratch_kept : FilesKeep m state.scratch)
    (positive : 0 < state.granularity) (small : state.granularity ≤ 2 ^ 30) where
  -- If `schelk recover` loads a mounted state, era_invalidate prints a report of ranges outside of
  -- which the volumes are the same, and the command succeeds, then every byte of the scratch volume is
  -- that of the virgin volume: for a positive granularity up to a gibibyte and a kernel that reads and
  -- writes as documented and answers operations in flight, in any order, where writing the state file
  -- changes neither volume.
  pub run_restores_reported :
      (kill : Bool) (w : m.World) (i : ℕ) (rs : List BlockRange)
      → (load m (before_load m w)).0 ≡ ok (some state)
      → state.is_mounted ≡ true
      → let w1 = (load m (before_load m w)).1 in
        Reports m state rs (before_collect m state kill w1)
        → IsTracked m state rs (after_collect m state kill w1)
        → HonestCopy m state.virgin state.scratch
            (blocks_copy_config state.granularity)
            (prepare_chunks rs state.granularity)
        → (run m kill w).0 ≡ ok tt
        → let w' = (run m kill w).1 in m.disk state.scratch w' i ≡ m.disk state.virgin w' i
  run_restores_reported kill w i rs loads on reports tracked honest e =
      let w1 = (load m (before_load m w)).1 in
      run_restores m state pair virgin_kept scratch_kept positive small kill w i loads on
        (λ changed collected.
          reported m state changed rs (before_collect m state kill w1) reports collected
            (λ blocks.
              IsTracked m state blocks (after_collect m state kill w1)
              × HonestCopy m state.virgin state.scratch (blocks_copy_config state.granularity)
                  (prepare_chunks blocks state.granularity))
            (tracked, honest))
        e
