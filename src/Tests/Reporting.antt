-- ===== src/Tests/Reporting.antt =====
-- A recovery on the bench from the report of its one changed block.
use schelk.Base.{◌≡◌, refl, false, true, ◌∷◌, [], subst, sym, arith, List, Option, ok, some}
use schelk.Base.Text.{decimal, decimal_loop}
use schelk.Machine.{XmlEvent, eof, empty, other}
use schelk.Commands.Recover.{check_tracked, unmount_mounted}
use schelk.Commands.Recover.Restores.{IsTracked, before_collect}
use schelk.Commands.Recover.Reported.{Reports}
use schelk.Dmera
use schelk.Dmera.Xml.{parse_era_invalidate_xml}
use schelk.Dmera.Xml.RoundTrip.{
  IsReport, ends, skip, block, range, attr, one, between, parse_era_invalidate_xml-IsReport,
}
use schelk.Cmd
use schelk.Env.{confirm}
use schelk.Commands.Promote
use schelk.Commands.Promote.Commits
use schelk.Commands.Promote.Whole.{run_commits}
use schelk.Tests.Bench.{
  bench, mounted_state, changed_volumes, back, files_keep, reads_keep, one_block,
}
use schelk.Tests.Sessions.{
  honest, loads, begins, one_block-IsTracked, promoting, promote_after, promote_runs,
}

-- <blocks> <range begin="7" end="10"/> <block block="12"/> </blocks>
abbrev printed : List (Option XmlEvent)
printed =
    some other
    ∷ some (empty "range" (attr "begin" 7 ∷ attr "end" 10 ∷ []))
    ∷ some (empty "block" (attr "block" 12 ∷ []))
    ∷ some other
    ∷ some eof
    ∷ []

printed-IsReport : IsReport printed (between 7 10 ∷ one 12 ∷ [])
printed-IsReport =
    skip (range 7 10 (omega arith) (omega arith) (block 12 (omega arith) (skip ends)))

parse_era_invalidate_xml-IsReport_example :
    parse_era_invalidate_xml printed ≡ ok (between 7 10 ∷ one 12 ∷ [])
parse_era_invalidate_xml-IsReport_example = parse_era_invalidate_xml-IsReport printed-IsReport

pub bench-Reports :
    Reports bench mounted_state one_block (before_collect bench mounted_state false changed_volumes)
unfolding decimal decimal_loop check_tracked unmount_mounted Dmera.take_metadata_snapshot
    Dmera.message Dmera.dmsetup Cmd.run Cmd.run_unchecked
bench-Reports = record {
  output = record { stdout = []; success = true };
  contents = [];
  prints = refl;
  decodes = refl;
  report = block 1 (omega arith) ends;
}

pub promote-Reports : Reports bench mounted_state one_block promoting
unfolding decimal decimal_loop check_tracked unmount_mounted Dmera.take_metadata_snapshot
    Dmera.message Dmera.dmsetup Cmd.run Cmd.run_unchecked confirm
promote-Reports = record {
  output = record { stdout = []; success = true };
  contents = [];
  prints = refl;
  decodes = refl;
  report = block 1 (omega arith) ends;
}

run_commits_example :
    let w' = (Promote.run bench true false changed_volumes).1 in
    bench.disk "/dev/v" w' 5000 ≡ bench.disk "/dev/s" w' 5000
run_commits_example =
    run_commits bench mounted_state back (files_keep "/dev/v") (files_keep "/dev/s")
      (reads_keep "/dev/v") (reads_keep "/dev/s") (omega arith) (omega arith) true false
      changed_volumes 5000 one_block loads
      (subst
        (λ w1.
          Reports bench mounted_state one_block
            (Commits.before_collect bench mounted_state true false w1))
        (sym begins) promote-Reports)
      (subst
        (λ w1.
          IsTracked bench mounted_state one_block
            (Commits.after_collect bench mounted_state true false w1))
        (sym begins)
        (subst (IsTracked bench mounted_state one_block) (sym promote_after) one_block-IsTracked))
      (honest "/dev/s" "/dev/v") promote_runs
