-- ===== src/Tests/Refusing.antt =====
-- A recovery with blocks of 512 bytes, which the commands accept.
use schelk.Base.{◌%◌, ◌*◌, ◌≡◌, ◌≢◌, refl, true, false, ok, err, some, [], arith}
use schelk.Base.Text.{decimal, decimal_loop}
use schelk.Error.{misaligned}
use schelk.Machine.{Machine, AppState}
use schelk.Env.{require_root}
use schelk.State.{load, lock}
use schelk.State.Loaded.{before_load}
use schelk.Io.Chunks.{total_blocks}
use schelk.Dmera
use schelk.Dmera.Xml.RoundTrip.{ends, block}
use schelk.Cmd
use schelk.Commands.Recover.{check_tracked, unmount_mounted, run}
use schelk.Commands.Recover.Restores.{before_collect}
use schelk.Commands.Recover.Reported.{Reports}
use schelk.Commands.Recover.Misaligned.{run-misaligned}
use schelk.Tests.Restoring.{stored-IsHealthy}
use schelk.Tests.Bench.{bench, mounted_state, changed_volumes, one_block}

abbrev narrow_state : AppState
narrow_state = record mounted_state { granularity = 512 }

-- The bench, with that state stored.
abbrev narrow : Machine
narrow = record bench { from_json = λ bytes. some narrow_state }

narrow_loads : (load narrow (before_load narrow changed_volumes)).0 ≡ ok (some narrow_state)
unfolding load
narrow_loads = refl

narrow-Reports :
    Reports narrow narrow_state one_block (
      before_collect narrow narrow_state false (load narrow (before_load narrow changed_volumes)).1)
unfolding decimal decimal_loop load lock require_root check_tracked unmount_mounted
    Dmera.take_metadata_snapshot Dmera.message Dmera.dmsetup Cmd.run Cmd.run_unchecked
narrow-Reports = record {
  output = record { stdout = []; success = true };
  contents = [];
  prints = refl;
  decodes = refl;
  report = block 1 (omega arith) ends;
}

half_page : (total_blocks one_block * 512) % 4096 ≢ 0
half_page e = omega (arith, e)

run-misaligned_example : (run narrow false changed_volumes).0 ≡ err misaligned
run-misaligned_example =
    run-misaligned narrow (stored-IsHealthy narrow_state) (λ a p w. refl) narrow_state (omega arith)
      false changed_volumes one_block narrow_loads refl narrow-Reports (omega arith, tt) half_page
