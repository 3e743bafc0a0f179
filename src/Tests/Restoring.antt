-- ===== src/Tests/Restoring.antt =====
-- A recovery and a promotion on the bench, on which every call succeeds.
use schelk.Base.{ℕ, ◌≡◌, refl, true, false, ok, some, subst, sym, arith, [], ◌∷◌}
use schelk.Machine.{AppState}
use schelk.Commands.Recover.{run}
use schelk.Commands.Recover.Restores.{IsTracked, before_collect, after_collect}
use schelk.Commands.Recover.Reported.{Reports}
use schelk.Commands.Recover.Healthy.{IsHealthy}
use schelk.Commands.Recover.Succeeds.{run_succeeds_restored}
use schelk.Commands.Promote
use schelk.Commands.Promote.Commits
use schelk.Commands.Promote.Succeeds.{run_succeeds_committed}
use schelk.Tests.Bench.{
  bench, mounted_state, changed_volumes, forth, back, files_keep, reads_keep, one_block,
}
use schelk.Tests.Sessions.{loads, begins, after, one_block-IsTracked, promote_after}
use schelk.Tests.Reporting.{bench-Reports, promote-Reports}
use schelk.Tests.Finishing.{carries}

-- Whatever state is stored.
pub stored-IsHealthy :
    (state : AppState) → IsHealthy (record bench { from_json = λ bytes. some state })
stored-IsHealthy state = record {
  is_root = λ w. refl;
  create_dir_all = λ p w. refl;
  open_as = λ a p w. refl;
  flock = λ p w. refl;
  create = λ p w. refl;
  write_all = λ p bytes w. refl;
  sync_all = λ p w. refl;
  rename = λ p q w. refl;
  mounts = λ w. ([], refl);
  umount2 = λ p w. refl;
  exec = λ cmd args w. (record { stdout = []; success = true }, refl, refl);
}

bench-IsHealthy : IsHealthy bench
bench-IsHealthy = stored-IsHealthy mounted_state

run_succeeds_restored_example :
    let w' = (run bench false changed_volumes).1 in
    ((run bench false changed_volumes).0 ≡ ok tt)
    × ((i : ℕ) → bench.disk "/dev/s" w' i ≡ bench.disk "/dev/v" w' i)
run_succeeds_restored_example =
    run_succeeds_restored bench bench-IsHealthy mounted_state forth (files_keep "/dev/v")
      (files_keep "/dev/s") (omega arith) (omega arith) refl false changed_volumes one_block loads
      refl
      (subst
        (λ w1. Reports bench mounted_state one_block (before_collect bench mounted_state false w1))
        (sym begins) bench-Reports)
      (subst
        (λ w1. IsTracked bench mounted_state one_block (after_collect bench mounted_state false w1))
        (sym begins)
        (subst (IsTracked bench mounted_state one_block) (sym after) one_block-IsTracked))
      (carries "/dev/v" "/dev/s")

run_succeeds_committed_example :
    let w' = (Promote.run bench true false changed_volumes).1 in
    ((Promote.run bench true false changed_volumes).0 ≡ ok tt)
    × ((i : ℕ) → bench.disk "/dev/v" w' i ≡ bench.disk "/dev/s" w' i)
run_succeeds_committed_example =
    run_succeeds_committed bench bench-IsHealthy mounted_state (λ p n w. (7 ∷ [], refl)) back
      (files_keep "/dev/v") (files_keep "/dev/s") (reads_keep "/dev/v") (reads_keep "/dev/s")
      (omega arith) (omega arith) refl false changed_volumes one_block loads refl
      (subst
        (λ w1.
          Reports bench mounted_state one_block
            (Commits.before_collect bench mounted_state true false w1))
        (sym begins) promote-Reports)
      (subst
        (λ w1.
          IsTracked bench mounted_state one_block
            (Commits.after_collect bench mounted_state true false w1))
        (sym begins)
        (subst (IsTracked bench mounted_state one_block) (sym promote_after) one_block-IsTracked))
      (carries "/dev/s" "/dev/v")
