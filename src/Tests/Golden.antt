-- ===== src/Tests/Golden.antt =====
-- The golden image of the workshop over a series of commands.
use schelk.Base.{
  ◌≡◌, refl, sym, ap, subst, Bool, true, false, List, [], ◌∷◌, if◌then◌else◌, All, arith,
}
use schelk.Base.Text.{String, str_eq}
use schelk.Io.Ring.{Bytes}
use schelk.Cli.{Command, full_recover, mount, recover, restore, status, run_command}
use schelk.Session.Apart.{IsApart}
use schelk.Session.Stored.{stored}
use schelk.Session.Spec.{MayDo}
use schelk.Session.Main.{run_session, run_command-MayDo}
use schelk.Session.Written.{IsSteady, written}
use schelk.Session.Frame.{run_command-Spares}
use schelk.Session.Everyday.{Serves}
use schelk.Session.Golden.{run_session-golden}
use schelk.Tests.Workshop.{pair, Shop, exec, workshop, workshop_file, shop_keeps}
use schelk.Session.Cycles.{IsReady, again, done, Cycles-IsReady}
use schelk.Tests.Cycling.{one-IsCycle, written as changed_shop, idle, start, stored_idle}

exec_keeps_virgin :
    (cmd : String) (args : List String) (w : Shop) → (exec cmd args w).1.virgin ≡ w.virgin
exec_keeps_virgin cmd args w = ground arith

virgin-IsApart : IsApart workshop {X = Bytes} (λ w. w.virgin)
virgin-IsApart = record {
  is_root = record { at = λ w. refl };
  exists_path = λ p. record { at = λ w. refl };
  metadata = λ p. record { at = λ w. refl };
  canonicalize = λ p. record { at = λ w. refl };
  open_as = λ a p. record { at = λ w. refl };
  seek_end = λ p. record { at = λ w. refl };
  read_to_string = λ p. record { at = λ w. refl };
  read_exact = λ p n. record { at = λ w. refl };
  create_dir_all = λ p. record { at = λ w. refl };
  sync_all = λ p. record { at = λ w. refl };
  flock = λ p. record { at = λ w. refl };
  umount2 = λ p. record { at = λ w. refl };
  kill = λ pid w. refl;
  read_dir = λ p. record { at = λ w. refl };
  read_link = λ p. record { at = λ w. refl };
  exec = λ cmd args quiet. record { at = λ w. exec_keeps_virgin cmd args w };
  prompt = record { at = λ w. refl };
  open_direct = λ a p. record { at = λ w. refl };
}

abbrev steady : IsSteady workshop "/dev/v"
steady = record {
  apart = virgin-IsApart;
  files = shop_keeps "/dev/v";
  others = λ q e. record {
    mkfs = record { at = λ w. refl };
    write_zeros = λ offset len. record { at = λ w. refl };
    set_disk = λ b w. ap (λ here. if here then b else w.virgin) e;
  };
}

run_command-Spares_example :
    (run_command workshop true (restore true) start).1.virgin ≡ start.virgin
run_command-Spares_example =
    run_command-Spares workshop workshop_file "/dev/v" steady true (restore true) start (
      subst (λ o. All (λ q. str_eq q "/dev/v" ≡ false) (written (restore true) o)) (sym stored_idle)
        (refl, (refl, tt)))

run_command-MayDo_example :
    MayDo
      (restore true)
      (stored workshop workshop_file changed_shop)
      (stored workshop workshop_file (run_command workshop true (restore true) changed_shop).1)
run_command-MayDo_example =
    run_command-MayDo workshop workshop_file true (restore true) changed_shop

abbrev commands : List (Bool × Command)
commands =
    (true, mount)
    ∷ (true, recover true)
    ∷ (true, full_recover)
    ∷ (true, restore true)
    ∷ (true, status)
    ∷ []

serves : Serves idle (stored workshop workshop_file start)
serves = (idle, stored_idle, record { virgin = refl; scratch = refl; ramdisk = refl })

run_session-golden_example : (run_session workshop commands start).virgin ≡ start.virgin
run_session-golden_example =
    run_session-golden workshop workshop_file idle steady refl refl commands start
      (tt, (tt, (tt, (tt, (tt, tt))))) serves

ready : IsReady workshop workshop_file idle 8192 start.virgin start
ready = record { there = stored_idle; virgin = refl; scratch = λ i inside. refl }

Cycles-IsReady_example :
    IsReady workshop workshop_file idle 8192 start.virgin
      (run_command workshop true (recover false) changed_shop).1
Cycles-IsReady_example =
    Cycles-IsReady workshop workshop_file idle steady refl refl pair (shop_keeps "/dev/s")
      (omega arith) (omega arith) refl 8192 start.virgin (again one-IsCycle done) ready
