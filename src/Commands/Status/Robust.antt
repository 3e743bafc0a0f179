-- ===== src/Commands/Status/Robust.antt =====
-- What can fail in src/commands/status.rs.
use schelk.Base.{◌≡◌, ap, Option, none, some, Result, ok, err}
use schelk.Error.{Error}
use schelk.Machine.{Machine, AppState}
use schelk.Effect.{continue}
use schelk.State.{load}
use schelk.Commands.Status.{report, or_false, run}

module _ (m : Machine) where
  open m use {World}

  report_fails :
      (x : Result Error (Option AppState) × World) (e : Error)
      → (continue (report m) x).0 ≡ err e
      → x.0 ≡ err e
  unfolding or_false
  report_fails (ok none, w) e h = absurd (cc)
  report_fails (ok (some s), w) e h = absurd (cc)
  report_fails (err x, w) e h = let same : x ≡ e = cc in ap err same

  -- `status` fails only where the stored state cannot be loaded, and then with that error: not if the
  -- device or the mount table cannot be asked for.
  pub run-fails : (w : World) (e : Error) → (run m w).0 ≡ err e → (load m w).0 ≡ err e
  unfolding run
  run-fails w e h = report_fails (load m w) e h
