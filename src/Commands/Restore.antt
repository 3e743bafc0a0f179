-- ===== src/Commands/Restore.antt =====
-- src/commands/restore.rs
use schelk.Base.{Bool}
use schelk.Machine.{Machine}
use schelk.Effect.{M, ◌>>◌}
use schelk.Env.{require_root}
use schelk.State.{lock}
use schelk.Commands.Recover
use schelk.Commands.Mount

module _ (m : Machine) where
  open m use {World}

  unfoldable pub run : Bool → M World (Unit {0})
  unfolding require_root lock Recover.run_locked Mount.run_locked
  run kill = do require_root m; lock m; Recover.run_locked m kill; Mount.run_locked m
