-- ===== src/Cli.antt =====
-- src/cli.rs and src/main.rs: the command line, as clap has parsed it, and the command that it runs.
use schelk.Base.{Bool, Option, none, some}
use schelk.Base.Text.{String}
use schelk.Machine.{Machine, FilePath}
use schelk.Effect.{M, pure, ◌>>=◌}
use schelk.Commands.InitCommon.{InitArgs}
use schelk.Commands.InitNew
use schelk.Commands.InitFrom
use schelk.Commands.FullRecover
use schelk.Commands.Mount
use schelk.Commands.Recover
use schelk.Commands.Restore
use schelk.Commands.Promote
use schelk.Commands.Status

pub data Command : Type 0 where
  init_new : (args : InitArgs) → Command
  init_from : (args : InitArgs) (fstype : String) (no_copy : Bool) → Command
  full_recover : Command
  mount : Command
  recover : (kill : Bool) → Command
  restore : (kill : Bool) → Command
  promote : (kill : Bool) → Command
  status : Command

pub record Cli : Type 0 where
  pub skip : Bool
  pub state_path : Option FilePath
  pub command : Option Command

abbrev pub default_state_path : FilePath
default_state_path = "/var/lib/schelk/state.json"

abbrev pub or_default : Option FilePath → FilePath
or_default none = default_state_path
or_default (some path) = path

-- The directory of a path without a parent is the root.
abbrev pub or_root : Option FilePath → FilePath
or_root none = "/"
or_root (some dir) = dir

-- The machine with the state file of the command line.
unfoldable pub set_path_override : Machine → Option FilePath → Machine
set_path_override m override = record m {
  state_path = or_default override;
  state_dir = or_root (m.parent (or_default override));
}

module _ (m : Machine) where
  open m use {World}

  -- The handlers by which the long commands ignore SIGINT and SIGTERM change nothing.
  unfoldable pub run_command : Bool → Command → M World (Unit {0})
  unfolding InitNew.run InitFrom.run FullRecover.run Mount.run Recover.run Restore.run Promote.run
      Status.run
  run_command skip (init_new args) = InitNew.run m args skip
  run_command skip (init_from args fstype no_copy) = InitFrom.run m args fstype no_copy skip
  run_command skip full_recover = FullRecover.run m skip
  run_command skip mount = Mount.run m
  run_command skip (recover kill) = Recover.run m kill
  run_command skip (restore kill) = Restore.run m kill
  run_command skip (promote kill) = Promote.run m skip kill
  run_command skip status = Status.run m >>= λ lines. pure tt

-- Without a command, the status is shown.
abbrev or_status : Option Command → Command
or_status none = status
or_status (some command) = command

unfoldable pub main : (m : Machine) → Cli → M m.World (Unit {0})
unfolding set_path_override run_command
main m cli = run_command (set_path_override m cli.state_path) cli.skip (or_status cli.command)
