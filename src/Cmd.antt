-- ===== src/Cmd.antt =====
-- src/cmd.rs: running external programs.
use schelk.Base.{Bool, List, [], ◌∷◌, Option, none, some}
use schelk.Base.Text.{String}
use schelk.Error.{command_failed, not_found, os_error}
use schelk.Machine.{Machine, Output}
use schelk.Effect.{M, pure, ◌>>=◌, ◌>>◌, need, ensure}

module _ (m : Machine) where
  open m use {World}

  abbrev started_well : Option Output → Bool
  started_well none = Bool.false
  started_well (some output) = output.success

  -- `which cmd`, whose failure to start counts as no.
  unfoldable pub is_available : String → M World Bool
  is_available cmd w =
      let (output, w') = m.exec "which" (cmd ∷ []) w in pure (started_well output) w'

  -- An error only if the program does not start.
  unfoldable pub run_unchecked : String → List String → M World Output
  run_unchecked cmd args = need (m.exec cmd args) os_error

  -- An error if the program does not start, or fails.
  unfoldable pub run : String → List String → M World Output
  unfolding run_unchecked
  run cmd args = do
    output ← run_unchecked cmd args
    ensure output.success command_failed
    pure output

  unfoldable pub require : String → M World (Unit {0})
  unfolding is_available
  require cmd = do available ← is_available cmd; ensure available not_found
