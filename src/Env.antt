-- ===== src/Env.antt =====
-- src/env.rs and src/confirm.rs: root privileges, and the confirmation of destructive operations.
use schelk.Base.{ℕ, Bool, ◌||◌, List, if◌then◌else◌}
use schelk.Base.Text.{codes}
use schelk.Error.{requires_root, cancelled_by_user, os_error}
use schelk.Machine.{Machine}
use schelk.Effect.{M, pure, ◌>>=◌, ask, need, ensure}
use schelk.Text.{trim, lowercase, codes_eq}

-- Whether a line is a yes.
unfoldable pub is_yes : List ℕ → Bool
unfolding trim
is_yes line =
    let response = lowercase (trim line) in
    codes_eq response (codes "y") || codes_eq response (codes "yes")

module _ (m : Machine) where
  open m use {World}

  unfoldable pub require_root : M World (Unit {0})
  require_root = do root ← ask m.is_root; ensure root requires_root

  unfoldable pub prompt : M World Bool
  unfolding is_yes
  prompt = do line ← need m.prompt os_error; pure (is_yes line)

  -- `confirm::require`: with the flag `-y` nothing is asked.
  unfoldable pub confirm : Bool → M World (Unit {0})
  unfolding prompt
  confirm skip =
      if skip then pure tt else (prompt >>= λ confirmed. ensure confirmed cancelled_by_user)
