-- ===== src/Commands/Promote.antt =====
-- src/commands/promote.rs
pub mod Commits
pub mod Whole
pub mod Succeeds
use schelk.Base.{Bool, false, none}
use schelk.Error.{not_initialized, not_mounted}
use schelk.Machine.{Machine, AppState}
use schelk.Effect.{M, ◌>>=◌, ◌>>◌, ensure, given}
use schelk.Env.{require_root, confirm}
use schelk.Io.Volume.{hash_superblock, copy_blocks}
use schelk.State.{load, save, lock}
use schelk.Commands.Recover.{check_tracked, unmount_mounted, collect_changed}

module _ (m : Machine) where
  open m use {World}

  unfoldable pub promote_state : AppState → Bool → Bool → M World (Unit {0})
  unfolding check_tracked confirm unmount_mounted collect_changed copy_blocks hash_superblock save
  promote_state state skip kill = do
    check_tracked m state
    confirm m skip
    unmount_mounted m state kill
    changed ← collect_changed m state
    copy_blocks m state.scratch state.virgin changed state.granularity
    hash ← hash_superblock m state.virgin
    save m (record state { is_mounted = false; current_era = none; virgin_superblock_hash = hash })

  unfoldable pub run : Bool → Bool → M World (Unit {0})
  unfolding require_root lock load promote_state
  run skip kill = do
    require_root m
    lock m
    loaded ← load m
    state ← λ w. (given loaded not_initialized, w)
    ensure state.is_mounted not_mounted
    promote_state state skip kill
