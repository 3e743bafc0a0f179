-- ===== src/Lib.antt =====
-- schelk keeps a scratch volume that is changed by experiments and a virgin volume that is not, and
-- restores the scratch volume by copying back only the blocks that changed. dm-era, a device of the
-- Linux kernel that is created over the scratch volume, tracks them in a RAM disk.
--
-- The parts, with the files that they model:
--   Base         numbers, Booleans, lists and texts that the other modules share. Base.Words has
--                the u64 arithmetic of a release build, which wraps around.
--   Error        the errors, without their texts (src/error.rs, and the messages where they stand).
--   Machine      what the program uses of the operating system and of libraries, as a record of
--                calls over an unknown world: system calls, external programs, the JSON codec,
--                SHA-256 and the XML reader. AppState of src/state.rs is here, beside its codec.
--   Effect       computations over that world that may fail; `?` is the bind.
--   Io.Chunks    `sequential_chunks` and `prepare_chunks` of src/io/uring.rs.
--   Io.Ring      `run_ring` of src/io/uring.rs, one copy worker. `turn` is a round from the top of its
--                loop to the wait for completions; in Io.Ring.Handling, `handle_all` is the work on one
--                batch of them and `advance` the whole of it up to the next wait.
--   Io.Ring.Buffers  the buffer pool of src/io/uring.rs.
--   Io.Copy      `run_copy` of src/io/uring.rs after the volumes are open. `deliver_all` hands batches
--                of completions to the workers in the order of a list of events, which stands for
--                any interleaving of the workers.
--   Io.Volume    src/io/mod.rs and src/volume.rs, and `run_copy`, `full_copy` and `copy_blocks` of
--                src/io/uring.rs over the machine.
--   Dmera        src/dmera.rs: names, the calls of dmsetup and era_invalidate, and the report's parser.
--   Ramdisk      src/ramdisk.rs.
--   State        src/state.rs: `load`, `lock` and `save`.
--   Mount        src/mount.rs: `mount`, `unmount` and `is_mounted`.
--   Paths        the equality, the prefixes and the joining of paths in the standard library.
--   Processes    src/mount.rs: the walk over /proc for the processes that use a mount point.
--   Cmd, Env     src/cmd.rs, and src/env.rs with src/confirm.rs.
--   Commands     src/commands/*.rs, one module per command. A command is cut where another command or a
--                theorem uses a part of it: `recover_state` is `run_locked` of src/commands/recover.rs
--                from a loaded state on, `mount_state` that of src/commands/mount.rs, `promote_state`
--                the rest of `run` of src/commands/promote.rs, and `full_recover_state` that of
--                src/commands/full_recover.rs.
--   Commands.Status  src/commands/status.rs: the report, as the lines that are printed.
--   Cli          src/cli.rs as parsed by clap, and the dispatch and the state path of src/main.rs.
--   Session      the stored state from one run of the program to the next: which calls change the state
--                file (Session.Apart, Session.Stored) and what a power loss leaves of it
--                (Session.PowerLoss, Session.Durable), a state machine of the commands
--                (Session.Spec), and the commands as its implementation (Session.Runs, Session.Setup,
--                Session.Outcomes, Session.Main); which devices each command may write
--                (Session.Written, Session.Frame, Session.Everyday, Session.Golden); the state and the
--                volumes after `init-from` (Session.Initial), after `full-recover` (Session.Rebuild),
--                and over cycles of `mount` and `recover` (Session.Cycle, Session.Cycles).
--   Tests        the theorems at concrete inputs: on Tests.Bench, a machine with two small volumes, on
--                Tests.Filing, one with a state file, and on Tests.Workshop, one with both and a device
--                that tracks changes.
--
-- Bounds and fuel: the loops of the chunk planning and of `zero` have fuel for a round per byte, and
-- each round advances by a byte at least; decimal numbers have fuel for the twenty digits of a u64.
-- The workers need no fuel: they follow the list of events, and a copy whose events run out before
-- its workers have ended has no result (`hung`).
--
-- Not modelled: messages with the numbers and times in them, timing and the polling of progress,
-- which only print; the bytes behind the raw pointers of the buffer pool (in the loop a slot has a
-- buffer of its own, and Io.Ring.Buffers has the addresses); the parsing of the command line, which
-- is clap's; the handlers with which src/main.rs ignores termination signals, which only print;
-- what the kernel does with operations that are still in flight where `run_ring` returns early;
-- build.rs. The kernel is assumed to behave as documented: a read or write that returns its length
-- is complete, and a write stores nothing but bytes of its buffer in its range. The state file is
-- assumed to be on no volume that the program mounts or writes, and apart from its lock. That dm-era
-- reports every block that was written is assumed of its report (Commands.Recover.Restores.IsTracked);
-- what a program does to a mounted volume is not modelled, and a power loss that undoes writes to a
-- volume is not either.
pub mod Base
pub mod Error
pub mod Io
pub mod Machine
pub mod Effect
pub mod Cmd
pub mod Text
pub mod Paths
pub mod Env
pub mod Dmera
pub mod Ramdisk
pub mod State
pub mod Session
pub mod Processes
pub mod Mount
pub mod Commands
pub mod Cli
pub mod Tests
