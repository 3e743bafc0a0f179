-- ===== src/Tests/Rebuilding.antt =====
-- A full recovery in the workshop, after a reboot that left the state mounted.
use schelk.Base.{ℕ, ◌≡◌, refl, true, List, some, ltb, leb, ◌&&◌, if◌then◌else◌, ok, arith, as_i32}
use schelk.Base.Words.{add64, mul64}
use schelk.Io.Chunks.{align_up, sequential_chunks, sequential_loop, full_copy_chunk_size}
use schelk.Io.Ring.UserData.{reading, writing, encode_user_data, decode_user_data}
use schelk.Io.Ring.{
  turn, claim_slots, fill, read_slot, queue_read, push, submit, submit_batch, submit_pending, wait,
}
use schelk.Io.Ring.Handling.{
  start_ring, initial_ring, queue_write, handle_phase, handle_unknown, handle, serve, serve_phase,
  handle_all, advance,
}
use schelk.Io.Copy.{
  run_workers, deliver_all, join_all, partition, partition_loop, push_at, start_rings, deliver,
}
use schelk.Io.Volume.{
  run_copy, open_direct, copy_chunks, hash_superblock, read_superblock, get_size, full_copy,
  full_copy_config, validate_block_device,
}
use schelk.Io.Volume.Exact.{HonestCopy}
use schelk.Base.Text.{String}
use schelk.Text.{lines, split_whitespace, split_by}
use schelk.Mount.{is_mounted, lists_mount}
use schelk.Env.{confirm, require_root}
use schelk.State.{save, load, lock}
use schelk.Cli.{full_recover, run_command}
use schelk.Session.Stored.{stored}
use schelk.Io.Volume.Full.{QueriesKeep}
use schelk.Commands.InitCommon.{validate_volumes}
use schelk.Dmera
use schelk.Cmd
use schelk.Commands.FullRecover
use schelk.Commands.FullRecover.{clear_stale, full_recover_state}
use schelk.Session.Rebuild.{copy_starts, full_recover_rebuilds}
use schelk.Commands.Promote.Commits.{ReadsKeep}
use schelk.Io.Volume.Full.{QueriesKeep}
use schelk.Tests.Bench.{mounted_state, is_reading, is_writing}
use schelk.Tests.Codec.{to_json, json_back}
use schelk.Tests.Workshop.{Shop, workshop, workshop_file, pair, shop_keeps}
use schelk.Tests.Cycling.{idle, start}

abbrev rebooted : Shop
rebooted = record start {
  file = some (to_json mounted_state);
  scratch = λ i. if leb 4096 i && ltb i 8192 then 6 else 5;
}

stored_mounted : stored workshop workshop_file rebooted ≡ some mounted_state
stored_mounted = json_back mounted_state

pub queries : QueriesKeep workshop "/dev/v"
queries = record {
  open_keeps = λ a p w. refl;
  metadata_keeps = λ p w. refl;
  seek_keeps = λ p w. refl;
}

pub reads : (path : String) → ReadsKeep workshop path
reads path = record { read_keeps = λ p len w. refl }

pub honest_full :
    HonestCopy workshop "/dev/v" "/dev/s" full_copy_config
      (sequential_chunks 8192 full_copy_chunk_size)
unfolding sequential_chunks sequential_loop align_up add64 mul64 partition partition_loop push_at
    start_rings deliver start_ring initial_ring turn claim_slots fill read_slot queue_read push
    submit submit_batch submit_pending wait queue_write handle_phase handle_unknown handle serve
    serve_phase handle_all advance encode_user_data decode_user_data as_i32
honest_full w = (
  (
    record {
      slot = record { offset = 0; len = 8192; phase = reading };
      found = refl;
      in_phase = refl;
      not_free = is_reading;
    },
    λ r' e. tt,
  ),
  (
    (
      record {
        slot = record { offset = 0; len = 8192; phase = writing };
        found = refl;
        in_phase = refl;
        not_free = is_writing;
      },
      λ r' e. tt,
    ),
    tt,
  ),
)

sized : (get_size workshop "/dev/v" (copy_starts workshop mounted_state true rebooted)).0 ≡ ok 8192
unfolding get_size
sized = refl

rebuilds : (run_command workshop true full_recover rebooted).0 ≡ ok tt
unfolding run_command FullRecover.run clear_stale require_root lock load Dmera.exists
    Cmd.run_unchecked is_mounted lists_mount lines split_whitespace split_by full_recover_state
    validate_volumes validate_block_device confirm hash_superblock read_superblock save full_copy
    get_size run_copy open_direct copy_chunks run_workers deliver_all join_all sequential_chunks
    sequential_loop align_up add64 mul64 partition partition_loop push_at start_rings deliver
    start_ring initial_ring turn claim_slots fill read_slot queue_read push submit submit_batch
    submit_pending wait queue_write handle_phase handle_unknown handle serve serve_phase handle_all
    advance encode_user_data decode_user_data as_i32
rebuilds = rw (json_back mounted_state) refl

full_recover_rebuilds_example :
    let w' = (run_command workshop true full_recover rebooted).1 in
    ((hash : List ℕ) × (stored workshop workshop_file w'
        ≡ some (record idle { virgin_superblock_hash = hash })))
    × (workshop.disk "/dev/s" w' 5000 ≡ workshop.disk "/dev/v" w' 5000)
full_recover_rebuilds_example =
    full_recover_rebuilds workshop workshop_file mounted_state pair queries (shop_keeps "/dev/v")
      (shop_keeps "/dev/s") (reads "/dev/v") (reads "/dev/s") true rebooted 8192 5000 stored_mounted
      (omega arith) (omega arith) sized honest_full rebuilds
