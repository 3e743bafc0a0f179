-- ===== src/Tests/Adopting.antt =====
-- An initialisation in the workshop from a virgin volume that is there already.
use schelk.Base.{ℕ, ◌≡◌, refl, true, false, none, List, ok, arith, as_i32}
use schelk.Base.Words.{add64, mul64}
use schelk.Io.Chunks.{align_up, sequential_chunks, sequential_loop}
use schelk.Io.Ring.UserData.{encode_user_data, decode_user_data}
use schelk.Io.Ring.{
  turn, claim_slots, fill, read_slot, queue_read, push, submit, submit_batch, submit_pending, wait,
}
use schelk.Io.Ring.Handling.{
  start_ring, initial_ring, queue_write, handle_phase, handle_unknown, handle, serve, serve_phase,
  handle_all, advance,
}
use schelk.Io.Copy.{
  run_workers, deliver_all, join_all, partition, partition_loop, push_at, start_rings, deliver,
}
use schelk.Io.Volume.{
  run_copy, open_direct, copy_chunks, hash_superblock, read_superblock, get_size, full_copy,
  validate_block_device,
}
use schelk.Env.{confirm, require_root}
use schelk.State.{save, load, lock}
use schelk.Paths.{path_eq, path_starts_with, components}
use schelk.Text.{split_by}
use schelk.Cli.{init_from, run_command}
use schelk.Commands.InitCommon.{validate_volumes}
use schelk.Tests.Workshop.{Shop, workshop, workshop_file, pair, shop_keeps}
use schelk.Commands.InitCommon.{
  check_arguments, validate_granularity, reject_same_device, confirm_reinitialize, validate_volumes,
}
use schelk.Commands.InitFrom
use schelk.Dmera.Name.{validate_name, validate_codes}
use schelk.Ramdisk.{validate_size, min_with_buffer, calculate_required_sizes}
use schelk.Session.Spec.{described}
use schelk.Session.Cycles.{IsReady}
use schelk.Session.Initial.{init_from-IsReady}
use schelk.Tests.Filing.{new_args}
use schelk.Tests.Rebuilding.{honest_full, queries, reads}

abbrev bare : Shop
bare = record { virgin = λ i. 5; scratch = λ i. 0; file = none; temp = none; tracked = false }

sized : (w : Shop) → (get_size workshop "/dev/v" w).0 ≡ ok 8192
unfolding get_size
sized w = refl

adopts : (run_command workshop true (init_from new_args "ext4" false) bare).0 ≡ ok tt
unfolding run_command InitFrom.run InitFrom.copy_unless check_arguments require_root lock
    validate_granularity reject_same_device path_eq path_starts_with components split_by
    validate_name validate_codes confirm_reinitialize load validate_volumes validate_block_device
    get_size validate_size min_with_buffer calculate_required_sizes confirm hash_superblock
    read_superblock save full_copy run_copy open_direct copy_chunks run_workers deliver_all join_all
    sequential_chunks sequential_loop align_up add64 mul64 partition partition_loop push_at
    start_rings deliver start_ring initial_ring turn claim_slots fill read_slot queue_read push
    submit submit_batch submit_pending wait queue_write handle_phase handle_unknown handle serve
    serve_phase handle_all advance encode_user_data decode_user_data as_i32
adopts = refl

init_from-IsReady_example :
    let w' = (run_command workshop true (init_from new_args "ext4" false) bare).1 in
    (hash : List ℕ) × IsReady workshop workshop_file
      (described new_args "ext4" hash)
      8192
      (workshop.disk "/dev/v" w')
      w'
init_from-IsReady_example =
    init_from-IsReady workshop new_args pair queries (shop_keeps "/dev/v") (shop_keeps "/dev/s")
      (reads "/dev/v") (reads "/dev/s") workshop_file "ext4" true bare 8192 (omega arith) sized
      honest_full adopts
