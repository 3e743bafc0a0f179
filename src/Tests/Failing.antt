-- ===== src/Tests/Failing.antt =====
-- A copy on the bench whose read ends short.
use schelk.Base.{ℕ, ◌≡◌, ◌⊎◌, ◌≤◌, refl, true, [], ◌∷◌, some, err, pos, arith, as_i32}
use schelk.Base.Words.{add64, mul64}
use schelk.Error.{short_read}
use schelk.Io.Chunks.{
  covers, prepare_chunks, sort_ranges, insert_range, merge_ranges, merge_from, split_ranges,
  split_range, split_loop, next_len, blocks_slot_size,
}
use schelk.Io.Ring.UserData.{reading, encode_user_data, decode_user_data}
use schelk.Io.Ring.{
  turn, claim_slots, fill, read_slot, queue_read, push, submit, submit_batch, submit_pending, wait,
}
use schelk.Io.Ring.Handling.{
  start_ring, initial_ring, queue_write, handle_phase, handle_unknown, handle, serve, serve_phase,
  handle_all, advance,
}
use schelk.Io.Volume.{blocks_copy_config}
use schelk.Io.Copy.{
  Rig, Copied, run_workers, deliver_all, join_all, partition, partition_loop, push_at, start_rings,
  deliver,
}
use schelk.Io.Copy.Deliver.{IsSound, HonestAll, started}
use schelk.Io.Copy.Fails.{IsCopyError, run_workers_fails}
use schelk.Tests.Bench.{rig, changed_volumes, is_reading, kernel-IsLawful}
use schelk.Tests.Copying.{config, one_chunk, one_chunk_fits}
use schelk.Tests.Finishing.{willing}

-- The kernel reads the first 512 bytes of the chunk only.
abbrev short_rig : Rig
short_rig = record rig {
  events =
      record {
        ring = 0;
        cqes = record { user_data = encode_user_data 0 reading; result = pos 512 } ∷ [];
      }
      ∷ [];
}

short-IsSound : IsSound short_rig config
unfolding blocks_copy_config blocks_slot_size
short-IsSound = record {
  lawful = λ id. kernel-IsLawful;
  has_slots = omega arith;
  small_slots = omega arith;
}

deep : 32 ≤ config.sq_depth
unfolding blocks_copy_config
deep = omega arith

honest_short :
    HonestAll short_rig config changed_volumes.virgin short_rig.events
      (started short_rig config changed_volumes.virgin one_chunk changed_volumes.scratch)
unfolding prepare_chunks sort_ranges insert_range merge_ranges merge_from split_ranges split_range
    split_loop next_len add64 mul64 blocks_copy_config blocks_slot_size partition partition_loop
    push_at start_rings deliver start_ring initial_ring turn claim_slots fill read_slot queue_read
    push submit submit_batch submit_pending wait queue_write handle_phase handle_unknown handle
    serve serve_phase handle_all advance encode_user_data decode_user_data as_i32
honest_short = (
  (
    record {
      slot = record { offset = 4096; len = 4096; phase = reading };
      found = refl;
      in_phase = refl;
      not_free = is_reading;
    },
    λ r' e. tt,
  ),
  tt,
)

abbrev short_copy : Copied
short_copy = run_workers short_rig config changed_volumes.virgin one_chunk changed_volumes.scratch

fails : short_copy.result ≡ some (err (short_read 4096 (pos 512)))
unfolding run_workers deliver_all join_all prepare_chunks sort_ranges insert_range merge_ranges
    merge_from split_ranges split_range split_loop next_len add64 mul64 blocks_copy_config
    blocks_slot_size partition partition_loop push_at start_rings deliver start_ring initial_ring
    turn claim_slots fill read_slot queue_read push submit submit_batch submit_pending wait
    queue_write handle_phase handle_unknown handle serve serve_phase handle_all advance
    encode_user_data decode_user_data as_i32
fails = refl

run_workers_fails_example :
    IsCopyError short_rig one_chunk (short_read 4096 (pos 512))
    × ((i : ℕ)
        → (short_copy.shared.dst i ≡ changed_volumes.scratch i)
          ⊎ ((short_copy.shared.dst i ≡ changed_volumes.virgin i) × (covers one_chunk i ≡ true)))
run_workers_fails_example =
    run_workers_fails short_rig config changed_volumes.virgin short-IsSound one_chunk
      changed_volumes.scratch (short_read 4096 (pos 512)) one_chunk_fits (λ id. willing) deep
      honest_short fails
