-- ===== src/Tests/Copying.antt =====
-- Copies on the bench.
use schelk.Base.{ltb, leb, ◌&&◌, if◌then◌else◌, All}
use schelk.Io.Chunks.{covers, align_up, sequential_chunks, sequential_loop, full_copy_chunk_size}
use schelk.Io.Copy.{Copied}
use schelk.Io.Copy.Deliver.{IsSound, HonestAll, started}
use schelk.Io.Copy.Exact.{run_workers_exact}
use schelk.Io.Volume.{full_copy, full_copy_config, get_size, zero_loop}
use schelk.Io.Volume.Exact.{copy_blocks_exact}
use schelk.Io.Volume.Full.{QueriesKeep}
use schelk.Io.Volume.Zero.{WritesZeros, zero_loop-lem}
use schelk.Tests.Bench.{kernel-IsLawful, rig}
use schelk.Tests.Sessions.{honest}
use schelk.Base.{◌/◌, ◌≡◌, refl, List, [], ◌∷◌, some, ok, arith, as_i32}
use schelk.Base.Words.{add64, mul64}
use schelk.Io.Chunks.{
  CopyChunk, has_block, prepare_chunks, sort_ranges, insert_range, merge_ranges, merge_from,
  split_ranges, split_range, split_loop, next_len, blocks_slot_size,
}
use schelk.Io.Ring.UserData.{reading, writing, encode_user_data, decode_user_data}
use schelk.Io.Ring.Slots.{FitsSlot}
use schelk.Io.Ring.{
  Config, turn, claim_slots, fill, read_slot, queue_read, push, submit, submit_batch,
  submit_pending, wait,
}
use schelk.Io.Ring.Handling.{
  start_ring, initial_ring, queue_write, handle_phase, handle_unknown, handle, serve, serve_phase,
  handle_all, advance,
}
use schelk.Io.Copy.{
  run_workers, deliver_all, join_all, partition, partition_loop, push_at, start_rings, deliver,
}
use schelk.Io.Volume.{blocks_copy_config, copy_blocks, run_copy, open_direct, copy_chunks}
use schelk.Io.Volume.Exact.{HonestCopy}
use schelk.Tests.Bench.{bench, changed_volumes, forth, is_reading, is_writing, one_block}
use schelk.Io.Chunks.{total_len}
use schelk.Io.Volume.Total.{copy_blocks-total_len}

abbrev pub config : Config
config = blocks_copy_config 4096

pub sound : IsSound rig config
unfolding blocks_copy_config blocks_slot_size
sound = record {
  lawful = λ id. kernel-IsLawful;
  has_slots = omega arith;
  small_slots = omega arith;
}

abbrev pub one_chunk : List CopyChunk
one_chunk = record { offset = 4096; len = 4096 } ∷ []

pub one_chunk_fits : All (FitsSlot config.slot_size) one_chunk
unfolding blocks_copy_config blocks_slot_size
one_chunk_fits = (omega arith, tt)

pub honest_chunk :
    HonestAll rig config changed_volumes.virgin rig.events
      (started rig config changed_volumes.virgin one_chunk changed_volumes.scratch)
unfolding prepare_chunks sort_ranges insert_range merge_ranges merge_from split_ranges split_range
    split_loop next_len add64 mul64 blocks_copy_config blocks_slot_size partition partition_loop
    push_at start_rings deliver start_ring initial_ring turn claim_slots fill read_slot queue_read
    push submit submit_batch submit_pending wait queue_write handle_phase handle_unknown handle
    serve serve_phase handle_all advance encode_user_data decode_user_data as_i32
honest_chunk = (
  (
    record {
      slot = record { offset = 4096; len = 4096; phase = reading };
      found = refl;
      in_phase = refl;
      not_free = is_reading;
    },
    λ r' e. tt,
  ),
  (
    (
      record {
        slot = record { offset = 4096; len = 4096; phase = writing };
        found = refl;
        in_phase = refl;
        not_free = is_writing;
      },
      λ r' e. tt,
    ),
    tt,
  ),
)

abbrev one_copy : Copied
one_copy = run_workers rig config changed_volumes.virgin one_chunk changed_volumes.scratch

copies_one : one_copy.result ≡ some (ok tt)
unfolding run_workers deliver_all join_all prepare_chunks sort_ranges insert_range merge_ranges
    merge_from split_ranges split_range split_loop next_len add64 mul64 blocks_copy_config
    blocks_slot_size partition partition_loop push_at start_rings deliver start_ring initial_ring
    turn claim_slots fill read_slot queue_read push submit submit_batch submit_pending wait
    queue_write handle_phase handle_unknown handle serve serve_phase handle_all advance
    encode_user_data decode_user_data as_i32
copies_one = refl

run_workers_exact_example :
    one_copy.shared.dst 5000
    ≡ (if covers one_chunk 5000 then changed_volumes.virgin 5000 else changed_volumes.scratch 5000)
run_workers_exact_example =
    run_workers_exact rig config changed_volumes.virgin sound one_chunk changed_volumes.scratch 5000
      one_chunk_fits honest_chunk copies_one

copies_block : (copy_blocks bench "/dev/v" "/dev/s" one_block 4096 changed_volumes).0 ≡ ok 4096
unfolding copy_blocks run_copy open_direct copy_chunks run_workers deliver_all join_all
    prepare_chunks sort_ranges insert_range merge_ranges merge_from split_ranges split_range
    split_loop next_len add64 mul64 blocks_copy_config blocks_slot_size partition partition_loop
    push_at start_rings deliver start_ring initial_ring turn claim_slots fill read_slot queue_read
    push submit submit_batch submit_pending wait queue_write handle_phase handle_unknown handle
    serve serve_phase handle_all advance encode_user_data decode_user_data as_i32
copies_block = refl

copy_blocks_exact_example :
    let w' = (copy_blocks bench "/dev/v" "/dev/s" one_block 4096 changed_volumes).1 in
    (bench.disk "/dev/s" w' 5000 ≡ (
      if has_block one_block (5000 / 4096)
      then changed_volumes.virgin 5000
      else changed_volumes.scratch 5000))
    × (bench.disk "/dev/v" w' 5000 ≡ changed_volumes.virgin 5000)
copy_blocks_exact_example =
    copy_blocks_exact bench "/dev/v" "/dev/s" forth one_block 4096 4096 5000 changed_volumes
      (omega arith) (omega arith) (omega arith, tt) (honest "/dev/v" "/dev/s") copies_block

queries_keep : QueriesKeep bench "/dev/v"
queries_keep = record {
  open_keeps = λ a p w. refl;
  metadata_keeps = λ p w. refl;
  seek_keeps = λ p w. refl;
}

honest_full :
    HonestCopy bench "/dev/v" "/dev/s" full_copy_config
      (sequential_chunks 4096 full_copy_chunk_size)
unfolding sequential_chunks sequential_loop align_up prepare_chunks sort_ranges insert_range
    merge_ranges merge_from split_ranges split_range split_loop next_len add64 mul64
    blocks_copy_config blocks_slot_size partition partition_loop push_at start_rings deliver
    start_ring initial_ring turn claim_slots fill read_slot queue_read push submit submit_batch
    submit_pending wait queue_write handle_phase handle_unknown handle serve serve_phase handle_all
    advance encode_user_data decode_user_data as_i32
honest_full w = (
  (
    record {
      slot = record { offset = 0; len = 4096; phase = reading };
      found = refl;
      in_phase = refl;
      not_free = is_reading;
    },
    λ r' e. tt,
  ),
  (
    (
      record {
        slot = record { offset = 0; len = 4096; phase = writing };
        found = refl;
        in_phase = refl;
        not_free = is_writing;
      },
      λ r' e. tt,
    ),
    tt,
  ),
)

copies_all : (full_copy bench "/dev/v" "/dev/s" changed_volumes).0 ≡ ok 4096
unfolding full_copy get_size run_copy open_direct copy_chunks run_workers deliver_all join_all
    sequential_chunks sequential_loop align_up prepare_chunks sort_ranges insert_range merge_ranges
    merge_from split_ranges split_range split_loop next_len add64 mul64 blocks_copy_config
    blocks_slot_size partition partition_loop push_at start_rings deliver start_ring initial_ring
    turn claim_slots fill read_slot queue_read push submit submit_batch submit_pending wait
    queue_write handle_phase handle_unknown handle serve serve_phase handle_all advance
    encode_user_data decode_user_data as_i32
copies_all = refl

writes_zeros : WritesZeros bench "/dev/s"
writes_zeros = record { stored = λ offset len i w e. refl }

zeroes : (zero_loop bench 5000 "/dev/s" 5000 0 changed_volumes).0 ≡ ok tt
unfolding zero_loop
zeroes = refl

zero_loop-lem_example :
    bench.disk "/dev/s" (zero_loop bench 5000 "/dev/s" 5000 0 changed_volumes).1 4500
    ≡ (if leb 0 4500 && ltb 4500 5000 then 0 else bench.disk "/dev/s" changed_volumes 4500)
zero_loop-lem_example =
    zero_loop-lem bench "/dev/s" writes_zeros 5000 5000 0 4500 changed_volumes (omega arith) zeroes

copy_blocks-total_len_example : 4096 ≡ total_len (prepare_chunks one_block 4096)
copy_blocks-total_len_example =
    copy_blocks-total_len bench "/dev/v" "/dev/s" one_block 4096 4096 changed_volumes (omega arith)
      (omega arith, tt) (omega arith) copies_block
