-- ===== src/Tests/Finishing.antt =====
-- The end of a copy on the bench.
use schelk.Base.{ℕ, ◌/◌, if◌then◌else◌, ◌≡◌, refl, some, ok, arith, as_i32, Result}
use schelk.Error.{Error}
use schelk.Io.Chunks.{
  has_block, blocks_slot_size, prepare_chunks, sort_ranges, insert_range, merge_ranges, merge_from,
  split_ranges, split_range, split_loop, next_len,
}
use schelk.Base.Words.{add64, mul64}
use schelk.Io.Volume.{copy_blocks}
use schelk.Io.Volume.Succeeds.{Carries, copy_blocks_succeeds}
use schelk.Io.Ring.UserData.{reading, writing, encode_user_data, decode_user_data}
use schelk.Io.Ring.{
  turn, claim_slots, fill, read_slot, queue_read, push, submit, submit_batch, submit_pending, wait,
}
use schelk.Io.Ring.Handling.{
  start_ring, initial_ring, queue_write, handle_phase, handle_unknown, handle, serve, serve_phase,
  handle_all, advance,
}
use schelk.Io.Ring.Clean.{IsWilling, Completes}
use schelk.Io.Copy.{run_workers, partition, partition_loop, push_at, start_rings, deliver}
use schelk.Io.Copy.Deliver.{EachEvent, started}
use schelk.Io.Copy.Waits.{AllBusy, deliver_all-AllBusy}
use schelk.Io.Copy.{Event, deliver_all}
use schelk.Base.{pos, List, [], ◌∷◌}
use schelk.Io.Copy.Total.{AreEnough, run_workers_ends}
use schelk.Machine.{FilePath}
use schelk.Io.Volume.{blocks_copy_config}
use schelk.Tests.Bench.{
  bench, forth, one_block, kernel, rig, changed_volumes, is_reading, is_writing,
}
use schelk.Tests.Copying.{config, sound, one_chunk, one_chunk_fits, honest_chunk}

pub willing : IsWilling kernel
willing = record { sets_up = refl; accepts = λ n. refl }

enough : AreEnough rig.events one_chunk
unfolding partition partition_loop push_at
enough = (refl, tt)

complete_blocks :
    (src dst : FilePath) (w : bench.World)
    → EachEvent rig (blocks_copy_config 4096) (bench.disk src w) Completes rig.events (
        started rig
          (blocks_copy_config 4096)
          (bench.disk src w)
          (prepare_chunks one_block 4096)
          (bench.disk dst w))
unfolding prepare_chunks sort_ranges insert_range merge_ranges merge_from split_ranges split_range
    split_loop next_len add64 mul64 blocks_copy_config blocks_slot_size partition partition_loop
    push_at start_rings deliver start_ring initial_ring turn claim_slots fill read_slot queue_read
    push submit submit_batch submit_pending wait queue_write handle_phase handle_unknown handle
    serve serve_phase handle_all advance encode_user_data decode_user_data as_i32
complete_blocks src dst w = (
  (
    record {
      in_flight = record {
        slot = record { offset = 4096; len = 4096; phase = reading };
        found = refl;
        in_phase = refl;
        not_free = is_reading;
      };
      full = refl;
    },
    λ r' e. tt,
  ),
  (
    (
      record {
        in_flight = record {
          slot = record { offset = 4096; len = 4096; phase = writing };
          found = refl;
          in_phase = refl;
          not_free = is_writing;
        };
        full = refl;
      },
      λ r' e. tt,
    ),
    tt,
  ),
)

run_workers_ends_example :
    (r : Result Error (Unit {0})) × ((run_workers rig config changed_volumes.virgin one_chunk
        changed_volumes.scratch).result
      ≡ some r)
run_workers_ends_example =
    run_workers_ends rig config changed_volumes.virgin sound one_chunk changed_volumes.scratch
      one_chunk_fits enough honest_chunk

enough_blocks : AreEnough rig.events (prepare_chunks one_block 4096)
unfolding prepare_chunks sort_ranges insert_range merge_ranges merge_from split_ranges split_range
    split_loop next_len add64 mul64 blocks_slot_size partition partition_loop push_at
enough_blocks = (refl, tt)

pub carries :
    (src dst : FilePath)
    → Carries bench src dst (blocks_copy_config 4096) (prepare_chunks one_block 4096)
carries src dst = record {
  opens = λ a p w. refl;
  enough = λ w. enough_blocks;
  willing = λ w id. willing;
  syncs = λ w. refl;
  complete = complete_blocks src dst;
}

copy_blocks_succeeds_example :
    let copy = copy_blocks bench "/dev/v" "/dev/s" one_block 4096 changed_volumes in
    (total : ℕ) × (copy.0 ≡ ok total)
    × ((i : ℕ)
        → bench.disk "/dev/s" copy.1 i ≡ (
            if has_block one_block (i / 4096)
            then changed_volumes.virgin i
            else changed_volumes.scratch i))
copy_blocks_succeeds_example =
    copy_blocks_succeeds bench "/dev/v" "/dev/s" forth one_block 4096 changed_volumes (omega arith)
      (omega arith) refl (omega arith, tt) (carries "/dev/v" "/dev/s")

-- After the read, the write is in flight.
abbrev read_done : List Event
read_done =
    record {
      ring = 0;
      cqes = record { user_data = encode_user_data 0 reading; result = pos 4096 } ∷ [];
    }
    ∷ []

deliver_all-AllBusy_example :
    AllBusy
      (deliver_all rig config changed_volumes.virgin read_done
        (started rig config changed_volumes.virgin one_chunk changed_volumes.scratch)).rings
deliver_all-AllBusy_example =
    deliver_all-AllBusy rig config changed_volumes.virgin read_done one_chunk
      changed_volumes.scratch sound one_chunk_fits (honest_chunk.0, tt)
