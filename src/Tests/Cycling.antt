-- ===== src/Tests/Cycling.antt =====
-- A cycle of a benchmark in the workshop, in which the second block of the scratch volume is written.
use schelk.Base.{
  ◌≡◌, refl, sym, ap, subst, true, false, [], some, none, ltb, leb, ◌&&◌, if◌then◌else◌, ok, arith,
  as_i32,
}
use schelk.Base.Text.{decimal, decimal_loop, parse_digits, parse_unsigned}
use schelk.Base.Words.{add64, mul64}
use schelk.Io.Chunks.{
  prepare_chunks, sort_ranges, insert_range, merge_ranges, merge_from, split_ranges, split_range,
  split_loop, next_len, blocks_slot_size,
}
use schelk.Io.Ring.UserData.{encode_user_data, decode_user_data}
use schelk.Io.Ring.{
  turn, claim_slots, fill, read_slot, queue_read, push, submit, submit_batch, submit_pending, wait,
}
use schelk.Io.Ring.Handling.{
  start_ring, initial_ring, queue_write, handle_phase, handle_unknown, handle, serve, serve_phase,
  handle_all, advance,
}
use schelk.Io.Copy.{
  run_workers, deliver_all, join_all, partition, partition_loop, push_at, start_rings, deliver,
}
use schelk.Io.Volume.{
  blocks_copy_config, copy_blocks, run_copy, open_direct, copy_chunks, hash_superblock,
  read_superblock, get_size, zero_device, zero_loop,
}
use schelk.Io.Volume.Exact.{HonestCopy}
use schelk.Ramdisk.{validate_size, min_with_buffer, calculate_required_sizes}
use schelk.Machine.{AppState}
use schelk.State.{load, lock, save}
use schelk.Env.{require_root}
use schelk.Mount.{is_mounted, lists_mount, mount as mount_volume}
use schelk.Cmd
use schelk.Dmera
use schelk.Text.{lines, split_whitespace, split_by}
use schelk.Commands.Recover.{
  collect_changed, recover_state, check_tracked, unmount_mounted, run, run_locked,
}
use schelk.Commands.Recover.Restores.{IsTracked, before_collect, after_collect}
use schelk.State.Loaded.{before_load}
use schelk.Commands.Recover.Reported.{Reports}
use schelk.Dmera.Xml.{
  parse_value, range_attrs, block_attrs, parse_element, parse_events, parse_era_invalidate_xml,
}
use schelk.Dmera.Xml.RoundTrip.{ends, block}
use schelk.Commands.Mount.{check_unmounted, check_superblocks, start_tracking, mount_state}
use schelk.Commands.Mount
use schelk.Cli.{mount, recover, run_command}
use schelk.Session.Spec.{unmounted}
use schelk.Session.Stored.{stored}
use schelk.Session.Cycles.{IsCycle}
use schelk.Tests.Bench.{mounted_state, one_block}
use schelk.Tests.Sessions.{honest_on}
use schelk.Tests.Codec.{to_json, json_back}
use schelk.Tests.Workshop.{Shop, workshop, workshop_file}

abbrev pub idle : AppState
idle = unmounted mounted_state

abbrev pub start : Shop
start = record {
  virgin = λ i. 5;
  scratch = λ i. 5;
  file = some (to_json idle);
  temp = none;
  tracked = false;
}

pub stored_idle : stored workshop workshop_file start ≡ some idle
stored_idle = json_back idle

mounts : (run_command workshop true mount start).0 ≡ ok tt
unfolding run_command Mount.run Mount.run_locked mount_state check_unmounted check_superblocks
    start_tracking require_root lock load save is_mounted lists_mount lines split_whitespace
    split_by get_size validate_size min_with_buffer calculate_required_sizes add64 mul64
    hash_superblock read_superblock zero_device zero_loop Dmera.check_dmsetup Dmera.exists
    Dmera.create Dmera.checkpoint Dmera.remove Dmera.message Dmera.dmsetup Dmera.table
    Dmera.device_path Cmd.require Cmd.is_available Cmd.run Cmd.run_unchecked decimal decimal_loop
    mount_volume
mounts = rw (json_back idle) refl

abbrev mounted_shop : Shop
mounted_shop = record start { file = some (to_json mounted_state); tracked = true }

mounts_world : (run_command workshop true mount start).1 ≡ mounted_shop
unfolding run_command Mount.run Mount.run_locked mount_state check_unmounted check_superblocks
    start_tracking require_root lock load save is_mounted lists_mount lines split_whitespace
    split_by get_size validate_size min_with_buffer calculate_required_sizes add64 mul64
    hash_superblock read_superblock zero_device zero_loop Dmera.check_dmsetup Dmera.exists
    Dmera.create Dmera.checkpoint Dmera.remove Dmera.message Dmera.dmsetup Dmera.table
    Dmera.device_path Cmd.require Cmd.is_available Cmd.run Cmd.run_unchecked decimal decimal_loop
    mount_volume
mounts_world = rw (json_back idle) refl

-- The experiment.
abbrev pub written : Shop
written = record mounted_shop { scratch = λ i. if leb 4096 i && ltb i 8192 then 6 else 5 }

loads_written : (load workshop (before_load workshop written)).1 ≡ written
unfolding load require_root lock
loads_written = rw (json_back mounted_state) refl

workshop-honest :
    HonestCopy workshop "/dev/v" "/dev/s" (blocks_copy_config 4096) (prepare_chunks one_block 4096)
unfolding prepare_chunks sort_ranges insert_range merge_ranges merge_from split_ranges split_range
    split_loop next_len add64 mul64
workshop-honest w = honest_on w.virgin w.scratch

reports :
    Reports workshop mounted_state one_block (before_collect workshop mounted_state false written)
unfolding decimal decimal_loop check_tracked unmount_mounted Dmera.take_metadata_snapshot
    Dmera.check_dmsetup Dmera.check_era_invalidate Dmera.exists Dmera.message Dmera.dmsetup Cmd.run
    Cmd.run_unchecked Cmd.require Cmd.is_available is_mounted lists_mount lines split_whitespace
    split_by
reports = record {
  output = record { stdout = []; success = true };
  contents = [];
  prints = refl;
  decodes = refl;
  report = block 1 (omega arith) ends;
}

collected_world :
    after_collect workshop mounted_state false written ≡ record written { tracked = false }
unfolding check_tracked unmount_mounted collect_changed Dmera.check_dmsetup
    Dmera.check_era_invalidate Dmera.exists Dmera.take_metadata_snapshot
    Dmera.drop_metadata_snapshot Dmera.get_changed_blocks Dmera.remove Dmera.message Dmera.dmsetup
    Cmd.require Cmd.is_available Cmd.run Cmd.run_unchecked is_mounted lists_mount lines
    split_whitespace split_by parse_value range_attrs block_attrs parse_element parse_events
    parse_era_invalidate_xml parse_digits parse_unsigned decimal decimal_loop
collected_world = refl

tracked : IsTracked workshop mounted_state one_block (record written { tracked = false })
tracked = record { fits = (omega arith, tt); unchanged = λ i h. ground (arith, h) }

recovers : (run_command workshop true (recover false) written).0 ≡ ok tt
unfolding run_command run run_locked require_root lock load recover_state check_tracked
    unmount_mounted collect_changed Dmera.check_dmsetup Dmera.check_era_invalidate Dmera.exists
    Dmera.take_metadata_snapshot Dmera.drop_metadata_snapshot Dmera.get_changed_blocks Dmera.remove
    Dmera.message Dmera.dmsetup Cmd.require Cmd.is_available Cmd.run Cmd.run_unchecked is_mounted
    lists_mount lines split_whitespace split_by parse_value range_attrs block_attrs parse_element
    parse_events parse_era_invalidate_xml parse_digits parse_unsigned decimal copy_blocks run_copy
    open_direct copy_chunks run_workers deliver_all join_all save prepare_chunks sort_ranges
    insert_range merge_ranges merge_from split_ranges split_range split_loop next_len add64 mul64
    blocks_copy_config blocks_slot_size partition partition_loop push_at start_rings deliver
    start_ring initial_ring turn claim_slots fill read_slot queue_read push submit submit_batch
    submit_pending wait queue_write handle_phase handle_unknown handle serve serve_phase handle_all
    advance encode_user_data decode_user_data as_i32
recovers = rw (json_back mounted_state) refl

pub one-IsCycle :
    IsCycle workshop workshop_file idle start (run_command workshop true (recover false) written).1
one-IsCycle =
    let begins = sym loads_written in
    record {
      skip = true;
      kill = false;
      after = written;
      ranges = one_block;
      mounts = mounts;
      quiet = sym (ap (λ (w : Shop). w.file) mounts_world);
      spared = sym (ap (λ (w : Shop). w.virgin) mounts_world);
      reports =
          subst
            (λ w.
              Reports workshop mounted_state one_block
                (before_collect workshop mounted_state false w))
            begins reports;
      tracked =
          subst
            (λ w.
              IsTracked workshop mounted_state one_block
                (after_collect workshop mounted_state false w))
            begins
            (subst (IsTracked workshop mounted_state one_block) (sym collected_world) tracked);
      honest = workshop-honest;
      recovers = recovers;
      ends = refl;
    }
