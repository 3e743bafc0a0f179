-- ===== src/Tests/Sessions.antt =====
-- A recovery and a promotion on the bench, from a scratch volume whose second block was written.
use schelk.Base.{◌≡◌, refl, true, false, List, ok, arith, subst, sym, as_i32}
use schelk.Base.Words.{add64, mul64}
use schelk.Io.Chunks.{
  BlockRange, prepare_chunks, sort_ranges, insert_range, merge_ranges, merge_from, split_ranges,
  split_range, split_loop, next_len, blocks_slot_size,
}
use schelk.Io.Ring.UserData.{reading, writing, encode_user_data, decode_user_data}
use schelk.Io.Ring.{
  turn, claim_slots, fill, read_slot, queue_read, push, submit, submit_batch, submit_pending, wait,
}
use schelk.Io.Ring.Handling.{
  start_ring, initial_ring, queue_write, handle_phase, handle_unknown, handle, serve, serve_phase,
  handle_all, advance,
}
use schelk.Io.Copy.{
  run_workers, deliver_all, join_all, partition, partition_loop, push_at, start_rings, deliver,
}
use schelk.Io.Volume.{
  blocks_copy_config, copy_blocks, run_copy, open_direct, copy_chunks, hash_superblock,
  read_superblock,
}
use schelk.Io.Volume.Exact.{HonestCopy}
use schelk.Io.Copy.Deliver.{HonestAll, started}
use schelk.Io.Ring.{Bytes}
use schelk.Commands.Recover.{collect_changed, recover_state, check_tracked, unmount_mounted}
use schelk.Commands.Promote
use schelk.Commands.Promote.{promote_state}
use schelk.Commands.Promote.Commits.{promote_state_commits}
use schelk.Commands.Promote.Commits
use schelk.Dmera
use schelk.Dmera.Xml.{
  parse_value, range_attrs, block_attrs, parse_element, parse_events, parse_era_invalidate_xml,
}
use schelk.Base.Text.{parse_digits, parse_unsigned, decimal, String}
use schelk.Cmd
use schelk.Text.{lines, split_whitespace, split_by, is_whitespace, trim, trim_start, trim_end}
use schelk.Mount.{is_mounted, lists_mount}
use schelk.Env.{confirm, prompt, is_yes}
use schelk.State.{save, load, lock}
use schelk.Env.{require_root}
use schelk.Base.{some}
use schelk.Commands.Recover.{run, run_locked}
use schelk.State.Loaded.{before_load}
use schelk.Commands.Recover.Restores.{IsTracked, before_collect, after_collect}
use schelk.Tests.Bench.{
  bench, rig, mounted_state, changed_volumes, is_reading, is_writing, one_block,
}

pub honest_on :
    (src dst : Bytes)
    → HonestAll rig
        (blocks_copy_config 4096)
        src
        rig.events
        (started rig (blocks_copy_config 4096) src (prepare_chunks one_block 4096) dst)
unfolding prepare_chunks sort_ranges insert_range merge_ranges merge_from split_ranges split_range
    split_loop next_len add64 mul64 blocks_copy_config blocks_slot_size partition partition_loop
    push_at start_rings deliver start_ring initial_ring turn claim_slots fill read_slot queue_read
    push submit submit_batch submit_pending wait queue_write handle_phase handle_unknown handle
    serve serve_phase handle_all advance encode_user_data decode_user_data as_i32
honest_on src dst = (
  (
    record {
      slot = record { offset = 4096; len = 4096; phase = reading };
      found = refl;
      in_phase = refl;
      not_free = is_reading;
    },
    λ r' e. tt,
  ),
  (
    (
      record {
        slot = record { offset = 4096; len = 4096; phase = writing };
        found = refl;
        in_phase = refl;
        not_free = is_writing;
      },
      λ r' e. tt,
    ),
    tt,
  ),
)

pub honest :
    (src dst : String)
    → HonestCopy bench src dst (blocks_copy_config 4096) (prepare_chunks one_block 4096)
honest src dst w = honest_on (bench.disk src w) (bench.disk dst w)

pub one_block-IsTracked : IsTracked bench mounted_state one_block changed_volumes
one_block-IsTracked = record { fits = (omega arith, tt); unchanged = λ i h. ground (arith, h) }

collected :
    (collect_changed bench mounted_state
      (before_collect bench mounted_state false changed_volumes)).0
    ≡ ok one_block
unfolding check_tracked unmount_mounted collect_changed Dmera.check_dmsetup
    Dmera.check_era_invalidate Dmera.exists Dmera.take_metadata_snapshot
    Dmera.drop_metadata_snapshot Dmera.get_changed_blocks Dmera.remove Dmera.message Dmera.dmsetup
    Cmd.require Cmd.is_available Cmd.run Cmd.run_unchecked is_mounted lists_mount lines
    split_whitespace split_by parse_value range_attrs block_attrs parse_element parse_events
    parse_era_invalidate_xml parse_digits parse_unsigned decimal
collected = refl

pub after : after_collect bench mounted_state false changed_volumes ≡ changed_volumes
unfolding check_tracked unmount_mounted collect_changed Dmera.check_dmsetup
    Dmera.check_era_invalidate Dmera.exists Dmera.take_metadata_snapshot
    Dmera.drop_metadata_snapshot Dmera.get_changed_blocks Dmera.remove Dmera.message Dmera.dmsetup
    Cmd.require Cmd.is_available Cmd.run Cmd.run_unchecked is_mounted lists_mount lines
    split_whitespace split_by parse_value range_attrs block_attrs parse_element parse_events
    parse_era_invalidate_xml parse_digits parse_unsigned decimal
after = refl

tracked :
    (changed : List BlockRange)
    → (collect_changed bench mounted_state
        (before_collect bench mounted_state false changed_volumes)).0
      ≡ ok changed
    → IsTracked bench mounted_state changed
        (after_collect bench mounted_state false changed_volumes)
      × HonestCopy bench "/dev/v" "/dev/s" (blocks_copy_config 4096) (prepare_chunks changed 4096)
tracked changed e =
    let same : one_block ≡ changed = let c = collected in cc in
    subst
      (λ rs.
        IsTracked bench mounted_state rs (after_collect bench mounted_state false changed_volumes)
        × HonestCopy bench "/dev/v" "/dev/s" (blocks_copy_config 4096) (prepare_chunks rs 4096))
      same
      (
        subst (IsTracked bench mounted_state one_block) (sym after) one_block-IsTracked,
        honest "/dev/v" "/dev/s",
      )

pub loads : (load bench (before_load bench changed_volumes)).0 ≡ ok (some mounted_state)
unfolding load
loads = refl

pub begins : (load bench (before_load bench changed_volumes)).1 ≡ changed_volumes
unfolding load lock require_root
begins = refl

pub runs : (run bench false changed_volumes).0 ≡ ok tt
unfolding run run_locked require_root lock load recover_state check_tracked unmount_mounted
    collect_changed Dmera.check_dmsetup Dmera.check_era_invalidate Dmera.exists
    Dmera.take_metadata_snapshot Dmera.drop_metadata_snapshot Dmera.get_changed_blocks Dmera.remove
    Dmera.message Dmera.dmsetup Cmd.require Cmd.is_available Cmd.run Cmd.run_unchecked is_mounted
    lists_mount lines split_whitespace split_by parse_value range_attrs block_attrs parse_element
    parse_events parse_era_invalidate_xml parse_digits parse_unsigned decimal copy_blocks run_copy
    open_direct copy_chunks run_workers deliver_all join_all save prepare_chunks sort_ranges
    insert_range merge_ranges merge_from split_ranges split_range split_loop next_len add64 mul64
    blocks_copy_config blocks_slot_size partition partition_loop push_at start_rings deliver
    start_ring initial_ring turn claim_slots fill read_slot queue_read push submit submit_batch
    submit_pending wait queue_write handle_phase handle_unknown handle serve serve_phase handle_all
    advance encode_user_data decode_user_data as_i32
runs = refl

abbrev pub promoting : bench.World
promoting = Commits.before_collect bench mounted_state true false changed_volumes

abbrev pub promoted_from : bench.World
promoted_from = Commits.after_collect bench mounted_state true false changed_volumes

promote_collected : (collect_changed bench mounted_state promoting).0 ≡ ok one_block
unfolding check_tracked unmount_mounted collect_changed Dmera.check_dmsetup
    Dmera.check_era_invalidate Dmera.exists Dmera.take_metadata_snapshot
    Dmera.drop_metadata_snapshot Dmera.get_changed_blocks Dmera.remove Dmera.message Dmera.dmsetup
    Cmd.require Cmd.is_available Cmd.run Cmd.run_unchecked is_mounted lists_mount lines
    split_whitespace split_by parse_value range_attrs block_attrs parse_element parse_events
    parse_era_invalidate_xml parse_digits parse_unsigned decimal confirm prompt is_yes trim
    trim_start trim_end is_whitespace
promote_collected = refl

pub promote_after : promoted_from ≡ changed_volumes
unfolding check_tracked unmount_mounted collect_changed Dmera.check_dmsetup
    Dmera.check_era_invalidate Dmera.exists Dmera.take_metadata_snapshot
    Dmera.drop_metadata_snapshot Dmera.get_changed_blocks Dmera.remove Dmera.message Dmera.dmsetup
    Cmd.require Cmd.is_available Cmd.run Cmd.run_unchecked is_mounted lists_mount lines
    split_whitespace split_by parse_value range_attrs block_attrs parse_element parse_events
    parse_era_invalidate_xml parse_digits parse_unsigned decimal confirm prompt is_yes trim
    trim_start trim_end is_whitespace
promote_after = refl

promote-IsTracked :
    (changed : List BlockRange)
    → (collect_changed bench mounted_state promoting).0 ≡ ok changed
    → IsTracked bench mounted_state changed promoted_from
      × HonestCopy bench "/dev/s" "/dev/v" (blocks_copy_config 4096) (prepare_chunks changed 4096)
promote-IsTracked changed e =
    let same : one_block ≡ changed = let c = promote_collected in cc in
    subst
      (λ rs.
        IsTracked bench mounted_state rs promoted_from
        × HonestCopy bench "/dev/s" "/dev/v" (blocks_copy_config 4096) (prepare_chunks rs 4096))
      same
      (
        subst (IsTracked bench mounted_state one_block) (sym promote_after) one_block-IsTracked,
        honest "/dev/s" "/dev/v",
      )

pub promote_runs : (Promote.run bench true false changed_volumes).0 ≡ ok tt
unfolding Promote.run require_root lock load promote_state check_tracked unmount_mounted
    collect_changed Dmera.check_dmsetup Dmera.check_era_invalidate Dmera.exists
    Dmera.take_metadata_snapshot Dmera.drop_metadata_snapshot Dmera.get_changed_blocks Dmera.remove
    Dmera.message Dmera.dmsetup Cmd.require Cmd.is_available Cmd.run Cmd.run_unchecked is_mounted
    lists_mount lines split_whitespace split_by parse_value range_attrs block_attrs parse_element
    parse_events parse_era_invalidate_xml parse_digits parse_unsigned decimal confirm prompt is_yes
    trim trim_start trim_end is_whitespace copy_blocks run_copy open_direct copy_chunks run_workers
    deliver_all join_all save hash_superblock read_superblock prepare_chunks sort_ranges
    insert_range merge_ranges merge_from split_ranges split_range split_loop next_len add64 mul64
    blocks_copy_config blocks_slot_size partition partition_loop push_at start_rings deliver
    start_ring initial_ring turn claim_slots fill read_slot queue_read push submit submit_batch
    submit_pending wait queue_write handle_phase handle_unknown handle serve serve_phase handle_all
    advance encode_user_data decode_user_data as_i32
promote_runs = refl
