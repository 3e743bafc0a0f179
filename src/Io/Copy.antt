-- ===== src/Io/Copy.antt =====
-- `run_copy` of src/io/uring.rs after its volumes are open: the alignment check, the partition of
-- the chunks among the workers, the workers side by side, the join and the final fsync.
pub mod Partition
pub mod Deliver
pub mod Exact
pub mod Total
pub mod Draining
pub mod Succeeds
pub mod Fails
pub mod Waits
pub mod Aligned
use schelk.Base.{
  ℕ, zero, suc, ◌+◌, ◌-◌, ◌*◌, ◌/◌, ◌%◌, ◌≤◌, ◌<◌, min, max, ◌≡◌, refl, sym, ap, ◌∙◌, Bool, true,
  false, ◌&&◌, ◌||◌, List, [], ◌∷◌, ◌++◌, ltb, leb, ltb→lt, lt→ltb, ltb→ge, ◌==◌, if◌then◌else◌,
  arith, All, All-append, Bool-cases, ◌⊎◌, inl, inr, Option, none, some, not, length, get_elem?,
  set, ◌≢◌, subst, Option-cases, map, ◌↔◌, ◌^◌, length-append, All-set, All-elem, length-set,
  ==_iff, Result, ok, err, ℤ, pos, negsuc, is_negative, int_beq, as_i32, as_i32_small,
}
use schelk.Error.{Error}
use schelk.Io.Chunks.{CopyChunk, covers}
use schelk.Io.Ring.UserData.{Phase, free, reading, writing, decode_user_data}
use schelk.Io.Ring.{
  Bytes, Slot, Cqe, Kernel, Ring, Shared, Config, Progress, waiting, finished, ◌>>=◌, is_free,
  is_none, keep_first, push, submit, submit_batch, submit_pending, queue_read, read_slot, fill,
  claim_slots, wait, turn, ended, settled, IsLawful,
}
use schelk.Io.Ring.Handling.{
  free_slot, fail_slot, queue_write, handle_phase, handle_unknown, handle, serve, serve_phase,
  handle_all, advance, start_ring,
}
use schelk.Error.{misaligned, os_error}

abbrev pub ring_count_max : ℕ
ring_count_max = 4

abbrev pub is_aligned : CopyChunk → Bool
is_aligned chunk = (chunk.offset % 4096 == 0) && (chunk.len % 4096 == 0)

abbrev pub all_aligned : List CopyChunk → Bool
all_aligned [] = true
all_aligned (chunk ∷ chunks) = is_aligned chunk && all_aligned chunks

-- chunks.len().clamp(1, RING_COUNT)
abbrev pub ring_count : ℕ → ℕ
ring_count n = max 1 (min n ring_count_max)

abbrev pub div_ceil : ℕ → ℕ → ℕ
div_ceil a b = (a + b - 1) / b

abbrev pub no_chunks : ℕ → List (List CopyChunk)
no_chunks zero = []
no_chunks (suc n) = [] ∷ no_chunks n

-- partitions[ring_idx].push(chunk)
unfoldable pub push_at : ℕ → CopyChunk → List (List CopyChunk) → List (List CopyChunk)
push_at id chunk [] = []
push_at zero chunk (part ∷ parts) = (part ++ chunk ∷ []) ∷ parts
push_at (suc id) chunk (part ∷ parts) = part ∷ push_at id chunk parts

-- The loop over the chunks, `i` of which are placed.
unfoldable pub partition_loop :
    ℕ → ℕ → ℕ → List CopyChunk → List (List CopyChunk) → List (List CopyChunk)
unfolding push_at
partition_loop i per count [] parts = parts
partition_loop i per count (chunk ∷ chunks) parts =
    partition_loop (i + 1) per count chunks (push_at (min (i / per) (count - 1)) chunk parts)

unfoldable pub partition : List CopyChunk → List (List CopyChunk)
unfolding partition_loop
partition chunks =
    let count = ring_count (length chunks) in
    partition_loop 0 (div_ceil (length chunks) count) count chunks (no_chunks count)

-- What the operating system contributes to a copy: a kernel for each worker, the batches of
-- completions in the order in which the workers receive them, and the end of the final fsync.
pub record Event : Type 0 where
  pub ring : ℕ
  pub cqes : List Cqe

pub record Rig : Type 0 where
  pub kernel : ℕ → Kernel
  pub events : List Event
  pub fsync_succeeds : Bool

pub record Workers : Type 0 where
  pub rings : List Progress
  pub shared : Shared

-- The first error among the workers, in their order, once all have ended.
unfoldable pub join_all : List Progress → Option (Result Error (Unit {0}))
join_all [] = some (ok tt)
join_all (waiting r ∷ ps) = none
join_all (finished (ok _) ∷ ps) = join_all ps
join_all (finished (err e) ∷ ps) = elim (join_all ps) [ none ↦ none | some _ ↦ some (err e) ]

-- The result of a copy, none while a worker still waits, with the destination and the counter.
pub record Copied : Type 0 where
  pub result : Option (Result Error (Unit {0}))
  pub shared : Shared

module _ (rig : Rig) (c : Config) (src : Bytes) where
  unfoldable pub start_rings : ℕ → List (List CopyChunk) → List Progress
  start_rings id [] = []
  start_rings id (part ∷ parts) = start_ring (rig.kernel id) c part ∷ start_rings (id + 1) parts

  -- A batch for one worker; the others keep their place.
  unfoldable pub deliver : ℕ → ℕ → List Cqe → List Progress → Shared → List Progress × Shared
  deliver id n cqes [] sh = ([], sh)
  deliver id zero cqes (p ∷ ps) sh =
      let (p', sh') = advance (rig.kernel id) c src cqes p sh in (p' ∷ ps, sh')
  deliver id (suc n) cqes (p ∷ ps) sh =
      let (ps', sh') = deliver (id + 1) n cqes ps sh in (p ∷ ps', sh')

  unfoldable pub deliver_all : List Event → Workers → Workers
  unfolding deliver
  deliver_all [] w = w
  deliver_all (e ∷ es) w =
      let (rings, shared) = deliver 0 e.ring e.cqes w.rings w.shared in
      deliver_all es (record { rings = rings; shared = shared })

  abbrev pub synced : Option (Result Error (Unit {0})) → Option (Result Error (Unit {0}))
  synced none = none
  synced (some (err e)) = some (err e)
  synced (some (ok u)) = if rig.fsync_succeeds then some (ok u) else some (err os_error)

  -- From the alignment check on.
  unfoldable pub run_workers : List CopyChunk → Bytes → Copied
  unfolding deliver_all partition start_rings join_all
  run_workers chunks dst =
      let fresh : Shared = record { dst = dst; copied = 0 } in
      elim (all_aligned chunks) [
        | false ↦ record { result = some (err misaligned); shared = fresh }
        | true ↦
            let w =
              deliver_all rig.events
                (record { rings = start_rings 0 (partition chunks); shared = fresh }) in
            record { result = synced (join_all w.rings); shared = w.shared }
      ]
