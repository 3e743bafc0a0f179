-- ===== src/Io/Ring/Handling.antt =====
-- src/io/uring.rs: `run_ring` from the arrival of completions on, and its start.
use schelk.Base.{
  ℕ, zero, suc, ◌+◌, ◌-◌, ◌%◌, ◌^◌, List, [], ◌∷◌, ◌==◌, if◌then◌else◌, none, some, get_elem?, set,
  Result, ok, err, ℤ, is_negative, int_beq, as_i32,
}
use schelk.Base.Words.{add64}
use schelk.Error.{Error, io_failed, short_read, short_write, panicked, os_error}
use schelk.Io.Chunks.{CopyChunk}
use schelk.Io.Ring.UserData.{Phase, free, reading, writing, decode_user_data}
use schelk.Io.Ring.{
  Bytes, Slot, Cqe, Kernel, Ring, Shared, Config, Progress, waiting, finished, ◌>>=◌, keep_first,
  push, submit_batch, turn,
}

module _ (k : Kernel) (c : Config) where
  -- The counter is at least 1 where a slot is in use; at 0 the code would wrap around.
  abbrev pub free_slot : ℕ → Slot → Ring → Ring
  free_slot id s r = record r {
    slots = set r.slots id (record s { phase = free });
    in_flight = r.in_flight - 1;
  }

  -- The first error is kept, the slot is freed.
  abbrev pub fail_slot : ℕ → Slot → Error → Ring → Ring
  fail_slot id s e r = record (free_slot id s r) { first_error = keep_first r.first_error e }

  -- A read that has filled its buffer: the write of the same slot is queued.
  unfoldable pub queue_write : ℕ → Slot → Ring → Result Error Ring
  unfolding push submit_batch
  queue_write id s r =
      push k c (record r { slots = set r.slots id (record s { phase = writing }) }) >>= λ r.
      submit_batch k c (record r { pending_submits = r.pending_submits + 1 })

  -- The completion of an operation of slot `id` that the entry says was in the phase. The
  -- number is the counter of copied bytes.
  unfoldable pub handle_phase : Phase → ℕ → Slot → ℤ → Ring → ℕ → Result Error Ring × ℕ
  unfolding queue_write
  handle_phase reading id s result r copied =
      if int_beq result (as_i32 s.len)
      then (queue_write id s r, copied)
      else (ok (fail_slot id s (short_read s.offset result) r), copied)
  handle_phase writing id s result r copied =
      if int_beq result (as_i32 s.len)
      then (ok (free_slot id s r), add64 copied s.len)
      else (ok (fail_slot id s (short_write s.offset result) r), copied)
  handle_phase free id s result r copied = (ok (record r { in_flight = r.in_flight - 1 }), copied)

  -- A slot id out of range is a panic, where the slot is looked at.
  unfoldable pub handle_unknown : Phase → ℤ → Ring → ℕ → Result Error Ring × ℕ
  handle_unknown free result r copied =
      if is_negative result
      then (err panicked, copied)
      else (ok (record r { in_flight = r.in_flight - 1 }), copied)
  handle_unknown _ result r copied = (err panicked, copied)

  -- The body of the completion loop.
  unfoldable pub handle : Cqe → Ring → ℕ → Result Error Ring × ℕ
  unfolding decode_user_data handle_phase handle_unknown
  handle cqe r copied =
      let (id, phase) = decode_user_data cqe.user_data in
      elim (get_elem? r.slots id) [
        | none ↦ handle_unknown phase cqe.result r copied
        | some s ↦
            if is_negative cqe.result
            then (ok (fail_slot id s (io_failed s.offset) r), copied)
            else handle_phase phase id s cqe.result r copied
      ]

abbrev pub idle_slots : ℕ → List Slot
idle_slots zero = []
idle_slots (suc n) = record { offset = 0; len = 0; phase = free } ∷ idle_slots n

-- The table and the counters before the loop.
unfoldable pub initial_ring : Config → List CopyChunk → Ring
initial_ring c chunks = record {
  todo = chunks;
  slots = idle_slots c.slots_per_ring;
  bufs = λ id j. 0;
  in_flight = 0;
  pending_submits = 0;
  first_error = none;
  queued = 0;
  submits = 0;
}

module _ (k : Kernel) (c : Config) where
  -- The start of `run_ring`, up to its first wait.
  unfoldable pub start_ring : List CopyChunk → Progress
  unfolding turn initial_ring
  start_ring [] = finished (ok tt)
  start_ring (chunk ∷ chunks) =
      if k.sets_up then turn k c (initial_ring c (chunk ∷ chunks)) else finished (err os_error)

module _ (k : Kernel) (c : Config) (src : Bytes) where
  -- What the kernel has done by the time it posts the completion of a slot's operation.
  unfoldable pub serve_phase : Phase → ℕ → Slot → ℤ → Ring → Bytes → Ring × Bytes
  serve_phase free id s result r dst = (r, dst)
  serve_phase reading id s result r dst = (
    record r {
      bufs = λ j.
          if j == id then k.read_at src s.offset (s.len % 2 ^ 32) result (r.bufs id) else r.bufs j;
    },
    dst,
  )
  serve_phase writing id s result r dst =
      (r, k.write_at (r.bufs id) s.offset (s.len % 2 ^ 32) result dst)

  unfoldable pub serve : Cqe → Ring → Bytes → Ring × Bytes
  unfolding decode_user_data serve_phase
  serve cqe r dst =
      let (id, phase) = decode_user_data cqe.user_data in
      elim (get_elem? r.slots id) [
        | none ↦ (r, dst)
        | some s ↦ serve_phase s.phase id s cqe.result r dst
      ]

  -- One batch of completions, each served by the kernel and then handled. An early return leaves
  -- the rest of the batch unhandled.
  unfoldable pub handle_all : List Cqe → Ring → Shared → Result Error Ring × Shared
  unfolding serve handle
  handle_all [] r sh = (ok r, sh)
  handle_all (cqe ∷ cqes) r sh =
      let (served, dst) = serve cqe r sh.dst in
      let (result, copied) = handle k c cqe served sh.copied in
      let sh' : Shared = record { dst = dst; copied = copied } in
      elim result [ err e ↦ (err e, sh') | ok r' ↦ handle_all cqes r' sh' ]

  -- A batch arrives, and the worker goes on to its next wait. A worker that has ended takes none: what
  -- the kernel does with operations that are in flight at an early return is not modelled.
  unfoldable pub advance : List Cqe → Progress → Shared → Progress × Shared
  unfolding handle_all turn
  advance cqes (finished result) sh = (finished result, sh)
  advance cqes (waiting r) sh =
      let (result, sh') = handle_all cqes r sh in
      elim result [ err e ↦ (finished (err e), sh') | ok r' ↦ (turn k c r', sh') ]
