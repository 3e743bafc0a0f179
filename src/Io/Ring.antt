-- ===== src/Io/Ring.antt =====
-- `run_ring` of src/io/uring.rs: one worker with its slots, buffers and io_uring. The loop is
-- cut at the point where it waits for completions: `turn` is a round from the top of the loop to
-- the wait, `handle_all` is the work on one batch of completions. The kernel is a parameter.
pub mod UserData
pub mod Slots
pub mod Invariant
pub mod Turn
pub mod Completion
pub mod Batch
pub mod Handling
pub mod Work
pub mod Buffers
pub mod Spending
pub mod Clean
pub mod Draining
pub mod Carrying
pub mod Failing
use schelk.Base.{
  ℕ, zero, suc, ◌+◌, ◌-◌, ◌*◌, ◌/◌, ◌%◌, ◌^◌, ◌≤◌, ◌<◌, min, max, ◌≡◌, Bool, true, false, ◌&&◌,
  ◌||◌, List, [], ◌∷◌, ◌++◌, ltb, leb, ◌==◌, if◌then◌else◌, ◌⊎◌, Option, none, some, not, length,
  get_elem?, set, Result, ok, err, ℤ, pos, negsuc, is_negative, int_beq, as_i32,
}
use schelk.Base.Words.{add64}
use schelk.Error.{
  Error, io_failed, short_read, short_write, queue_full, submit_failed, panicked, os_error,
}
use schelk.Io.Chunks.{CopyChunk}
use UserData.{Phase, free, reading, writing, encode_user_data, decode_user_data}

abbrev pub Bytes : Type 0
Bytes = ℕ → ℕ

pub record Slot : Type 0 where
  pub offset : ℕ
  pub len : ℕ
  pub phase : Phase

-- A completion queue entry.
pub record Cqe : Type 0 where
  pub user_data : ℕ
  pub result : ℤ

-- What the kernel does for the worker, as far as the worker can see it.
pub record Kernel : Type 0 where
  -- Whether the ring is created, the files are registered and the buffer pool is allocated.
  pub sets_up : Bool
  -- Whether the n-th call of `submit` or `submit_and_wait` succeeds.
  pub accepts : ℕ → Bool
  -- The buffer after a read of `len` bytes at `offset` that ended with the result.
  pub read_at : Bytes → ℕ → ℕ → ℤ → Bytes → Bytes
  -- The file after a write of `len` bytes of the buffer at `offset` that ended with the result.
  pub write_at : Bytes → ℕ → ℕ → ℤ → Bytes → Bytes

-- The documented behaviour of reads and writes at an offset.
pub record IsLawful (k : Kernel) : Type 0 where
  -- A read that returns its length has filled the buffer from the file.
  pub read_full :
      (src : Bytes) (offset len j : ℕ) (old : Bytes)
      → j < len
      → k.read_at src offset len (pos len) old j ≡ src (offset + j)
  -- A write that returns its length has stored the buffer.
  pub write_full :
      (buf : Bytes) (offset len j : ℕ) (old : Bytes)
      → j < len
      → k.write_at buf offset len (pos len) old (offset + j) ≡ buf j
  -- A byte that any write leaves is an old one, or it is in the range and comes from the buffer.
  pub write_mixed :
      (buf : Bytes) (offset len i : ℕ) (result : ℤ) (old : Bytes)
      → (k.write_at buf offset len result old i ≡ old i)
        ⊎ ((j : ℕ) × (j < len)
            × (i ≡ offset + j)
            × (k.write_at buf offset len result old i ≡ buf j))

pub record Ring : Type 0 where
  -- chunks[chunk_idx..]
  pub todo : List CopyChunk
  pub slots : List Slot
  -- The buffer of each slot in the pool.
  pub bufs : ℕ → Bytes
  pub in_flight : ℕ
  pub pending_submits : ℕ
  pub first_error : Option Error
  -- Entries of the submission queue that the kernel has not taken yet.
  pub queued : ℕ
  -- Calls of `submit` and `submit_and_wait` so far.
  pub submits : ℕ

-- What the workers share: the destination, and the counter of copied bytes.
pub record Shared : Type 0 where
  pub dst : Bytes
  pub copied : ℕ

pub record Config : Type 0 where
  pub sq_depth : ℕ
  pub slots_per_ring : ℕ
  pub slot_size : ℕ

pub data Progress : Type 0 where
  waiting : Ring → Progress
  finished : Result Error (Unit {0}) → Progress

infixl 5 ◌>>=◌
abbrev pub ◌>>=◌ : {A B : Type 0} → Result Error A → (A → Result Error B) → Result Error B
ok a >>= f = f a
err e >>= f = err e

abbrev pub is_free : Phase → Bool
is_free free = true
is_free _ = false

abbrev pub is_none : Option Error → Bool
is_none none = true
is_none (some e) = false

-- if first_error.is_none() { first_error = Some(e) }
abbrev pub keep_first : Option Error → Error → Option Error
keep_first none e = some e
keep_first (some f) e = some f

module _ (k : Kernel) (c : Config) where
  -- ring.submission().push(&sqe): refused if the queue is full.
  unfoldable pub push : Ring → Result Error Ring
  push r =
      if ltb r.queued c.sq_depth then ok (record r { queued = r.queued + 1 }) else err queue_full

  -- ring.submitter().submit(), after which all entries are with the kernel.
  unfoldable pub submit : Ring → Result Error Ring
  submit r =
      if k.accepts r.submits
      then ok (record r { submits = r.submits + 1; queued = 0; pending_submits = 0 })
      else err submit_failed

  -- if pending_submits >= SUBMIT_BATCH_SIZE { submit }
  unfoldable pub submit_batch : Ring → Result Error Ring
  unfolding submit
  submit_batch r = if leb 32 r.pending_submits then submit r else ok r

  unfoldable pub submit_pending : Ring → Result Error Ring
  unfolding submit
  submit_pending r = if ltb 0 r.pending_submits then submit r else ok r

  -- The body of the fill loop for a free slot: a read of the next chunk is queued.
  unfoldable pub queue_read : Ring → Result Error Ring
  unfolding push submit_batch
  queue_read r = do
    r ← push r
    submit_batch (record r { in_flight = r.in_flight + 1; pending_submits = r.pending_submits + 1 })

  unfoldable pub read_slot : CopyChunk → Slot
  read_slot chunk = record {
    offset = chunk.offset;
    len = min chunk.len c.slot_size;
    phase = reading;
  }

  -- The loop over the slots, from the first. The Boolean is `submitted_this_iter`.
  unfoldable pub fill :
      List Slot
      → List CopyChunk
      → Ring
      → Bool
      → Result Error (List Slot × List CopyChunk × Ring × Bool)
  unfolding queue_read read_slot
  fill [] todo r submitted = ok ([], todo, r, submitted)
  fill (s ∷ ss) [] r submitted = ok (s ∷ ss, [], r, submitted)
  fill (s ∷ ss) (chunk ∷ todo) r submitted = elim (is_free s.phase) [
    | false ↦ fill ss (chunk ∷ todo) r submitted >>= λ (ss', todo', r', sub').
        ok (s ∷ ss', todo', r', sub')
    | true ↦ queue_read r >>= λ r. fill ss todo r true >>= λ (ss', todo', r', sub').
        ok (read_slot chunk ∷ ss', todo', r', sub')
  ]

  -- The part of the loop that claims free slots, skipped after the first error.
  unfoldable pub claim_slots : Ring → Result Error Ring
  unfolding fill submit_pending
  claim_slots r = elim (is_none r.first_error) [
    | false ↦ ok r
    | true ↦ fill r.slots r.todo r false >>= λ (slots, todo, r', submitted).
        let r'' = record r' { slots = slots; todo = todo } in
        if submitted then submit_pending r'' else ok r''
  ]

  -- submit_and_wait(1), up to the arrival of completions.
  unfoldable pub wait : Ring → Result Error Ring
  wait r =
      if k.accepts r.submits
      then ok (record r { submits = r.submits + 1; queued = 0 })
      else err submit_failed

  abbrev pub ended : Option Error → Result Error (Unit {0})
  ended none = ok tt
  ended (some e) = err e

  abbrev pub settled : Result Error Ring → Progress
  settled (ok r) = waiting r
  settled (err e) = finished (err e)

  -- From the top of the loop to its end, or to the wait for completions.
  unfoldable pub turn : Ring → Progress
  unfolding claim_slots submit_pending wait
  turn r = elim (claim_slots r) [
    | err e ↦ finished (err e)
    | ok r ↦
        if r.in_flight == 0
        then finished (ended r.first_error)
        else settled (submit_pending r >>= wait)
  ]
