-- ===== src/Io/Ring/Clean.antt =====
-- A worker of src/io/uring.rs whose calls are accepted, so that it does not return early.
use schelk.Base.{
  ℕ, ◌+◌, ◌≤◌, ◌<◌, ◌≡◌, refl, true, false, Bool, List, [], ◌∷◌, ◌==◌, ltb, leb, if◌then◌else◌,
  arith, Bool-cases, inl, inr, Option, none, some, Option-cases, set, Result, ok, err, pos,
}
use schelk.Error.{Error}
use schelk.Io.Chunks.{CopyChunk}
use schelk.Io.Ring.UserData.{writing}
use schelk.Io.Ring.{
  Slot, Cqe, Kernel, Ring, Config, Progress, waiting, finished, is_free, ◌>>=◌, submit_pending,
  queue_read, fill, claim_slots, wait, turn, settled, ended, push, submit, submit_batch,
}
use schelk.Io.Ring.Handling.{queue_write, initial_ring, start_ring}
use schelk.Io.Ring.Slots.{Result-cases}
use schelk.Io.Ring.Completion.{InFlight}

-- The kernel sets the ring up, and accepts every submission.
pub record IsWilling (k : Kernel) : Type 0 where
  pub sets_up : k.sets_up ≡ true
  pub accepts : (n : ℕ) → k.accepts n ≡ true

-- The entry answers an operation in flight, which has moved all its bytes.
pub record Completes (cqe : Cqe) (r : Ring) : Type 0 where
  pub in_flight : InFlight cqe r
  pub full : cqe.result ≡ pos in_flight.slot.len

-- There is a result, of which something holds.
abbrev pub Sure : {A : Type 0} → (A → Type 0) → Result Error A → Type 0
Sure P (ok a) = P a
Sure P (err e) = ⊥

Sure-bind :
    {A B : Type 0} (P : A → Type 0) (Q : B → Type 0) (m : Result Error A) (f : A → Result Error B)
    → Sure P m
    → ((a : A) → P a → Sure Q (f a))
    → Sure Q (m >>= f)
Sure-bind P Q (ok a) f h g = g a h
Sure-bind P Q (err e) f h g = absurd h

-- Less than a batch of entries that are not submitted, and a condition on the first error.
pub record Calm (P : Option Error → Type 0) (r : Ring) : Type 0 where
  pub fine : P r.first_error
  pub queue : r.queued ≤ r.pending_submits
  pub few : r.pending_submits < 32

abbrev pub Going : (Option Error → Type 0) → Progress → Type 0
Going P (waiting r) = Calm P r
Going P (finished (ok u)) = Unit {0}
Going P (finished (err e)) = P (some e)

module _ (k : Kernel) (will : IsWilling k) (c : Config) (deep : 32 ≤ c.sq_depth)
    (P : Option Error → Type 0) where
  submit_batch-Calm :
      (r : Ring)
      → P r.first_error
      → r.queued ≤ r.pending_submits
      → Sure (Calm P) (submit_batch k c r)
  unfolding submit_batch submit
  submit_batch-Calm r e q = elim (Bool-cases (leb 32 r.pending_submits)) [
    | inl full ↦
        rw (submit_batch, full, will.accepts r.submits)
          (record { fine = e; queue = omega arith; few = omega arith })
    | inr few ↦ rw (submit_batch, few) (record { fine = e; queue = q; few = ground arith })
  ]

  push-room : (r : Ring) → Calm P r → push k c r ≡ ok (record r { queued = r.queued + 1 })
  unfolding push
  push-room r v =
      let room : ltb r.queued c.sq_depth ≡ true = ground (arith, v.queue, v.few, deep) in
      rw room refl

  queue_read-Calm : (r : Ring) → Calm P r → Sure (Calm P) (queue_read k c r)
  unfolding queue_read
  queue_read-Calm r v =
      rw (queue_read, push-room r v)
        (submit_batch-Calm
          (record r {
            queued = r.queued + 1;
            in_flight = r.in_flight + 1;
            pending_submits = r.pending_submits + 1;
          })
          v.fine (omega (arith, v.queue)))

  pub queue_write-Calm :
      (id : ℕ) (s : Slot) (r : Ring) → Calm P r → Sure (Calm P) (queue_write k c id s r)
  unfolding queue_write
  queue_write-Calm id s r v =
      let r1 : Ring = record r { slots = set r.slots id (record s { phase = writing }) } in
      let v1 : Calm P r1 = record { fine = v.fine; queue = v.queue; few = v.few } in
      rw (queue_write, push-room r1 v1)
        (submit_batch-Calm
          (record r1 { queued = r1.queued + 1; pending_submits = r1.pending_submits + 1 }) v.fine
          (omega (arith, v.queue)))

  submit_pending-Calm : (r : Ring) → Calm P r → Sure (Calm P) (submit_pending k c r)
  unfolding submit_pending submit
  submit_pending-Calm r v = elim (Bool-cases (ltb 0 r.pending_submits)) [
    | inl some_left ↦
        rw (submit_pending, some_left, will.accepts r.submits)
          (record { fine = v.fine; queue = omega arith; few = omega arith })
    | inr none_left ↦ rw (submit_pending, none_left) v
  ]

  wait-Calm : (r : Ring) → Calm P r → Sure (Calm P) (wait k c r)
  unfolding wait
  wait-Calm r v =
      rw (wait, will.accepts r.submits) (record { fine = v.fine; queue = omega arith; few = v.few })

  fill-Calm :
      (ss : List Slot) (todo : List CopyChunk) (r : Ring) (submitted : Bool)
      → Calm P r
      → Sure (λ (ss', todo', r', sub'). Calm P r') (fill k c ss todo r submitted)
  unfolding fill
  fill-Calm [] todo r submitted v = v
  fill-Calm (s ∷ ss) [] r submitted v = v
  fill-Calm (s ∷ ss) (chunk ∷ todo) r submitted v = elim (Bool-cases (is_free s.phase)) [
    | inl e ↦
        rw (e, fill)
          (Sure-bind (Calm P) _ (queue_read k c r) _ (queue_read-Calm r v) λ r1 v1.
            Sure-bind _ _ (fill k c ss todo r1 true) _ (fill-Calm ss todo r1 true v1)
              λ (ss', todo', r', sub') h. h)
    | inr e ↦
        rw (e, fill)
          (Sure-bind _ _ (fill k c ss (chunk ∷ todo) r submitted) _
            (fill-Calm ss (chunk ∷ todo) r submitted v) λ (ss', todo', r', sub') h. h)
  ]

  Calm-table :
      (r : Ring) (ss : List Slot) (todo : List CopyChunk)
      → Calm P r
      → Calm P (record r { slots = ss; todo = todo })
  Calm-table r ss todo v = record { fine = v.fine; queue = v.queue; few = v.few }

  if_submitted-Calm :
      (submitted : Bool) (r : Ring)
      → Calm P r
      → Sure (Calm P) (if submitted then submit_pending k c r else ok r)
  if_submitted-Calm true r v = submit_pending-Calm r v
  if_submitted-Calm false r v = v

  claim_slots-Calm : (r : Ring) → Calm P r → Sure (Calm P) (claim_slots k c r)
  unfolding claim_slots
  claim_slots-Calm r v = elim (Option-cases r.first_error) [
    | inl e ↦
        rw (e, claim_slots)
          (Sure-bind _ _ (fill k c r.slots r.todo r false) _ (fill-Calm r.slots r.todo r false v)
            λ (ss', todo', r', submitted) h.
              if_submitted-Calm submitted (record r' { slots = ss'; todo = todo' })
                (Calm-table r' ss' todo' h))
    | inr (x, e) ↦ rw (e, claim_slots) v
  ]

  settled-Going : (m : Result Error Ring) → Sure (Calm P) m → Going P (settled k c m)
  settled-Going (ok r) h = h
  settled-Going (err e) h = absurd h

  ended-Going : (o : Option Error) → P o → Going P (finished (ended k c o))
  ended-Going none h = tt
  ended-Going (some e) h = h

  pub turn-Going : (r : Ring) → Calm P r → Going P (turn k c r)
  unfolding turn
  turn-Going r v = elim (Result-cases (claim_slots k c r)) [
    | inr (x, e) ↦ absurd (rw e at (claim_slots-Calm r v))
    | inl (r', e) ↦
        let w : Calm P r' = rw e at (claim_slots-Calm r v) in
        elim (Bool-cases (r'.in_flight == 0)) [
          | inl z ↦ rw (e, turn) (rw z (ended-Going r'.first_error w.fine))
          | inr b ↦
              rw (e, turn)
                (rw b (
                  settled-Going (submit_pending k c r' >>= wait k c) (
                    Sure-bind (Calm P) (Calm P) (submit_pending k c r') (wait k c)
                      (submit_pending-Calm r' w) wait-Calm)))
        ]
  ]

  pub start_ring-Going : P none → (chunks : List CopyChunk) → Going P (start_ring k c chunks)
  unfolding start_ring initial_ring
  start_ring-Going start [] = tt
  start_ring-Going start (chunk ∷ chunks) =
      rw (start_ring, will.sets_up)
        (turn-Going (initial_ring c (chunk ∷ chunks))
          (record { fine = start; queue = omega arith; few = omega arith }))
