-- ===== src/Io/Ring/Draining.antt =====
-- A worker of src/io/uring.rs that does not return early, over batches of completions.
use schelk.Base.{
  ℕ, ◌≤◌, ◌<◌, List, [], ◌∷◌, inl, inr, get_elem?, Option, Option-cases, ◌%◌, ◌^◌, All-elem,
}
use schelk.Error.{Error}
use schelk.Io.Chunks.{CopyChunk}
use schelk.Io.Ring.UserData.{Phase, free, reading, writing, decode_user_data}
use schelk.Io.Ring.{
  Bytes, Slot, Cqe, Kernel, Ring, Shared, Config, Progress, waiting, finished, IsLawful,
}
use schelk.Io.Ring.Handling.{handle, serve, serve_phase, handle_all, advance}
use schelk.Io.Ring.Slots.{Result-cases, Small}
use schelk.Io.Ring.Invariant.{Inv, After}
use schelk.Io.Ring.Completion.{InFlight}
use schelk.Io.Ring.Completion.Writes.{completed}
use schelk.Io.Ring.Batch.{EachCqe, EachFor}
use schelk.Io.Ring.Clean.{IsWilling, Sure, Calm, Going, turn-Going}

module _ (k : Kernel) (c : Config) (src : Bytes) (P : Option Error → Type 0) where
  served-Calm : (cqe : Cqe) (r : Ring) (dst : Bytes) → Calm P r → Calm P (serve k c src cqe r dst).0
  unfolding serve serve_phase decode_user_data
  served-Calm cqe r dst v = elim (Option-cases (get_elem? r.slots (cqe.user_data % 2 ^ 32))) [
    | inl e ↦ rw (serve, e) v
    | inr (s, e) ↦ rw (serve, e) (by_phase s.phase s)
  ]
    where
      by_phase :
          (p : Phase) (s : Slot)
          → Calm P (serve_phase k c src p (cqe.user_data % 2 ^ 32) s cqe.result r dst).0
      by_phase free s = v
      by_phase reading s = record { fine = v.fine; queue = v.queue; few = v.few }
      by_phase writing s = v

-- A kind of completion that answers an operation in flight, and whose handling goes on.
pub record IsHandled (P : Option Error → Type 0) (Q : Cqe → Ring → Type 0) (k : Kernel) (c : Config)
    (src : Bytes) : Type 0 where
  pub answers : (cqe : Cqe) (r : Ring) → Q cqe r → InFlight cqe r
  pub handled :
      (cqe : Cqe) (r : Ring) (dst : Bytes) (copied : ℕ)
      → Calm P (serve k c src cqe r dst).0
      → (q : Q cqe r) → Small c.slot_size (answers cqe r q).slot
      → Sure (Calm P) (handle k c cqe (serve k c src cqe r dst).0 copied).0

module _ (P : Option Error → Type 0) (Q : Cqe → Ring → Type 0) (k : Kernel) (law : IsLawful k)
    (will : IsWilling k) (c : Config) (src : Bytes) (chunks : List CopyChunk) (i : ℕ)
    (small_slots : c.slot_size < 2 ^ 31) (deep : 32 ≤ c.sq_depth)
    (kind : IsHandled P Q k c src) where
  handle_all-Calm :
      (cqes : List Cqe) (r : Ring) (sh : Shared)
      → Inv c src chunks i r sh.dst
      → Calm P r
      → EachCqe k c src Q cqes r sh
      → Sure (Calm P) (handle_all k c src cqes r sh).0
  unfolding handle_all
  handle_all-Calm [] r sh v w h = w
  handle_all-Calm (cqe ∷ cqes) r sh v w h =
      let served : Ring = (serve k c src cqe r sh.dst).0 in
      let dst' : Bytes = (serve k c src cqe r sh.dst).1 in
      let f = kind.answers cqe r h.0 in
      let fits = All-elem (Small c.slot_size) r.slots _ f.slot v.small f.found in
      let calm =
        kind.handled cqe r sh.dst sh.copied (served-Calm k c src P cqe r sh.dst w) h.0 fits in
      let step = completed k law c src chunks i small_slots cqe r sh.dst sh.copied v f in
      elim (Result-cases (handle k c cqe served sh.copied).0) [
        | inr (x, e) ↦ absurd (rw e at calm)
        | inl (r', e) ↦
            let sh' : Shared = record {
              dst = dst';
              copied = (handle k c cqe served sh.copied).1;
            } in
            rw (handle_all, e)
              (handle_all-Calm cqes r' sh' (rw e at step.0) (rw e at calm) (h.1 r' e))
      ]

  -- A worker that is told only of such completions does not return early.
  pub advance-Going :
      (cqes : List Cqe) (p : Progress) (sh : Shared)
      → After c src chunks i p sh.dst
      → Going P p
      → EachFor k c src Q cqes p sh
      → Going P (advance k c src cqes p sh).0
  unfolding advance
  advance-Going cqes (finished result) sh v w h = w
  advance-Going cqes (waiting r) sh v w h = elim (Result-cases (handle_all k c src cqes r sh).0) [
    | inr (x, e) ↦ absurd (rw e at (handle_all-Calm cqes r sh v w h))
    | inl (r', e) ↦
        rw (advance, e) (turn-Going k will c deep P r' (rw e at (handle_all-Calm cqes r sh v w h)))
  ]
