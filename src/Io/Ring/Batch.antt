-- ===== src/Io/Ring/Batch.antt =====
-- Whole batches, and the start of a worker.
use schelk.Base.{
  ℕ, zero, suc, ◌<◌, ◌≡◌, refl, sym, ap, ◌∙◌, List, [], ◌∷◌, arith, All, Bool-cases, inl, inr, some,
  length, get_elem?, ◌^◌, ok, err,
}
use schelk.Io.Chunks.{CopyChunk}
use schelk.Io.Ring.UserData.{free}
use schelk.Io.Ring.{
  Bytes, Slot, Cqe, Kernel, Ring, Shared, Config, Progress, waiting, finished, IsLawful,
}
use schelk.Io.Ring.Handling.{
  handle, serve, handle_all, advance, initial_ring, start_ring, idle_slots,
}
use schelk.Io.Ring.Slots.{busy, Post, Result-cases, not-held_of_idle, Small, FitsSlot}
use schelk.Io.Ring.Invariant.{Inv, After}
use schelk.Io.Ring.Turn.{turn-After}
use schelk.Io.Ring.Completion.{InFlight, Towards}
use schelk.Io.Ring.Completion.Writes.{completed}

pub Towards-trans :
    (src : Bytes) (chunks : List CopyChunk) (i : ℕ) (a b d : Bytes)
    → Towards src chunks i a b
    → Towards src chunks i b d
    → Towards src chunks i a d
Towards-trans src chunks i a b d (inl e) (inl h) = inl (h ∙ e)
Towards-trans src chunks i a b d (inr e) (inl h) = inr (h ∙ e.0, e.1)
Towards-trans src chunks i a b d p (inr h) = inr h

module _ (k : Kernel) (c : Config) (src : Bytes) where
  -- What holds of each completion of the batch and the worker when it is handled.
  abbrev pub EachCqe : (Cqe → Ring → Type 0) → List Cqe → Ring → Shared → Type 0
  EachCqe P [] r sh = Unit {0}
  EachCqe P (cqe ∷ cqes) r sh =
      let (served, dst) = serve k c src cqe r sh.dst in
      let (result, copied) = handle k c cqe served sh.copied in
      P cqe r
      × ((r' : Ring) → result ≡ ok r' → EachCqe P cqes r' (record { dst = dst; copied = copied }))

  -- Each completion of the batch answers an operation that is in flight when it is handled.
  abbrev pub HonestBatch : List Cqe → Ring → Shared → Type 0
  HonestBatch = EachCqe InFlight

  abbrev pub EachFor : (Cqe → Ring → Type 0) → List Cqe → Progress → Shared → Type 0
  EachFor P cqes (waiting r) sh = EachCqe P cqes r sh
  EachFor P cqes (finished result) sh = Unit {0}

  abbrev pub HonestFor : List Cqe → Progress → Shared → Type 0
  HonestFor = EachFor InFlight

module _ (k : Kernel) (law : IsLawful k) (c : Config) (src : Bytes) (chunks : List CopyChunk)
    (i : ℕ) (small_slots : c.slot_size < 2 ^ 31) where
  handle_all-Inv :
      (cqes : List Cqe) (r : Ring) (sh : Shared)
      → Inv c src chunks i r sh.dst
      → HonestBatch k c src cqes r sh
      → let (result, sh') = handle_all k c src cqes r sh in
        Post (λ r'. Inv c src chunks i r' sh'.dst) result × Towards src chunks i sh.dst sh'.dst
  unfolding handle_all
  handle_all-Inv [] r sh v h = (v, inl refl)
  handle_all-Inv (cqe ∷ cqes) r sh v h =
      let served : Ring = (serve k c src cqe r sh.dst).0 in
      let dst' : Bytes = (serve k c src cqe r sh.dst).1 in
      let step = completed k law c src chunks i small_slots cqe r sh.dst sh.copied v h.0 in
      elim (Result-cases (handle k c cqe served sh.copied).0) [
        | inl (r', e) ↦
            let sh' : Shared = record {
              dst = dst';
              copied = (handle k c cqe served sh.copied).1;
            } in
            let rest = handle_all-Inv cqes r' sh' (rw e at step.0) (h.1 r' e) in
            rw (handle_all, e)
              (
                rest.0,
                Towards-trans src chunks i sh.dst dst' (handle_all k c src cqes r' sh').1.dst step.1
                    rest.1,
              )
        | inr (x, e) ↦ rw (handle_all, e) (tt, step.1)
      ]

  -- A batch for a worker keeps its invariant, and takes the destination towards the source.
  pub advance-After :
      (cqes : List Cqe) (p : Progress) (sh : Shared)
      → After c src chunks i p sh.dst
      → HonestFor k c src cqes p sh
      → let (p', sh') = advance k c src cqes p sh in
        After c src chunks i p' sh'.dst × Towards src chunks i sh.dst sh'.dst
  unfolding advance
  advance-After cqes (finished result) sh v h = (v, inl refl)
  advance-After cqes (waiting r) sh v h =
      let step = handle_all-Inv cqes r sh v h in
      elim (Result-cases (handle_all k c src cqes r sh).0) [
        | inl (r', e) ↦
            let sh' : Shared = (handle_all k c src cqes r sh).1 in
            rw (advance, e) (turn-After k c src chunks i r' sh'.dst (rw e at step.0), step.1)
        | inr (x, e) ↦ rw (advance, e) (tt, step.1)
      ]

module _ (k : Kernel) (c : Config) (src : Bytes) (chunks : List CopyChunk) (i : ℕ) where
  -- Writes of other workers do no harm.
  pub After-mono :
      (p : Progress) (dst dst' : Bytes)
      → After c src chunks i p dst
      → (dst i ≡ src i → dst' i ≡ src i)
      → After c src chunks i p dst'
  After-mono (waiting r) dst dst' v mono = record {
    counted = v.counted;
    some_slots = v.some_slots;
    fits = v.fits;
    small = v.small;
    buffered = v.buffered;
    placed = λ h inside. ground (arith, v.placed h inside, mono);
    inside = v.inside;
  }
  After-mono (finished (ok _)) dst dst' v mono = λ inside. mono (v inside)
  After-mono (finished (err _)) dst dst' v mono = tt

busy-idle_slots : (n : ℕ) → busy (idle_slots n) ≡ 0
busy-idle_slots zero = refl
busy-idle_slots (suc n) = omega (arith, busy-idle_slots n)

length-idle_slots : (n : ℕ) → length (idle_slots n) ≡ n
length-idle_slots zero = refl
length-idle_slots (suc n) = ap suc (length-idle_slots n)

Small-idle_slots : (size n : ℕ) → All (Small size) (idle_slots n)
Small-idle_slots size zero = tt
Small-idle_slots size (suc n) = (omega arith, Small-idle_slots size n)

idle_slots-free : (n id : ℕ) (s : Slot) → get_elem? (idle_slots n) id ≡ some s → s.phase ≡ free
idle_slots-free zero id s e = absurd (cc)
idle_slots-free (suc n) zero s e = ground arith
idle_slots-free (suc n) (suc id) s e = idle_slots-free n id s e

module _ (k : Kernel) (c : Config) (src : Bytes) (i : ℕ) (has_slots : 0 < c.slots_per_ring) where
  initial_ring-Inv :
      (chunks : List CopyChunk) (dst : Bytes)
      → All (FitsSlot c.slot_size) chunks
      → Inv c src chunks i (initial_ring c chunks) dst
  unfolding initial_ring
  initial_ring-Inv chunks dst f = record {
    counted = sym (busy-idle_slots c.slots_per_ring);
    some_slots = rw (length-idle_slots c.slots_per_ring) has_slots;
    fits = f;
    small = Small-idle_slots c.slot_size c.slots_per_ring;
    buffered = λ id j s e w. absurd (let f = idle_slots-free c.slots_per_ring id s e in cc);
    placed = λ _ inside. inl inside;
    inside = λ h. ground (
      arith,
      not-held_of_idle (idle_slots c.slots_per_ring) i (busy-idle_slots c.slots_per_ring),
    );
  }

  -- A worker starts with its invariant.
  pub start_ring-After :
      (chunks : List CopyChunk) (dst : Bytes)
      → All (FitsSlot c.slot_size) chunks
      → After c src chunks i (start_ring k c chunks) dst
  unfolding start_ring
  start_ring-After [] dst f = λ inside. absurd (cc)
  start_ring-After (chunk ∷ chunks) dst f = elim (Bool-cases k.sets_up) [
    | inl e ↦
        rw (start_ring, e)
          (turn-After k c src (chunk ∷ chunks) i (initial_ring c (chunk ∷ chunks)) dst
            (initial_ring-Inv (chunk ∷ chunks) dst f))
    | inr e ↦ rw (start_ring, e) tt
  ]
