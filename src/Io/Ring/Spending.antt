-- ===== src/Io/Ring/Spending.antt =====
-- The work that is left to a worker of src/io/uring.rs, from completion to completion.
use schelk.Base.{
  ℕ, suc, ◌+◌, ◌-◌, ◌≤◌, ◌≡◌, ◌≢◌, refl, List, [], ◌∷◌, arith, Bool-cases, inl, inr, some,
  get_elem?, set, length, Option-cases, Result, ok, err, ℤ, is_negative, int_beq, as_i32, ◌/◌, ◌%◌,
  ◌^◌,
}
use schelk.Error.{Error, io_failed}
use schelk.Io.Ring.UserData.{Phase, free, reading, writing, decode_user_data, number_phase}
use schelk.Io.Ring.{
  Bytes, Slot, Cqe, Kernel, Ring, Shared, Config, Progress, waiting, finished, turn,
}
use schelk.Io.Ring.Handling.{
  queue_write, handle_phase, handle, serve, serve_phase, handle_all, advance, free_slot, fail_slot,
}
use schelk.Io.Ring.Slots.{Post, Result-cases, queue_write-slots}
use schelk.Io.Ring.Completion.{InFlight}
use schelk.Io.Ring.Batch.{HonestBatch, HonestFor}
use schelk.Io.Ring.Work.{work, phase_work, slots_work-set, Within, turn-Within}

module _ (k : Kernel) (c : Config) where
  -- What a completion leaves to do.
  abbrev Less : ℕ → Result Error Ring → Type 0
  Less b m = Post (λ r'. work r' + 1 ≤ b) m

  freed-Less :
      (r r' : Ring) (id : ℕ) (s s' : Slot)
      → get_elem? r.slots id ≡ some s
      → r'.todo ≡ r.todo
      → r'.slots ≡ set r.slots id s'
      → phase_work s'.phase + 1 ≤ phase_work s.phase
      → work r' + 1 ≤ work r
  freed-Less r r' id s s' at t ss h =
      rw (t, ss) (omega (arith, slots_work-set r.slots id s s' at, h))

  handle_phase-Less :
      (p : Phase) (id : ℕ) (s : Slot) (result : ℤ) (r : Ring) (copied : ℕ)
      → get_elem? r.slots id ≡ some s
      → s.phase ≡ p
      → p ≢ free
      → Less (work r) (handle_phase k c p id s result r copied).0
  unfolding handle_phase
  handle_phase-Less free id s result r copied at q ne = absurd (ne refl)
  handle_phase-Less writing id s result r copied at q ne =
      elim (Bool-cases (int_beq result (as_i32 s.len))) [
        | inl e ↦
            rw (handle_phase, e)
              (freed-Less r (free_slot k c id s r) id s (record s { phase = free }) at refl refl
                (rw q (omega arith)))
        | inr e ↦
            rw (handle_phase, e)
              (freed-Less r (free_slot k c id s r) id s (record s { phase = free }) at refl refl
                (rw q (omega arith)))
      ]
  handle_phase-Less reading id s result r copied at q ne =
      elim (Bool-cases (int_beq result (as_i32 s.len))) [
        | inr e ↦
            rw (handle_phase, e)
              (freed-Less r (free_slot k c id s r) id s (record s { phase = free }) at refl refl
                (rw q (omega arith)))
        | inl e ↦
            rw (handle_phase, e)
              (elim (Result-cases (queue_write k c id s r)) [
                | inl (r', f) ↦
                    let w = rw f at (queue_write-slots k c id s r) in
                    rw f (
                      freed-Less r r' id s (record s { phase = writing }) at w.0 w.1
                        (rw q (omega arith)))
                | inr (x, f) ↦ rw f tt
              ])
      ]

  handle-Less :
      (cqe : Cqe) (r : Ring) (copied : ℕ)
      → InFlight cqe r
      → Less (work r) (handle k c cqe r copied).0
  unfolding handle decode_user_data
  handle-Less cqe r copied f = elim (Bool-cases (is_negative cqe.result)) [
    | inl neg ↦
        rw (handle, f.found, neg)
          (freed-Less r (fail_slot k c (cqe.user_data % 2 ^ 32) f.slot (io_failed f.slot.offset) r)
            (cqe.user_data % 2 ^ 32) f.slot (record f.slot { phase = free }) f.found refl refl
            (busy_phase f.slot.phase (number_phase (cqe.user_data / 2 ^ 32)) f.in_phase f.not_free))
    | inr nonneg ↦
        rw (handle, f.found, nonneg)
          (handle_phase-Less (number_phase (cqe.user_data / 2 ^ 32)) (cqe.user_data % 2 ^ 32) f.slot
            cqe.result r copied f.found f.in_phase f.not_free)
  ]
    where
      busy_phase : (p q : Phase) → p ≡ q → q ≢ free → 1 ≤ phase_work p
      busy_phase free q e ne = absurd (let e' = e in ne (cc))
      busy_phase reading q e ne = omega arith
      busy_phase writing q e ne = omega arith

module _ (k : Kernel) (c : Config) (src : Bytes) where
  -- The kernel changes buffers, not the table.
  pub serve-slots :
      (cqe : Cqe) (r : Ring) (dst : Bytes)
      → let served = (serve k c src cqe r dst).0 in
        (served.slots ≡ r.slots) × (served.todo ≡ r.todo)
  unfolding serve serve_phase decode_user_data
  serve-slots cqe r dst = elim (Option-cases (get_elem? r.slots (cqe.user_data % 2 ^ 32))) [
    | inl e ↦ rw (serve, e) (refl, refl)
    | inr (s, e) ↦ rw (serve, e) (by_phase s.phase s)
  ]
    where
      by_phase :
          (p : Phase) (s : Slot)
          → let served = (serve_phase k c src p (cqe.user_data % 2 ^ 32) s cqe.result r dst).0 in
            (served.slots ≡ r.slots) × (served.todo ≡ r.todo)
      by_phase free s = (refl, refl)
      by_phase reading s = (refl, refl)
      by_phase writing s = (refl, refl)

  served-InFlight :
      (cqe : Cqe) (r : Ring) (dst : Bytes)
      → InFlight cqe r
      → InFlight cqe (serve k c src cqe r dst).0
  served-InFlight cqe r dst f = record {
    slot = f.slot;
    found = rw (serve-slots cqe r dst).0 f.found;
    in_phase = f.in_phase;
    not_free = f.not_free;
  }

  handle_all-work :
      (cqes : List Cqe) (r : Ring) (sh : Shared)
      → HonestBatch k c src cqes r sh
      → Post (λ r'. work r' + length cqes ≤ work r) (handle_all k c src cqes r sh).0
  unfolding handle_all
  handle_all-work [] r sh h = omega arith
  handle_all-work (cqe ∷ cqes) r sh h =
      let served : Ring = (serve k c src cqe r sh.dst).0 in
      let kept = serve-slots cqe r sh.dst in
      let less = handle-Less k c cqe served sh.copied (served-InFlight cqe r sh.dst h.0) in
      elim (Result-cases (handle k c cqe served sh.copied).0) [
        | inr (x, e) ↦ rw (handle_all, e) tt
        | inl (r', e) ↦
            let sh' : Shared = record {
              dst = (serve k c src cqe r sh.dst).1;
              copied = (handle k c cqe served sh.copied).1;
            } in
            let step : work r' + 1 ≤ work served = rw e at less in
            let same : work served ≡ work r = rw (kept.0, kept.1) refl in
            rw (handle_all, e)
              (sum_up (work r) (work served) (work r') (length cqes)
                (handle_all k c src cqes r' sh').0 same step
                (handle_all-work cqes r' sh' (h.1 r' e)))
      ]
    where
      sum_up :
          (a b d n : ℕ) (m : Result Error Ring)
          → b ≡ a
          → d + 1 ≤ b
          → Post (λ r'. work r' + n ≤ d) m
          → Post (λ r'. work r' + suc n ≤ a) m
      sum_up a b d n (ok r) p q h = omega (arith, p, q, h)
      sum_up a b d n (err e) p q h = tt

  -- A batch of completions of operations in flight takes as much away as it is long: a worker that
  -- still waits after it has so much less to do.
  pub advance-Within :
      (cqes : List Cqe) (p : Progress) (sh : Shared) (b : ℕ)
      → Within k c b p
      → HonestFor k c src cqes p sh
      → Within k c (b - length cqes) (advance k c src cqes p sh).0
  unfolding advance
  advance-Within cqes (finished result) sh b v h = tt
  advance-Within cqes (waiting r) sh b v h = elim (Result-cases (handle_all k c src cqes r sh).0) [
    | inr (x, e) ↦ rw (advance, e) tt
    | inl (r', e) ↦
        let less : work r' + length cqes ≤ work r = rw e at (handle_all-work cqes r sh h) in
        rw (advance, e)
          (relax (turn k c r') (work r') (b - length cqes) (omega (arith, less, v.0))
            (turn-Within k c r'))
  ]
    where
      relax : (p : Progress) (a b : ℕ) → a ≤ b → Within k c a p → Within k c b p
      relax (waiting r) a b h v = (omega (arith, h, v.0), v.1)
      relax (finished result) a b h v = tt
