-- ===== src/Io/Ring/Work.antt =====
-- How much a worker of src/io/uring.rs has left to do: two operations for a chunk that waits, two for
-- a read in flight and one for a write.
use schelk.Base.{
  ℕ, zero, suc, ◌+◌, ◌*◌, ◌≤◌, ◌<◌, ◌≡◌, refl, ◌∙◌, true, false, Bool, List, [], ◌∷◌, ◌==◌,
  if◌then◌else◌, arith, Bool-cases, inl, inr, some, get_elem?, set, subst, length, Option-cases,
  Result, ok, err,
}
use schelk.Error.{Error}
use schelk.Io.Chunks.{CopyChunk}
use schelk.Io.Ring.UserData.{Phase, free, reading, writing}
use schelk.Io.Ring.{
  Slot, Kernel, Ring, Config, Progress, waiting, finished, is_free, ◌>>=◌, submit_pending,
  queue_read, read_slot, fill, claim_slots, wait, turn, settled,
}
use schelk.Io.Ring.Handling.{initial_ring, start_ring, idle_slots}
use schelk.Io.Ring.Slots.{
  busy, Post, Post-bind, Result-cases, SameWork, submit_pending-SameWork, wait-SameWork,
}

abbrev pub phase_work : Phase → ℕ
phase_work free = 0
phase_work reading = 2
phase_work writing = 1

abbrev pub slots_work : List Slot → ℕ
slots_work [] = 0
slots_work (s ∷ ss) = phase_work s.phase + slots_work ss

abbrev pub work : Ring → ℕ
work r = 2 * length r.todo + slots_work r.slots

busy-le-slots_work : (ss : List Slot) → busy ss ≤ slots_work ss
busy-le-slots_work [] = omega arith
busy-le-slots_work (s ∷ ss) = ground (arith, busy-le-slots_work ss)

pub slots_work-set :
    (ss : List Slot) (id : ℕ) (s s' : Slot)
    → get_elem? ss id ≡ some s
    → slots_work (set ss id s') + phase_work s.phase ≡ slots_work ss + phase_work s'.phase
slots_work-set [] id s s' h = absurd (cc)
slots_work-set (x ∷ ss) zero s s' h = let same : x ≡ s = cc in rw same (omega arith)
slots_work-set (x ∷ ss) (suc id) s s' h = omega (arith, slots_work-set ss id s s' h)

module _ (k : Kernel) (c : Config) where
  fill-work :
      (ss : List Slot) (todo : List CopyChunk) (r : Ring) (submitted : Bool)
      → Post
          (λ (ss', todo', r', sub').
            2 * length todo' + slots_work ss' ≡ 2 * length todo + slots_work ss)
          (fill k c ss todo r submitted)
  unfolding fill read_slot
  fill-work [] todo r submitted = refl
  fill-work (s ∷ ss) [] r submitted = refl
  fill-work (s ∷ ss) (chunk ∷ todo) r submitted = elim (Bool-cases (is_free s.phase)) [
    | inl e ↦
        rw (e, fill)
          (Post-bind (λ _. Unit {0}) _ (queue_read k c r) _ (anything (queue_read k c r))
            λ r1 w.
              Post-bind _ _ (fill k c ss todo r1 true) _ (fill-work ss todo r1 true)
                λ (ss', todo', r', sub') h. ground (arith, h))
    | inr e ↦
        rw (e, fill)
          (Post-bind _ _ (fill k c ss (chunk ∷ todo) r submitted) _
            (fill-work ss (chunk ∷ todo) r submitted) λ (ss', todo', r', sub') h. omega (arith, h))
  ]
    where
      anything : {A : Type 0} (m : Result Error A) → Post (λ _. Unit {0}) m
      anything (ok a) = tt
      anything (err e) = tt

  -- At a wait: so much is left at most, and something is in flight.
  abbrev pub Within : ℕ → Progress → Type 0
  Within b (waiting r) = (work r ≤ b) × (0 < r.in_flight)
  Within b (finished result) = Unit {0}

  SameWork-work : (r r' : Ring) → SameWork r r' → work r' ≡ work r
  SameWork-work r r' w = rw (w.same_todo, w.same_slots) refl

  submit_pending-work :
      (r : Ring)
      → Post (λ r'. (work r' ≡ work r) × (r'.in_flight ≡ r.in_flight)) (submit_pending k c r)
  submit_pending-work r = elim (Result-cases (submit_pending k c r)) [
    | inl (r', e) ↦
        let w = rw e at (submit_pending-SameWork k c r) in rw e (SameWork-work r r' w.0, w.1)
    | inr (x, e) ↦ rw e tt
  ]

  wait-work :
      (r : Ring) → Post (λ r'. (work r' ≡ work r) × (r'.in_flight ≡ r.in_flight)) (wait k c r)
  wait-work r = elim (Result-cases (wait k c r)) [
    | inl (r', e) ↦ let w = rw e at (wait-SameWork k c r) in rw e (SameWork-work r r' w.0, w.1)
    | inr (x, e) ↦ rw e tt
  ]

  if_submitted-work :
      (submitted : Bool) (r : Ring) (b : ℕ)
      → work r ≡ b
      → Post (λ r'. work r' ≡ b) (if submitted then submit_pending k c r else ok r)
  if_submitted-work true r b h = elim (Result-cases (submit_pending k c r)) [
    | inl (r', e) ↦ let w = rw e at (submit_pending-work r) in rw e (w.0 ∙ h)
    | inr (x, e) ↦ rw e tt
  ]
  if_submitted-work false r b h = h

  claim_slots-work : (r : Ring) → Post (λ r'. work r' ≡ work r) (claim_slots k c r)
  unfolding claim_slots
  claim_slots-work r = elim (Option-cases r.first_error) [
    | inl e ↦
        rw (e, claim_slots)
          (Post-bind _ _ (fill k c r.slots r.todo r false) _ (fill-work r.slots r.todo r false)
            λ (ss', todo', r', submitted) h.
              if_submitted-work submitted (record r' { slots = ss'; todo = todo' }) (work r) h)
    | inr (x, e) ↦ rw (e, claim_slots) refl
  ]

  settled-Within :
      (m : Result Error Ring) (b : ℕ)
      → Post (λ r. (work r ≤ b) × (0 < r.in_flight)) m
      → Within b (settled k c m)
  settled-Within (ok r) b h = h
  settled-Within (err e) b h = tt

  pub turn-Within : (r : Ring) → Within (work r) (turn k c r)
  unfolding turn
  turn-Within r = elim (Result-cases (claim_slots k c r)) [
    | inr (x, e) ↦ rw (e, turn) tt
    | inl (r', e) ↦
        let same : work r' ≡ work r = rw e at (claim_slots-work r) in
        elim (Bool-cases (r'.in_flight == 0)) [
          | inl z ↦ rw (e, turn) (rw z tt)
          | inr b ↦
              rw (e, turn)
                (rw b (
                  settled-Within (submit_pending k c r' >>= wait k c) (work r) (
                    Post-bind (λ r2. (work r2 ≡ work r') × (r2.in_flight ≡ r'.in_flight)) _
                      (submit_pending k c r') (wait k c) (submit_pending-work r')
                      λ r2 h2. later r' r2 (work r) same b h2 (wait k c r2) (wait-work r2))))
        ]
  ]
    where
      later :
          (r' r2 : Ring) (b : ℕ)
          → work r' ≡ b
          → (r'.in_flight == 0) ≡ false
          → (work r2 ≡ work r') × (r2.in_flight ≡ r'.in_flight)
          → (m : Result Error Ring)
          → Post (λ r3. (work r3 ≡ work r2) × (r3.in_flight ≡ r2.in_flight)) m
          → Post (λ r3. (work r3 ≤ b) × (0 < r3.in_flight)) m
      later r' r2 b same z h (ok r3) q = (omega (arith, same, h.0, q.0), ground (arith, h.1, q.1))
      later r' r2 b same z h (err e) q = tt

pub start_ring-Within :
    (k : Kernel) (c : Config) (chunks : List CopyChunk)
    → Within k c (2 * length chunks) (start_ring k c chunks)
unfolding start_ring initial_ring
start_ring-Within k c [] = tt
start_ring-Within k c (chunk ∷ chunks) = elim (Bool-cases k.sets_up) [
  | inr e ↦ rw (start_ring, e) tt
  | inl e ↦
      rw (start_ring, e)
        (subst (λ n. Within k c n (turn k c (initial_ring c (chunk ∷ chunks))))
          (idle_work c.slots_per_ring) (turn-Within k c (initial_ring c (chunk ∷ chunks))))
]
  where
    idle : (n : ℕ) → slots_work (idle_slots n) ≡ 0
    idle zero = refl
    idle (suc n) = omega (arith, idle n)

    idle_work :
        (n : ℕ)
        → 2 * length (chunk ∷ chunks) + slots_work (idle_slots n) ≡ 2 * length (chunk ∷ chunks)
    idle_work n = omega (arith, idle n)

-- A worker in which something is in flight has something left to do.
pub waits_for_work : (r : Ring) → r.in_flight ≡ busy r.slots → 0 < r.in_flight → 0 < work r
waits_for_work r e h = omega (arith, e, h, busy-le-slots_work r.slots)
