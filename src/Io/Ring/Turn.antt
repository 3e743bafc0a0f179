-- ===== src/Io/Ring/Turn.antt =====
-- The round of `run_ring` in src/io/uring.rs from the top of the loop to the wait.
use schelk.Base.{
  ℕ, ◌<◌, ◌≡◌, ap, Bool, true, false, List, [], ◌==◌, if◌then◌else◌, arith, Bool-cases, ◌⊎◌, inl,
  inr, none, length, Option-cases, Result, ok, err,
}
use schelk.Error.{Error}
use schelk.Io.Chunks.{CopyChunk}
use schelk.Io.Ring.{
  Bytes, Slot, Kernel, Ring, Config, finished, ◌>>=◌, submit_pending, fill, claim_slots, wait, turn,
  ended, settled,
}
use schelk.Io.Ring.Slots.{
  busy, Post, Result-cases, Post-bind, SameWork, submit_pending-SameWork, wait-SameWork,
  not-held_of_idle,
}
use schelk.Io.Ring.Slots.Filling.{Filled, fill-Filled}
use schelk.Io.Ring.Invariant.{Inv, After, Filled-Inv, SameWork-Inv}

module _ (k : Kernel) (c : Config) (src : Bytes) (chunks : List CopyChunk) (i : ℕ) where
  Claimed : Ring → Bytes → Type 0
  Claimed r dst =
      Inv c src chunks i r dst × (r.first_error ≡ none → (r.todo ≡ []) ⊎ (0 < busy r.slots))

  SameWork-Claimed :
      (r r' : Ring) (dst : Bytes)
      → Claimed r dst
      → SameWork r r'
      → r'.in_flight ≡ r.in_flight
      → Claimed r' dst
  unfolding Claimed
  SameWork-Claimed r r' dst (v, p) w n = (
    SameWork-Inv k c src chunks i r r' dst v w n,
    λ h. rw (w.same_todo, w.same_slots) (p (rw (← w.same_error) h)),
  )

  submit_pending-Claimed :
      (r : Ring) (dst : Bytes) → Claimed r dst → Post (λ r'. Claimed r' dst) (submit_pending k c r)
  submit_pending-Claimed r dst v = elim (Result-cases (submit_pending k c r)) [
    | inl (r', e) ↦
        let w = rw e at (submit_pending-SameWork k c r) in
        rw e (SameWork-Claimed r r' dst v w.0 w.1)
    | inr (x, e) ↦ rw e tt
  ]

  if_submitted :
      (submitted : Bool) (r : Ring) (dst : Bytes)
      → Claimed r dst
      → Post (λ r'. Claimed r' dst) (if submitted then submit_pending k c r else ok r)
  if_submitted true r dst v = submit_pending-Claimed r dst v
  if_submitted false r dst v = v

  Filled-Claimed :
      (r r' : Ring) (dst : Bytes) (ss' : List Slot) (todo' : List CopyChunk)
      → Inv c src chunks i r dst
      → Filled c.slot_size r.slots r.todo r ss' todo' r'
      → Claimed (record r' { slots = ss'; todo = todo' }) dst
  unfolding Claimed
  Filled-Claimed r r' dst ss' todo' v f = (
    Filled-Inv k c src chunks i r r' dst ss' todo' v f,
    λ h. elim f.progress [
      | inl e ↦ inl e
      | inr (inl b) ↦ inr b
      | inr (inr e) ↦ absurd (omega (arith, v.some_slots, ap length e))
    ],
  )

  claim_slots-Claimed :
      (r : Ring) (dst : Bytes)
      → Inv c src chunks i r dst
      → Post (λ r'. Claimed r' dst) (claim_slots k c r)
  unfolding claim_slots Claimed
  claim_slots-Claimed r dst v = elim (Option-cases r.first_error) [
    | inl e ↦
        rw (e, claim_slots)
          (Post-bind _ _ (fill k c r.slots r.todo r false) _
            (fill-Filled k c r.slots r.todo r false v.fits v.small)
            λ (ss', todo', r', submitted) f.
              if_submitted submitted (record r' { slots = ss'; todo = todo' }) dst
                (Filled-Claimed r r' dst ss' todo' v f))
    | inr (x, e) ↦ rw (e, claim_slots) (v, λ h. absurd (cc))
  ]

  ended-After :
      (r : Ring) (dst : Bytes)
      → Claimed r dst
      → (r.in_flight == 0) ≡ true
      → After c src chunks i (finished (ended k c r.first_error)) dst
  unfolding Claimed
  ended-After r dst (v, p) z = elim (Option-cases r.first_error) [
    | inl e ↦
        rw e λ inside. ground (arith, v.counted, v.placed e inside, p e, not-held_of_idle r.slots i)
    | inr (x, e) ↦ rw e tt
  ]

  wait-Inv :
      (r : Ring) (dst : Bytes)
      → Inv c src chunks i r dst
      → Post (λ r'. Inv c src chunks i r' dst) (wait k c r)
  wait-Inv r dst v = elim (Result-cases (wait k c r)) [
    | inl (r', e) ↦
        let w = rw e at (wait-SameWork k c r) in
        rw e (SameWork-Inv k c src chunks i r r' dst v w.0 w.1)
    | inr (x, e) ↦ rw e tt
  ]

  Post-settled :
      (m : Result Error Ring) (dst : Bytes)
      → Post (λ r'. Inv c src chunks i r' dst) m
      → After c src chunks i (settled k c m) dst
  Post-settled (ok r) dst h = h
  Post-settled (err e) dst h = tt

  settled-After :
      (r : Ring) (dst : Bytes)
      → Claimed r dst
      → After c src chunks i (settled k c (submit_pending k c r >>= wait k c)) dst
  unfolding Claimed
  settled-After r dst v = Post-settled (submit_pending k c r >>= wait k c) dst (
      Post-bind (λ r'. Claimed r' dst) (λ r'. Inv c src chunks i r' dst) (submit_pending k c r)
        (wait k c) (submit_pending-Claimed r dst v) λ r' w. wait-Inv r' dst w.0)

  -- The round keeps the invariant.
  pub turn-After :
      (r : Ring) (dst : Bytes) → Inv c src chunks i r dst → After c src chunks i (turn k c r) dst
  unfolding turn
  turn-After r dst v = elim (Result-cases (claim_slots k c r)) [
    | inl (r', e) ↦
        let w : Claimed r' dst = rw e at (claim_slots-Claimed r dst v) in
        elim (Bool-cases (r'.in_flight == 0)) [
          | inl z ↦ rw (e, turn) (rw z (ended-After r' dst w z))
          | inr b ↦ rw (e, turn) (rw b (settled-After r' dst w))
        ]
    | inr (x, e) ↦ rw (e, turn) tt
  ]
