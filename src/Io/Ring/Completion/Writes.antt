-- ===== src/Io/Ring/Completion/Writes.antt =====
-- A completion of `run_ring` in src/io/uring.rs: a write, and any.
use schelk.Base.{
  ℕ, ◌+◌, ◌-◌, ◌/◌, ◌%◌, ◌<◌, ◌≡◌, refl, sym, ap, ◌∙◌, true, List, arith, Bool-cases, inl, inr,
  some, get_elem?, subst, ◌^◌, All-elem, ℤ, pos, is_negative, int_beq, as_i32,
}
use schelk.Error.{short_write, io_failed}
use schelk.Io.Chunks.{CopyChunk}
use schelk.Io.Ring.UserData.{reading, writing, decode_user_data, number_phase}
use schelk.Io.Ring.{Bytes, Slot, Cqe, Kernel, Ring, Config, IsLawful}
use schelk.Io.Ring.Handling.{free_slot, handle_phase, handle, serve, serve_phase}
use schelk.Io.Ring.Slots.{holds, Post, held_of_elem, Small}
use schelk.Io.Ring.Invariant.{Inv}
use schelk.Io.Ring.Completion.{
  int_beq-eq, InFlight, Towards, Towards-mono, Phase-cases, retired, failed, in_range, read_bufs,
  read_bufs_other, read_done,
}

module _ (k : Kernel) (law : IsLawful k) (c : Config) (src : Bytes) (chunks : List CopyChunk)
    (i : ℕ) (small_slots : c.slot_size < 2 ^ 31) where
  -- The destination after a write of slot `id`.
  abbrev written : ℕ → Slot → ℤ → Ring → Bytes → Bytes
  written id s result r dst = k.write_at (r.bufs id) s.offset (s.len % 2 ^ 32) result dst

  written-eq :
      (r : Ring) (dst : Bytes) (id : ℕ) (s : Slot) (result : ℤ)
      → Small c.slot_size s
      → written id s result r dst ≡ k.write_at (r.bufs id) s.offset s.len result dst
  written-eq r dst id s result m =
      ap (λ n. k.write_at (r.bufs id) s.offset n result dst)
        (in_range k law c src chunks i small_slots s m).0

  written-Towards :
      (r : Ring) (dst : Bytes) (id : ℕ) (s : Slot) (result : ℤ)
      → Inv c src chunks i r dst
      → get_elem? r.slots id ≡ some s
      → s.phase ≡ writing
      → Towards src chunks i dst (written id s result r dst)
  written-Towards r dst id s result v at p =
      let m = All-elem (Small c.slot_size) r.slots id s v.small at in
      subst (λ (d : Bytes). Towards src chunks i dst d) (sym (written-eq r dst id s result m))
        (elim (law.write_mixed (r.bufs id) s.offset s.len i result dst) [
          | inl e ↦ inl e
          | inr (j, lt, at_i, e) ↦ inr (
            e ∙ v.buffered id j s at p lt (sym at_i),
            v.inside (
                let q : holds s i ≡ true = rw p (ground arith) in
                ground (arith, held_of_elem r.slots id i s at q)),
          )
        ])

  written_here :
      (r : Ring) (dst : Bytes) (id : ℕ) (s : Slot) (result : ℤ)
      → Inv c src chunks i r dst
      → get_elem? r.slots id ≡ some s
      → s.phase ≡ writing
      → int_beq result (as_i32 s.len) ≡ true
      → holds s i ≡ true
      → written id s result r dst i ≡ src i
  written_here r dst id s result v at p full h =
      let m = All-elem (Small c.slot_size) r.slots id s v.small at in
      let (len, word) = in_range k law c src chunks i small_slots s m in
      let all : result ≡ pos s.len = int_beq-eq result (as_i32 s.len) full ∙ word in
      let j : ℕ = i - s.offset in
      let lt : j < s.len = ground arith in
      let at_i : s.offset + j ≡ i = ground arith in
      let stored = law.write_full (r.bufs id) s.offset s.len j dst lt in
      let whole : k.write_at (r.bufs id) s.offset s.len result dst i ≡ src i =
        rw all ((rw at_i at stored) ∙ v.buffered id j s at p lt at_i) in
      ap (λ (d : Bytes). d i) (written-eq r dst id s result m) ∙ whole

  write_done :
      (r : Ring) (dst : Bytes) (copied id : ℕ) (s : Slot) (result : ℤ)
      → Inv c src chunks i r dst
      → get_elem? r.slots id ≡ some s
      → s.phase ≡ writing
      → (dst i ≡ src i → written id s result r dst i ≡ src i)
      → Post
          (λ r'. Inv c src chunks i r' (written id s result r dst))
          (handle_phase k c writing id s result r copied).0
  unfolding handle_phase
  write_done r dst copied id s result v at p mono =
      let dst' : Bytes = written id s result r dst in
      elim (Bool-cases (int_beq result (as_i32 s.len))) [
        | inl full ↦
            rw (handle_phase, full)
              (retired k law c src chunks i small_slots r (free_slot k c id s r) dst dst' id s v at
                (rw p) refl refl refl (λ j ne. refl)
                (λ h. (h, λ q. written_here r dst id s result v at p full q)) mono)
        | inr short ↦
            rw (handle_phase, short)
              (failed k law c src chunks i small_slots r dst dst' id s (short_write s.offset result)
                r.bufs v at (rw p) (λ j ne. refl) mono)
      ]

  reading_completed :
      (cqe : Cqe) (s : Slot) (r : Ring) (dst : Bytes) (copied : ℕ)
      → Inv c src chunks i r dst
      → get_elem? r.slots (cqe.user_data % 2 ^ 32) ≡ some s
      → s.phase ≡ reading
      → number_phase (cqe.user_data / 2 ^ 32) ≡ reading
      → let (served, dst') = serve k c src cqe r dst in
        Post (λ r'. Inv c src chunks i r' dst') (handle k c cqe served copied).0
        × Towards src chunks i dst dst'
  unfolding serve handle
  reading_completed cqe s r dst copied v at p q =
      let id : ℕ = cqe.user_data % 2 ^ 32 in
      rw (serve, at, p, serve_phase)
        (elim (Bool-cases (is_negative cqe.result)) [
          | inl neg ↦ (
            rw (handle, at, neg)
                (failed k law c src chunks i small_slots r dst dst id s (io_failed s.offset)
                  (read_bufs k law c src chunks i small_slots id s cqe.result r) v at (rw p)
                  (read_bufs_other k law c src chunks i small_slots id s cqe.result r) (λ h. h)),
            inl refl,
          )
          | inr nonneg ↦ (
            rw (handle, at, nonneg, q)
                (read_done k law c src chunks i small_slots r dst copied id s cqe.result v at p),
            inl refl,
          )
        ])

  writing_completed :
      (cqe : Cqe) (s : Slot) (r : Ring) (dst : Bytes) (copied : ℕ)
      → Inv c src chunks i r dst
      → get_elem? r.slots (cqe.user_data % 2 ^ 32) ≡ some s
      → s.phase ≡ writing
      → number_phase (cqe.user_data / 2 ^ 32) ≡ writing
      → let (served, dst') = serve k c src cqe r dst in
        Post (λ r'. Inv c src chunks i r' dst') (handle k c cqe served copied).0
        × Towards src chunks i dst dst'
  unfolding serve handle
  writing_completed cqe s r dst copied v at p q =
      let id : ℕ = cqe.user_data % 2 ^ 32 in
      let step = written-Towards r dst id s cqe.result v at p in
      let mono = Towards-mono src chunks i dst (written id s cqe.result r dst) step in
      rw (serve, at, p, serve_phase)
        (elim (Bool-cases (is_negative cqe.result)) [
          | inl neg ↦ (
            rw (handle, at, neg)
                (failed k law c src chunks i small_slots r dst (written id s cqe.result r dst) id s
                  (io_failed s.offset) r.bufs v at (rw p) (λ j ne. refl) mono),
            step,
          )
          | inr nonneg ↦ (
            rw (handle, at, nonneg, q) (write_done r dst copied id s cqe.result v at p mono),
            step,
          )
        ])

  -- The completion of an operation in flight.
  pub completed :
      (cqe : Cqe) (r : Ring) (dst : Bytes) (copied : ℕ)
      → Inv c src chunks i r dst
      → InFlight cqe r
      → let (served, dst') = serve k c src cqe r dst in
        Post (λ r'. Inv c src chunks i r' dst') (handle k c cqe served copied).0
        × Towards src chunks i dst dst'
  unfolding decode_user_data
  completed cqe r dst copied v f = elim (Phase-cases (number_phase (cqe.user_data / 2 ^ 32))) [
    | inl q ↦ absurd (f.not_free q)
    | inr (inl q) ↦ reading_completed cqe f.slot r dst copied v f.found (f.in_phase ∙ q) q
    | inr (inr q) ↦ writing_completed cqe f.slot r dst copied v f.found (f.in_phase ∙ q) q
  ]
