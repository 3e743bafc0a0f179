-- ===== src/Io/Ring/Completion.antt =====
-- A completion of `run_ring` in src/io/uring.rs: a slot that has ended, and a read.
pub mod Writes
use schelk.Base.{
  ℕ, ◌+◌, ◌-◌, ◌/◌, ◌%◌, ◌<◌, ◌≡◌, refl, sym, ap, ◌∙◌, true, false, List, ◌==◌, if◌then◌else◌,
  arith, Bool-cases, ◌⊎◌, inl, inr, Option, none, some, get_elem?, set, ◌≢◌, subst, ◌^◌, All-elem,
  ==_iff, ℤ, pos, negsuc, is_negative, int_beq, as_i32, as_i32_small,
}
use schelk.Error.{Error, short_read, short_write, io_failed}
use schelk.Io.Chunks.{CopyChunk, covers}
use schelk.Io.Ring.UserData.{Phase, free, reading, writing, decode_user_data, number_phase}
use schelk.Io.Ring.{Bytes, Slot, Cqe, Kernel, Ring, Config, is_free, keep_first, IsLawful}
use schelk.Io.Ring.Handling.{
  free_slot, fail_slot, queue_write, handle_phase, handle, serve, serve_phase,
}
use schelk.Io.Ring.Slots.{
  holds, Post, Result-cases, queue_write-slots, busy_of_elem, held_of_elem, Small,
}
use schelk.Io.Ring.Invariant.{Inv, Inv-set}

pub int_beq-eq : (a b : ℤ) → int_beq a b ≡ true → a ≡ b
int_beq-eq (pos a) (pos b) h = ap pos ((==_iff a b).0 h)
int_beq-eq (negsuc a) (negsuc b) h = ap negsuc ((==_iff a b).0 h)
int_beq-eq (pos a) (negsuc b) h = absurd (cc)
int_beq-eq (negsuc a) (pos b) h = absurd (cc)

-- The entry answers an operation in flight: its slot is in the phase that it names.
pub record InFlight (cqe : Cqe) (r : Ring) : Type 0 where
  pub slot : Slot
  pub found : get_elem? r.slots (decode_user_data cqe.user_data).0 ≡ some slot
  pub in_phase : slot.phase ≡ (decode_user_data cqe.user_data).1
  pub not_free : (decode_user_data cqe.user_data).1 ≢ free

-- The byte keeps its value, or it is one of the chunks' and takes the value of the source.
abbrev pub Towards : Bytes → List CopyChunk → ℕ → Bytes → Bytes → Type 0
Towards src chunks i dst dst' = (dst' i ≡ dst i) ⊎ ((dst' i ≡ src i) × (covers chunks i ≡ true))

pub Towards-mono :
    (src : Bytes) (chunks : List CopyChunk) (i : ℕ) (dst dst' : Bytes)
    → Towards src chunks i dst dst'
    → dst i ≡ src i
    → dst' i ≡ src i
Towards-mono src chunks i dst dst' (inl e) h = e ∙ h
Towards-mono src chunks i dst dst' (inr e) h = e.0

pub Phase-cases : (p : Phase) → (p ≡ free) ⊎ (p ≡ reading) ⊎ (p ≡ writing)
Phase-cases free = inl refl
Phase-cases reading = inr (inl refl)
Phase-cases writing = inr (inr refl)

module _ (k : Kernel) (law : IsLawful k) (c : Config) (src : Bytes) (chunks : List CopyChunk)
    (i : ℕ) (small_slots : c.slot_size < 2 ^ 31) where
  -- A slot that has ended, well or not.
  pub retired :
      (r r' : Ring) (dst dst' : Bytes) (id : ℕ) (s : Slot)
      → Inv c src chunks i r dst
      → get_elem? r.slots id ≡ some s
      → is_free s.phase ≡ false
      → r'.todo ≡ r.todo
      → r'.slots ≡ set r.slots id (record s { phase = free })
      → r'.in_flight ≡ r.in_flight - 1
      → ((j : ℕ) → j ≢ id → r'.bufs j ≡ r.bufs j)
      → (r'.first_error ≡ none → (r.first_error ≡ none) × (holds s i ≡ true → dst' i ≡ src i))
      → (dst i ≡ src i → dst' i ≡ src i)
      → Inv c src chunks i r' dst'
  retired r r' dst dst' id s v at b t ss n other keep mono =
      Inv-set k c src chunks i r r' dst dst' id s (record s { phase = free }) v at t ss
        (ground (arith, v.counted, busy_of_elem r.slots id s at))
        (All-elem (Small c.slot_size) r.slots id s v.small at) other (λ w. absurd (cc))
        (λ h. absurd (cc)) (λ h. ((keep h).0, λ q. inr ((keep h).1 q))) mono

  pub failed :
      (r : Ring) (dst dst' : Bytes) (id : ℕ) (s : Slot) (e : Error) (bufs : ℕ → Bytes)
      → Inv c src chunks i r dst
      → get_elem? r.slots id ≡ some s
      → is_free s.phase ≡ false
      → ((j : ℕ) → j ≢ id → bufs j ≡ r.bufs j)
      → (dst i ≡ src i → dst' i ≡ src i)
      → Inv c src chunks i (fail_slot k c id s e (record r { bufs = bufs })) dst'
  failed r dst dst' id s e bufs v at b other mono =
      retired r (fail_slot k c id s e (record r { bufs = bufs })) dst dst' id s v at b refl refl
        refl other (λ h. absurd (not_kept r.first_error h)) mono
    where
      not_kept : (o : Option Error) → keep_first o e ≡ none → ⊥
      not_kept none h = cc
      not_kept (some x) h = cc

  pub in_range :
      (s : Slot) → Small c.slot_size s → (s.len % 2 ^ 32 ≡ s.len) × (as_i32 s.len ≡ pos s.len)
  in_range s m = (omega arith, as_i32_small s.len (omega arith))

  -- The buffers after a read of slot `id`.
  abbrev pub read_bufs : ℕ → Slot → ℤ → Ring → ℕ → Bytes
  read_bufs id s result r j =
      if j == id then k.read_at src s.offset (s.len % 2 ^ 32) result (r.bufs id) else r.bufs j

  pub read_bufs_other :
      (id : ℕ) (s : Slot) (result : ℤ) (r : Ring) (j : ℕ)
      → j ≢ id
      → read_bufs id s result r j ≡ r.bufs j
  read_bufs_other id s result r j ne = ground arith

  read_bufs_here :
      (id : ℕ) (s : Slot) (result : ℤ) (r : Ring) (j : ℕ)
      → Small c.slot_size s
      → int_beq result (as_i32 s.len) ≡ true
      → j < s.len
      → read_bufs id s result r id j ≡ src (s.offset + j)
  read_bufs_here id s result r j m full lt =
      let (len, word) = in_range s m in
      let all : result ≡ pos s.len = int_beq-eq result (as_i32 s.len) full ∙ word in
      let self : (id == id) ≡ true = (==_iff id id).1 refl in
      rw (self, len, all) (law.read_full src s.offset s.len j (r.bufs id) lt)

  read_whole :
      (r : Ring) (dst : Bytes) (id : ℕ) (s : Slot) (result : ℤ)
      → Inv c src chunks i r dst
      → get_elem? r.slots id ≡ some s
      → s.phase ≡ reading
      → int_beq result (as_i32 s.len) ≡ true
      → Post
          (λ r'. Inv c src chunks i r' dst)
          (queue_write k c id s (record r { bufs = read_bufs id s result r }))
  read_whole r dst id s result v at p full =
      let r1 : Ring = record r { bufs = read_bufs id s result r } in
      let m = All-elem (Small c.slot_size) r.slots id s v.small at in
      elim (Result-cases (queue_write k c id s r1)) [
        | inl (r', e) ↦
            let w = rw e at (queue_write-slots k c id s r1) in
            rw e (
              Inv-set k c src chunks i r r' dst dst id s (record s { phase = writing }) v at w.0 w.1
                (rw p (omega (arith, w.4))) m (λ j ne. rw w.2 (read_bufs_other id s result r j ne))
                (λ _ j lt at_i. rw (w.2, ← at_i) (read_bufs_here id s result r j m full lt))
                (λ h. rw p h) (λ h. (rw (← w.3) h, λ q. inl (rw p at q))) (λ h. h))
        | inr (x, e) ↦ rw e tt
      ]

  pub read_done :
      (r : Ring) (dst : Bytes) (copied id : ℕ) (s : Slot) (result : ℤ)
      → Inv c src chunks i r dst
      → get_elem? r.slots id ≡ some s
      → s.phase ≡ reading
      → Post
          (λ r'. Inv c src chunks i r' dst)
          (handle_phase k c reading id s result
            (record r { bufs = read_bufs id s result r })
            copied).0
  unfolding handle_phase
  read_done r dst copied id s result v at p = elim (Bool-cases (int_beq result (as_i32 s.len))) [
    | inl full ↦ rw (handle_phase, full) (read_whole r dst id s result v at p full)
    | inr short ↦
        rw (handle_phase, short)
          (failed r dst dst id s (short_read s.offset result) (read_bufs id s result r) v at (rw p)
            (read_bufs_other id s result r) (λ h. h))
  ]
