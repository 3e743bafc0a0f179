-- ===== src/Io/Ring/Slots/Filling.antt =====
-- What the fill loop of src/io/uring.rs does to the slot table.
use schelk.Base.{
  ℕ, zero, suc, ◌+◌, ◌<◌, ◌≡◌, refl, ◌∙◌, Bool, true, false, ◌||◌, List, [], ◌∷◌, arith, All,
  Bool-cases, ◌⊎◌, inl, inr, some, length, get_elem?,
}
use schelk.Io.Chunks.{CopyChunk, covers}
use schelk.Io.Ring.UserData.{writing}
use schelk.Io.Ring.{Slot, Kernel, Ring, Config, is_free, queue_read, read_slot, fill}
use schelk.Io.Ring.Slots.{
  held, busy, Post, Post-bind, SameWork, queue_read-SameWork, Small, FitsSlot,
}

-- What the fill loop does: chunks move from the list into free slots.
pub record Filled (size : ℕ) (ss : List Slot) (todo : List CopyChunk) (r : Ring) (ss' : List Slot)
    (todo' : List CopyChunk) (r' : Ring) : Type 0 where
  pub counted : busy ss' + r.in_flight ≡ busy ss + r'.in_flight
  pub bufs_kept : r'.bufs ≡ r.bufs
  pub error_kept : r'.first_error ≡ r.first_error
  pub chunks_moved : (i : ℕ) → (covers todo' i || held ss' i) ≡ (covers todo i || held ss i)
  pub fits : All (FitsSlot size) todo'
  pub small : All (Small size) ss'
  pub writes_kept :
      (id : ℕ) (s : Slot) → get_elem? ss' id ≡ some s → s.phase ≡ writing → get_elem? ss id ≡ some s
  pub same_length : length ss' ≡ length ss
  pub progress : (todo' ≡ []) ⊎ (0 < busy ss') ⊎ (ss ≡ [])

-- Slots before and after, where only the first may have been claimed for a read.
writes_kept-cons :
    (s t : Slot) (ss ss' : List Slot)
    → (t.phase ≡ writing → t ≡ s)
    → ((id : ℕ) (u : Slot)
        → get_elem? ss' id ≡ some u
        → u.phase ≡ writing
        → get_elem? ss id ≡ some u)
    → (id : ℕ) (u : Slot) → get_elem? (t ∷ ss') id ≡ some u
    → u.phase ≡ writing
    → get_elem? (s ∷ ss) id ≡ some u
writes_kept-cons s t ss ss' first h zero u e w =
    let same : t ≡ u = cc in let kept : t ≡ s = first (rw same w) in cc
writes_kept-cons s t ss ss' first h (suc id) u e w = h id u e w

module _ (k : Kernel) (c : Config) where
  Filled-skip :
      (s : Slot) (ss ss' : List Slot) (chunk : CopyChunk) (todo todo' : List CopyChunk)
      (r r' : Ring)
      → is_free s.phase ≡ false
      → Small c.slot_size s
      → Filled c.slot_size ss (chunk ∷ todo) r ss' todo' r'
      → Filled c.slot_size (s ∷ ss) (chunk ∷ todo) r (s ∷ ss') todo' r'
  Filled-skip s ss ss' chunk todo todo' r r' b m h = record {
    counted = omega (arith, h.counted);
    bufs_kept = h.bufs_kept;
    error_kept = h.error_kept;
    chunks_moved = λ i. ground (arith, h.chunks_moved i);
    fits = h.fits;
    small = (m, h.small);
    writes_kept = writes_kept-cons s s ss ss' (λ w. refl) h.writes_kept;
    same_length = omega (arith, h.same_length);
    progress = inr (inl (rw b (omega arith)));
  }

  Filled-claim :
      (s : Slot) (ss ss' : List Slot) (chunk : CopyChunk) (todo todo' : List CopyChunk)
      (r r1 r' : Ring)
      → is_free s.phase ≡ true
      → FitsSlot c.slot_size chunk
      → SameWork r r1
      → r1.in_flight ≡ r.in_flight + 1
      → Filled c.slot_size ss todo r1 ss' todo' r'
      → Filled c.slot_size (s ∷ ss) (chunk ∷ todo) r (read_slot k c chunk ∷ ss') todo' r'
  unfolding read_slot
  Filled-claim s ss ss' chunk todo todo' r r1 r' b f w n h = record {
    counted = ground (arith, h.counted);
    bufs_kept = h.bufs_kept ∙ w.same_bufs;
    error_kept = h.error_kept ∙ w.same_error;
    chunks_moved = λ i. ground (arith, h.chunks_moved i);
    fits = h.fits;
    small = (omega arith, h.small);
    writes_kept = writes_kept-cons s (read_slot k c chunk) ss ss' (λ e. cc) h.writes_kept;
    same_length = omega (arith, h.same_length);
    progress = inr (inl (omega arith));
  }

  pub fill-Filled :
      (ss : List Slot) (todo : List CopyChunk) (r : Ring) (submitted : Bool)
      → All (FitsSlot c.slot_size) todo
      → All (Small c.slot_size) ss
      → Post
          (λ (ss', todo', r', sub'). Filled c.slot_size ss todo r ss' todo' r')
          (fill k c ss todo r submitted)
  unfolding fill
  fill-Filled [] todo r submitted f m = record {
    counted = refl;
    bufs_kept = refl;
    error_kept = refl;
    chunks_moved = λ i. refl;
    fits = f;
    small = tt;
    writes_kept = λ id s e w. e;
    same_length = refl;
    progress = inr (inr refl);
  }
  fill-Filled (s ∷ ss) [] r submitted f m = record {
    counted = refl;
    bufs_kept = refl;
    error_kept = refl;
    chunks_moved = λ i. refl;
    fits = f;
    small = m;
    writes_kept = λ id s e w. e;
    same_length = refl;
    progress = inl refl;
  }
  fill-Filled (s ∷ ss) (chunk ∷ todo) r submitted f m = elim (Bool-cases (is_free s.phase)) [
    | inl e ↦
        rw (e, fill)
          (Post-bind _ _ (queue_read k c r) _ (queue_read-SameWork k c r) λ r1 w.
            Post-bind _ _ (fill k c ss todo r1 true) _ (fill-Filled ss todo r1 true f.1 m.1)
              λ (ss', todo', r', sub') h.
                Filled-claim s ss ss' chunk todo todo' r r1 r' e f.0 w.0 w.1 h)
    | inr e ↦
        rw (e, fill)
          (Post-bind _ _ (fill k c ss (chunk ∷ todo) r submitted) _
            (fill-Filled ss (chunk ∷ todo) r submitted f m.1)
            λ (ss', todo', r', sub') h. Filled-skip s ss ss' chunk todo todo' r r' e m.0 h)
  ]
