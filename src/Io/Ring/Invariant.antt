-- ===== src/Io/Ring/Invariant.antt =====
-- What a worker keeps true at one byte of the destination, from wait to wait.
use schelk.Base.{
  ℕ, ◌+◌, ◌<◌, ◌≡◌, ap, true, ◌||◌, List, arith, All, ◌⊎◌, inl, inr, none, some, length, get_elem?,
  set, ◌≢◌, All-set, length-set, ok, err,
}
use schelk.Io.Chunks.{CopyChunk, covers}
use schelk.Io.Ring.UserData.{writing}
use schelk.Io.Ring.{Bytes, Slot, Kernel, Ring, Config, Progress, waiting, finished}
use schelk.Io.Ring.Slots.{
  holds, held, is_busy, busy, SameWork, busy-set, held_of_elem, held-set_new, held-set_old,
  held-set_from, get_elem?-set_cases, Small, FitsSlot,
}
use schelk.Io.Ring.Slots.Filling.{Filled}

-- At byte `i`: with no error so far, a byte of the worker's chunks is still to be claimed, or in
-- flight, or copied; and a buffer that is being written holds the bytes of the source.
pub record Inv (c : Config) (src : Bytes) (chunks : List CopyChunk) (i : ℕ) (r : Ring) (dst : Bytes)
    : Type 0 where
  pub counted : r.in_flight ≡ busy r.slots
  pub some_slots : 0 < length r.slots
  pub fits : All (FitsSlot c.slot_size) r.todo
  pub small : All (Small c.slot_size) r.slots
  pub buffered :
      (id j : ℕ) (s : Slot)
      → get_elem? r.slots id ≡ some s
      → s.phase ≡ writing
      → j < s.len
      → s.offset + j ≡ i
      → r.bufs id j ≡ src i
  pub placed :
      r.first_error ≡ none
      → covers chunks i ≡ true
      → (covers r.todo i ≡ true) ⊎ (held r.slots i ≡ true) ⊎ (dst i ≡ src i)
  pub inside : (covers r.todo i || held r.slots i) ≡ true → covers chunks i ≡ true

-- What is known at the end of a round, too.
abbrev pub After : Config → Bytes → List CopyChunk → ℕ → Progress → Bytes → Type 0
After c src chunks i (waiting r) dst = Inv c src chunks i r dst
After c src chunks i (finished (ok _)) dst = covers chunks i ≡ true → dst i ≡ src i
After c src chunks i (finished (err _)) dst = Unit {0}

module _ (k : Kernel) (c : Config) (src : Bytes) (chunks : List CopyChunk) (i : ℕ) where
  -- The table after a fill.
  pub Filled-Inv :
      (r r' : Ring) (dst : Bytes) (ss' : List Slot) (todo' : List CopyChunk)
      → Inv c src chunks i r dst
      → Filled c.slot_size r.slots r.todo r ss' todo' r'
      → Inv c src chunks i (record r' { slots = ss'; todo = todo' }) dst
  Filled-Inv r r' dst ss' todo' v f = record {
    counted = omega (arith, v.counted, f.counted);
    some_slots = omega (arith, v.some_slots, f.same_length);
    fits = f.fits;
    small = f.small;
    buffered =
        λ id j s e w lt at. rw f.bufs_kept (v.buffered id j s (f.writes_kept id s e w) w lt at);
    placed = λ none_yet inside.
        ground (arith, v.placed (rw (← f.error_kept) none_yet) inside, f.chunks_moved i);
    inside = λ h. v.inside (rw (← f.chunks_moved i) h);
  }

  pub SameWork-Inv :
      (r r' : Ring) (dst : Bytes)
      → Inv c src chunks i r dst
      → SameWork r r'
      → r'.in_flight ≡ r.in_flight
      → Inv c src chunks i r' dst
  SameWork-Inv r r' dst v w n = record {
    counted = omega (arith, v.counted, n, ap busy w.same_slots);
    some_slots = rw w.same_slots v.some_slots;
    fits = rw w.same_todo v.fits;
    small = rw w.same_slots v.small;
    buffered =
        λ id j s e p lt at. rw w.same_bufs (v.buffered id j s (rw w.same_slots at e) p lt at);
    placed = λ h inside. rw (w.same_todo, w.same_slots) (v.placed (rw (← w.same_error) h) inside);
    inside = λ h. v.inside (rw (← w.same_todo, ← w.same_slots) h);
  }

  buffered-set :
      (r r' : Ring) (dst : Bytes) (id : ℕ) (s' : Slot)
      → Inv c src chunks i r dst
      → r'.slots ≡ set r.slots id s'
      → ((j : ℕ) → j ≢ id → r'.bufs j ≡ r.bufs j)
      → (s'.phase ≡ writing → (j : ℕ) → j < s'.len → s'.offset + j ≡ i → r'.bufs id j ≡ src i)
      → (id' j : ℕ) (t : Slot) → get_elem? r'.slots id' ≡ some t
      → t.phase ≡ writing
      → j < t.len
      → t.offset + j ≡ i
      → r'.bufs id' j ≡ src i
  buffered-set r r' dst id s' v ss other here id' j t e p lt at =
      elim (get_elem?-set_cases r.slots id id' s' t (rw ss at e)) [
        | inl (same, new) ↦ rw same (here (rw (← new) p) j (rw (← new) lt) (rw (← new) at))
        | inr (ne, old) ↦ rw (other id' ne) (v.buffered id' j t old p lt at)
      ]

  -- One slot of the table changes, with its buffer, and the destination with it.
  pub Inv-set :
      (r r' : Ring) (dst dst' : Bytes) (id : ℕ) (s s' : Slot)
      → Inv c src chunks i r dst
      → get_elem? r.slots id ≡ some s
      → r'.todo ≡ r.todo
      → r'.slots ≡ set r.slots id s'
      → r'.in_flight + is_busy s ≡ r.in_flight + is_busy s'
      → Small c.slot_size s'
      → ((j : ℕ) → j ≢ id → r'.bufs j ≡ r.bufs j)
      → (s'.phase ≡ writing → (j : ℕ) → j < s'.len → s'.offset + j ≡ i → r'.bufs id j ≡ src i)
      → (holds s' i ≡ true → holds s i ≡ true)
      → (r'.first_error ≡ none
          → (r.first_error ≡ none) × (holds s i ≡ true → (holds s' i ≡ true) ⊎ (dst' i ≡ src i)))
      → (dst i ≡ src i → dst' i ≡ src i)
      → Inv c src chunks i r' dst'
  Inv-set r r' dst dst' id s s' v at t ss n m other here sub keep mono = record {
    counted = omega (arith, v.counted, busy-set r.slots id s s' at, ap busy ss);
    some_slots = rw (ss, length-set r.slots id s') v.some_slots;
    fits = rw t v.fits;
    small = rw ss (All-set (Small c.slot_size) r.slots id s' v.small m);
    buffered = buffered-set r r' dst id s' v ss other here;
    placed = λ h inside.
        rw (t, ss)
          (ground (
            arith,
            keep h,
            v.placed (keep h).0 inside,
            held-set_old r.slots id i s s' at,
            held-set_new r.slots id i s s' at,
          ));
    inside = λ h. v.inside (
        ground (
          arith,
          ap (λ ts. covers ts i) t,
          ap (λ ts. held ts i) ss,
          held-set_from r.slots id i s',
          held_of_elem r.slots id i s at,
        ));
  }
