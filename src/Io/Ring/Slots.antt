-- ===== src/Io/Ring/Slots.antt =====
-- The slot table: which bytes its operations hold, how many slots are busy, and what the fill loop
-- does to it.
pub mod Filling
use schelk.Base.{
  ℕ, zero, suc, ◌+◌, ◌≤◌, ◌<◌, ◌≡◌, refl, ◌∙◌, Bool, true, false, ◌&&◌, ◌||◌, List, [], ◌∷◌, ltb,
  leb, if◌then◌else◌, arith, All, Bool-cases, ◌⊎◌, inl, inr, some, not, length, get_elem?, set, ◌≢◌,
  Result, ok, err,
}
use schelk.Error.{Error}
use schelk.Io.Chunks.{CopyChunk, covers}
use schelk.Io.Ring.UserData.{writing}
use schelk.Io.Ring.{
  Slot, Kernel, Ring, Config, ◌>>=◌, is_free, submit_pending, queue_read, read_slot, fill, wait,
}
use schelk.Io.Ring.Handling.{queue_write}

-- The operation of the slot is in flight, and covers the byte.
abbrev pub holds : Slot → ℕ → Bool
holds s i = not (is_free s.phase) && (leb s.offset i && ltb i (s.offset + s.len))

abbrev pub held : List Slot → ℕ → Bool
held [] i = false
held (s ∷ ss) i = holds s i || held ss i

abbrev pub is_busy : Slot → ℕ
is_busy s = if is_free s.phase then 0 else 1

abbrev pub busy : List Slot → ℕ
busy [] = 0
busy (s ∷ ss) = is_busy s + busy ss

-- What holds of a result, if there is one.
abbrev pub Post {ℓ} : {A : Type 0} → (A → Type ℓ) → Result Error A → Type ℓ
Post P (ok a) = P a
Post P (err e) = Unit

pub Post-bind {ℓ κ} :
    {A B : Type 0} (P : A → Type ℓ) (Q : B → Type κ) (m : Result Error A) (f : A → Result Error B)
    → Post P m
    → ((a : A) → P a → Post Q (f a))
    → Post Q (m >>= f)
Post-bind P Q (ok a) f h g = g a h
Post-bind P Q (err e) f h g = tt

pub Result-cases :
    {A : Type 0} (m : Result Error A) → ((a : A) × (m ≡ ok a)) ⊎ ((e : Error) × (m ≡ err e))
Result-cases (ok a) = inl (a, refl)
Result-cases (err e) = inr (e, refl)

-- The fields that submissions leave alone.
pub record SameWork (r r' : Ring) : Type 0 where
  pub same_todo : r'.todo ≡ r.todo
  pub same_slots : r'.slots ≡ r.slots
  pub same_bufs : r'.bufs ≡ r.bufs
  pub same_error : r'.first_error ≡ r.first_error

module _ (k : Kernel) (c : Config) where
  pub submit_pending-SameWork :
      (r : Ring) → Post (λ r'. SameWork r r' × (r'.in_flight ≡ r.in_flight)) (submit_pending k c r)
  unfolding submit_pending
  submit_pending-SameWork r = ground arith

  pub wait-SameWork :
      (r : Ring) → Post (λ r'. SameWork r r' × (r'.in_flight ≡ r.in_flight)) (wait k c r)
  unfolding wait
  wait-SameWork r = ground arith

  pub queue_read-SameWork :
      (r : Ring) → Post (λ r'. SameWork r r' × (r'.in_flight ≡ r.in_flight + 1)) (queue_read k c r)
  unfolding queue_read
  queue_read-SameWork r = ground arith

  pub queue_write-slots :
      (id : ℕ) (s : Slot) (r : Ring)
      → Post
          (λ r'.
            (r'.todo ≡ r.todo)
            × (r'.slots ≡ set r.slots id (record s { phase = writing }))
            × (r'.bufs ≡ r.bufs)
            × (r'.first_error ≡ r.first_error)
            × (r'.in_flight ≡ r.in_flight))
          (queue_write k c id s r)
  unfolding queue_write
  queue_write-slots id s r = ground arith

-- A write of one slot of the table, against the slot that was there.
pub busy-set :
    (ss : List Slot) (id : ℕ) (s s' : Slot)
    → get_elem? ss id ≡ some s
    → busy (set ss id s') + is_busy s ≡ busy ss + is_busy s'
busy-set [] id s s' h = cc
busy-set (x ∷ ss) zero s s' h = ground arith
busy-set (x ∷ ss) (suc id) s s' h = omega (arith, busy-set ss id s s' h)

pub busy_of_elem :
    (ss : List Slot) (id : ℕ) (s : Slot) → get_elem? ss id ≡ some s → is_busy s ≤ busy ss
busy_of_elem [] id s h = absurd (cc)
busy_of_elem (x ∷ ss) zero s h = ground arith
busy_of_elem (x ∷ ss) (suc id) s h = omega (arith, busy_of_elem ss id s h)

pub not-held_of_idle : (ss : List Slot) (i : ℕ) → busy ss ≡ 0 → held ss i ≡ false
not-held_of_idle [] i h = refl
not-held_of_idle (x ∷ ss) i h = ground (arith, not-held_of_idle ss i)

pub held_of_elem :
    (ss : List Slot) (id i : ℕ) (s : Slot)
    → get_elem? ss id ≡ some s
    → holds s i ≡ true
    → held ss i ≡ true
held_of_elem [] id i s h e = cc
held_of_elem (x ∷ ss) zero i s h e = ground arith
held_of_elem (x ∷ ss) (suc id) i s h e = ground (arith, held_of_elem ss id i s h e)

pub held-set_new :
    (ss : List Slot) (id i : ℕ) (s s' : Slot)
    → get_elem? ss id ≡ some s
    → holds s' i ≡ true
    → held (set ss id s') i ≡ true
held-set_new [] id i s s' h e = cc
held-set_new (x ∷ ss) zero i s s' h e = ground arith
held-set_new (x ∷ ss) (suc id) i s s' h e = ground (arith, held-set_new ss id i s s' h e)

pub held-set_old :
    (ss : List Slot) (id i : ℕ) (s s' : Slot)
    → get_elem? ss id ≡ some s
    → held ss i ≡ true
    → (held (set ss id s') i ≡ true) ⊎ (holds s i ≡ true)
held-set_old [] id i s s' h e = cc
held-set_old (x ∷ ss) zero i s s' h e = ground arith
held-set_old (x ∷ ss) (suc id) i s s' h e = ground (arith, held-set_old ss id i s s' h)

pub held-set_from :
    (ss : List Slot) (id i : ℕ) (s' : Slot)
    → held (set ss id s') i ≡ true
    → (held ss i ≡ true) ⊎ (holds s' i ≡ true)
held-set_from [] id i s' e = cc
held-set_from (x ∷ ss) zero i s' e = ground arith
held-set_from (x ∷ ss) (suc id) i s' e = ground (arith, held-set_from ss id i s')

pub get_elem?-set_cases :
    (ss : List Slot) (id j : ℕ) (s' t : Slot)
    → get_elem? (set ss id s') j ≡ some t
    → ((j ≡ id) × (t ≡ s')) ⊎ ((j ≢ id) × (get_elem? ss j ≡ some t))
get_elem?-set_cases [] id j s' t h = cc
get_elem?-set_cases (x ∷ ss) zero zero s' t h = inl (refl, cc)
get_elem?-set_cases (x ∷ ss) zero (suc j) s' t h = inr (omega arith, h)
get_elem?-set_cases (x ∷ ss) (suc id) zero s' t h = inr (omega arith, h)
get_elem?-set_cases (x ∷ ss) (suc id) (suc j) s' t h =
    ground (arith, get_elem?-set_cases ss id j s' t h)

-- No slot is larger than a buffer, which is true of `len` by its computation.
abbrev pub Small : ℕ → Slot → Type 0
Small size s = s.len ≤ size

abbrev pub FitsSlot : ℕ → CopyChunk → Type 0
FitsSlot size chunk = chunk.len ≤ size
