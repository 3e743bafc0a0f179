-- ===== src/Io/Copy/Waits.antt =====
-- The waits of the workers of src/io/uring.rs for completions.
use schelk.Base.{
  ℕ, suc, ◌+◌, ◌<◌, ◌≡◌, ◌≢◌, refl, List, [], ◌∷◌, arith, All, some, get_elem?, inl, inr,
  Bool-cases, false,
}
use schelk.Io.Chunks.{CopyChunk}
use schelk.Io.Ring.UserData.{Phase, free, reading, writing}
use schelk.Io.Ring.{Slot, Bytes, Config, Progress, waiting, finished, is_free}
use schelk.Io.Ring.Slots.{FitsSlot, busy}
use schelk.Io.Copy.{Event, Rig, deliver_all, partition}
use schelk.Io.Copy.Deliver.{
  IsSound, HonestAll, started, AllAfter, deliver_all-AllAfter, start_rings-AllAfter,
}
use schelk.Io.Copy.Partition.{All-partition}
use schelk.Io.Copy.Total.{
  AllWithin, deliver_all-AllWithin, start_rings-AllWithin, budgets, spend_all,
}

-- A slot of the table holds an operation, which is in flight.
abbrev pub HasWork : List Slot → Type 0
HasWork ss = (id : ℕ) × (s : Slot) × (get_elem? ss id ≡ some s) × (s.phase ≢ free)

not_free : (phase : Phase) → is_free phase ≡ false → phase ≢ free
not_free free e same = cc
not_free reading e same = cc
not_free writing e same = cc

busy-HasWork : (ss : List Slot) → 0 < busy ss → HasWork ss
busy-HasWork [] h = absurd (omega (arith, h))
busy-HasWork (s ∷ ss) h = elim (Bool-cases (is_free s.phase)) [
  | inl e ↦ let (id, t, found, work) = busy-HasWork ss (ground arith) in (suc id, t, found, work)
  | inr e ↦ (0, s, refl, not_free s.phase e)
]

-- Each worker has ended, or has an operation in flight.
abbrev pub AllBusy : List Progress → Type 0
AllBusy [] = Unit {0}
AllBusy (waiting r ∷ ps) = HasWork r.slots × AllBusy ps
AllBusy (finished result ∷ ps) = AllBusy ps

module _ (rig : Rig) (c : Config) (src : Bytes) where
  within-AllBusy :
      (id : ℕ) (bs : List ℕ) (parts : List (List CopyChunk)) (ps : List Progress) (dst : Bytes)
      → AllWithin rig c src id bs ps
      → AllAfter rig c src 0 parts ps dst
      → AllBusy ps
  within-AllBusy id bs parts [] dst v a = tt
  within-AllBusy id [] parts (p ∷ ps) dst v a = absurd v
  within-AllBusy id (b ∷ bs) [] (p ∷ ps) dst v a = absurd a
  within-AllBusy id (b ∷ bs) (part ∷ parts) (waiting r ∷ ps) dst v a = (
    busy-HasWork r.slots (omega (arith, a.0.counted, v.0.1)),
    within-AllBusy (id + 1) bs parts ps dst v.1 a.1,
  )
  within-AllBusy id (b ∷ bs) (part ∷ parts) (finished result ∷ ps) dst v a =
      within-AllBusy (id + 1) bs parts ps dst v.1 a.1

  -- Whatever completions of operations in flight have arrived, in any order among the workers: a worker
  -- that waits has an operation in flight, so that none waits for a completion that cannot come. This
  -- holds for chunks that fit into slots and a kernel that behaves as documented.
  pub deliver_all-AllBusy :
      (events : List Event) (chunks : List CopyChunk) (dst : Bytes)
      → IsSound rig c
      → All (FitsSlot c.slot_size) chunks
      → HonestAll rig c src events (started rig c src chunks dst)
      → AllBusy (deliver_all rig c src events (started rig c src chunks dst)).rings
  deliver_all-AllBusy events chunks dst s fits h =
      let w = deliver_all rig c src events (started rig c src chunks dst) in
      let began =
        start_rings-AllAfter rig c src 0 s 0 (partition chunks) dst
          (All-partition (FitsSlot c.slot_size) chunks fits) in
      within-AllBusy 0 (spend_all events (budgets (partition chunks))) (partition chunks) w.rings
        w.shared.dst
        (deliver_all-AllWithin rig c src events (budgets (partition chunks))
          (started rig c src chunks dst) (start_rings-AllWithin rig c src 0 (partition chunks)) h)
        (deliver_all-AllAfter rig c src 0 s events (partition chunks) (started rig c src chunks dst)
          began h).0
