-- ===== src/Io/Copy/Total.antt =====
-- The end of a copy of src/io/uring.rs, and the completions that its workers need for it.
use schelk.Base.{
  ℕ, zero, suc, ◌+◌, ◌-◌, ◌*◌, ◌≡◌, refl, List, [], ◌∷◌, arith, All, Bool-cases, inl, inr, some,
  length, Result, ok, err,
}
use schelk.Error.{Error, misaligned, os_error}
use schelk.Io.Chunks.{CopyChunk}
use schelk.Io.Ring.{Bytes, Cqe, Shared, Config, Progress, waiting, finished}
use schelk.Io.Ring.Slots.{FitsSlot}
use schelk.Io.Ring.Completion.{InFlight}
use schelk.Io.Ring.Work.{Within, start_ring-Within, waits_for_work}
use schelk.Io.Ring.Spending.{advance-Within}
use schelk.Io.Copy.{
  Event, Rig, Workers, join_all, start_rings, deliver, deliver_all, synced, run_workers, partition,
  all_aligned,
}
use schelk.Io.Copy.Partition.{All-partition}
use schelk.Io.Copy.Deliver.{
  IsSound, EachAt, HonestAll, started, AllAfter, deliver_all-AllAfter, start_rings-AllAfter,
}

-- For each worker the completions that it can be told of at most: a read and a write for each chunk.
abbrev pub budgets : List (List CopyChunk) → List ℕ
budgets [] = []
budgets (part ∷ parts) = (2 * length part) ∷ budgets parts

abbrev pub spend : ℕ → ℕ → List ℕ → List ℕ
spend n count [] = []
spend zero count (b ∷ bs) = (b - count) ∷ bs
spend (suc n) count (b ∷ bs) = b ∷ spend n count bs

-- What the events leave of the budgets.
abbrev pub spend_all : List Event → List ℕ → List ℕ
spend_all [] bs = bs
spend_all (e ∷ es) bs = spend_all es (spend e.ring (length e.cqes) bs)

abbrev pub IsZero : ℕ → Type 0
IsZero b = b ≡ 0

-- Each worker is told of two completions for each of its chunks.
abbrev pub AreEnough : List Event → List CopyChunk → Type 0
AreEnough events chunks = All IsZero (spend_all events (budgets (partition chunks)))

module _ (rig : Rig) (c : Config) (src : Bytes) where
  abbrev pub AllWithin : ℕ → List ℕ → List Progress → Type 0
  AllWithin id bs [] = Unit {0}
  AllWithin id [] (p ∷ ps) = ⊥
  AllWithin id (b ∷ bs) (p ∷ ps) = Within (rig.kernel id) c b p × AllWithin (id + 1) bs ps

  deliver-AllWithin :
      (id n : ℕ) (cqes : List Cqe) (bs : List ℕ) (ps : List Progress) (sh : Shared)
      → AllWithin id bs ps
      → EachAt rig c src InFlight id n cqes ps sh
      → AllWithin id (spend n (length cqes) bs) (deliver rig c src id n cqes ps sh).0
  unfolding deliver
  deliver-AllWithin id n cqes bs [] sh v h = tt
  deliver-AllWithin id n cqes [] (p ∷ ps) sh v h = absurd v
  deliver-AllWithin id zero cqes (b ∷ bs) (p ∷ ps) sh v h =
      (advance-Within (rig.kernel id) c src cqes p sh b v.0 h, v.1)
  deliver-AllWithin id (suc n) cqes (b ∷ bs) (p ∷ ps) sh v h =
      (v.0, deliver-AllWithin (id + 1) n cqes bs ps sh v.1 h)

  pub deliver_all-AllWithin :
      (es : List Event) (bs : List ℕ) (w : Workers)
      → AllWithin 0 bs w.rings
      → HonestAll rig c src es w
      → AllWithin 0 (spend_all es bs) (deliver_all rig c src es w).rings
  unfolding deliver_all
  deliver_all-AllWithin [] bs w v h = v
  deliver_all-AllWithin (e ∷ es) bs w v h =
      let d = deliver rig c src 0 e.ring e.cqes w.rings w.shared in
      deliver_all-AllWithin es (spend e.ring (length e.cqes) bs)
        (record { rings = d.0; shared = d.1 })
        (deliver-AllWithin 0 e.ring e.cqes bs w.rings w.shared v h.0) h.1

  pub start_rings-AllWithin :
      (id : ℕ) (parts : List (List CopyChunk))
      → AllWithin id (budgets parts) (start_rings rig c src id parts)
  unfolding start_rings
  start_rings-AllWithin id [] = tt
  start_rings-AllWithin id (part ∷ parts) =
      (start_ring-Within (rig.kernel id) c part, start_rings-AllWithin (id + 1) parts)

  -- Nobody waits any more.
  abbrev pub AllEnded : List Progress → Type 0
  AllEnded [] = Unit {0}
  AllEnded (waiting r ∷ ps) = ⊥
  AllEnded (finished result ∷ ps) = AllEnded ps

  spent-AllEnded :
      (i id : ℕ) (bs : List ℕ) (parts : List (List CopyChunk)) (ps : List Progress) (dst : Bytes)
      → AllWithin id bs ps
      → AllAfter rig c src i parts ps dst
      → All IsZero bs
      → AllEnded ps
  spent-AllEnded i id bs parts [] dst v a z = tt
  spent-AllEnded i id [] parts (p ∷ ps) dst v a z = absurd v
  spent-AllEnded i id (b ∷ bs) [] (p ∷ ps) dst v a z = absurd a
  spent-AllEnded i id (b ∷ bs) (part ∷ parts) (waiting r ∷ ps) dst v a z =
      omega (arith, waits_for_work r a.0.counted v.0.1, v.0.0, z.0)
  spent-AllEnded i id (b ∷ bs) (part ∷ parts) (finished result ∷ ps) dst v a z =
      spent-AllEnded i (id + 1) bs parts ps dst v.1 a.1 z.1

  join_all-ended :
      (ps : List Progress) → AllEnded ps → (r : Result Error (Unit {0})) × (join_all ps ≡ some r)
  unfolding join_all
  join_all-ended [] v = (ok tt, refl)
  join_all-ended (waiting r ∷ ps) v = absurd v
  join_all-ended (finished (ok u) ∷ ps) v = join_all-ended ps v
  join_all-ended (finished (err e) ∷ ps) v =
      let (r, same) = join_all-ended ps v in (err e, rw (join_all, same) refl)

  module _ (s : IsSound rig c) (chunks : List CopyChunk) (dst : Bytes)
      (fits : All (FitsSlot c.slot_size) chunks) (enough : AreEnough rig.events chunks) where
    pub began : AllAfter rig c src 0 (partition chunks) (started rig c src chunks dst).rings dst
    began =
        start_rings-AllAfter rig c src 0 s 0 (partition chunks) dst
          (All-partition (FitsSlot c.slot_size) chunks fits)

    pub all_ended :
        HonestAll rig c src rig.events (started rig c src chunks dst)
        → AllEnded (deliver_all rig c src rig.events (started rig c src chunks dst)).rings
    all_ended h =
        let w = deliver_all rig c src rig.events (started rig c src chunks dst) in
        spent-AllEnded 0 0 (spend_all rig.events (budgets (partition chunks))) (partition chunks)
          w.rings w.shared.dst
          (deliver_all-AllWithin rig.events (budgets (partition chunks))
            (started rig c src chunks dst) (start_rings-AllWithin 0 (partition chunks)) h)
          (deliver_all-AllAfter rig c src 0 s rig.events (partition chunks)
            (started rig c src chunks dst) began h).0
          enough

    pub synced-some :
        (r : Result Error (Unit {0}))
        → (q : Result Error (Unit {0})) × (synced rig c src (some r) ≡ some q)
    synced-some (err e) = (err e, refl)
    synced-some (ok u) = elim (Bool-cases rig.fsync_succeeds) [
      | inl e ↦ (ok u, rw e refl)
      | inr e ↦ (err os_error, rw e refl)
    ]

    -- A copy ends, with a result or an error, when each worker has been told of two completions for
    -- each of its chunks: for chunks that fit into slots, with a kernel that behaves as documented and
    -- answers operations in flight, in any order among the workers.
    pub run_workers_ends :
        HonestAll rig c src rig.events (started rig c src chunks dst)
        → (r : Result Error (Unit {0})) × ((run_workers rig c src chunks dst).result ≡ some r)
    unfolding run_workers
    run_workers_ends h = elim (Bool-cases (all_aligned chunks)) [
      | inr e ↦ (err misaligned, rw (run_workers, e) refl)
      | inl e ↦
          let w = deliver_all rig c src rig.events (started rig c src chunks dst) in
          let (r, joined) = join_all-ended w.rings (all_ended h) in
          let (q, same) = synced-some r in (q, rw (run_workers, e, joined) same)
    ]
