-- ===== src/Io/Copy/Exact.antt =====
-- The workers of src/io/uring.rs side by side, and what their copy leaves in the destination.
use schelk.Base.{
  ℕ, ◌≡◌, refl, ◌∙◌, true, List, [], ◌∷◌, if◌then◌else◌, arith, All, Bool-cases, ◌⊎◌, inl, inr,
  Option, none, some, Option-cases, Result, ok, err,
}
use schelk.Error.{Error}
use schelk.Io.Chunks.{CopyChunk, covers}
use schelk.Io.Ring.{Bytes, Config, Progress, waiting, finished}
use schelk.Io.Ring.Slots.{FitsSlot}
use schelk.Io.Copy.{
  Rig, Workers, join_all, deliver_all, synced, run_workers, partition, all_aligned,
}
use schelk.Io.Copy.Partition.{any_covers, any_covers-partition, All-partition}
use schelk.Io.Copy.Deliver.{
  IsSound, HonestAll, started, AllAfter, AllTowards, deliver_all-AllAfter, start_rings-AllAfter,
}

module _ (rig : Rig) (c : Config) (src : Bytes) where
  module _ (i : ℕ) where
    join_all-AllAfter :
        (parts : List (List CopyChunk)) (ps : List Progress) (dst : Bytes)
        → AllAfter rig c src i parts ps dst
        → join_all ps ≡ some (ok tt)
        → any_covers parts i ≡ true
        → dst i ≡ src i
    unfolding join_all
    join_all-AllAfter [] ps dst v e h = absurd (cc)
    join_all-AllAfter (part ∷ parts) [] dst v e h = absurd v
    join_all-AllAfter (part ∷ parts) (waiting r ∷ ps) dst v e h = absurd (cc)
    join_all-AllAfter (part ∷ parts) (finished (ok u) ∷ ps) dst v e h =
        elim (Bool-cases (covers part i)) [
          | inl here ↦ v.0 here
          | inr other ↦ join_all-AllAfter parts ps dst v.1 e (ground arith)
        ]
    join_all-AllAfter (part ∷ parts) (finished (err x) ∷ ps) dst v e h =
        elim (Option-cases (join_all ps)) [
          | inl q ↦ absurd (ground arith)
          | inr (y, q) ↦ absurd (ground arith)
        ]

  module _ (s : IsSound rig c) (chunks : List CopyChunk) (dst : Bytes) (i : ℕ) where
    ran :
        All (FitsSlot c.slot_size) chunks
        → HonestAll rig c src rig.events (started rig c src chunks dst)
        → let w = deliver_all rig c src rig.events (started rig c src chunks dst) in
          AllAfter rig c src i (partition chunks) w.rings w.shared.dst
          × AllTowards rig c src i (partition chunks) dst w.shared.dst
    ran f h =
        deliver_all-AllAfter rig c src i s rig.events (partition chunks)
          (started rig c src chunks dst)
          (start_rings-AllAfter rig c src i s 0 (partition chunks) dst
            (All-partition (FitsSlot c.slot_size) chunks f))
          h

    -- After the operations whose completions the workers have received, every byte has its old value, or
    -- it is a byte of a chunk and has the value of the source.
    pub run_workers_safe :
        All (FitsSlot c.slot_size) chunks
        → HonestAll rig c src rig.events (started rig c src chunks dst)
        → let dst' = (run_workers rig c src chunks dst).shared.dst in
          (dst' i ≡ dst i) ⊎ ((dst' i ≡ src i) × (covers chunks i ≡ true))
    unfolding run_workers
    run_workers_safe f h = elim (Bool-cases (all_aligned chunks)) [
      | inl e ↦ rw (run_workers, e) (rw (← any_covers-partition chunks i) (ran f h).1)
      | inr e ↦ rw (run_workers, e) (inl refl)
    ]

    ended_well :
        (o : Option (Result Error (Unit {0})))
        → synced rig c src o ≡ some (ok tt)
        → o ≡ some (ok tt)
    ended_well none e = e
    ended_well (some (ok u)) e = refl
    ended_well (some (err x)) e = e

    copied_inside :
        All (FitsSlot c.slot_size) chunks
        → HonestAll rig c src rig.events (started rig c src chunks dst)
        → (run_workers rig c src chunks dst).result ≡ some (ok tt)
        → covers chunks i ≡ true
        → (run_workers rig c src chunks dst).shared.dst i ≡ src i
    unfolding run_workers
    copied_inside f h r inside = elim (Bool-cases (all_aligned chunks)) [
      | inl e ↦
          let w : Workers = deliver_all rig c src rig.events (started rig c src chunks dst) in
          let joined : join_all w.rings ≡ some (ok tt) =
            ended_well (join_all w.rings) (rw (run_workers, e) at r) in
          rw (run_workers, e)
            (join_all-AllAfter i (partition chunks) w.rings w.shared.dst (ran f h).0 joined
              (any_covers-partition chunks i ∙ inside))
      | inr e ↦ absurd (let q = rw (run_workers, e) at r in cc)
    ]

    -- A copy that succeeds leaves at every byte of the chunks the value of the source, and at every
    -- other byte its old value: for chunks that fit into slots, with a kernel that behaves as documented
    -- and answers operations in flight, in any order among the workers.
    pub run_workers_exact :
        All (FitsSlot c.slot_size) chunks
        → HonestAll rig c src rig.events (started rig c src chunks dst)
        → (run_workers rig c src chunks dst).result ≡ some (ok tt)
        → (run_workers rig c src chunks dst).shared.dst i
          ≡ (if covers chunks i then src i else dst i)
    run_workers_exact f h r = elim (Bool-cases (covers chunks i)) [
      | inl inside ↦ rw inside (copied_inside f h r inside)
      | inr outside ↦ rw outside (ground (arith, run_workers_safe f h))
    ]
