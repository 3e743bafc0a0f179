-- ===== src/Io/Copy/Deliver.antt =====
-- The workers of src/io/uring.rs side by side, one batch of completions after the other.
use schelk.Base.{
  ℕ, zero, suc, ◌+◌, ◌<◌, ◌≡◌, refl, ◌∙◌, true, List, [], ◌∷◌, arith, All, ◌⊎◌, inl, inr, ◌^◌,
}
use schelk.Io.Chunks.{CopyChunk}
use schelk.Io.Ring.{Ring, Bytes, Cqe, Shared, Config, Progress, IsLawful}
use schelk.Io.Ring.Handling.{advance}
use schelk.Io.Ring.Slots.{FitsSlot}
use schelk.Io.Ring.Invariant.{After}
use schelk.Io.Ring.Completion.{InFlight, Towards, Towards-mono}
use schelk.Io.Ring.Batch.{EachFor, advance-After, After-mono, start_ring-After}
use schelk.Io.Copy.{Event, Rig, Workers, start_rings, deliver, deliver_all, partition}
use schelk.Io.Copy.Partition.{any_covers}

-- Every worker's kernel behaves as documented, and the buffers have a legal size.
pub record IsSound (rig : Rig) (c : Config) : Type 0 where
  pub lawful : (id : ℕ) → IsLawful (rig.kernel id)
  pub has_slots : 0 < c.slots_per_ring
  pub small_slots : c.slot_size < 2 ^ 31

module _ (rig : Rig) (c : Config) (src : Bytes) where
  abbrev pub EachAt : (Cqe → Ring → Type 0) → ℕ → ℕ → List Cqe → List Progress → Shared → Type 0
  EachAt P id n cqes [] sh = Unit {0}
  EachAt P id zero cqes (p ∷ ps) sh = EachFor (rig.kernel id) c src P cqes p sh
  EachAt P id (suc n) cqes (p ∷ ps) sh = EachAt P (id + 1) n cqes ps sh

  -- What holds of each completion and its worker when its turn comes.
  abbrev pub EachEvent : (Cqe → Ring → Type 0) → List Event → Workers → Type 0
  EachEvent P [] w = Unit {0}
  EachEvent P (e ∷ es) w =
      let (rings, shared) = deliver rig c src 0 e.ring e.cqes w.rings w.shared in
      EachAt P 0 e.ring e.cqes w.rings w.shared
      × EachEvent P es (record { rings = rings; shared = shared })

  abbrev pub HonestAt : ℕ → ℕ → List Cqe → List Progress → Shared → Type 0
  HonestAt = EachAt InFlight

  -- Every completion answers an operation that is in flight when its turn comes.
  abbrev pub HonestAll : List Event → Workers → Type 0
  HonestAll = EachEvent InFlight

  -- What `run_workers` starts from.
  abbrev pub started : List CopyChunk → Bytes → Workers
  started chunks dst = record {
    rings = start_rings rig c src 0 (partition chunks);
    shared = record { dst = dst; copied = 0 };
  }

  module _ (i : ℕ) where
    abbrev pub AllAfter : List (List CopyChunk) → List Progress → Bytes → Type 0
    AllAfter [] [] dst = Unit {0}
    AllAfter [] (p ∷ ps) dst = ⊥
    AllAfter (part ∷ parts) [] dst = ⊥
    AllAfter (part ∷ parts) (p ∷ ps) dst = After c src part i p dst × AllAfter parts ps dst

    pub AllAfter-mono :
        (parts : List (List CopyChunk)) (ps : List Progress) (dst dst' : Bytes)
        → AllAfter parts ps dst
        → (dst i ≡ src i → dst' i ≡ src i)
        → AllAfter parts ps dst'
    AllAfter-mono [] [] dst dst' h m = tt
    AllAfter-mono [] (p ∷ ps) dst dst' h m = h
    AllAfter-mono (part ∷ parts) [] dst dst' h m = h
    AllAfter-mono (part ∷ parts) (p ∷ ps) dst dst' h m = (
      After-mono (rig.kernel 0) c src part i p dst dst' h.0 m,
      AllAfter-mono parts ps dst dst' h.1 m,
    )

    -- As `Towards`, for the chunks of all the workers.
    abbrev pub AllTowards : List (List CopyChunk) → Bytes → Bytes → Type 0
    AllTowards parts dst dst' = (dst' i ≡ dst i) ⊎ ((dst' i ≡ src i) × (any_covers parts i ≡ true))

    pub AllTowards-mono :
        (parts : List (List CopyChunk)) (dst dst' : Bytes)
        → AllTowards parts dst dst'
        → dst i ≡ src i
        → dst' i ≡ src i
    AllTowards-mono parts dst dst' (inl e) h = e ∙ h
    AllTowards-mono parts dst dst' (inr e) h = e.0

    AllTowards-trans :
        (parts : List (List CopyChunk)) (a b d : Bytes)
        → AllTowards parts a b
        → AllTowards parts b d
        → AllTowards parts a d
    AllTowards-trans parts a b d (inl e) (inl h) = inl (h ∙ e)
    AllTowards-trans parts a b d (inr e) (inl h) = inr (h ∙ e.0, e.1)
    AllTowards-trans parts a b d p (inr h) = inr h

    AllTowards-first :
        (part : List CopyChunk) (parts : List (List CopyChunk)) (dst dst' : Bytes)
        → Towards src part i dst dst'
        → AllTowards (part ∷ parts) dst dst'
    AllTowards-first part parts dst dst' (inl e) = inl e
    AllTowards-first part parts dst dst' (inr e) = inr (e.0, rw e.1)

    AllTowards-rest :
        (part : List CopyChunk) (parts : List (List CopyChunk)) (dst dst' : Bytes)
        → AllTowards parts dst dst'
        → AllTowards (part ∷ parts) dst dst'
    AllTowards-rest part parts dst dst' (inl e) = inl e
    AllTowards-rest part parts dst dst' (inr e) = inr (e.0, let h = e.1 in ground arith)

    module _ (s : IsSound rig c) where
      pub deliver-AllAfter :
          (id n : ℕ) (cqes : List Cqe) (parts : List (List CopyChunk)) (ps : List Progress)
          (sh : Shared)
          → AllAfter parts ps sh.dst
          → HonestAt id n cqes ps sh
          → let (ps', sh') = deliver rig c src id n cqes ps sh in
            AllAfter parts ps' sh'.dst × AllTowards parts sh.dst sh'.dst
      unfolding deliver
      deliver-AllAfter id n cqes [] [] sh v h = (tt, inl refl)
      deliver-AllAfter id n cqes [] (p ∷ ps) sh v h = absurd v
      deliver-AllAfter id n cqes (part ∷ parts) [] sh v h = absurd v
      deliver-AllAfter id zero cqes (part ∷ parts) (p ∷ ps) sh v h =
          let step =
            advance-After (rig.kernel id) (s.lawful id) c src part i s.small_slots cqes p sh v.0
              h in
          let dst' : Bytes = (advance (rig.kernel id) c src cqes p sh).1.dst in
          (
            (
              step.0,
              AllAfter-mono parts ps sh.dst dst' v.1 (Towards-mono src part i sh.dst dst' step.1),
            ),
            AllTowards-first part parts sh.dst dst' step.1,
          )
      deliver-AllAfter id (suc n) cqes (part ∷ parts) (p ∷ ps) sh v h =
          let step = deliver-AllAfter (id + 1) n cqes parts ps sh v.1 h in
          let dst' : Bytes = (deliver rig c src (id + 1) n cqes ps sh).1.dst in
          (
            (
              After-mono (rig.kernel id) c src part i p sh.dst dst' v.0
                  (AllTowards-mono parts sh.dst dst' step.1),
              step.0,
            ),
            AllTowards-rest part parts sh.dst dst' step.1,
          )

      pub deliver_all-AllAfter :
          (es : List Event) (parts : List (List CopyChunk)) (w : Workers)
          → AllAfter parts w.rings w.shared.dst
          → HonestAll es w
          → let w' = deliver_all rig c src es w in
            AllAfter parts w'.rings w'.shared.dst × AllTowards parts w.shared.dst w'.shared.dst
      unfolding deliver_all
      deliver_all-AllAfter [] parts w v h = (v, inl refl)
      deliver_all-AllAfter (e ∷ es) parts w v h =
          let step = deliver-AllAfter 0 e.ring e.cqes parts w.rings w.shared v h.0 in
          let d = deliver rig c src 0 e.ring e.cqes w.rings w.shared in
          let w' : Workers = record { rings = d.0; shared = d.1 } in
          let rest = deliver_all-AllAfter es parts w' step.0 h.1 in
          (
            rest.0,
            AllTowards-trans parts w.shared.dst d.1.dst (deliver_all rig c src es w').shared.dst
                step.1 rest.1,
          )

      pub start_rings-AllAfter :
          (id : ℕ) (parts : List (List CopyChunk)) (dst : Bytes)
          → All (All (FitsSlot c.slot_size)) parts
          → AllAfter parts (start_rings rig c src id parts) dst
      unfolding start_rings
      start_rings-AllAfter id [] dst f = tt
      start_rings-AllAfter id (part ∷ parts) dst f = (
        start_ring-After (rig.kernel id) c src i s.has_slots part dst f.0,
        start_rings-AllAfter (id + 1) parts dst f.1,
      )
