-- ===== src/Io/Copy/Draining.antt =====
-- The workers of src/io/uring.rs side by side, none of which returns early.
use schelk.Base.{ℕ, zero, suc, ◌+◌, ◌≤◌, List, [], ◌∷◌, Option, none}
use schelk.Error.{Error}
use schelk.Io.Chunks.{CopyChunk}
use schelk.Io.Ring.{Ring, Bytes, Cqe, Shared, Config, Progress, waiting, finished}
use schelk.Io.Ring.Completion.{InFlight}
use schelk.Io.Ring.Batch.{EachCqe}
use schelk.Io.Ring.Clean.{IsWilling, Going, start_ring-Going}
use schelk.Io.Ring.Draining.{IsHandled, advance-Going}
use schelk.Io.Copy.{Event, Rig, Workers, start_rings, deliver, deliver_all}
use schelk.Io.Copy.Deliver.{IsSound, EachAt, EachEvent, AllAfter, deliver-AllAfter}

abbrev pub AllGoing : (Option Error → Type 0) → List Progress → Type 0
AllGoing P [] = Unit {0}
AllGoing P (p ∷ ps) = Going P p × AllGoing P ps

module _ (P : Option Error → Type 0) (Q : Cqe → Ring → Type 0) (rig : Rig) (c : Config)
    (src : Bytes) (kind : (id : ℕ) → IsHandled P Q (rig.kernel id) c src) where
  EachCqe-InFlight :
      (id : ℕ) (cqes : List Cqe) (r : Ring) (sh : Shared)
      → EachCqe (rig.kernel id) c src Q cqes r sh
      → EachCqe (rig.kernel id) c src InFlight cqes r sh
  EachCqe-InFlight id [] r sh h = tt
  EachCqe-InFlight id (cqe ∷ cqes) r sh h =
      ((kind id).answers cqe r h.0, λ r' e. EachCqe-InFlight id cqes r' _ (h.1 r' e))

  EachAt-InFlight :
      (id n : ℕ) (cqes : List Cqe) (ps : List Progress) (sh : Shared)
      → EachAt rig c src Q id n cqes ps sh
      → EachAt rig c src InFlight id n cqes ps sh
  EachAt-InFlight id n cqes [] sh h = tt
  EachAt-InFlight id zero cqes (waiting r ∷ ps) sh h = EachCqe-InFlight id cqes r sh h
  EachAt-InFlight id zero cqes (finished result ∷ ps) sh h = tt
  EachAt-InFlight id (suc n) cqes (p ∷ ps) sh h = EachAt-InFlight (id + 1) n cqes ps sh h

  module _ (s : IsSound rig c) (will : (id : ℕ) → IsWilling (rig.kernel id))
      (deep : 32 ≤ c.sq_depth) where
    deliver-AllGoing :
        (id n : ℕ) (cqes : List Cqe) (parts : List (List CopyChunk)) (ps : List Progress)
        (sh : Shared)
        → AllAfter rig c src 0 parts ps sh.dst
        → AllGoing P ps
        → EachAt rig c src Q id n cqes ps sh
        → AllGoing P (deliver rig c src id n cqes ps sh).0
    unfolding deliver
    deliver-AllGoing id n cqes parts [] sh a g h = tt
    deliver-AllGoing id n cqes [] (p ∷ ps) sh a g h = absurd a
    deliver-AllGoing id zero cqes (part ∷ parts) (p ∷ ps) sh a g h = (
      advance-Going P Q (rig.kernel id) (s.lawful id) (will id) c src part 0 s.small_slots deep
          (kind id) cqes p sh a.0 g.0 h,
      g.1,
    )
    deliver-AllGoing id (suc n) cqes (part ∷ parts) (p ∷ ps) sh a g h =
        (g.0, deliver-AllGoing (id + 1) n cqes parts ps sh a.1 g.1 h)

    pub deliver_all-AllGoing :
        (es : List Event) (parts : List (List CopyChunk)) (w : Workers)
        → AllAfter rig c src 0 parts w.rings w.shared.dst
        → AllGoing P w.rings
        → EachEvent rig c src Q es w
        → AllGoing P (deliver_all rig c src es w).rings
    unfolding deliver_all
    deliver_all-AllGoing [] parts w a g h = g
    deliver_all-AllGoing (e ∷ es) parts w a g h =
        let d = deliver rig c src 0 e.ring e.cqes w.rings w.shared in
        deliver_all-AllGoing es parts (record { rings = d.0; shared = d.1 })
          (deliver-AllAfter rig c src 0 s 0 e.ring e.cqes parts w.rings w.shared a
            (EachAt-InFlight 0 e.ring e.cqes w.rings w.shared h.0)).0
          (deliver-AllGoing 0 e.ring e.cqes parts w.rings w.shared a g h.0) h.1

    pub start_rings-AllGoing :
        P none
        → (id : ℕ) (parts : List (List CopyChunk)) → AllGoing P (start_rings rig c src id parts)
    unfolding start_rings
    start_rings-AllGoing start id [] = tt
    start_rings-AllGoing start id (part ∷ parts) = (
      start_ring-Going (rig.kernel id) (will id) c deep P start part,
      start_rings-AllGoing start (id + 1) parts,
    )
