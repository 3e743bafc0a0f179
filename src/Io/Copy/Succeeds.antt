-- ===== src/Io/Copy/Succeeds.antt =====
-- A copy of src/io/uring.rs on which every completion moves all the bytes of its operation.
use schelk.Base.{ℕ, zero, suc, ◌+◌, ◌≤◌, ◌≡◌, refl, true, List, [], ◌∷◌, All, some, none, ok, err}
use schelk.Io.Chunks.{CopyChunk}
use schelk.Io.Ring.{Ring, Bytes, Cqe, Shared, Config, Progress, waiting, finished}
use schelk.Io.Ring.Slots.{FitsSlot}
use schelk.Io.Ring.Completion.{InFlight}
use schelk.Io.Ring.Batch.{EachCqe}
use schelk.Io.Ring.Clean.{IsWilling, Completes}
use schelk.Io.Ring.Carrying.{Completes-IsHandled}
use schelk.Io.Copy.Draining.{AllGoing, start_rings-AllGoing, deliver_all-AllGoing}
use schelk.Io.Copy.{
  Event, Rig, Workers, join_all, deliver, deliver_all, run_workers, partition, all_aligned,
}
use schelk.Io.Copy.Deliver.{IsSound, EachAt, EachEvent, HonestAll, started}
use schelk.Io.Copy.Total.{AreEnough, began, all_ended, AllEnded}

module _ (rig : Rig) (c : Config) (src : Bytes) where
  join_all-Going :
      (ps : List Progress)
      → AllEnded rig c src ps
      → AllGoing (λ o. o ≡ none) ps
      → join_all ps ≡ some (ok tt)
  unfolding join_all
  join_all-Going [] v g = refl
  join_all-Going (waiting r ∷ ps) v g = absurd v
  join_all-Going (finished (ok u) ∷ ps) v g = join_all-Going ps v g.1
  join_all-Going (finished (err e) ∷ ps) v g = let gone = g.0 in absurd (cc)

  -- A completion that moved all bytes answers an operation in flight.
  EachCqe-InFlight :
      (id : ℕ) (cqes : List Cqe) (r : Ring) (sh : Shared)
      → EachCqe (rig.kernel id) c src Completes cqes r sh
      → EachCqe (rig.kernel id) c src InFlight cqes r sh
  EachCqe-InFlight id [] r sh h = tt
  EachCqe-InFlight id (cqe ∷ cqes) r sh h =
      (h.0.in_flight, λ r' e. EachCqe-InFlight id cqes r' _ (h.1 r' e))

  EachAt-InFlight :
      (id n : ℕ) (cqes : List Cqe) (ps : List Progress) (sh : Shared)
      → EachAt rig c src Completes id n cqes ps sh
      → EachAt rig c src InFlight id n cqes ps sh
  EachAt-InFlight id n cqes [] sh h = tt
  EachAt-InFlight id zero cqes (waiting r ∷ ps) sh h = EachCqe-InFlight id cqes r sh h
  EachAt-InFlight id zero cqes (finished result ∷ ps) sh h = tt
  EachAt-InFlight id (suc n) cqes (p ∷ ps) sh h = EachAt-InFlight (id + 1) n cqes ps sh h

  pub EachEvent-InFlight :
      (es : List Event) (w : Workers)
      → EachEvent rig c src Completes es w
      → HonestAll rig c src es w
  EachEvent-InFlight [] w h = tt
  EachEvent-InFlight (e ∷ es) w h =
      let d = deliver rig c src 0 e.ring e.cqes w.rings w.shared in
      (
        EachAt-InFlight 0 e.ring e.cqes w.rings w.shared h.0,
        EachEvent-InFlight es (record { rings = d.0; shared = d.1 }) h.1,
      )

  module _ (s : IsSound rig c) (chunks : List CopyChunk) (dst : Bytes)
      (fits : All (FitsSlot c.slot_size) chunks) (enough : AreEnough rig.events chunks) where
    -- A copy succeeds when each worker has been told of two completions for each of its chunks, each of
    -- which moves all the bytes of an operation in flight, in any order among the workers: for aligned
    -- chunks that fit into slots, a submission queue of 32 entries at least, and a kernel that behaves as
    -- documented, sets up every ring and accepts every submission, and whose final fsync succeeds.
    pub run_workers_succeeds :
        ((id : ℕ) → IsWilling (rig.kernel id))
        → 32 ≤ c.sq_depth
        → all_aligned chunks ≡ true
        → rig.fsync_succeeds ≡ true
        → EachEvent rig c src Completes rig.events (started rig c src chunks dst)
        → (run_workers rig c src chunks dst).result ≡ some (ok tt)
    unfolding run_workers
    run_workers_succeeds will deep aligned sync h =
        let w = deliver_all rig c src rig.events (started rig c src chunks dst) in
        let kind =
          λ (id : ℕ). Completes-IsHandled (rig.kernel id) (will id) c src s.small_slots deep in
        let going =
          deliver_all-AllGoing (λ o. o ≡ none) Completes rig c src kind s will deep rig.events
            (partition chunks) (started rig c src chunks dst)
            (began rig c src s chunks dst fits enough)
            (start_rings-AllGoing (λ o. o ≡ none) Completes rig c src kind s will deep refl 0
              (partition chunks))
            h in
        let joined : join_all w.rings ≡ some (ok tt) =
          join_all-Going w.rings
            (all_ended rig c src s chunks dst fits enough
              (EachEvent-InFlight rig.events (started rig c src chunks dst) h))
            going in
        rw (run_workers, aligned, joined, sync) refl
