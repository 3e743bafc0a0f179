-- ===== src/Io/Copy/Fails.antt =====
-- A copy of src/io/uring.rs that ends with an error.
use schelk.Base.{
  ℕ, ◌≤◌, ◌≡◌, true, false, List, [], ◌∷◌, All, Bool-cases, Option-cases, ◌⊎◌, inl, inr, Option,
  none, some, Result, ok, err, sym, subst,
}
use schelk.Error.{Error, misaligned, os_error}
use schelk.Io.Chunks.{CopyChunk, covers}
use schelk.Io.Ring.{Bytes, Config, Progress, waiting, finished}
use schelk.Io.Ring.Slots.{FitsSlot}
use schelk.Io.Ring.Completion.{InFlight}
use schelk.Io.Ring.Clean.{IsWilling}
use schelk.Io.Ring.Failing.{IsTransferError, IsMild, InFlight-IsHandled}
use schelk.Io.Copy.{Rig, join_all, deliver_all, synced, run_workers, partition, all_aligned}
use schelk.Io.Copy.Partition.{All-partition}
use schelk.Io.Copy.Deliver.{IsSound, HonestAll, started, start_rings-AllAfter}
use schelk.Io.Copy.Draining.{AllGoing, start_rings-AllGoing, deliver_all-AllGoing}
use schelk.Io.Copy.Exact.{run_workers_safe}

-- Why a copy may fail: a transfer did, a chunk is not aligned, or the final fsync fails.
abbrev pub IsCopyError : Rig → List CopyChunk → Error → Type 0
IsCopyError rig chunks e =
    IsTransferError e
    ⊎ (((e ≡ misaligned) × (all_aligned chunks ≡ false))
        ⊎ ((e ≡ os_error) × (rig.fsync_succeeds ≡ false)))

join_all-IsTransferError :
    (ps : List Progress) (e : Error)
    → AllGoing IsMild ps
    → join_all ps ≡ some (err e)
    → IsTransferError e
unfolding join_all
join_all-IsTransferError [] e g h = absurd (cc)
join_all-IsTransferError (waiting r ∷ ps) e g h = absurd (cc)
join_all-IsTransferError (finished (ok u) ∷ ps) e g h = join_all-IsTransferError ps e g.1 h
join_all-IsTransferError (finished (err x) ∷ ps) e g h = elim (Option-cases (join_all ps)) [
  | inl q ↦ absurd (let none_joined = rw q at h in cc)
  | inr (y, q) ↦ let joined = rw q at h in let same : x ≡ e = cc in subst IsTransferError same g.0
]

module _ (rig : Rig) (c : Config) (src : Bytes) (s : IsSound rig c) (chunks : List CopyChunk)
    (dst : Bytes) where
  synced-IsCopyError :
      (o : Option (Result Error (Unit {0}))) (e : Error)
      → ((x : Error) → o ≡ some (err x) → IsTransferError x)
      → synced rig c src o ≡ some (err e)
      → IsCopyError rig chunks e
  synced-IsCopyError none e h k = absurd (cc)
  synced-IsCopyError (some (err x)) e h k = inl (h e k)
  synced-IsCopyError (some (ok u)) e h k = elim (Bool-cases rig.fsync_succeeds) [
    | inl y ↦ absurd (let q = rw y at k in cc)
    | inr n ↦ let q = rw n at k in let same : os_error ≡ e = cc in inr (inr (sym same, n))
  ]

  -- A copy that fails, where the kernel sets up every ring and accepts every submission, behaves as
  -- documented and answers operations in flight, with any results and in any order among the workers:
  -- its error is that of a transfer that failed or ended short, or that of a chunk that is not aligned,
  -- and there is one, or that of the final fsync, and it fails; and every byte of the destination has
  -- its old value, or it is a byte of a chunk and has the value of the source. The chunks fit into
  -- slots, and the submission queue has 32 entries at least.
  pub run_workers_fails :
      (e : Error)
      → All (FitsSlot c.slot_size) chunks
      → ((id : ℕ) → IsWilling (rig.kernel id))
      → 32 ≤ c.sq_depth
      → HonestAll rig c src rig.events (started rig c src chunks dst)
      → (run_workers rig c src chunks dst).result ≡ some (err e)
      → let dst' = (run_workers rig c src chunks dst).shared.dst in
        IsCopyError rig chunks e
        × ((i : ℕ) → (dst' i ≡ dst i) ⊎ ((dst' i ≡ src i) × (covers chunks i ≡ true)))
  unfolding run_workers
  run_workers_fails e fits will deep h failed =
      (why, λ i. run_workers_safe rig c src s chunks dst i fits h)
    where
      why : IsCopyError rig chunks e
      why = elim (Bool-cases (all_aligned chunks)) [
        | inr odd ↦
            let q = rw (run_workers, odd) at failed in
            let same : misaligned ≡ e = cc in inr (inl (sym same, odd))
        | inl even ↦
            let kind = λ (id : ℕ). InFlight-IsHandled (rig.kernel id) (will id) c src deep in
            let start = started rig c src chunks dst in
            let w = deliver_all rig c src rig.events start in
            let going : AllGoing IsMild w.rings =
              deliver_all-AllGoing IsMild InFlight rig c src kind s will deep rig.events
                (partition chunks) start
                (start_rings-AllAfter rig c src 0 s 0 (partition chunks) dst
                  (All-partition (FitsSlot c.slot_size) chunks fits))
                (start_rings-AllGoing IsMild InFlight rig c src kind s will deep tt 0
                  (partition chunks))
                h in
            synced-IsCopyError (join_all w.rings) e (λ x. join_all-IsTransferError w.rings x going)
              (rw (run_workers, even) at failed)
      ]
