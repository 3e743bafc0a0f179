-- ===== src/Io/Volume/Succeeds.antt =====
-- A sparse copy of src/io/uring.rs on which the kernel does all that it is asked.
use schelk.Base.{
  ℕ, ◌/◌, ◌%◌, ◌≤◌, ◌<◌, ◌^◌, ◌≡◌, refl, ap, true, List, [], ◌∷◌, if◌then◌else◌, All, ok, arith,
}
use schelk.Io.Chunks.{BlockRange, CopyChunk, has_block, prepare_chunks}
use schelk.Io.Chunks.Merge.{Fits}
use schelk.Io.Chunks.Bounds.{prepare_chunks-IsBlockwise}
use schelk.Io.Ring.{Config}
use schelk.Io.Ring.Slots.{FitsSlot}
use schelk.Io.Ring.Clean.{IsWilling, Completes}
use schelk.Io.Copy.{all_aligned}
use schelk.Io.Copy.Deliver.{IsSound, EachEvent, started}
use schelk.Io.Copy.Total.{AreEnough}
use schelk.Io.Copy.Succeeds.{run_workers_succeeds, EachEvent-InFlight}
use schelk.Io.Copy.Aligned.{all_aligned-prepare_chunks}
use schelk.Io.Volume.{
  open_direct, copy_chunks, run_copy, copy_blocks, blocks_copy_config, returned, sum_blocks,
}
use schelk.Base.Words.{mul64}
use schelk.Io.Volume.Exact.{
  IsVolumePair, HonestCopy, copy_blocks_exact, slots_exist, slots_small, blockwise_fits,
}
use schelk.Effect.{pure, continue}
use schelk.Machine.{Machine, FilePath, Access, read, write}

-- The devices are opened, the rings are set up and accept what is submitted, the workers are told of
-- two completions for each chunk, each completion moves all the bytes of an operation in flight, and
-- the final fsync succeeds.
pub record Carries (m : Machine) (src dst : FilePath) (c : Config) (chunks : List CopyChunk)
    : Type 0 where
  pub opens : (a : Access) (p : FilePath) (w : m.World) → (m.open_direct a p w).0 ≡ ok tt
  pub enough : (w : m.World) → AreEnough (m.rig src dst c chunks w).events chunks
  pub willing : (w : m.World) (id : ℕ) → IsWilling ((m.rig src dst c chunks w).kernel id)
  pub syncs : (w : m.World) → (m.rig src dst c chunks w).fsync_succeeds ≡ true
  pub complete :
      (w : m.World)
      → let rig = m.rig src dst c chunks w in
        EachEvent rig c
          (m.disk src w)
          Completes
          rig.events
          (started rig c (m.disk src w) chunks (m.disk dst w))

pub Carries-HonestCopy :
    (m : Machine) (src dst : FilePath) (c : Config) (chunks : List CopyChunk)
    → Carries m src dst c chunks
    → HonestCopy m src dst c chunks
Carries-HonestCopy m src dst c chunks carries w =
    let rig = m.rig src dst c chunks w in
    EachEvent-InFlight rig c (m.disk src w) rig.events
      (started rig c (m.disk src w) chunks (m.disk dst w)) (carries.complete w)

module _ (m : Machine) (src dst : FilePath) (pair : IsVolumePair m src dst) (c : Config)
    (chunks : List CopyChunk) (has_slots : 0 < c.slots_per_ring) (small : c.slot_size < 2 ^ 31)
    (deep : 32 ≤ c.sq_depth) (fits : All (FitsSlot c.slot_size) chunks)
    (aligned : all_aligned chunks ≡ true) (carries : Carries m src dst c chunks) where
  copy_chunks_succeeds : (w : m.World) → (copy_chunks m src dst chunks c w).0 ≡ ok tt
  unfolding copy_chunks
  copy_chunks_succeeds w =
      let rig = m.rig src dst c chunks w in
      let sound : IsSound rig c = record {
        lawful = pair.lawful c chunks w;
        has_slots = has_slots;
        small_slots = small;
      } in
      ap (returned m) (
        run_workers_succeeds rig c (m.disk src w) sound chunks (m.disk dst w) fits
          (carries.enough w) (carries.willing w) deep aligned (carries.syncs w)
          (carries.complete w))

  pub run_copy_succeeds : (w : m.World) → (run_copy m src dst chunks c w).0 ≡ ok tt
  unfolding run_copy open_direct
  run_copy_succeeds w =
      let w1 = (m.open_direct read src w).1 in
      let w2 = (m.open_direct write dst w1).1 in
      rw (carries.opens read src w, carries.opens write dst w1) (copy_chunks_succeeds w2)

module _ (m : Machine) (src dst : FilePath) (pair : IsVolumePair m src dst) where
  copy_blocks_ok :
      (rs : List BlockRange) (g : ℕ) (w : m.World)
      → 0 < g
      → g ≤ 2 ^ 30
      → g % 4096 ≡ 0
      → All (Fits g) rs
      → Carries m src dst (blocks_copy_config g) (prepare_chunks rs g)
      → (total : ℕ) × ((copy_blocks m src dst rs g w).0 ≡ ok total)
  unfolding copy_blocks
  copy_blocks_ok [] g w p small k f carries = (0, refl)
  copy_blocks_ok (r ∷ rs) g w p small k f carries =
      let chunks = prepare_chunks (r ∷ rs) g in
      let fits =
        blockwise_fits m src dst pair g chunks (prepare_chunks-IsBlockwise (r ∷ rs) g p f) in
      let copied =
        run_copy_succeeds m src dst pair (blocks_copy_config g) chunks
          (slots_exist m src dst pair g) (slots_small m src dst pair g small) (queue_deep g) fits
          (all_aligned-prepare_chunks (r ∷ rs) g p k f) carries w in
      let total = mul64 (sum_blocks (r ∷ rs)) g in
      let after = (run_copy m src dst chunks (blocks_copy_config g) w).1 in
      let return = λ (_ : Unit {0}). pure {W = m.World} total in
      (total, ap (λ r. (continue return (r, after)).0) copied)
    where
      queue_deep : (g : ℕ) → 32 ≤ (blocks_copy_config g).sq_depth
      queue_deep g = omega arith

  -- A sparse copy on which the kernel does all that it is asked succeeds, and leaves on the destination
  -- the bytes of the source in the blocks of the ranges and all other bytes as they were: for a
  -- positive granularity that is a multiple of 4096 up to a gibibyte, ranges whose byte bounds fit into
  -- a u64, and two devices with contents of their own that open, where the rings are set up and accept
  -- what is submitted, each worker is told of two completions for each chunk, in any order among the
  -- workers, each of which moves all the bytes of an operation in flight as documented, and the final
  -- fsync succeeds.
  pub copy_blocks_succeeds :
      (rs : List BlockRange) (g : ℕ) (w : m.World)
      → 0 < g
      → g ≤ 2 ^ 30
      → g % 4096 ≡ 0
      → All (Fits g) rs
      → Carries m src dst (blocks_copy_config g) (prepare_chunks rs g)
      → (total : ℕ) × ((copy_blocks m src dst rs g w).0 ≡ ok total)
        × ((i : ℕ)
            → m.disk dst (copy_blocks m src dst rs g w).1 i
              ≡ (if has_block rs (i / g) then m.disk src w i else m.disk dst w i))
  copy_blocks_succeeds rs g w p small k f carries =
      let chunks = prepare_chunks rs g in
      let c = blocks_copy_config g in
      let (total, copied) = copy_blocks_ok rs g w p small k f carries in
      let honest = Carries-HonestCopy m src dst c chunks carries in
      (
        total,
        copied,
        λ i. (copy_blocks_exact m src dst pair rs g total i w p small f honest copied).0,
      )
