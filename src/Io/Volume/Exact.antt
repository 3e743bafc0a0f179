-- ===== src/Io/Volume/Exact.antt =====
-- The copies of src/io/uring.rs from one volume to another: what a copy that succeeds leaves on
-- them.
use schelk.Base.{
  ℕ, ◌/◌, ◌≤◌, ◌<◌, ◌^◌, ◌≡◌, refl, ap, ◌∙◌, List, [], ◌∷◌, some, none, Option, if◌then◌else◌,
  arith, All, ok, Result,
}
use schelk.Error.{Error}
use schelk.Io.Chunks.{
  BlockRange, CopyChunk, covers, has_block, prepare_chunks, IsBlockwise, blocks_slot_size,
}
use schelk.Base.Words.{mul64}
use schelk.Io.Chunks.Merge.{Fits}
use schelk.Io.Chunks.Cover.{covers-prepare_chunks}
use schelk.Io.Chunks.Bounds.{prepare_chunks-IsBlockwise}
use schelk.Io.Ring.{Bytes, Config, IsLawful}
use schelk.Io.Ring.Slots.{FitsSlot}
use schelk.Io.Copy.{run_workers}
use schelk.Io.Copy.Deliver.{IsSound, HonestAll, started}
use schelk.Io.Copy.Exact.{run_workers_exact}
use schelk.Machine.{Machine, FilePath, Access, read, write}
use schelk.Effect.{pure, ◌>>◌}
use schelk.Effect.Laws.{seq_ok}
use schelk.Io.Volume.{
  open_direct, copy_chunks, run_copy, copy_blocks, blocks_copy_config, returned, sum_blocks,
}

-- Two devices with contents of their own, which an open leaves alone, and a kernel that reads and
-- writes them as documented.
pub record IsVolumePair (m : Machine) (src dst : FilePath) : Type 0 where
  pub lawful :
      (c : Config) (chunks : List CopyChunk) (w : m.World) (id : ℕ)
      → IsLawful ((m.rig src dst c chunks w).kernel id)
  pub stored : (b : Bytes) (w : m.World) → m.disk dst (m.set_disk dst b w) ≡ b
  pub apart : (b : Bytes) (w : m.World) → m.disk src (m.set_disk dst b w) ≡ m.disk src w
  pub open_keeps_src :
      (a : Access) (path : FilePath) (w : m.World)
      → m.disk src (m.open_direct a path w).1 ≡ m.disk src w
  pub open_keeps_dst :
      (a : Access) (path : FilePath) (w : m.World)
      → m.disk dst (m.open_direct a path w).1 ≡ m.disk dst w

module _ (m : Machine) (src dst : FilePath) where
  -- In a copy of these chunks, each completion answers an operation that is in flight.
  abbrev pub HonestCopy : Config → List CopyChunk → Type 0
  HonestCopy c chunks =
      (w : m.World)
      → let rig = m.rig src dst c chunks w in
        HonestAll rig c (m.disk src w) rig.events
          (started rig c (m.disk src w) chunks (m.disk dst w))

module _ (m : Machine) (src dst : FilePath) (pair : IsVolumePair m src dst) (c : Config)
    (chunks : List CopyChunk) (has_slots : 0 < c.slots_per_ring) (small : c.slot_size < 2 ^ 31)
    (fits : All (FitsSlot c.slot_size) chunks) (honest : HonestCopy m src dst c chunks) where
  returned_ok : (o : Option (Result Error (Unit {0}))) → returned m o ≡ ok tt → o ≡ some (ok tt)
  returned_ok none e = absurd (cc)
  returned_ok (some r) e = cc

  copy_chunks_exact :
      (w : m.World) (i : ℕ)
      → (copy_chunks m src dst chunks c w).0 ≡ ok tt
      → m.disk dst (copy_chunks m src dst chunks c w).1 i
        ≡ (if covers chunks i then m.disk src w i else m.disk dst w i)
  unfolding copy_chunks
  copy_chunks_exact w i e =
      let rig = m.rig src dst c chunks w in
      let out = run_workers rig c (m.disk src w) chunks (m.disk dst w) in
      let sound : IsSound rig c = record {
        lawful = pair.lawful c chunks w;
        has_slots = has_slots;
        small_slots = small;
      } in
      ap (λ b. b i) (pair.stored out.shared.dst w)
      ∙ run_workers_exact rig c (m.disk src w) sound chunks (m.disk dst w) i fits (honest w)
          (returned_ok out.result e)

  pub run_copy_exact :
      (w : m.World) (i : ℕ)
      → (run_copy m src dst chunks c w).0 ≡ ok tt
      → (m.disk dst (run_copy m src dst chunks c w).1 i
          ≡ (if covers chunks i then m.disk src w i else m.disk dst w i))
        × (m.disk src (run_copy m src dst chunks c w).1 i ≡ m.disk src w i)
  unfolding run_copy open_direct copy_chunks
  run_copy_exact w i e =
      let (u, opened_src, rest, last) =
        seq_ok (open_direct m src read) (open_direct m dst write >> copy_chunks m src dst chunks c)
          w tt e in
      let w1 = (m.open_direct read src w).1 in
      let (v, opened_dst, rest', last') =
        seq_ok (open_direct m dst write) (copy_chunks m src dst chunks c) w1 tt rest in
      let w2 = (m.open_direct write dst w1).1 in
      let dst_kept = pair.open_keeps_dst write dst w1 ∙ pair.open_keeps_dst read src w in
      let src_kept = pair.open_keeps_src write dst w1 ∙ pair.open_keeps_src read src w in
      let whole = last ∙ last' in
      (
        ap (λ v. m.disk dst v i) whole
            ∙ copy_chunks_exact w2 i rest'
            ∙ ap (λ b. if covers chunks i then b i else m.disk dst w2 i) src_kept
            ∙ ap (λ b. if covers chunks i then m.disk src w i else b i) dst_kept,
        ap (λ v. m.disk src v i) whole
            ∙ ap (λ b. b i)
                (pair.apart
                  (run_workers (m.rig src dst c chunks w2) c (m.disk src w2) chunks
                    (m.disk dst w2)).shared.dst
                  w2)
            ∙ ap (λ b. b i) src_kept,
      )

-- The slots of a sparse copy are large enough for its chunks, and the kernel can fill them.
module _ (m : Machine) (src dst : FilePath) (pair : IsVolumePair m src dst) where
  pub slots_exist : (g : ℕ) → 0 < (blocks_copy_config g).slots_per_ring
  unfolding blocks_copy_config
  slots_exist g = omega arith

  pub slots_small : (g : ℕ) → g ≤ 2 ^ 30 → (blocks_copy_config g).slot_size < 2 ^ 31
  unfolding blocks_copy_config blocks_slot_size
  slots_small g h = omega arith

  pub blockwise_fits :
      (g : ℕ) (cs : List CopyChunk)
      → All (IsBlockwise g) cs
      → All (FitsSlot (blocks_copy_config g).slot_size) cs
  unfolding blocks_copy_config
  blockwise_fits g [] h = tt
  blockwise_fits g (c ∷ cs) h = (h.0.within_slot, blockwise_fits g cs h.1)

  -- A sparse copy that succeeds leaves on the destination the bytes of the source in the blocks of the
  -- ranges, and all other bytes as they were, and it leaves the source as it was: for a positive
  -- granularity up to a gibibyte and ranges whose byte bounds fit into a u64, between two devices with
  -- contents of their own, whose kernel reads and writes as documented and answers operations in
  -- flight, in any order.
  pub copy_blocks_exact :
      (rs : List BlockRange) (g total i : ℕ) (w : m.World)
      → 0 < g
      → g ≤ 2 ^ 30
      → All (Fits g) rs
      → HonestCopy m src dst (blocks_copy_config g) (prepare_chunks rs g)
      → (copy_blocks m src dst rs g w).0 ≡ ok total
      → (m.disk dst (copy_blocks m src dst rs g w).1 i
          ≡ (if has_block rs (i / g) then m.disk src w i else m.disk dst w i))
        × (m.disk src (copy_blocks m src dst rs g w).1 i ≡ m.disk src w i)
  unfolding copy_blocks
  copy_blocks_exact [] g total i w p small f h e = (refl, refl)
  copy_blocks_exact (r ∷ rs) g total i w p small f h e =
      let chunks = prepare_chunks (r ∷ rs) g in
      let c = blocks_copy_config g in
      let (u, copied, returned, last) =
        seq_ok (run_copy m src dst chunks c) (pure (mul64 (sum_blocks (r ∷ rs)) g)) w total e in
      let exact =
        run_copy_exact m src dst pair c chunks (slots_exist g) (slots_small g small)
          (blockwise_fits g chunks (prepare_chunks-IsBlockwise (r ∷ rs) g p f)) h w i copied in
      (
        ap (λ v. m.disk dst v i) last
            ∙ exact.0
            ∙ ap (λ b. if b then m.disk src w i else m.disk dst w i)
                (covers-prepare_chunks (r ∷ rs) g i p f),
        ap (λ v. m.disk src v i) last ∙ exact.1,
      )
