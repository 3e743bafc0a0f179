-- ===== src/Io/Volume/Total.antt =====
-- The number of bytes that `copy_blocks` of src/io/uring.rs returns.
use schelk.Base.{ℕ, ◌*◌, ◌<◌, ◌≤◌, ◌≡◌, refl, sym, ◌∙◌, ap, List, [], ◌∷◌, All, arith, ok}
use schelk.Base.Words.{u64_mod, add64_fits, mul64, mul64_fits}
use schelk.Io.Chunks.{BlockRange, prepare_chunks, total_len, total_blocks}
use schelk.Io.Chunks.Merge.{Fits}
use schelk.Io.Chunks.Bounds.{total_len-prepare_chunks}
use schelk.Machine.{Machine, FilePath}
use schelk.Effect.{pure}
use schelk.Effect.Laws.{seq_ok}
use schelk.Io.Volume.{copy_blocks, run_copy, sum_blocks, blocks_copy_config}

sum_blocks-total :
    (rs : List BlockRange) → total_blocks rs < u64_mod → sum_blocks rs ≡ total_blocks rs
sum_blocks-total [] h = refl
sum_blocks-total (r ∷ rs) h =
    rw (sum_blocks-total rs (omega arith)) (add64_fits r.len (total_blocks rs) h)

le_product : (n g : ℕ) → 0 < g → n ≤ n * g
le_product n g p = grind arith

module _ (m : Machine) (src dst : FilePath) where
  -- A sparse copy that succeeds returns the number of bytes of the chunks that it planned, for a
  -- positive granularity and ranges whose byte bounds and whose bytes in total fit into a u64.
  pub copy_blocks-total_len :
      (rs : List BlockRange) (g total : ℕ) (w : m.World)
      → 0 < g
      → All (Fits g) rs
      → total_blocks rs * g < u64_mod
      → (copy_blocks m src dst rs g w).0 ≡ ok total
      → total ≡ total_len (prepare_chunks rs g)
  unfolding copy_blocks prepare_chunks
  copy_blocks-total_len [] g total w p f h e = cc
  copy_blocks-total_len (r ∷ rs) g total w p f h e =
      let all = r ∷ rs in
      let (u, copied, returned, last) =
        seq_ok (run_copy m src dst (prepare_chunks (r ∷ rs) g) (blocks_copy_config g))
          (pure (mul64 (sum_blocks (r ∷ rs)) g)) w total e in
      let same : mul64 (sum_blocks (r ∷ rs)) g ≡ total = cc in
      let few : total_blocks (r ∷ rs) < u64_mod =
        omega (arith, le_product (total_blocks (r ∷ rs)) g p, h) in
      sym same
      ∙ ap (λ n. mul64 n g) (sum_blocks-total (r ∷ rs) few)
      ∙ mul64_fits (total_blocks (r ∷ rs)) g h
      ∙ sym (total_len-prepare_chunks (r ∷ rs) g p f)
