-- ===== src/Io/Chunks/Cover.antt =====
-- Which bytes the chunks cover that src/io/uring.rs plans.
use schelk.Base.{
  ℕ, zero, suc, ◌+◌, ◌-◌, ◌*◌, ◌/◌, ◌≤◌, ◌<◌, min, ◌≡◌, refl, ◌∙◌, ◌&&◌, ◌||◌, List, [], ◌∷◌, ◌++◌,
  ltb, leb, ltb→lt, ltb→ge, arith, All, Bool-cases, inl, inr,
}
use native.Mathlib.Nat.{le-div_iff_mul-le, div-lt_iff_lt-mul}
use schelk.Base.Words.{u64_mod, add64_fits}
use schelk.Io.Chunks.{
  BlockRange, CopyChunk, align_up, sequential_loop, sequential_chunks, sort_ranges, merge_ranges,
  split_loop, split_range, split_ranges, prepare_chunks, covers, has_block,
}
use schelk.Io.Chunks.Merge.{
  Fits, sort_ranges-has_block, sort_ranges-All, merge_from-has_block, merge_from-Fits,
}
use schelk.Io.Chunks.Split.{
  next_blocks, mul_le_mono, split_loop_step, split_loop_end, split_range-loop, le_self_mul,
}

pub covers-append :
    (xs ys : List CopyChunk) (i : ℕ) → covers (xs ++ ys) i ≡ (covers xs i || covers ys i)
covers-append [] ys i = refl
covers-append (x ∷ xs) ys i = ground (arith, covers-append xs ys i)

covers-sequential_loop :
    (fuel c n off i : ℕ)
    → 0 < c
    → n ≤ off + fuel
    → covers (sequential_loop fuel c n off) i ≡ (leb off i && ltb i n)
unfolding sequential_loop
covers-sequential_loop zero c n off i h e = ground arith
covers-sequential_loop (suc fuel) c n off i h e =
    ground (arith, covers-sequential_loop fuel c n (off + min c (n - off)) i)

pub align_up_lem :
    (size : ℕ) → size + 4095 < u64_mod → (size ≤ align_up size) × (align_up size < size + 4096)
unfolding align_up
align_up_lem size h = ground (arith, add64_fits size 4095)

pub covers_aligned :
    (size chunk_size i : ℕ)
    → 0 < chunk_size
    → covers (sequential_chunks size chunk_size) i ≡ ltb i (align_up size)
unfolding sequential_chunks
covers_aligned size c i h =
    ground (arith, covers-sequential_loop (align_up size) c (align_up size) 0 i h)

align_up-pages :
    (size i : ℕ) → size + 4095 < u64_mod → ltb i (align_up size) ≡ ltb (i / 4096 * 4096) size
unfolding align_up
align_up-pages size i h = ground (arith, add64_fits size 4095)

-- The chunks of a full copy cover a byte exactly when the page of 4096 bytes that it lies in begins
-- below the size, for a positive chunk size and a size that can be rounded up within a u64.
pub covers-sequential_chunks :
    (size chunk_size i : ℕ)
    → 0 < chunk_size
    → size + 4095 < u64_mod
    → covers (sequential_chunks size chunk_size) i ≡ ltb (i / 4096 * 4096) size
covers-sequential_chunks size c i h fits = covers_aligned size c i h ∙ align_up-pages size i fits

-- From block `k` on, the chunks of a range cover the rest of it.
covers-split_loop :
    (fuel g o n k i : ℕ)
    → 0 < g
    → k ≤ n
    → n ≤ k + fuel
    → o + n * g < u64_mod
    → covers (split_loop fuel g o (n * g) (k * g)) i ≡ (leb (o + k * g) i && ltb i (o + n * g))
covers-split_loop zero g o n k i p h e f =
    let same : k ≡ n = omega arith in
    rw (split_loop_end 0 g o n k (omega arith) h, same) (ground arith)
covers-split_loop (suc fuel) g o n k i p h e f = elim (Bool-cases (ltb k n)) [
  | inl lt ↦
      let (step, pos, le) = split_loop_step fuel g o n k p (ltb→lt k n lt) f in
      rw step (
        ground (
          arith,
          covers-split_loop fuel g o n (k + next_blocks g (n - k)) i p le (omega arith) f,
          mul_le_mono (k + next_blocks g (n - k)) n g le,
        ))
  | inr ge ↦
      rw (split_loop_end (suc fuel) g o n k (ltb→ge k n ge) h)
        (ground (arith, mul_le_mono n k g (ltb→ge k n ge)))
]

block_bytes :
    (g s l i : ℕ)
    → 0 < g
    → (leb (s * g) i && ltb i (s * g + l * g)) ≡ (leb s (i / g) && ltb (i / g) (s + l))
block_bytes g s l i p =
    let low = le-div_iff_mul-le {k = g} {x = s} {y = i} p in
    let high = div-lt_iff_lt-mul {k = g} {x = i} {y = s + l} p in
    ground (arith, low.0, low.1, high.0, high.1)

covers-split_range :
    (g : ℕ) (r : BlockRange) (i : ℕ)
    → 0 < g
    → Fits g r
    → covers (split_range g r) i ≡ (leb r.start (i / g) && ltb (i / g) (r.start + r.len))
covers-split_range g r i p f = rw (split_range-loop g r f) (
    covers-split_loop (r.len * g) g (r.start * g) r.len 0 i p (omega arith)
      (omega (arith, le_self_mul r.len g p)) (omega arith)
    ∙ ground (arith, block_bytes g r.start r.len i p))

covers-split_ranges :
    (g : ℕ) (rs : List BlockRange) (i : ℕ)
    → 0 < g
    → All (Fits g) rs
    → covers (split_ranges g rs) i ≡ has_block rs (i / g)
unfolding split_ranges
covers-split_ranges g [] i p f = refl
covers-split_ranges g (r ∷ rs) i p f =
    rw
      (
        covers-append (split_range g r) (split_ranges g rs) i,
        covers-split_range g r i p f.0,
        covers-split_ranges g rs i p f.1,
      )
      refl

merge_ranges-has_block :
    (g : ℕ) (rs : List BlockRange) (b : ℕ)
    → 0 < g
    → All (Fits g) rs
    → has_block (merge_ranges rs) b ≡ has_block rs b
unfolding merge_ranges
merge_ranges-has_block g [] b p f = refl
merge_ranges-has_block g (r ∷ rs) b p f = merge_from-has_block g r rs b p f.0 f.1

merge_ranges-Fits :
    (g : ℕ) (rs : List BlockRange) → 0 < g → All (Fits g) rs → All (Fits g) (merge_ranges rs)
unfolding merge_ranges
merge_ranges-Fits g [] p f = tt
merge_ranges-Fits g (r ∷ rs) p f = merge_from-Fits g r rs p f.0 f.1

-- The chunks of a sparse copy cover a byte exactly when its block is in one of the ranges, for a
-- positive granularity and ranges whose byte bounds fit into a u64, in any order, adjacent or
-- overlapping.
pub covers-prepare_chunks :
    (rs : List BlockRange) (g i : ℕ)
    → 0 < g
    → All (Fits g) rs
    → covers (prepare_chunks rs g) i ≡ has_block rs (i / g)
unfolding prepare_chunks
covers-prepare_chunks [] g i p f = refl
covers-prepare_chunks (r ∷ rs) g i p f =
    let sorted : List BlockRange = sort_ranges (r ∷ rs) in
    let fits = sort_ranges-All (Fits g) (r ∷ rs) f in
    covers-split_ranges g (merge_ranges sorted) i p (merge_ranges-Fits g sorted p fits)
    ∙ merge_ranges-has_block g sorted (i / g) p fits
    ∙ sort_ranges-has_block (r ∷ rs) (i / g)
