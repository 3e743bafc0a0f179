-- ===== src/Io/Chunks/Bounds.antt =====
-- The shape of the planned chunks, and their number of bytes.
use schelk.Base.{
  ℕ, zero, suc, ◌+◌, ◌-◌, ◌*◌, ◌%◌, ◌≤◌, ◌<◌, ◌≡◌, refl, ap, ◌∙◌, List, [], ◌∷◌, ◌++◌, ltb, ltb→lt,
  ltb→ge, min, ◌==◌, arith, All, All-append, Bool-cases, inl, inr,
}
use native.Mathlib.Nat.{mul-mod_left}
use schelk.Base.Words.{u64_mod, add64}
use schelk.Io.Chunks.{
  BlockRange, CopyChunk, sequential_loop, sequential_chunks, align_up, insert_range, sort_ranges,
  merge_from, merge_ranges, split_loop, split_range, split_ranges, prepare_chunks, total_len,
  total_blocks, IsBlockwise,
}
use schelk.Io.Chunks.Merge.{Fits, sort_ranges-All, merge_from-Fits, joined, joined-Fits}
use schelk.Io.Chunks.Split.{
  next_blocks, split_loop_step, split_loop_end, split_range-loop, le_self_mul, next_blocks-le_slot,
}

multiple_offset : (s k g : ℕ) → (s * g + k * g) % g ≡ 0
multiple_offset s k g =
    let sum : s * g + k * g ≡ (s + k) * g = omega arith in rw sum (mul-mod_left (s + k) g)

split_loop-IsBlockwise :
    (fuel g s n k : ℕ)
    → 0 < g
    → k ≤ n
    → s * g + n * g < u64_mod
    → All (IsBlockwise g) (split_loop fuel g (s * g) (n * g) (k * g))
unfolding split_loop
split_loop-IsBlockwise zero g s n k p h f = tt
split_loop-IsBlockwise (suc fuel) g s n k p h f = elim (Bool-cases (ltb k n)) [
  | inl lt ↦
      let (step, pos, le) = split_loop_step fuel g (s * g) n k p (ltb→lt k n lt) f in
      rw step (
        record {
          offset_blocks = multiple_offset s k g;
          len_blocks = mul-mod_left (next_blocks g (n - k)) g;
          nonempty = omega (arith, le_self_mul (next_blocks g (n - k)) g p);
          within_slot = next_blocks-le_slot g (n - k) p;
        },
        split_loop-IsBlockwise fuel g s n (k + next_blocks g (n - k)) p le f,
      )
  | inr ge ↦ rw (split_loop_end (suc fuel) g (s * g) n k (ltb→ge k n ge) h) tt
]

split_ranges-IsBlockwise :
    (g : ℕ) (rs : List BlockRange)
    → 0 < g
    → All (Fits g) rs
    → All (IsBlockwise g) (split_ranges g rs)
unfolding split_ranges
split_ranges-IsBlockwise g [] p f = tt
split_ranges-IsBlockwise g (r ∷ rs) p f =
    All-append (IsBlockwise g) (split_range g r) (split_ranges g rs)
      (rw (split_range-loop g r f.0)
        (split_loop-IsBlockwise (r.len * g) g r.start r.len 0 p (omega arith) (omega (arith, f.0))))
      (split_ranges-IsBlockwise g rs p f.1)

merge_ranges-Fits :
    (g : ℕ) (rs : List BlockRange) → 0 < g → All (Fits g) rs → All (Fits g) (merge_ranges rs)
unfolding merge_ranges
merge_ranges-Fits g [] p f = tt
merge_ranges-Fits g (r ∷ rs) p f = merge_from-Fits g r rs p f.0 f.1

-- Every chunk of a sparse copy starts and ends between blocks, has at least one byte, and fits into a
-- slot, so that `run_ring` never truncates it: for a positive granularity and ranges whose byte bounds
-- fit into a u64.
pub prepare_chunks-IsBlockwise :
    (rs : List BlockRange) (g : ℕ)
    → 0 < g
    → All (Fits g) rs
    → All (IsBlockwise g) (prepare_chunks rs g)
unfolding prepare_chunks
prepare_chunks-IsBlockwise [] g p f = tt
prepare_chunks-IsBlockwise (r ∷ rs) g p f =
    split_ranges-IsBlockwise g (merge_ranges (sort_ranges (r ∷ rs))) p
      (merge_ranges-Fits g (sort_ranges (r ∷ rs)) p (sort_ranges-All (Fits g) (r ∷ rs) f))

total_len-append : (xs ys : List CopyChunk) → total_len (xs ++ ys) ≡ total_len xs + total_len ys
total_len-append [] ys = omega arith
total_len-append (x ∷ xs) ys = omega (arith, total_len-append xs ys)

total_len-split_loop :
    (fuel g o n k : ℕ)
    → 0 < g
    → k ≤ n
    → n ≤ k + fuel
    → o + n * g < u64_mod
    → total_len (split_loop fuel g o (n * g) (k * g)) + k * g ≡ n * g
total_len-split_loop zero g o n k p h e f =
    let same : k ≡ n = omega arith in
    rw (split_loop_end 0 g o n k (omega arith) h, same) (omega arith)
total_len-split_loop (suc fuel) g o n k p h e f = elim (Bool-cases (ltb k n)) [
  | inl lt ↦
      let (step, pos, le) = split_loop_step fuel g o n k p (ltb→lt k n lt) f in
      rw step (
        omega
          (arith, total_len-split_loop fuel g o n (k + next_blocks g (n - k)) p le (omega arith) f))
  | inr ge ↦
      let same : k ≡ n = omega (arith, ltb→ge k n ge) in
      rw (split_loop_end (suc fuel) g o n k (ltb→ge k n ge) h, same) (omega arith)
]

total_len-split_ranges :
    (g : ℕ) (rs : List BlockRange)
    → 0 < g
    → All (Fits g) rs
    → total_len (split_ranges g rs) ≡ total_blocks rs * g
unfolding split_ranges
total_len-split_ranges g [] p f = omega arith
total_len-split_ranges g (r ∷ rs) p f =
    rw (total_len-append (split_range g r) (split_ranges g rs), split_range-loop g r f.0)
      (omega (
        arith,
        total_len-split_loop (r.len * g) g (r.start * g) r.len 0 p (omega arith)
            (omega (arith, le_self_mul r.len g p)) (omega (arith, f.0)),
        total_len-split_ranges g rs p f.1,
      ))

insert_range-total_blocks :
    (r : BlockRange) (rs : List BlockRange)
    → total_blocks (insert_range r rs) ≡ r.len + total_blocks rs
unfolding insert_range
insert_range-total_blocks r [] = refl
insert_range-total_blocks r (s ∷ rs) = ground (arith, insert_range-total_blocks r rs)

sort_ranges-total_blocks : (rs : List BlockRange) → total_blocks (sort_ranges rs) ≡ total_blocks rs
unfolding sort_ranges
sort_ranges-total_blocks [] = refl
sort_ranges-total_blocks (r ∷ rs) =
    omega (arith, insert_range-total_blocks r (sort_ranges rs), sort_ranges-total_blocks rs)

merge_from-total_blocks :
    (g : ℕ) (last : BlockRange) (rs : List BlockRange)
    → 0 < g
    → Fits g last
    → All (Fits g) rs
    → total_blocks (merge_from last rs) ≡ last.len + total_blocks rs
unfolding merge_from
merge_from-total_blocks g last [] p h hs = refl
merge_from-total_blocks g last (r ∷ rs) p h hs =
    elim (Bool-cases (add64 last.start last.len == r.start)) [
      | inl e ↦
          rw (e, merge_from)
            (omega (
              arith,
              joined g last r p h hs.0 e,
              merge_from-total_blocks g (record last { len = add64 last.len r.len }) rs p
                  (joined-Fits g last r p h hs.0 e) hs.1,
            ))
      | inr e ↦ rw (e, merge_from) (omega (arith, merge_from-total_blocks g r rs p hs.0 hs.1))
    ]

merge_ranges-total_blocks :
    (g : ℕ) (rs : List BlockRange)
    → 0 < g
    → All (Fits g) rs
    → total_blocks (merge_ranges rs) ≡ total_blocks rs
unfolding merge_ranges
merge_ranges-total_blocks g [] p f = refl
merge_ranges-total_blocks g (r ∷ rs) p f = merge_from-total_blocks g r rs p f.0 f.1

-- The chunks of a sparse copy have as many bytes as the ranges have blocks, times the
-- granularity, with overlaps counted each time: for ranges whose byte bounds fit into a u64.
pub total_len-prepare_chunks :
    (rs : List BlockRange) (g : ℕ)
    → 0 < g
    → All (Fits g) rs
    → total_len (prepare_chunks rs g) ≡ total_blocks rs * g
unfolding prepare_chunks
total_len-prepare_chunks [] g p f = omega arith
total_len-prepare_chunks (r ∷ rs) g p f =
    let fits = sort_ranges-All (Fits g) (r ∷ rs) f in
    let sorted : List BlockRange = sort_ranges (r ∷ rs) in
    total_len-split_ranges g (merge_ranges sorted) p (merge_ranges-Fits g sorted p fits)
    ∙ ap (λ n. n * g)
        (merge_ranges-total_blocks g sorted p fits ∙ sort_ranges-total_blocks (r ∷ rs))

sequential_loop-small :
    (fuel c n off : ℕ) → All (λ chunk. chunk.len ≤ c) (sequential_loop fuel c n off)
unfolding sequential_loop
sequential_loop-small zero c n off = tt
sequential_loop-small (suc fuel) c n off = elim (Bool-cases (ltb off n)) [
  | inl lt ↦
      rw (sequential_loop, lt) (omega arith, sequential_loop-small fuel c n (off + min c (n - off)))
  | inr ge ↦ rw (sequential_loop, ge) tt
]

-- No chunk of a full copy is longer than the chunk size.
pub sequential_chunks-small : (size c : ℕ) → All (λ chunk. chunk.len ≤ c) (sequential_chunks size c)
unfolding sequential_chunks
sequential_chunks-small size c = sequential_loop-small (align_up size) c (align_up size) 0
