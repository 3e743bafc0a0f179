-- ===== src/Io/Copy/Partition.antt =====
-- The partition of the chunks among the workers of src/io/uring.rs.
use schelk.Base.{
  ℕ, zero, suc, ◌+◌, ◌-◌, ◌/◌, ◌<◌, min, ◌≡◌, refl, ap, ◌∙◌, Bool, false, ◌||◌, List, [], ◌∷◌,
  arith, All, All-append, length,
}
use schelk.Io.Chunks.{CopyChunk, covers}
use schelk.Io.Chunks.Cover.{covers-append}
use schelk.Io.Copy.{push_at, partition_loop, partition, no_chunks, ring_count, div_ceil}

abbrev pub any_covers : List (List CopyChunk) → ℕ → Bool
any_covers [] i = false
any_covers (part ∷ parts) i = covers part i || any_covers parts i

length-push_at :
    (id : ℕ) (chunk : CopyChunk) (parts : List (List CopyChunk))
    → length (push_at id chunk parts) ≡ length parts
unfolding push_at
length-push_at id chunk [] = refl
length-push_at zero chunk (part ∷ parts) = refl
length-push_at (suc id) chunk (part ∷ parts) = ap suc (length-push_at id chunk parts)

any_covers-push_at :
    (id : ℕ) (chunk : CopyChunk) (parts : List (List CopyChunk)) (i : ℕ)
    → id < length parts
    → any_covers (push_at id chunk parts) i ≡ (any_covers parts i || covers (chunk ∷ []) i)
unfolding push_at
any_covers-push_at id chunk [] i h = absurd (omega arith)
any_covers-push_at zero chunk (part ∷ parts) i h = ground (arith, covers-append part (chunk ∷ []) i)
any_covers-push_at (suc id) chunk (part ∷ parts) i h =
    ground (arith, any_covers-push_at id chunk parts i)

any_covers-partition_loop :
    (n per count : ℕ) (chunks : List CopyChunk) (parts : List (List CopyChunk)) (i : ℕ)
    → length parts ≡ count
    → 0 < count
    → any_covers (partition_loop n per count chunks parts) i
      ≡ (any_covers parts i || covers chunks i)
unfolding partition_loop
any_covers-partition_loop n per count [] parts i e h = ground arith
any_covers-partition_loop n per count (chunk ∷ chunks) parts i e h =
    let id : ℕ = min (n / per) (count - 1) in
    ground (
      arith,
      any_covers-push_at id chunk parts i,
      any_covers-partition_loop (n + 1) per count chunks (push_at id chunk parts) i
          (length-push_at id chunk parts ∙ e) h,
    )

length-no_chunks : (n : ℕ) → length (no_chunks n) ≡ n
length-no_chunks zero = refl
length-no_chunks (suc n) = ap suc (length-no_chunks n)

any_covers-no_chunks : (n i : ℕ) → any_covers (no_chunks n) i ≡ false
any_covers-no_chunks zero i = refl
any_covers-no_chunks (suc n) i = any_covers-no_chunks n i

-- The partitions of the workers together cover exactly the bytes that the chunks cover.
pub any_covers-partition :
    (chunks : List CopyChunk) (i : ℕ) → any_covers (partition chunks) i ≡ covers chunks i
unfolding partition
any_covers-partition chunks i =
    let count : ℕ = ring_count (length chunks) in
    ground (
      arith,
      any_covers-partition_loop 0 (div_ceil (length chunks) count) count chunks (no_chunks count) i
          (length-no_chunks count) (omega arith),
      any_covers-no_chunks count i,
    )

module _ {κ} (P : CopyChunk → Type κ) where
  All-push_at :
      (id : ℕ) (chunk : CopyChunk) (parts : List (List CopyChunk))
      → All (All P) parts
      → P chunk
      → All (All P) (push_at id chunk parts)
  unfolding push_at
  All-push_at id chunk [] h p = tt
  All-push_at zero chunk (part ∷ parts) h p = (All-append P part (chunk ∷ []) h.0 (p, tt), h.1)
  All-push_at (suc id) chunk (part ∷ parts) h p = (h.0, All-push_at id chunk parts h.1 p)

  All-partition_loop :
      (n per count : ℕ) (chunks : List CopyChunk) (parts : List (List CopyChunk))
      → All (All P) parts
      → All P chunks
      → All (All P) (partition_loop n per count chunks parts)
  unfolding partition_loop
  All-partition_loop n per count [] parts h p = h
  All-partition_loop n per count (chunk ∷ chunks) parts h p =
      All-partition_loop (n + 1) per count chunks (push_at (min (n / per) (count - 1)) chunk parts)
        (All-push_at (min (n / per) (count - 1)) chunk parts h p.0) p.1

  All-no_chunks : (n : ℕ) → All (All P) (no_chunks n)
  All-no_chunks zero = tt
  All-no_chunks (suc n) = (tt, All-no_chunks n)

  -- What holds of the chunks holds of every worker's chunks.
  pub All-partition : (chunks : List CopyChunk) → All P chunks → All (All P) (partition chunks)
  unfolding partition
  All-partition chunks p =
      let count : ℕ = ring_count (length chunks) in
      All-partition_loop 0 (div_ceil (length chunks) count) count chunks (no_chunks count)
        (All-no_chunks count) p
