-- ===== src/Io/Chunks.antt =====
-- The chunk planning of src/io/uring.rs: `CopyChunk`, `sequential_chunks` and `prepare_chunks`,
-- and `BlockRange` of src/io/mod.rs.
pub mod Merge
mod Split
pub mod Cover
pub mod Bounds
use schelk.Base.{
  ℕ, zero, suc, ◌+◌, ◌-◌, ◌*◌, ◌/◌, ◌%◌, ◌≤◌, ◌<◌, ◌≡◌, min, max, Bool, true, false, ◌&&◌, ◌||◌,
  List, [], ◌∷◌, ◌++◌, ltb, leb, ◌==◌, if◌then◌else◌,
}
use schelk.Base.Words.{add64, mul64}

-- A range of blocks to copy.
pub record BlockRange : Type 0 where
  pub start : ℕ
  pub len : ℕ

pub record CopyChunk : Type 0 where
  pub offset : ℕ
  pub len : ℕ

abbrev pub full_copy_chunk_size : ℕ
full_copy_chunk_size = 2 * 1024 * 1024

abbrev pub blocks_copy_target_chunk : ℕ
blocks_copy_target_chunk = 256 * 1024

abbrev pub blocks_copy_max_chunk : ℕ
blocks_copy_max_chunk = 1024 * 1024

-- (size + 4095) & !4095
unfoldable pub align_up : ℕ → ℕ
align_up size = add64 size 4095 / 4096 * 4096

-- The loop `while offset < aligned_size`; each round advances by at least one byte.
unfoldable pub sequential_loop : ℕ → ℕ → ℕ → ℕ → List CopyChunk
sequential_loop zero chunk_size aligned_size offset = []
sequential_loop (suc fuel) chunk_size aligned_size offset = elim (ltb offset aligned_size) [
  | true ↦
      let len = min chunk_size (aligned_size - offset) in
      record { offset = offset; len = len }
      ∷ sequential_loop fuel chunk_size aligned_size (offset + len)
  | false ↦ []
]

unfoldable pub sequential_chunks : ℕ → ℕ → List CopyChunk
unfolding sequential_loop align_up add64
sequential_chunks size chunk_size = sequential_loop (align_up size) chunk_size (align_up size) 0

-- `sort_by_key(|r| r.start)`, which is stable.
unfoldable pub insert_range : BlockRange → List BlockRange → List BlockRange
insert_range r [] = r ∷ []
insert_range r (s ∷ rs) = if leb r.start s.start then r ∷ s ∷ rs else s ∷ insert_range r rs

unfoldable pub sort_ranges : List BlockRange → List BlockRange
unfolding insert_range
sort_ranges [] = []
sort_ranges (r ∷ rs) = insert_range r (sort_ranges rs)

-- The merge loop with the last range of `merged` at hand.
unfoldable pub merge_from : BlockRange → List BlockRange → List BlockRange
merge_from last [] = last ∷ []
merge_from last (r ∷ rs) = elim (add64 last.start last.len == r.start) [
  | true ↦ merge_from (record last { len = add64 last.len r.len }) rs
  | false ↦ last ∷ merge_from r rs
]

unfoldable pub merge_ranges : List BlockRange → List BlockRange
unfolding merge_from add64
merge_ranges [] = []
merge_ranges (r ∷ rs) = merge_from r rs

-- The length of the next chunk of a range of which `remaining` bytes are left.
unfoldable pub next_len : ℕ → ℕ → ℕ
next_len granularity remaining =
    let raw_len = min remaining (max blocks_copy_target_chunk granularity) in
    let capped = min raw_len blocks_copy_max_chunk in
    let aligned = capped / granularity * granularity in
    let chunk_len = if aligned == 0 then granularity else aligned in min chunk_len remaining

-- The loop `while off < byte_len` over one merged range.
unfoldable pub split_loop : ℕ → ℕ → ℕ → ℕ → ℕ → List CopyChunk
split_loop zero granularity byte_offset byte_len off = []
split_loop (suc fuel) granularity byte_offset byte_len off = elim (ltb off byte_len) [
  | true ↦
      let chunk_len = next_len granularity (byte_len - off) in
      record { offset = add64 byte_offset off; len = chunk_len }
      ∷ split_loop fuel granularity byte_offset byte_len (off + chunk_len)
  | false ↦ []
]

unfoldable pub split_range : ℕ → BlockRange → List CopyChunk
unfolding split_loop next_len add64 mul64
split_range granularity range =
    split_loop (mul64 range.len granularity) granularity (mul64 range.start granularity)
      (mul64 range.len granularity) 0

unfoldable pub split_ranges : ℕ → List BlockRange → List CopyChunk
unfolding split_range
split_ranges granularity [] = []
split_ranges granularity (r ∷ rs) = split_range granularity r ++ split_ranges granularity rs

-- The early return on an empty list gives what the rest of the function gives.
unfoldable pub prepare_chunks : List BlockRange → ℕ → List CopyChunk
unfolding sort_ranges merge_ranges split_ranges
prepare_chunks [] granularity = []
prepare_chunks (r ∷ rs) granularity = split_ranges granularity (merge_ranges (sort_ranges (r ∷ rs)))

-- A byte lies in one of the chunks.
abbrev pub covers : List CopyChunk → ℕ → Bool
covers [] i = false
covers (c ∷ cs) i = (leb c.offset i && ltb i (c.offset + c.len)) || covers cs i

-- A block lies in one of the ranges.
abbrev pub has_block : List BlockRange → ℕ → Bool
has_block [] b = false
has_block (r ∷ rs) b = (leb r.start b && ltb b (r.start + r.len)) || has_block rs b

-- The bytes of the chunks, and the blocks of the ranges, counted as often as they are listed.
abbrev pub total_len : List CopyChunk → ℕ
total_len [] = 0
total_len (c ∷ cs) = c.len + total_len cs

abbrev pub total_blocks : List BlockRange → ℕ
total_blocks [] = 0
total_blocks (r ∷ rs) = r.len + total_blocks rs

-- The slot size that `copy_blocks` chooses.
unfoldable pub blocks_slot_size : ℕ → ℕ
blocks_slot_size granularity =
    let slot_size = max blocks_copy_target_chunk granularity in (slot_size + 4095) / 4096 * 4096

-- How a chunk of a sparse copy must look: whole blocks, not empty, and no larger than a slot.
pub record IsBlockwise (granularity : ℕ) (c : CopyChunk) : Type 0 where
  pub offset_blocks : c.offset % granularity ≡ 0
  pub len_blocks : c.len % granularity ≡ 0
  pub nonempty : 0 < c.len
  pub within_slot : c.len ≤ blocks_slot_size granularity
