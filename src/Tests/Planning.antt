-- ===== src/Tests/Planning.antt =====
-- Planned chunks, sizes and numbers at concrete inputs.
use schelk.Io.Ring.Buffers.{AlignedBufferPool, new, slot_ptr, Layout, IsAllocator, new-slot_ptr}
use schelk.Base.{
  if◌then◌else◌, Bool, true, false, leb, ◌==◌, ◌&&◌, none, ℕ, ok, Option, ◌%◌, ◌+◌, ◌*◌, ◌/◌, ◌≤◌,
  ◌^◌, ◌≡◌, refl, List, [], ◌∷◌, ltb, All, arith, some,
}
use schelk.Base.Text.{decimal, parse_unsigned, codes}
use schelk.Io.Chunks.{
  BlockRange, covers, sequential_chunks, prepare_chunks, has_block, IsBlockwise,
  full_copy_chunk_size,
}
use schelk.Io.Chunks.Merge.{Fits}
use schelk.Io.Chunks.Cover.{covers-sequential_chunks, covers-prepare_chunks}
use schelk.Io.Chunks.Bounds.{prepare_chunks-IsBlockwise}
use schelk.Io.Ring.UserData.{writing, encode_user_data, decode_user_data, decode-encode_user_data}
use schelk.Io.Copy.{partition}
use schelk.Io.Copy.Partition.{any_covers, any_covers-partition}
use schelk.Ramdisk.{calculate_required_sizes, min_with_buffer}
use schelk.Ramdisk.Bounds.{calculate_required_sizes-room}

-- Unsorted, with two adjacent ranges and an overlap.
abbrev ranges : List BlockRange
ranges =
    record { start = 70; len = 40 }
    ∷ record { start = 3; len = 2 }
    ∷ record { start = 5; len = 1 }
    ∷ record { start = 4; len = 1 }
    ∷ []

ranges_fit : All (Fits 4096) ranges
ranges_fit = (omega arith, (omega arith, (omega arith, (omega arith, tt))))

covers-prepare_chunks_example :
    covers (prepare_chunks ranges 4096) 300000 ≡ has_block ranges (300000 / 4096)
covers-prepare_chunks_example = covers-prepare_chunks ranges 4096 300000 (omega arith) ranges_fit

prepare_chunks-IsBlockwise_example : All (IsBlockwise 4096) (prepare_chunks ranges 4096)
prepare_chunks-IsBlockwise_example = prepare_chunks-IsBlockwise ranges 4096 (omega arith) ranges_fit

covers-sequential_chunks_example :
    covers (sequential_chunks 5000000 full_copy_chunk_size) 5000500
    ≡ ltb (5000500 / 4096 * 4096) 5000000
covers-sequential_chunks_example =
    covers-sequential_chunks 5000000 full_copy_chunk_size 5000500 (omega arith) (omega arith)

any_covers-partition_example :
    any_covers (partition (prepare_chunks ranges 4096)) 300000
    ≡ covers (prepare_chunks ranges 4096) 300000
any_covers-partition_example = any_covers-partition (prepare_chunks ranges 4096) 300000

decode-encode_user_data_example : decode_user_data (encode_user_data 63 writing) ≡ (63, writing)
decode-encode_user_data_example = decode-encode_user_data 63 writing (omega arith)

calculate_required_sizes-room_example :
    let (min_size, ideal_size) = calculate_required_sizes (2 ^ 40) 4096 in
    ((2 ^ 40) / 4096 + 10180 ≤ 1018 * (min_size / 4096))
    × (min_size ≤ min_with_buffer (2 ^ 40) 4096)
    × (min_with_buffer (2 ^ 40) 4096 ≤ ideal_size)
calculate_required_sizes-room_example = calculate_required_sizes-room (2 ^ 40) 4096 (omega arith)

prints : decimal 4194304 ≡ "4194304"
unfolding decimal
prints = refl

reads : parse_unsigned 65536 (codes "+4096") ≡ some 4096
unfolding parse_unsigned
reads = refl

-- An allocator with all its memory at 64 KiB, of 1 GiB at most, for pages.
abbrev alloc : Layout → Option ℕ
alloc layout = if layout.align == 4096 && leb layout.size (2 ^ 30) then some 65536 else none

alloc-IsAllocator : IsAllocator alloc
alloc-IsAllocator = record {
  aligned = λ layout base e.
      let (same, page, small) = answers layout base e in rw page (omega (arith, same));
  in_space = λ layout base e.
      let (same, page, small) = answers layout base e in omega (arith, same, small);
}
  where
    answers :
        (layout : Layout) (base : ℕ)
        → alloc layout ≡ some base
        → (65536 ≡ base) × (layout.align ≡ 4096) × (layout.size ≤ 2 ^ 30)
    answers layout base e = choose (layout.align == 4096) (leb layout.size (2 ^ 30)) refl refl e
      where
        choose :
            (page small : Bool)
            → (layout.align == 4096) ≡ page
            → leb layout.size (2 ^ 30) ≡ small
            → (if page && small then some 65536 else none) ≡ some base
            → (65536 ≡ base) × (layout.align ≡ 4096) × (layout.size ≤ 2 ^ 30)
        choose true true p q e =
            (let same : 65536 ≡ base = cc in same, ground (arith, p), ground (arith, q))
        choose true false p q e = absurd (cc)
        choose false small p q e = absurd (cc)

abbrev pool : AlignedBufferPool
pool = record {
  base = 65536;
  slot_size = 8192;
  slot_count = 64;
  layout = record { size = 524288; align = 4096 };
}

makes : new alloc 8192 64 ≡ ok pool
unfolding new
makes = refl

new-slot_ptr_example :
    (alloc pool.layout ≡ some pool.base)
    × (a : ℕ) × (b : ℕ) × (slot_ptr pool 2 ≡ ok a)
    × (slot_ptr pool 5 ≡ ok b)
    × (pool.base ≤ a)
    × (a + 8192 ≤ b)
    × (b + 8192 ≤ pool.base + pool.layout.size)
    × (a % 4096 ≡ 0)
    × (b % 4096 ≡ 0)
new-slot_ptr_example =
    new-slot_ptr alloc 8192 64 pool 2 5 alloc-IsAllocator refl makes (omega arith) (omega arith)
