-- ===== src/Io/Ring/Buffers.antt =====
-- src/io/uring.rs: `AlignedBufferPool`, the memory that a worker cuts into a buffer for each slot. The
-- allocator is a parameter; an address is a number.
use schelk.Base.{
  ℕ, zero, suc, ◌+◌, ◌*◌, ◌/◌, ◌%◌, ◌^◌, ◌≤◌, ◌<◌, ◌≡◌, refl, Bool, true, false, Option, none, some,
  ltb, if◌then◌else◌, Result, ok, err, arith, lt→ltb, sym, ap, ◌∙◌,
}
use schelk.Base.Words.{add64, mul64, add64_fits, mul64_fits}
use schelk.Error.{Error, panicked, pool_overflow, invalid_layout, out_of_memory}

-- std::alloc::Layout: how much memory, and the power of two that its address is a multiple of.
pub record Layout : Type 0 where
  pub size : ℕ
  pub align : ℕ

pub record AlignedBufferPool : Type 0 where
  pub base : ℕ
  pub slot_size : ℕ
  pub slot_count : ℕ
  pub layout : Layout

abbrev checked_mul : ℕ → ℕ → Option ℕ
checked_mul a b = if ltb (a * b) (2 ^ 64) then some (a * b) else none

-- Layout::from_size_align(total, 4096): the size, rounded up to the alignment, is at most isize::MAX.
abbrev fits_layout : ℕ → Bool
fits_layout total = ltb ((total + 4095) / 4096 * 4096) (2 ^ 63)

abbrev allocated : ℕ → ℕ → Layout → Option ℕ → Result Error AlignedBufferPool
allocated slot_size slot_count layout none = err out_of_memory
allocated slot_size slot_count layout (some base) =
    ok (record { base = base; slot_size = slot_size; slot_count = slot_count; layout = layout })

abbrev with_total : (Layout → Option ℕ) → ℕ → ℕ → Option ℕ → Result Error AlignedBufferPool
with_total alloc slot_size slot_count none = err pool_overflow
with_total alloc slot_size slot_count (some total) =
    let layout : Layout = record { size = total; align = 4096 } in
    if fits_layout total
    then allocated slot_size slot_count layout (alloc layout)
    else err invalid_layout

-- The allocator is asked for memory of a layout, and answers none if there is no memory.
unfoldable pub new : (Layout → Option ℕ) → ℕ → ℕ → Result Error AlignedBufferPool
new alloc slot_size slot_count =
    with_total alloc slot_size slot_count (checked_mul slot_size slot_count)

-- The assertion on the index panics. The product and the address are those of a 64-bit machine.
unfoldable pub slot_ptr : AlignedBufferPool → ℕ → Result Error ℕ
unfolding add64 mul64
slot_ptr pool idx =
    if ltb idx pool.slot_count
    then ok (add64 pool.base (mul64 idx pool.slot_size))
    else err panicked

mul_lt : (i j s : ℕ) → i < j → i * s + s ≤ j * s
mul_lt i j s h = grind arith

-- What `new` has been given by the allocator.
record IsAllocated (alloc : Layout → Option ℕ) (slot_size slot_count : ℕ) (pool : AlignedBufferPool)
    : Type 0 where
  same_size : pool.slot_size ≡ slot_size
  same_count : pool.slot_count ≡ slot_count
  whole : pool.layout ≡ record { size = slot_size * slot_count; align = 4096 }
  given : alloc pool.layout ≡ some pool.base

allocated_sound :
    (alloc : Layout → Option ℕ) (slot_size slot_count : ℕ) (pool : AlignedBufferPool) (o : Option ℕ)
    → let layout : Layout = record { size = slot_size * slot_count; align = 4096 } in
      alloc layout ≡ o
      → allocated slot_size slot_count layout o ≡ ok pool
      → IsAllocated alloc slot_size slot_count pool
allocated_sound alloc slot_size slot_count pool none e h = absurd (cc)
allocated_sound alloc slot_size slot_count pool (some base) e h =
    let layout : Layout = record { size = slot_size * slot_count; align = 4096 } in
    let made : AlignedBufferPool = record {
      base = base;
      slot_size = slot_size;
      slot_count = slot_count;
      layout = layout;
    } in
    let same : made ≡ pool = cc in
    record {
      same_size = sym (ap (λ p. p.slot_size) same);
      same_count = sym (ap (λ p. p.slot_count) same);
      whole = sym (ap (λ p. p.layout) same);
      given = sym (ap (λ p. alloc p.layout) same) ∙ e ∙ ap (λ p. some p.base) same;
    }

laid_out :
    (fits : Bool) (r : Result Error AlignedBufferPool) (pool : AlignedBufferPool)
    → (if fits then r else err invalid_layout) ≡ ok pool
    → r ≡ ok pool
laid_out true r pool h = h
laid_out false r pool h = absurd (cc)

multiplied :
    (small : Bool) (alloc : Layout → Option ℕ) (slot_size slot_count total : ℕ)
    (pool : AlignedBufferPool)
    → with_total alloc slot_size slot_count (if small then some total else none) ≡ ok pool
    → let layout : Layout = record { size = total; align = 4096 } in
      allocated slot_size slot_count layout (alloc layout) ≡ ok pool
multiplied true alloc slot_size slot_count total pool h =
    let layout : Layout = record { size = total; align = 4096 } in
    laid_out (fits_layout total) (allocated slot_size slot_count layout (alloc layout)) pool h
multiplied false alloc slot_size slot_count total pool h = absurd (cc)

new-IsAllocated :
    (alloc : Layout → Option ℕ) (slot_size slot_count : ℕ) (pool : AlignedBufferPool)
    → new alloc slot_size slot_count ≡ ok pool
    → IsAllocated alloc slot_size slot_count pool
unfolding new
new-IsAllocated alloc slot_size slot_count pool h =
    let total = slot_size * slot_count in
    let layout : Layout = record { size = total; align = 4096 } in
    allocated_sound alloc slot_size slot_count pool (alloc layout) refl
      (multiplied (ltb total (2 ^ 64)) alloc slot_size slot_count total pool h)

-- The allocator answers with an address that is aligned as it was asked, of memory that ends within the
-- address space.
pub record IsAllocator (alloc : Layout → Option ℕ) : Type 0 where
  pub aligned : (layout : Layout) (base : ℕ) → alloc layout ≡ some base → base % layout.align ≡ 0
  pub in_space :
      (layout : Layout) (base : ℕ) → alloc layout ≡ some base → base + layout.size < 2 ^ 64

product : (n s : ℕ) → n * s ≡ s * n
product n s = grind arith

aligned_slot : (base i s : ℕ) → base % 4096 ≡ 0 → s % 4096 ≡ 0 → (base + i * s) % 4096 ≡ 0
aligned_slot base zero s h k = omega (arith, h)
aligned_slot base (suc i) s h k =
    let next : suc i * s ≡ i * s + s = grind arith in omega (arith, aligned_slot base i s h k, next)

slot_ptr_ok :
    (pool : AlignedBufferPool) (idx : ℕ)
    → idx < pool.slot_count
    → pool.base + idx * pool.slot_size < 2 ^ 64
    → slot_ptr pool idx ≡ ok (pool.base + idx * pool.slot_size)
unfolding slot_ptr
slot_ptr_ok pool idx h space =
    let product = mul64_fits idx pool.slot_size (omega (arith, space)) in
    let sum = add64_fits pool.base (idx * pool.slot_size) space in
    rw (lt→ltb idx pool.slot_count h, product, sum) refl

-- The memory that a pool has been given holds the buffers of two slots, one after the other, without
-- overlap, and they start at multiples of 4096: for a pool that could be made, a slot size that is a
-- multiple of 4096, and an allocator whose memory is aligned as it was asked and ends within the address
-- space. The memory is from the base of the pool on, as long as was asked of the allocator.
pub new-slot_ptr :
    (alloc : Layout → Option ℕ) (slot_size slot_count : ℕ) (pool : AlignedBufferPool) (i j : ℕ)
    → IsAllocator alloc
    → slot_size % 4096 ≡ 0
    → new alloc slot_size slot_count ≡ ok pool
    → i < j
    → j < slot_count
    → (alloc pool.layout ≡ some pool.base)
      × (a : ℕ) × (b : ℕ) × (slot_ptr pool i ≡ ok a)
      × (slot_ptr pool j ≡ ok b)
      × (pool.base ≤ a)
      × (a + slot_size ≤ b)
      × (b + slot_size ≤ pool.base + pool.layout.size)
      × (a % 4096 ≡ 0)
      × (b % 4096 ≡ 0)
new-slot_ptr alloc slot_size slot_count pool i j law k h lt inside =
    let made = new-IsAllocated alloc slot_size slot_count pool h in
    let base_aligned : pool.base % 4096 ≡ 0 =
      sym (ap (λ l. pool.base % l.align) made.whole)
      ∙ law.aligned pool.layout pool.base made.given in
    let asked : pool.layout.size ≡ slot_size * slot_count = ap (λ l. l.size) made.whole in
    let space = law.in_space pool.layout pool.base made.given in
    let size : pool.slot_size ≡ slot_size = made.same_size in
    let total = product slot_count slot_size in
    let slot = λ (n : ℕ) (h : n < slot_count).
      slot_ptr_ok pool n (rw made.same_count h)
        (rw size (omega (arith, mul_lt n slot_count slot_size h, total, asked, space)))
      ∙ ap (λ s. ok (pool.base + n * s)) size in
    (
      made.given,
      pool.base + i * slot_size,
      pool.base + j * slot_size,
      slot i (omega arith),
      slot j inside,
      omega arith,
      omega (arith, mul_lt i j slot_size lt),
      omega (arith, mul_lt j slot_count slot_size inside, total, asked),
      aligned_slot pool.base i slot_size base_aligned k,
      aligned_slot pool.base j slot_size base_aligned k,
    )
