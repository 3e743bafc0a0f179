-- ===== src/Io/Chunks/Split.antt =====
-- The loop that splits a range into chunks, counted in blocks.
use schelk.Base.{
  ℕ, zero, suc, ◌+◌, ◌-◌, ◌*◌, ◌/◌, ◌≤◌, ◌<◌, min, max, ◌≡◌, refl, ap, false, [], ◌∷◌, lt→ltb, ◌==◌,
  if◌then◌else◌, arith,
}
use native.Mathlib.Nat.{zero-mul}
use schelk.Base.Words.{u64_mod, add64, mul64, add64_fits, mul64_fits}
use schelk.Io.Chunks.{BlockRange, next_len, split_loop, split_range, blocks_slot_size}

-- The length of the next chunk, counted in blocks.
pub next_blocks : ℕ → ℕ → ℕ
next_blocks g k = max 1 (min (min (k * g) (max (256 * 1024) g)) (1024 * 1024) / g)

div-mul-le : (a g : ℕ) → 0 < g → a / g * g ≤ a
div-mul-le a g p = grind arith

pub mul_le_mono : (a b g : ℕ) → a ≤ b → a * g ≤ b * g
mul_le_mono a b g h = grind arith

pub mul_le_cancel : (a b g : ℕ) → 0 < g → a * g ≤ b * g → a ≤ b
mul_le_cancel a b g p h = grind arith

le_mul_self : (g k : ℕ) → 0 < k → g ≤ k * g
le_mul_self g k q = grind arith

pub le_self_mul : (k g : ℕ) → 0 < g → k ≤ k * g
le_self_mul k g p = grind arith

pos_mul : (g q : ℕ) → 0 < g → 0 < q → (q * g == 0) ≡ false
pos_mul g q p h = let pos : 0 < q * g = omega (arith, le_mul_self g q h) in ground arith

rounded :
    (g k q : ℕ)
    → 0 < g
    → 0 < k
    → q * g ≤ k * g
    → (min (if q * g == 0 then g else q * g) (k * g) ≡ max 1 q * g) × (max 1 q ≤ k)
rounded g k zero p h e = rw (zero-mul g) (omega (arith, le_mul_self g k h), omega arith)
rounded g k (suc q) p h e =
    rw (pos_mul g (suc q) p (omega arith)) (ground (arith, mul_le_cancel (suc q) k g p e))

-- A chunk is a whole number of blocks, at least one, and no more than are left.
pub next_len-blocks :
    (g k : ℕ)
    → 0 < g
    → 0 < k
    → (next_len g (k * g) ≡ next_blocks g k * g) × (0 < next_blocks g k) × (next_blocks g k ≤ k)
unfolding next_len next_blocks
next_len-blocks g k p h =
    let c : ℕ = min (min (k * g) (max (256 * 1024) g)) (1024 * 1024) in
    let r = rounded g k (c / g) p h (omega (arith, div-mul-le c g p)) in (r.0, omega arith, r.1)

rejoin : (n k : ℕ) → k ≤ n → k + (n - k) ≡ n
rejoin n k h = omega arith

max-suc : (q : ℕ) → max 1 (suc q) ≡ suc q
max-suc q = omega arith

largest : (q g m : ℕ) → q * g ≤ m → g ≤ m → max 1 q * g ≤ (m + 4095) / 4096 * 4096
largest zero g m h e = omega arith
largest (suc q) g m h e = rw (max-suc q) (omega arith)

-- One round of the loop, in blocks.
pub split_loop_step :
    (fuel g o n k : ℕ)
    → 0 < g
    → k < n
    → o + n * g < u64_mod
    → let m = next_blocks g (n - k) in
      (split_loop (suc fuel) g o (n * g) (k * g)
        ≡ record { offset = o + k * g; len = m * g } ∷ split_loop fuel g o (n * g) ((k + m) * g))
      × (0 < m)
      × (k + m ≤ n)
unfolding split_loop
split_loop_step fuel g o n k p h f =
    let r = next_len-blocks g (n - k) p (omega arith) in
    let off : k * g < n * g = grind arith in
    let whole : add64 o (k * g) ≡ o + k * g = add64_fits o (k * g) (omega arith) in
    let left : n * g - k * g ≡ (n - k) * g =
      omega (arith, ap (λ (t : ℕ). t * g) (rejoin n k (omega arith))) in
    let next : k * g + next_blocks g (n - k) * g ≡ (k + next_blocks g (n - k)) * g = omega arith in
    (
      rw (split_loop, lt→ltb (k * g) (n * g) off) (rw (whole, left, r.0, next)),
      r.1,
      omega (arith, r.2),
    )

pub split_loop_end : (fuel g o n k : ℕ) → n ≤ k → k ≤ n → split_loop fuel g o (n * g) (k * g) ≡ []
unfolding split_loop
split_loop_end zero g o n k h e = refl
split_loop_end (suc fuel) g o n k h e = let same : k ≡ n = omega arith in rw same (ground arith)

-- A range is split from block 0 on, with fuel for as many rounds as it has bytes.
pub split_range-loop :
    (g : ℕ) (r : BlockRange)
    → (r.start + r.len) * g < u64_mod
    → split_range g r ≡ split_loop (r.len * g) g (r.start * g) (r.len * g) (0 * g)
unfolding split_range
split_range-loop g r f =
    let start : mul64 r.start g ≡ r.start * g = mul64_fits r.start g (omega arith) in
    let len : mul64 r.len g ≡ r.len * g = mul64_fits r.len g (omega arith) in
    let nothing : 0 ≡ 0 * g = omega arith in
    rw (split_range, start, len) (ap (split_loop (r.len * g) g (r.start * g) (r.len * g)) nothing)

-- So many blocks fit into a slot.
pub next_blocks-le_slot : (g k : ℕ) → 0 < g → next_blocks g k * g ≤ blocks_slot_size g
unfolding next_blocks blocks_slot_size
next_blocks-le_slot g k p =
    let c : ℕ = min (min (k * g) (max (256 * 1024) g)) (1024 * 1024) in
    let whole : c / g * g ≤ c = div-mul-le c g p in
    largest (c / g) g (max (256 * 1024) g) (omega arith) (omega arith)
