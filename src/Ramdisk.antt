-- ===== src/Ramdisk.antt =====
-- src/ramdisk.rs: the size that dm-era needs for its metadata.
pub mod Bounds
use schelk.Base.{ℕ, ◌+◌, ◌-◌, ◌*◌, ◌/◌, leb, ltb}
use schelk.Base.Words.{add64, mul64}
use schelk.Error.{ramdisk_too_small, panicked}
use schelk.Machine.{Machine, FilePath}
use schelk.Effect.{M, ◌>>=◌, ◌>>◌, ensure}
use schelk.Io.Volume.{get_size}

-- u64::div_ceil
abbrev pub div_ceil : ℕ → ℕ → ℕ
div_ceil a b = (a + b - 1) / b

-- The least and the ideal size, in bytes, for a granularity that is not 0.
unfoldable pub calculate_required_sizes : ℕ → ℕ → ℕ × ℕ
unfolding add64 mul64
calculate_required_sizes volume_size granularity =
    let nr_blocks = volume_size / granularity in
    let era_array_blocks = div_ceil nr_blocks 1018 in
    let btree_overhead_blocks = mul64 era_array_blocks 4 / 100 in
    let min_blocks = add64 (add64 era_array_blocks btree_overhead_blocks) 10 in
    let min_size = mul64 min_blocks 4096 in
    (min_size, add64 (mul64 min_size 115 / 100) (1024 * 1024))

-- The least size with a buffer of ten percent.
unfoldable pub min_with_buffer : ℕ → ℕ → ℕ
unfolding calculate_required_sizes
min_with_buffer volume_size granularity =
    mul64 (calculate_required_sizes volume_size granularity).0 110 / 100

module _ (m : Machine) where
  open m use {World}

  -- The division by a granularity of 0 panics. The warning for a size below the ideal one is not modelled.
  unfoldable pub validate_size : FilePath → ℕ → ℕ → M World (Unit {0})
  unfolding min_with_buffer get_size
  validate_size path volume_size granularity = do
    actual_size ← get_size m path
    ensure (ltb 0 granularity) panicked
    ensure (leb (min_with_buffer volume_size granularity) actual_size) ramdisk_too_small
