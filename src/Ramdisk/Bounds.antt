-- ===== src/Ramdisk/Bounds.antt =====
-- What the sizes of src/ramdisk.rs provide for.
use schelk.Base.{ℕ, refl, ◌+◌, ◌*◌, ◌/◌, ◌≤◌, ◌^◌, ◌≡◌, arith}
use schelk.Base.Words.{add64, mul64, add64_fits, mul64_fits}
use schelk.Ramdisk.{div_ceil, calculate_required_sizes, min_with_buffer}

-- The least size, for a number of era blocks with which nothing wraps.
least_lem :
    (e : ℕ) (h : e ≤ 2 ^ 43)
    → mul64 (add64 (add64 e (mul64 e 4 / 100)) 10) 4096 ≡ (e + e * 4 / 100 + 10) * 4096
least_lem e h =
    rw
      (
        mul64_fits e 4 (omega arith),
        add64_fits e (e * 4 / 100) (omega arith),
        add64_fits (e + e * 4 / 100) 10 (omega arith),
        mul64_fits (e + e * 4 / 100 + 10) 4096 (omega arith),
      )
      refl

buffered : (s : ℕ) → s ≤ 2 ^ 57 → mul64 s 110 / 100 ≡ s * 110 / 100
buffered s h = rw (mul64_fits s 110 (omega arith)) refl

ideal : (s : ℕ) → s ≤ 2 ^ 57 → add64 (mul64 s 115 / 100) 1048576 ≡ s * 115 / 100 + 1048576
ideal s h =
    rw (mul64_fits s 115 (omega arith), add64_fits (s * 115 / 100) 1048576 (omega arith)) refl

-- For volumes of at most 2^52 blocks nothing wraps: the least size has room for an era of four bytes
-- per block, in metadata blocks of 4096 bytes with 1018 eras each, and for ten blocks more.
pub calculate_required_sizes-room :
    (volume_size granularity : ℕ)
    → volume_size / granularity ≤ 2 ^ 52
    → let (min_size, ideal_size) = calculate_required_sizes volume_size granularity in
      (volume_size / granularity + 10180 ≤ 1018 * (min_size / 4096))
      × (min_size ≤ min_with_buffer volume_size granularity)
      × (min_with_buffer volume_size granularity ≤ ideal_size)
unfolding calculate_required_sizes min_with_buffer
calculate_required_sizes-room volume_size granularity h =
    let n = volume_size / granularity in
    let e = div_ceil n 1018 in
    let e_small : e ≤ 2 ^ 43 = omega (arith, h) in
    let s = (e + e * 4 / 100 + 10) * 4096 in
    let s_small : s ≤ 2 ^ 57 = omega (arith, e_small) in
    rw (least_lem e e_small, buffered s s_small, ideal s s_small)
      (omega arith, omega arith, omega arith)
