-- ===== src/Base/Words.antt =====
-- u64 arithmetic: a release build wraps. Each operation has a lemma for the case that it fits.
use Prim.Native.Nat.{ℕ, ◌+◌, ◌*◌, ◌%◌, ◌^◌, ◌<◌}
use mathlib.Core.Path.{◌≡◌}
use native.Mathlib.Omega.{arith}
use native.Mathlib.Nat.{mod-eq_of_lt}

abbrev pub u64_mod : ℕ
u64_mod = 2 ^ 64

unfoldable pub add64 : ℕ → ℕ → ℕ
add64 a b = (a + b) % u64_mod

unfoldable pub mul64 : ℕ → ℕ → ℕ
mul64 a b = (a * b) % u64_mod

pub add64_fits : (a b : ℕ) → a + b < u64_mod → add64 a b ≡ a + b
unfolding add64
add64_fits a b h = omega arith

pub mul64_fits : (a b : ℕ) → a * b < u64_mod → mul64 a b ≡ a * b
unfolding mul64
mul64_fits a b h = mod-eq_of_lt h
