-- ===== src/Io/Ring/UserData.antt =====
-- `Phase`, `encode_user_data` and `decode_user_data` of src/io/uring.rs.
use Prim.Native.Nat.{
  ℕ, zero, suc, ◌+◌, ◌*◌, ◌/◌, ◌%◌, ◌^◌, ◌≤◌, ◌<◌, max, bit_or, digits, bit_or-bitwise,
}
use mathlib.Core.Path.{◌≡◌, refl, ◌∙◌}
use native.Mathlib.Omega.{arith}
use native.Mathlib.Nat.{pow-suc}

pub data Phase : Type 0 where
  free reading writing : Phase

-- `phase as u64`
abbrev pub phase_number : Phase → ℕ
phase_number free = 0
phase_number reading = 1
phase_number writing = 2

abbrev pub number_phase : ℕ → Phase
number_phase zero = free
number_phase (suc zero) = reading
number_phase (suc (suc zero)) = writing
number_phase _ = free

-- slot_id as u64 | ((phase as u64) << 32)
unfoldable pub encode_user_data : ℕ → Phase → ℕ
encode_user_data slot_id phase = bit_or slot_id (phase_number phase * 2 ^ 32)

-- (ud & 0xFFFF_FFFF, ud >> 32)
unfoldable pub decode_user_data : ℕ → ℕ × Phase
decode_user_data ud = (ud % 2 ^ 32, number_phase (ud / 2 ^ 32))

doubled : (p w : ℕ) → p * 2 ^ suc w ≡ 2 * (p * 2 ^ w)
doubled p w = rw (pow-suc 2 w) (omega arith)

-- Numbers with no binary digit in common, by recursion on the digits of the first.
disjoint_digits :
    (n w a p : ℕ) → a ≤ n → a < 2 ^ w → digits (λ b. b) max n a (p * 2 ^ w) ≡ a + p * 2 ^ w
disjoint_digits zero w zero p e h = omega arith
disjoint_digits zero w (suc a) p e h = absurd (omega arith)
disjoint_digits (suc n) w zero p e h = omega arith
disjoint_digits (suc n) zero (suc a) p e h = absurd (omega arith)
disjoint_digits (suc n) (suc w) (suc a) p e h =
    let even : p * 2 ^ suc w / 2 ≡ p * 2 ^ w = omega (arith, doubled p w) in
    let low : suc a / 2 < 2 ^ w = omega (arith, doubled 1 w) in
    rw even (omega (arith, disjoint_digits n w (suc a / 2) p (omega arith) low, doubled p w))

bit_or-add : (w a p : ℕ) → a < 2 ^ w → bit_or a (p * 2 ^ w) ≡ a + p * 2 ^ w
bit_or-add w a p h = bit_or-bitwise a (p * 2 ^ w) ∙ disjoint_digits a w a p (omega arith) h

number_phase-phase_number : (phase : Phase) → number_phase (phase_number phase) ≡ phase
number_phase-phase_number free = refl
number_phase-phase_number reading = refl
number_phase-phase_number writing = refl

-- A slot id below 2 ^ 32 and a phase come back from the user data of a submission unchanged.
pub decode-encode_user_data :
    (slot_id : ℕ) (phase : Phase)
    → slot_id < 2 ^ 32
    → decode_user_data (encode_user_data slot_id phase) ≡ (slot_id, phase)
unfolding encode_user_data decode_user_data
decode-encode_user_data slot_id phase h =
    let whole = bit_or-add 32 slot_id (phase_number phase) h in
    let low : (slot_id + phase_number phase * 2 ^ 32) % 2 ^ 32 ≡ slot_id = omega arith in
    let high : (slot_id + phase_number phase * 2 ^ 32) / 2 ^ 32 ≡ phase_number phase =
      omega arith in
    rw (whole, low, high, number_phase-phase_number phase)
