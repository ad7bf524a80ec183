-- ===== src/Util/Shifts.antt =====
-- asr and ror of util.c as sums of fields.
use arm_simulator.Base.{
  lt→ltb, ℕ, suc, ◌+◌, ◌-◌, ◌*◌, ◌/◌, ◌%◌, ◌^◌, ◌≤◌, ◌<◌, ◌≡◌, ap, ◌∙◌, arith, true, ltb,
}
use native.Mathlib.Nat.{add-mul, add_comm}
use arm_simulator.Base.Bits.{bit_or_fields_left, bit_or-zero}
use arm_simulator.Base.Powers.{div-lt, pow-pos, pow_le, halves, mul-mod-mul}
use arm_simulator.Util.{get_bit, asr, ror}

module _ (wide : ℕ → ℕ → ℕ) (x : ℕ) (h : x < 2 ^ 32) where
  -- asr and ror of util.c at 1 to 31 places.
  pub asr-low : (k : ℕ) → x < 2 ^ 31 → asr wide x k ≡ x / 2 ^ k
  unfolding asr
  asr-low k low = let sign : get_bit x 31 ≡ 0 = omega arith in rw sign (bit_or-zero (x / 2 ^ k))

  pub asr-high :
      (n : ℕ)
      → 2 ^ 31 ≤ x
      → n < 31
      → asr wide x (suc n) ≡ x / 2 ^ suc n + (2 ^ 32 - 2 ^ (32 - suc n))
  unfolding asr
  asr-high n high le =
      let k = 32 - suc n in
      let sign : get_bit x 31 ≡ 1 = omega arith in
      let inside : ltb k 32 ≡ true = lt→ltb _ _ (omega arith) in
      let whole : 2 ^ suc n - 1 + 1 ≡ 2 ^ suc n = omega (arith, pow-pos (suc n)) in
      let pow-le : 2 ^ k ≤ 2 ^ 31 = pow_le k 31 (omega arith) in
      let room : 2 ^ 32 - 2 ^ k ≡ (2 ^ suc n - 1) * 2 ^ k = omega (
        arith,
        halves 32 (suc n) (omega arith),
        add-mul (2 ^ suc n - 1) 1 (2 ^ k),
        ap (λ (y : ℕ). y * 2 ^ k) whole,
      ) in
      let ones : 0xFFFFFFFF * 2 ^ k % 2 ^ 32 ≡ (2 ^ suc n - 1) * 2 ^ k =
        omega (arith, room, pow-pos k, pow-le) in
      rw (sign, inside, ones, room)
        (bit_or_fields_left k (2 ^ suc n - 1) (x / 2 ^ suc n) (div-lt x (suc n) h (omega arith))
          ∙ add_comm ((2 ^ suc n - 1) * 2 ^ k) (x / 2 ^ suc n))

  pub ror-value :
      (n : ℕ) → n < 31 → ror wide x (suc n) ≡ x % 2 ^ suc n * 2 ^ (32 - suc n) + x / 2 ^ suc n
  unfolding ror
  ror-value n le =
      let k = 32 - suc n in
      let inside : ltb k 32 ≡ true = lt→ltb _ _ (omega arith) in
      let top : x * 2 ^ k % 2 ^ 32 ≡ x % 2 ^ suc n * 2 ^ k =
        rw (← halves 32 (suc n) (omega arith)) (mul-mod-mul x (2 ^ suc n) (2 ^ k) (pow-pos k)) in
      rw (inside, top)
        (bit_or_fields_left k (x % 2 ^ suc n) (x / 2 ^ suc n) (div-lt x (suc n) h (omega arith)))
