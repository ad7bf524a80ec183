-- ===== src/Util/Fields.antt =====
-- get_bits of util.h as a field: a quotient and a remainder.
use arm_simulator.Base.{
  ℕ, ◌+◌, ◌-◌, ◌*◌, ◌/◌, ◌%◌, ◌^◌, ◌≤◌, ◌≡◌, arith, bit_and, not32, shl32, shr32, ap, ◌∙◌,
}
use native.Mathlib.Nat.{add-mul, mod-eq_of_lt, mul-add-mod_self_right, mod-eq-sub-div-mul, mul_comm}
use arm_simulator.Base.Bits.{bit_and_mask}
use arm_simulator.Base.Powers.{pow-pos, pow_le, halves}
use arm_simulator.Util.{get_bits}

module _ (w : ℕ) (le : w ≤ 31) where
  pub low_ones : 0xFFFFFFFF % 2 ^ w ≡ 2 ^ w - 1
  low_ones =
      let q = 2 ^ (32 - w) in
      let more : q - 1 + 1 ≡ q = omega (arith, pow-pos (32 - w)) in
      let split : 0xFFFFFFFF ≡ (q - 1) * 2 ^ w + (2 ^ w - 1) = omega (
        arith,
        pow-pos w,
        add-mul (q - 1) 1 (2 ^ w),
        ap (λ (y : ℕ). y * 2 ^ w) more,
        halves 32 w (omega arith),
        mul_comm q (2 ^ w),
      ) in
      ap (λ (y : ℕ). y % 2 ^ w) split
      ∙ mul-add-mod_self_right (q - 1) (2 ^ w) (2 ^ w - 1)
      ∙ mod-eq_of_lt (omega (arith, pow-pos w))

  mask_lem : not32 (shl32 (shr32 0xFFFFFFFF w) w) ≡ 2 ^ w - 1
  mask_lem =
      omega (arith, mod-eq-sub-div-mul 0xFFFFFFFF (2 ^ w), low_ones, pow-pos w, pow_le w 31 le)

-- `get_bits x h l`, for fewer than 32 bits, is the number that bits `h` down to `l` of `x` form.
pub get_bits_lem : (x h l : ℕ) → h - l + 1 ≤ 31 → get_bits x h l ≡ x / 2 ^ l % 2 ^ (h - l + 1)
unfolding get_bits
get_bits_lem x h l le =
    let w = h - l + 1 in ap (bit_and (shr32 x l)) (mask_lem w le) ∙ bit_and_mask w (shr32 x l)
