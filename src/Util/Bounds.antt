-- ===== src/Util/Bounds.antt =====
-- asr, ror and get_bits of util.c and util.h as values of 32 bits.
use arm_simulator.Base.{ℕ, ◌-◌, ◌^◌, ◌<◌, ◌≡◌, ◌⊎◌, arith, shr32}
use native.Mathlib.Nat.{div-le_self}
use arm_simulator.Base.Bits.{bit_and-lt, bit_or-lt}
use arm_simulator.Util.{get_bits, shl, asr, ror}

pub shr32-lt : (x k : ℕ) → x < 2 ^ 32 → shr32 x k < 2 ^ 32
shr32-lt x k h = omega (arith, div-le_self x (2 ^ k))

pub get_bits-lt : (x h l : ℕ) → x < 2 ^ 32 → get_bits x h l < 2 ^ 32
unfolding get_bits
get_bits-lt x h l p = bit_and-lt 32 _ _ (shr32-lt x l p) (omega arith)

module _ (wide : ℕ → ℕ → ℕ) (cases : (x k : ℕ) → (wide x k ≡ x) ⊎ (wide x k ≡ 0)) where
  shl-lt : (x k : ℕ) → x < 2 ^ 32 → shl wide x k < 2 ^ 32
  shl-lt x k h = ground (arith, cases x k)

  pub asr-lt : (x k : ℕ) → x < 2 ^ 32 → asr wide x k < 2 ^ 32
  unfolding asr
  asr-lt x k h =
      bit_or-lt 32 _ _ (shr32-lt x k h) (ground (arith, shl-lt 0xFFFFFFFF (32 - k) (omega arith)))

  pub ror-lt : (x k : ℕ) → x < 2 ^ 32 → ror wide x k < 2 ^ 32
  unfolding ror
  ror-lt x k h = bit_or-lt 32 _ _ (shr32-lt x k h) (shl-lt x (32 - k) h)
