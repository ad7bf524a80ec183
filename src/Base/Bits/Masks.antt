-- ===== src/Base/Bits/Masks.antt =====
-- Masks of low bits, and fields that do not overlap.
use Prim.Native.Nat.{
  ℕ, zero, suc, ◌+◌, ◌-◌, ◌*◌, ◌/◌, ◌%◌, ◌^◌, ◌≤◌, ◌<◌, bit_and, bit_or, bit_or-bitwise,
  bit_and-bitwise,
}
use mathlib.Core.Path.{◌≡◌, refl, sym, ap₂, ◌∙◌}
use native.Mathlib.Nat.{
  pow-suc, one-le-pow, div-eq_of_lt, mod-lt, mod-eq_of_lt, mul-div_cancel, mul-mod_left,
  div-add-mod', mul_assoc,
}
use native.Mathlib.Omega.{arith}
use arm_simulator.Base.Bits.Step.{bit_and_step, bit_or_step}
use arm_simulator.Base.Bits.Digits.{div-pow-suc, mod-pow-suc, bit_or-div, bit_or-mod, bit_and-div}

bit_and-zero_below : (n a : ℕ) → a ≤ n → bit_and a 0 ≡ 0
bit_and-zero_below n zero h = refl
bit_and-zero_below zero (suc a) h = absurd (omega arith)
bit_and-zero_below (suc n) (suc a) h =
    omega (arith, bit_and_step (suc a) 0, bit_and-zero_below n (suc a / 2) (omega arith))

pub bit_and-zero : (a : ℕ) → bit_and a 0 ≡ 0
bit_and-zero a = bit_and-zero_below a a (omega arith)

bit_or-zero_below : (n a : ℕ) → a ≤ n → bit_or a 0 ≡ a
bit_or-zero_below n zero h = refl
bit_or-zero_below zero (suc a) h = absurd (omega arith)
bit_or-zero_below (suc n) (suc a) h =
    omega (arith, bit_or_step (suc a) 0, bit_or-zero_below n (suc a / 2) (omega arith))

pub bit_or-zero : (a : ℕ) → bit_or a 0 ≡ a
bit_or-zero a = bit_or-zero_below a a (omega arith)

pub zero-bit_or : (b : ℕ) → bit_or 0 b ≡ b
zero-bit_or b = bit_or-bitwise 0 b

mask-half : (k : ℕ) → (2 ^ suc k - 1) / 2 ≡ 2 ^ k - 1
mask-half k = omega (arith, pow-suc 2 k)

-- `a & (2^k - 1)` is the remainder by `2^k`.
pub bit_and_mask : (k a : ℕ) → bit_and a (2 ^ k - 1) ≡ a % 2 ^ k
bit_and_mask zero a = rw bit_and-zero (omega arith)
bit_and_mask (suc k) a =
    bit_and_step a (2 ^ suc k - 1)
    ∙ rw (mask-half k)
        (omega (arith, bit_and_mask k (a / 2), mod-pow-suc a k, pow-suc 2 k, one-le-pow k 2))

-- A number is given by its high and its low part.
pub split_at : (k x q r : ℕ) → x / 2 ^ k ≡ q → x % 2 ^ k ≡ r → x ≡ q * 2 ^ k + r
split_at k x q r p s = sym (div-add-mod' x (2 ^ k)) ∙ ap₂ (λ (u v : ℕ). u * 2 ^ k + v) p s

module _ (k q r : ℕ) (fits : r < 2 ^ k) where
  pos : 0 < 2 ^ k
  pos = one-le-pow k 2 (omega arith)

  -- `(q << k) | r` is a sum when `r` has only `k` bits.
  pub bit_or_fields : bit_or (q * 2 ^ k) r ≡ q * 2 ^ k + r
  bit_or_fields =
      split_at k (bit_or (q * 2 ^ k) r) q r
        (bit_or-div k (q * 2 ^ k) r ∙ rw (mul-div_cancel q pos, div-eq_of_lt fits) (bit_or-zero q))
        (bit_or-mod k (q * 2 ^ k) r
          ∙ rw (mul-mod_left q (2 ^ k), mod-eq_of_lt fits) (zero-bit_or r))

  pub bit_or_fields_left : bit_or r (q * 2 ^ k) ≡ q * 2 ^ k + r
  bit_or_fields_left =
      split_at k (bit_or r (q * 2 ^ k)) q r
        (bit_or-div k r (q * 2 ^ k) ∙ rw (mul-div_cancel q pos, div-eq_of_lt fits) (zero-bit_or q))
        (bit_or-mod k r (q * 2 ^ k)
          ∙ rw (mul-mod_left q (2 ^ k), mod-eq_of_lt fits) (bit_or-zero r))

-- `&` is no larger than its first operand allows, whatever the second.
pub bit_and-lt_left : (k a b : ℕ) → a < 2 ^ k → bit_and a b < 2 ^ k
bit_and-lt_left k a b h =
    let high : bit_and a b / 2 ^ k ≡ 0 =
      bit_and-div k a b ∙ rw (div-eq_of_lt h) (bit_and-bitwise 0 (b / 2 ^ k)) in
    rw (split_at k (bit_and a b) 0 (bit_and a b % 2 ^ k) high refl)
      (omega (arith, mod-lt (bit_and a b) (one-le-pow k 2 (omega arith))))

pub bit_and-lt_right : (k a b : ℕ) → b < 2 ^ k → bit_and a b < 2 ^ k
bit_and-lt_right k a b h =
    let high : bit_and a b / 2 ^ k ≡ 0 =
      bit_and-div k a b ∙ rw (div-eq_of_lt h) (bit_and-zero (a / 2 ^ k)) in
    rw (split_at k (bit_and a b) 0 (bit_and a b % 2 ^ k) high refl)
      (omega (arith, mod-lt (bit_and a b) (one-le-pow k 2 (omega arith))))

bit_or_self_below : (n a : ℕ) → a ≤ n → bit_or a a ≡ a
bit_or_self_below n zero h = refl
bit_or_self_below zero (suc a) h = absurd (omega arith)
bit_or_self_below (suc n) (suc a) h =
    omega (arith, bit_or_step (suc a) (suc a), bit_or_self_below n (suc a / 2) (omega arith))

pub bit_or_self : (a : ℕ) → bit_or a a ≡ a
bit_or_self a = bit_or_self_below a a (omega arith)

-- A mask of one bit.
pub bit_and-pow : (k a : ℕ) → bit_and a (2 ^ k) ≡ a / 2 ^ k % 2 * 2 ^ k
bit_and-pow zero a = bit_and_mask 1 a ∙ omega arith
bit_and-pow (suc k) a =
    let half : 2 ^ suc k / 2 ≡ 2 ^ k = omega (arith, pow-suc 2 k) in
    let low : 2 ^ suc k % 2 ≡ 0 = omega (arith, pow-suc 2 k) in
    bit_and_step a (2 ^ suc k)
    ∙ rw (half, low, bit_and-pow k (a / 2), div-pow-suc a k, pow-suc 2 k)
        (omega (arith, mul_assoc (a / 2 / 2 ^ k % 2) (2 ^ k) 2))
