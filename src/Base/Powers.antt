-- ===== src/Base/Powers.antt =====
-- Powers of two at a variable exponent, and what they divide.
use Prim.Native.Nat.{ℕ, zero, suc, ◌+◌, ◌-◌, ◌*◌, ◌/◌, ◌%◌, ◌^◌, ◌≤◌, ◌<◌}
use mathlib.Core.Path.{◌≡◌, sym, ap, ◌∙◌}
use native.Mathlib.Nat.{
  pow-suc, one-le-pow, pow-le-pow_right, div-lt_iff_lt-mul, mul-div-mul_right, mod-eq-sub-div-mul,
  div-add-mod', add-mul, mul_assoc, mul_comm, div-div-eq-div-mul, div-mul-le_self, zero-add,
  suc-add,
}
use native.Mathlib.Omega.{arith}

pub pow-pos : (k : ℕ) → 0 < 2 ^ k
pow-pos k = one-le-pow k 2 (omega arith)

pub pow_le : (j k : ℕ) → j ≤ k → 2 ^ j ≤ 2 ^ k
pow_le j k le = pow-le-pow_right (omega arith) le

pub pow-product : (j k : ℕ) → 2 ^ j * 2 ^ k ≡ 2 ^ (j + k)
pow-product zero k = rw zero-add (omega arith)
pow-product (suc j) k =
    rw (suc-add j k, pow-suc 2 j, pow-suc 2 (j + k))
      (mul_assoc (2 ^ j) 2 (2 ^ k)
        ∙ ap (λ (y : ℕ). 2 ^ j * y) (mul_comm 2 (2 ^ k))
        ∙ sym (mul_assoc (2 ^ j) (2 ^ k) 2)
        ∙ ap (λ (y : ℕ). y * 2) (pow-product j k))

-- Two powers whose exponents add up to `w`.
pub halves : (w k : ℕ) → k ≤ w → 2 ^ k * 2 ^ (w - k) ≡ 2 ^ w
halves w k h =
    let e : k + (w - k) ≡ w = omega arith in pow-product k (w - k) ∙ ap (λ (i : ℕ). 2 ^ i) e

pub mul-mod-mul : (x b c : ℕ) → 0 < c → x * c % (b * c) ≡ x % b * c
mul-mod-mul x b c h = omega (
  arith,
  mod-eq-sub-div-mul (x * c) (b * c),
  ap (λ (y : ℕ). y * (b * c)) (mul-div-mul_right x b h),
  add-mul (x / b * b) (x % b) c,
  mul_assoc (x / b) b c,
  ap (λ (y : ℕ). y * c) (div-add-mod' x b),
)

pub mul-pow-suc : (x n : ℕ) → x * 2 ^ suc n ≡ x * 2 ^ n * 2
mul-pow-suc x n = rw (pow-suc 2 n) (sym (mul_assoc x (2 ^ n) 2))

pub div-pow-half : (x n : ℕ) → x / 2 ^ suc n ≡ x / 2 ^ n / 2
div-pow-half x n = rw (pow-suc 2 n) (sym (div-div-eq-div-mul x (2 ^ n) 2))

-- One more bit from below.
pub mod-pow-top : (x n : ℕ) → x % 2 ^ suc n ≡ x / 2 ^ n % 2 * 2 ^ n + x % 2 ^ n
mod-pow-top x n =
    let y = x / 2 ^ n in
    omega (
      arith,
      mod-eq-sub-div-mul x (2 ^ suc n),
      mod-eq-sub-div-mul x (2 ^ n),
      div-mul-le_self x (2 ^ n),
      ap (λ (q : ℕ). q * 2 ^ suc n) (div-pow-half x n),
      mul-pow-suc (y / 2) n,
      ap (λ (z : ℕ). z * 2 ^ n) (div-add-mod' y 2),
      add-mul (y / 2 * 2) (y % 2) (2 ^ n),
      mul_assoc (y / 2) 2 (2 ^ n),
      mul_assoc (y / 2) (2 ^ n) 2,
      ap (λ (z : ℕ). y / 2 * z) (mul_comm 2 (2 ^ n)),
    )

pub div-lt : (x n : ℕ) → x < 2 ^ 32 → n ≤ 32 → x / 2 ^ n < 2 ^ (32 - n)
div-lt x n h le =
    (div-lt_iff_lt-mul {x = x} (pow-pos n)).1
      (omega (arith, halves 32 n le, mul_comm (2 ^ n) (2 ^ (32 - n))))
