-- ===== src/Base/Bits/Digits.antt =====
-- The bit operations digit by digit, and what follows for bounds, masks and disjoint fields.
use Prim.Native.Nat.{ℕ, zero, suc, ◌+◌, ◌*◌, ◌/◌, ◌%◌, ◌^◌, ◌<◌, min, max, bit_and, bit_or, bit_xor}
use mathlib.Core.Path.{◌≡◌, refl, sym, ap, ap₂, ◌∙◌}
use native.Mathlib.Nat.{
  pow-suc, div-div-eq-div-mul, div-one, mul_comm, mod-eq-sub-div-mul, div-mul-le_self, mod-one,
}
use native.Mathlib.Omega.{arith}
use arm_simulator.Base.Bits.Step.{bit_and_step, bit_or_step, bit_xor_step}

pub div-pow-suc : (a k : ℕ) → a / 2 ^ suc k ≡ a / 2 / 2 ^ k
div-pow-suc a k = rw (pow-suc 2 k) (rw (mul_comm (2 ^ k) 2) (sym (div-div-eq-div-mul a 2 (2 ^ k))))

pub mod-pow-suc : (a k : ℕ) → a % 2 ^ suc k ≡ a / 2 % 2 ^ k * 2 + a % 2
mod-pow-suc a k =
    let q = a / 2 / 2 ^ k in
    omega (
      arith,
      mod-eq-sub-div-mul a (2 ^ suc k),
      mod-eq-sub-div-mul (a / 2) (2 ^ k),
      div-mul-le_self (a / 2) (2 ^ k),
      ap (λ (t : ℕ). t * 2 ^ suc k) (div-pow-suc a k),
      ap (λ (t : ℕ). q * t) (pow-suc 2 k),
    )

mod-half : (a k : ℕ) → a % 2 ^ suc k / 2 ≡ a / 2 % 2 ^ k
mod-half a k = omega (arith, mod-pow-suc a k)

mod-low : (a k : ℕ) → a % 2 ^ suc k % 2 ≡ a % 2
mod-low a k = omega (arith, mod-pow-suc a k)

-- Shifting right goes through any operation that works digit by digit.
module _ (op : ℕ → ℕ → ℕ) (digit : ℕ → ℕ → ℕ)
    (step : (a b : ℕ) → op a b ≡ op (a / 2) (b / 2) * 2 + digit (a % 2) (b % 2))
    (small : (a b : ℕ) → a < 2 → b < 2 → digit a b < 2) where
  op-half : (a b : ℕ) → op a b / 2 ≡ op (a / 2) (b / 2)
  op-half a b = omega (arith, step a b, small (a % 2) (b % 2) (omega arith) (omega arith))

  op-low : (a b : ℕ) → op a b % 2 ≡ digit (a % 2) (b % 2)
  op-low a b = omega (arith, step a b, small (a % 2) (b % 2) (omega arith) (omega arith))

  op-div : (k a b : ℕ) → op a b / 2 ^ k ≡ op (a / 2 ^ k) (b / 2 ^ k)
  op-div zero a b = simp div-one
  op-div (suc k) a b = simp div-pow-suc (rw (op-half a b) (op-div k (a / 2) (b / 2)))

  op-mod : (k a b : ℕ) → op 0 0 ≡ 0 → op a b % 2 ^ k ≡ op (a % 2 ^ k) (b % 2 ^ k)
  op-mod zero a b z = simp mod-one (sym z)
  op-mod (suc k) a b z =
      mod-pow-suc (op a b) k
      ∙ rw (op-half a b) (
          rw (op-mod k (a / 2) (b / 2) z) (
            sym (
              step (a % 2 ^ suc k) (b % 2 ^ suc k)
              ∙ ap₂ (λ (u v : ℕ). u * 2 + v) (ap₂ op (mod-half a k) (mod-half b k))
                  (ap₂ digit (mod-low a k) (mod-low b k) ∙ sym (op-low a b)))))

  op-lt : (k a b : ℕ) → op 0 0 ≡ 0 → a < 2 ^ k → b < 2 ^ k → op a b < 2 ^ k
  op-lt zero a b z p q =
      let a0 : a ≡ 0 = omega arith in let b0 : b ≡ 0 = omega arith in rw (a0, b0, z) (omega arith)
  op-lt (suc k) a b z p q = omega (
    arith,
    step a b,
    small (a % 2) (b % 2) (omega arith) (omega arith),
    pow-suc 2 k,
    op-lt k (a / 2) (b / 2) z (omega (arith, pow-suc 2 k)) (omega (arith, pow-suc 2 k)),
  )

  op-bit : (k a b : ℕ) → op a b / 2 ^ k % 2 ≡ digit (a / 2 ^ k % 2) (b / 2 ^ k % 2)
  op-bit k a b = rw (op-div k a b) (op-low (a / 2 ^ k) (b / 2 ^ k))

min-lt : (a b : ℕ) → a < 2 → b < 2 → min a b < 2
min-lt a b p q = omega arith

max-lt : (a b : ℕ) → a < 2 → b < 2 → max a b < 2
max-lt a b p q = omega arith

parity-lt : (a b : ℕ) → a < 2 → b < 2 → (a + b) % 2 < 2
parity-lt a b p q = omega arith

abbrev parity : ℕ → ℕ → ℕ
parity a b = (a + b) % 2

-- No operation sets a bit above its operands.
pub bit_and-lt : (k a b : ℕ) → a < 2 ^ k → b < 2 ^ k → bit_and a b < 2 ^ k
bit_and-lt k a b p q = op-lt bit_and min bit_and_step min-lt k a b refl p q

pub bit_or-lt : (k a b : ℕ) → a < 2 ^ k → b < 2 ^ k → bit_or a b < 2 ^ k
bit_or-lt k a b p q = op-lt bit_or max bit_or_step max-lt k a b refl p q

pub bit_xor-lt : (k a b : ℕ) → a < 2 ^ k → b < 2 ^ k → bit_xor a b < 2 ^ k
bit_xor-lt k a b p q = op-lt bit_xor parity bit_xor_step parity-lt k a b refl p q

-- Bit `k` of a result depends on bit `k` of the operands.
pub bit_and-bit : (k a b : ℕ) → bit_and a b / 2 ^ k % 2 ≡ min (a / 2 ^ k % 2) (b / 2 ^ k % 2)
bit_and-bit k a b = op-bit bit_and min bit_and_step min-lt k a b

pub bit_or-bit : (k a b : ℕ) → bit_or a b / 2 ^ k % 2 ≡ max (a / 2 ^ k % 2) (b / 2 ^ k % 2)
bit_or-bit k a b = op-bit bit_or max bit_or_step max-lt k a b

pub bit_xor-bit : (k a b : ℕ) → bit_xor a b / 2 ^ k % 2 ≡ (a / 2 ^ k % 2 + b / 2 ^ k % 2) % 2
bit_xor-bit k a b = op-bit bit_xor parity bit_xor_step parity-lt k a b

pub bit_or-div : (k a b : ℕ) → bit_or a b / 2 ^ k ≡ bit_or (a / 2 ^ k) (b / 2 ^ k)
bit_or-div k a b = op-div bit_or max bit_or_step max-lt k a b

pub bit_or-mod : (k a b : ℕ) → bit_or a b % 2 ^ k ≡ bit_or (a % 2 ^ k) (b % 2 ^ k)
bit_or-mod k a b = op-mod bit_or max bit_or_step max-lt k a b refl

pub bit_and-div : (k a b : ℕ) → bit_and a b / 2 ^ k ≡ bit_and (a / 2 ^ k) (b / 2 ^ k)
bit_and-div k a b = op-div bit_and min bit_and_step min-lt k a b

pub bit_and-mod : (k a b : ℕ) → bit_and a b % 2 ^ k ≡ bit_and (a % 2 ^ k) (b % 2 ^ k)
bit_and-mod k a b = op-mod bit_and min bit_and_step min-lt k a b refl
