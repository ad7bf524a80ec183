-- ===== src/Base/Bits/Step.antt =====
-- One equation for the lowest digit of each bit operation.
use Prim.Native.Nat.{
  ℕ, zero, suc, ◌+◌, ◌*◌, ◌/◌, ◌%◌, ◌≤◌, ◌<◌, min, max, digits, bitwise, differ, bit_and, bit_or,
  bit_xor, bit_and-bitwise, bit_or-bitwise, bit_xor-bitwise,
}
use mathlib.Core.Path.{◌≡◌, refl}
use native.Mathlib.Omega.{arith}

-- The digits of a pair do not depend on the rounds beyond the first number.
spare_rounds :
    (low : ℕ → ℕ) (op : ℕ → ℕ → ℕ) (total rounds x y : ℕ)
    → x ≤ rounds
    → rounds ≤ total
    → digits low op total x y ≡ digits low op rounds x y
spare_rounds low op (suc total) (suc rounds) (suc x) y le more =
    rw (spare_rounds low op total rounds (suc x / 2) (y / 2) (omega arith) (omega arith))
spare_rounds low op (suc total) (suc rounds) zero y le more = refl
spare_rounds low op (suc total) zero zero y le more = refl
spare_rounds low op total zero (suc x) y le more = absurd (omega arith)
spare_rounds low op zero zero zero y le more = refl
spare_rounds low op zero (suc rounds) x y le more = absurd (omega arith)

-- The lowest digit of a pair, the first number not 0.
lowest_digit :
    (low : ℕ → ℕ) (op : ℕ → ℕ → ℕ) (x y : ℕ)
    → bitwise low op (suc x) y ≡ bitwise low op (suc x / 2) (y / 2) * 2 + op (suc x % 2) (y % 2)
lowest_digit low op x y =
    let half = suc x / 2 in
    omega (arith, spare_rounds low op x half half (y / 2) (omega arith) (omega arith))

differ_lem : (a b : ℕ) → a < 2 → b < 2 → differ a b ≡ (a + b) % 2
differ_lem zero b p q = omega arith
differ_lem (suc a) zero p q = omega arith
differ_lem (suc zero) (suc zero) p q = refl
differ_lem (suc zero) (suc (suc b)) p q = absurd (omega arith)
differ_lem (suc (suc a)) (suc b) p q = absurd (omega arith)

pub bit_xor_step : (x y : ℕ) → bit_xor x y ≡ bit_xor (x / 2) (y / 2) * 2 + (x % 2 + y % 2) % 2
bit_xor_step zero y = simp bit_xor-bitwise (omega arith)
bit_xor_step (suc x) y = simp bit_xor-bitwise (
    omega (
      arith,
      lowest_digit (λ rest. rest) differ x y,
      differ_lem (suc x % 2) (y % 2) (omega arith) (omega arith),
    ))

pub bit_or_step : (x y : ℕ) → bit_or x y ≡ bit_or (x / 2) (y / 2) * 2 + max (x % 2) (y % 2)
bit_or_step zero y = simp bit_or-bitwise (omega arith)
bit_or_step (suc x) y = simp bit_or-bitwise (lowest_digit (λ rest. rest) max x y)

pub bit_and_step : (x y : ℕ) → bit_and x y ≡ bit_and (x / 2) (y / 2) * 2 + min (x % 2) (y % 2)
bit_and_step zero y = simp bit_and-bitwise (omega arith)
bit_and_step (suc x) y = simp bit_and-bitwise (lowest_digit (λ rest. 0) min x y)
