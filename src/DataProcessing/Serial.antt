-- ===== src/DataProcessing/Serial.antt =====
-- The shifts of the ARM architecture one place at a time: the value and the carry, which is the
-- last bit that was shifted out. A description of the shifter operand that does not depend on the
-- code.
use arm_simulator.Base.{
  ℕ, zero, suc, ◌+◌, ◌-◌, ◌*◌, ◌/◌, ◌%◌, ◌^◌, ◌≤◌, ◌<◌, ◌≡◌, sym, ap, ap₂, ◌∙◌, arith,
}
use native.Mathlib.Nat.{
  pow-suc, add-suc, add-mul, mul_assoc, mul_comm, div-le_self, le-div_iff_mul-le,
}
use arm_simulator.Base.Powers.{
  div-lt, pow-pos, pow_le, halves, mul-pow-suc, div-pow-half, mod-pow-top,
}

pub data Shift : Type 0 where
  logical_left logical_right arithmetic_right rotate_right rotate_extend : Shift

-- One place: the value, and the bit that leaves it.
abbrev pub shift_once : Shift → ℕ × ℕ → ℕ × ℕ
shift_once logical_left (x, c) = (x * 2 % 2 ^ 32, x / 2 ^ 31)
shift_once logical_right (x, c) = (x / 2, x % 2)
shift_once arithmetic_right (x, c) = (x / 2 + x / 2 ^ 31 * 2 ^ 31, x % 2)
shift_once rotate_right (x, c) = (x / 2 + x % 2 * 2 ^ 31, x % 2)
shift_once rotate_extend (x, c) = (x / 2 + c * 2 ^ 31, x % 2)

unfoldable pub shifted : Shift → ℕ → ℕ × ℕ → ℕ × ℕ
shifted s zero start = start
shifted s (suc n) start = shift_once s (shifted s n start)

-- The value keeps 32 bits, and the carry is a bit.
shift_once-lt :
    (s : Shift) (x c : ℕ)
    → x < 2 ^ 32
    → c < 2
    → ((shift_once s (x, c)).0 < 2 ^ 32) × ((shift_once s (x, c)).1 < 2)
shift_once-lt s x c h b = ground arith

pub shifted-lt :
    (s : Shift) (n x c : ℕ)
    → x < 2 ^ 32
    → c < 2
    → ((shifted s n (x, c)).0 < 2 ^ 32) × ((shifted s n (x, c)).1 < 2)
unfolding shifted
shifted-lt s zero x c h b = (h, b)
shifted-lt s (suc n) x c h b =
    let (h', b') = shifted-lt s n x c h b in
    shift_once-lt s (shifted s n (x, c)).0 (shifted s n (x, c)).1 h' b'

-- Shifts of a value of 32 bits by any number of places, in closed form.
module _ (x c : ℕ) (h : x < 2 ^ 32) where
  lsr-value : (n : ℕ) → (shifted logical_right n (x, c)).0 ≡ x / 2 ^ n
  unfolding shifted
  lsr-value zero = omega arith
  lsr-value (suc n) = ap (λ (y : ℕ). y / 2) (lsr-value n) ∙ sym (div-pow-half x n)

  pub shifted-lsr : (n : ℕ) → shifted logical_right (suc n) (x, c) ≡ (x / 2 ^ suc n, x / 2 ^ n % 2)
  unfolding shifted
  shifted-lsr n = rw (lsr-value n, div-pow-half x n)

  lsl-value : (n : ℕ) → (shifted logical_left n (x, c)).0 ≡ x * 2 ^ n % 2 ^ 32
  unfolding shifted
  lsl-value zero = omega arith
  lsl-value (suc n) = omega (arith, lsl-value n, mul-pow-suc x n)

  pub shifted-lsl :
      (n : ℕ)
      → shifted logical_left (suc n) (x, c) ≡ (x * 2 ^ suc n % 2 ^ 32, x * 2 ^ n / 2 ^ 31 % 2)
  unfolding shifted
  shifted-lsl n = rw (lsl-value n) (
      ap₂ (λ (u v : ℕ). (u, v)) {x = x * 2 ^ n % 2 ^ 32 * 2 % 2 ^ 32} {y = x * 2 ^ suc n % 2 ^ 32}
        (omega (arith, mul-pow-suc x n)) (omega arith))

  twice : (a n : ℕ) → n < 32 → a * 2 ^ (32 - n) ≡ a * 2 ^ (31 - n) * 2
  twice a n le =
      let down : 32 - n ≡ suc (31 - n) = omega arith in
      ap (λ (i : ℕ). a * 2 ^ i) down ∙ mul-pow-suc a (31 - n)

  ror-value :
      (n : ℕ) → n ≤ 32 → (shifted rotate_right n (x, c)).0 ≡ x % 2 ^ n * 2 ^ (32 - n) + x / 2 ^ n
  unfolding shifted
  ror-value zero le = omega arith
  ror-value (suc n) le =
      let q = 2 ^ (31 - n) in
      let bit = x / 2 ^ n % 2 in
      let same : 32 - suc n ≡ 31 - n = omega arith in
      let sum : x % 2 ^ suc n * 2 ^ (32 - suc n) ≡ bit * 2 ^ 31 + x % 2 ^ n * q =
        ap (λ (i : ℕ). x % 2 ^ suc n * 2 ^ i) same
        ∙ ap (λ (y : ℕ). y * q) (mod-pow-top x n)
        ∙ add-mul (bit * 2 ^ n) (x % 2 ^ n) q
        ∙ ap (λ (y : ℕ). y + x % 2 ^ n * q)
            (mul_assoc bit (2 ^ n) q ∙ ap (λ (y : ℕ). bit * y) (halves 31 n (omega arith))) in
      omega (arith, ror-value n (omega arith), twice (x % 2 ^ n) n le, sum, div-pow-half x n)

  pub shifted-ror :
      (n : ℕ)
      → n < 32
      → shifted rotate_right (suc n) (x, c)
        ≡ (x % 2 ^ suc n * 2 ^ (32 - suc n) + x / 2 ^ suc n, x / 2 ^ n % 2)
  unfolding shifted
  shifted-ror n le =
      ap₂ (λ (u v : ℕ). (u, v)) (ror-value (suc n) le)
        (omega (arith, ror-value n (omega arith), twice (x % 2 ^ n) n le))

  asr-value_low : x < 2 ^ 31 → (n : ℕ) → (shifted arithmetic_right n (x, c)).0 ≡ x / 2 ^ n
  unfolding shifted
  asr-value_low low zero = omega arith
  asr-value_low low (suc n) =
      omega (arith, asr-value_low low n, div-pow-half x n, div-le_self x (2 ^ n))

  high-div : 2 ^ 31 ≤ x → (n : ℕ) → n ≤ 31 → 2 ^ (31 - n) ≤ x / 2 ^ n
  high-div high n le =
      (le-div_iff_mul-le {x = 2 ^ (31 - n)} (pow-pos n)).1
        (omega (arith, halves 31 n le, mul_comm (2 ^ n) (2 ^ (31 - n))))

  asr-value_high :
      2 ^ 31 ≤ x
      → (n : ℕ) → n ≤ 32
      → (shifted arithmetic_right n (x, c)).0 ≡ x / 2 ^ n + (2 ^ 32 - 2 ^ (32 - n))
  unfolding shifted
  asr-value_high high zero le = omega arith
  asr-value_high high (suc n) le =
      let down : 32 - n ≡ suc (31 - n) = omega arith in
      let same : 32 - suc n ≡ 31 - n = omega arith in
      omega (
        arith,
        asr-value_high high n (omega arith),
        div-pow-half x n,
        ap (λ (i : ℕ). 2 ^ i) down,
        ap (λ (i : ℕ). 2 ^ i) same,
        pow-suc 2 (31 - n),
        pow-pos (31 - n),
        pow_le (31 - n) 31 (omega arith),
        high-div high n (omega arith),
        div-lt x n h (omega arith),
      )

  pub shifted-asr_low :
      x < 2 ^ 31
      → (n : ℕ) → shifted arithmetic_right (suc n) (x, c) ≡ (x / 2 ^ suc n, x / 2 ^ n % 2)
  unfolding shifted
  shifted-asr_low low n =
      ap₂ (λ (u v : ℕ). (u, v)) (asr-value_low low (suc n)) (omega (arith, asr-value_low low n))

  pub shifted-asr_high :
      2 ^ 31 ≤ x
      → (n : ℕ) → n < 32
      → shifted arithmetic_right (suc n) (x, c)
        ≡ (x / 2 ^ suc n + (2 ^ 32 - 2 ^ (32 - suc n)), x / 2 ^ n % 2)
  unfolding shifted
  shifted-asr_high high n le =
      ap₂ (λ (u v : ℕ). (u, v)) (asr-value_high high (suc n) le)
        (omega (
          arith,
          asr-value_high high n (omega arith),
          twice 1 n le,
          pow_le (31 - n) 31 (omega arith),
        ))

  -- From 32 places on only the sign is left.
  pub shifted-asr_fill :
      2 ^ 31 ≤ x → (n : ℕ) → shifted arithmetic_right (32 + n) (x, c) ≡ (2 ^ 32 - 1, 1)
  unfolding shifted
  shifted-asr_fill high zero =
      shifted-asr_high high 31 (omega arith)
      ∙ ap₂ (λ (u v : ℕ). (u, v)) {x = x / 2 ^ 32 + (2 ^ 32 - 2 ^ 0)} {y = 2 ^ 32 - 1} (omega arith)
          (omega arith)
  shifted-asr_fill high (suc n) = rw (add-suc 32 n, shifted-asr_fill high n)

  -- A rotation by 32 places is none, but its carry is the sign.
  pub shifted-ror_full : shifted rotate_right 32 (x, c) ≡ (x, x / 2 ^ 31)
  shifted-ror_full =
      shifted-ror 31 (omega arith)
      ∙ ap₂ (λ (u v : ℕ). (u, v)) {x = x % 2 ^ 32 * 2 ^ 0 + x / 2 ^ 32} {y = x} (omega arith)
          (omega arith)

  pub shifted-ror_wrap :
      (n : ℕ) → shifted rotate_right (32 + n) (x, c) ≡ shifted rotate_right n (x, x / 2 ^ 31)
  unfolding shifted
  shifted-ror_wrap zero = shifted-ror_full
  shifted-ror_wrap (suc n) = rw (add-suc 32 n, shifted-ror_wrap n)
