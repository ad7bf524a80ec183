-- ===== src/DataProcessing/Reference.antt =====
-- The shifter operand of arm_data_processing.c against the shifts of Serial.antt, one place at a
-- time.
use arm_simulator.Base.{
  ℕ, zero, suc, ◌+◌, ◌-◌, ◌*◌, ◌/◌, ◌%◌, ◌^◌, ◌≤◌, ◌<◌, ◌≡◌, ◌≢◌, ◌⊎◌, inl, inr, refl, sym, ap, ap₂,
  ◌∙◌, arith, Bool-cases, ==_ne, ◌==◌, ltb, if◌then◌else◌, shl32,
}
use native.Mathlib.Nat.{div-eq_of_lt, mul_comm, mul_assoc, mul-div-mul_right, add_comm}
use arm_simulator.Base.Bits.{bit_or_fields}
use arm_simulator.Base.Powers.{pow-pos, pow_le, pow-product, halves}
use arm_simulator.Util.{get_bit, asr, ror}
use arm_simulator.Util.Shifts.{asr-low, asr-high, ror-value}
use arm_simulator.DataProcessing.{
  lsl_by_immediate, lsl_by_register, lsr_by_immediate, lsr_by_register, asr_by_immediate,
  asr_by_register, ror_by_immediate, ror_by_register, sign_fill,
}
use arm_simulator.DataProcessing.Serial.{
  Shift, shifted, shifted-lsr, shifted-lsl, shifted-ror, shifted-asr_low, shifted-asr_high,
  shifted-asr_fill, shifted-ror_wrap,
}

high_zero : (w x k : ℕ) → x < 2 ^ w → w ≤ k → x / 2 ^ k ≡ 0
high_zero w x k h le = div-eq_of_lt (omega (arith, pow_le w k le))

-- Bit 31 after `n` places to the left.
lsl_out : (x n : ℕ) → n ≤ 31 → x * 2 ^ n / 2 ^ 31 ≡ x / 2 ^ (31 - n)
lsl_out x n le =
    rw (← halves 31 n le, mul_comm (2 ^ n) (2 ^ (31 - n)))
      (mul-div-mul_right x (2 ^ (31 - n)) (pow-pos n))

-- From 32 places on nothing is left.
multiple : (x n : ℕ) → 32 ≤ n → x * 2 ^ n ≡ x * 2 ^ (n - 32) * 2 ^ 32
multiple x n le =
    let e : n - 32 + 32 ≡ n = omega arith in
    ap (λ (i : ℕ). x * 2 ^ i) (sym e)
    ∙ ap (λ (y : ℕ). x * y) (sym (pow-product (n - 32) 32))
    ∙ sym (mul_assoc x (2 ^ (n - 32)) (2 ^ 32))

module _ (x c : ℕ) (h : x < 2 ^ 32) where
  pub lsr_by_register-shifted :
      (n : ℕ) → lsr_by_register x n c ≡ shifted Shift.logical_right n (x, c)
  unfolding lsr_by_register shifted
  lsr_by_register-shifted zero = refl
  lsr_by_register-shifted (suc n) = rw (shifted-lsr x c h n) (
      let back : suc n - 1 ≡ n = omega arith in
      ground (arith, ap (λ (i : ℕ). x / 2 ^ i) back, high_zero 32 x (suc n), high_zero 32 x n))

  pub lsl_by_register-shifted :
      (n : ℕ) → lsl_by_register x n c ≡ shifted Shift.logical_left n (x, c)
  unfolding lsl_by_register shifted
  lsl_by_register-shifted zero = refl
  lsl_by_register-shifted (suc n) =
      rw (shifted-lsl x c h n) (ground (arith, lsl_out x n, multiple x n, multiple x (suc n)))

below_or_above : (a b : ℕ) → (a < b) ⊎ (b ≤ a)
below_or_above a b = elim (Bool-cases (ltb a b)) [
  | inl yes_lt ↦ inl (ground arith)
  | inr no_lt ↦ inr (ground arith)
]

-- An immediate of 0 asks for 32 places.
abbrev pub places : ℕ → ℕ
places imm = if imm == 0 then 32 else imm

module _ (x c : ℕ) (h : x < 2 ^ 32) where
  pub lsl_by_immediate-shifted :
      (imm : ℕ) → imm < 32 → lsl_by_immediate x imm c ≡ shifted Shift.logical_left imm (x, c)
  unfolding lsl_by_immediate lsl_by_register
  lsl_by_immediate-shifted imm le = rw (← lsl_by_register-shifted x c h imm) (ground arith)

  pub lsr_by_immediate-shifted :
      (imm : ℕ)
      → imm < 32
      → lsr_by_immediate x imm ≡ shifted Shift.logical_right (places imm) (x, c)
  unfolding lsr_by_immediate lsr_by_register
  lsr_by_immediate-shifted imm le = rw (← lsr_by_register-shifted x c h (places imm)) (ground arith)

  module _ (wide : ℕ → ℕ → ℕ) where
    asr-shifted :
        (n : ℕ)
        → n < 31
        → (asr wide x (suc n), get_bit x (suc n - 1))
          ≡ shifted Shift.arithmetic_right (suc n) (x, c)
    asr-shifted n le =
        let back : suc n - 1 ≡ n = omega arith in
        let sign : get_bit x (suc n - 1) ≡ x / 2 ^ n % 2 = ap (get_bit x) back in
        elim (below_or_above x (2 ^ 31)) [
          | inl low ↦
              ap₂ (λ (u v : ℕ). (u, v)) (asr-low wide x h (suc n) low) sign
              ∙ sym (shifted-asr_low x c h low n)
          | inr high ↦
              ap₂ (λ (u v : ℕ). (u, v)) (asr-high wide x h n high le) sign
              ∙ sym (shifted-asr_high x c h high n (omega arith))
        ]

    sign_fill-shifted : (n : ℕ) → sign_fill x ≡ shifted Shift.arithmetic_right (32 + n) (x, c)
    sign_fill-shifted n = elim (below_or_above x (2 ^ 31)) [
      | inl low ↦
          let e : 32 + n ≡ suc (31 + n) = omega arith in
          rw (e, shifted-asr_low x c h low (31 + n))
            (ground (
              arith,
              high_zero 31 x (31 + n) low (omega arith),
              high_zero 31 x (suc (31 + n)) low (omega arith),
            ))
      | inr high ↦ rw (shifted-asr_fill x c h high n) (ground arith)
    ]

    pub ror-shifted :
        (n : ℕ)
        → n < 31
        → (ror wide x (suc n), get_bit x (suc n - 1)) ≡ shifted Shift.rotate_right (suc n) (x, c)
    ror-shifted n le =
        let back : suc n - 1 ≡ n = omega arith in
        ap₂ (λ (u v : ℕ). (u, v)) (ror-value wide x h n le) (ap (get_bit x) back)
        ∙ sym (shifted-ror x c h n (omega arith))

    pub asr_by_register-shifted :
        (n : ℕ) → asr_by_register wide x n c ≡ shifted Shift.arithmetic_right n (x, c)
    unfolding asr_by_register shifted
    asr_by_register-shifted zero = refl
    asr_by_register-shifted (suc n) = elim (below_or_above (suc n) 32) [
      | inl few ↦ rw (← asr-shifted n (omega arith)) (ground arith)
      | inr many ↦
          let e : suc n ≡ 32 + (suc n - 32) = omega arith in
          ground (
            arith,
            sign_fill-shifted (suc n - 32),
            ap (λ (i : ℕ). shifted Shift.arithmetic_right i (x, c)) e,
          )
    ]

    pub asr_by_immediate-shifted :
        (imm : ℕ)
        → imm < 32
        → asr_by_immediate wide x imm ≡ shifted Shift.arithmetic_right (places imm) (x, c)
    unfolding asr_by_immediate
    asr_by_immediate-shifted zero le = sign_fill-shifted 0
    asr_by_immediate-shifted (suc n) le =
        rw (==_ne (suc n) 0 (omega arith)) (asr-shifted n (omega arith))

    pub ror_by_immediate-shifted :
        (imm : ℕ)
        → imm < 32
        → c < 2
        → ror_by_immediate wide x imm c ≡ (
            if imm == 0
            then shifted Shift.rotate_extend 1 (x, c)
            else shifted Shift.rotate_right imm (x, c))
    unfolding ror_by_immediate shifted
    ror_by_immediate-shifted zero le bit =
        let carry : shl32 c 31 ≡ c * 2 ^ 31 = omega arith in
        ap₂ (λ (u v : ℕ). (u, v))
          (rw carry (bit_or_fields 31 c (x / 2) (omega arith)) ∙ add_comm (c * 2 ^ 31) (x / 2))
          (omega arith)
    ror_by_immediate-shifted (suc n) le bit =
        rw (==_ne (suc n) 0 (omega arith)) (ror-shifted n (omega arith))

-- Rotations by a whole number of turns first.
ror_turns :
    (x : ℕ)
    → x < 2 ^ 32
    → (q r c : ℕ)
    → shifted Shift.rotate_right (suc q * 32 + r) (x, c)
      ≡ shifted Shift.rotate_right r (x, x / 2 ^ 31)
ror_turns x h zero r c =
    let e : 1 * 32 + r ≡ 32 + r = omega arith in rw e (shifted-ror_wrap x c h r)
ror_turns x h (suc q) r c =
    let e : suc (suc q) * 32 + r ≡ 32 + (suc q * 32 + r) = omega arith in
    rw e (shifted-ror_wrap x c h (suc q * 32 + r)) ∙ ror_turns x h q r (x / 2 ^ 31)

module _ (wide : ℕ → ℕ → ℕ) (x c : ℕ) (h : x < 2 ^ 32) where
  ror_few :
      (r c : ℕ)
      → r < 32
      → r ≢ 0
      → (ror wide x r, get_bit x (r - 1)) ≡ shifted Shift.rotate_right r (x, c)
  ror_few zero c le n = absurd (n refl)
  ror_few (suc r) c le n = ror-shifted x c h wide r (omega arith)

  pub ror_by_register-shifted :
      (n : ℕ) → ror_by_register wide x n (n % 32) c ≡ shifted Shift.rotate_right n (x, c)
  unfolding ror_by_register shifted
  ror_by_register-shifted n = elim (below_or_above n 32) [
    | inl few ↦ let same : n % 32 ≡ n = omega arith in rw same (ground (arith, ror_few n c few))
    | inr many ↦
        let q = n / 32 - 1 in
        let e : n ≡ suc q * 32 + n % 32 = omega arith in
        let turned =
          ap (λ (i : ℕ). shifted Shift.rotate_right i (x, c)) e ∙ ror_turns x h q (n % 32) c in
        rw turned (ground (arith, ror_few (n % 32) (x / 2 ^ 31) (omega arith)))
  ]
