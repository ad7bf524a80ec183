-- ===== src/LoadStore/Multiple/Range.antt =====
-- The address range of an LDM or STM in arm_load_store.c, and number_set_bits_in.
use arm_simulator.Base.{
  ℕ, zero, suc, ◌+◌, ◌*◌, ◌/◌, ◌%◌, ◌^◌, ◌≤◌, ◌<◌, ◌≡◌, refl, arith, u32, add32, sub32, ◌==◌, ◌∙◌,
  Bool-cases, inl, inr, ap, ==_iff,
}
use native.Mathlib.Nat.{pow-suc, zero-div}
use native.Mathlib.Numerals.{add-one}
use arm_simulator.Base.Bits.{div-pow-suc}
use arm_simulator.Util.{get_bit}
use arm_simulator.LoadStore.Multiple.{
  Moved, count_bits, number_set_bits_in, each_register, transfer_range,
}

-- The bits of `list` from `i` up to `i + left`.
abbrev pub bits_from : ℕ → ℕ → ℕ → ℕ
bits_from list zero i = 0
bits_from list (suc left) i = get_bit list i + bits_from list left (i + 1)

bits_from-zero : (left i : ℕ) → bits_from 0 left i ≡ 0
bits_from-zero zero i = refl
bits_from-zero (suc left) i = omega (arith, zero-div (2 ^ i), bits_from-zero left (i + 1))

get_bit-half : (x i : ℕ) → get_bit x (i + 1) ≡ get_bit (x / 2) i
get_bit-half x i = ap (λ (y : ℕ). y % 2) (rw add-one (div-pow-suc x i))

bits_from-half : (x left i : ℕ) → bits_from x left (i + 1) ≡ bits_from (x / 2) left i
bits_from-half x zero i = refl
bits_from-half x (suc left) i = omega (arith, get_bit-half x i, bits_from-half x left (i + 1))

-- Enough fuel: as many rounds as the number has bits.
count_bits-eq :
    (fuel num count : ℕ) → num < 2 ^ fuel → count_bits fuel num count ≡ count + bits_from num fuel 0
unfolding count_bits
count_bits-eq zero num count h = omega arith
count_bits-eq (suc fuel) num count h = elim (Bool-cases (num == 0)) [
  | inl e ↦
      let num0 : num ≡ 0 = (==_iff num 0).0 e in
      let none_set : bits_from num (suc fuel) 0 ≡ 0 =
        ap (λ (n : ℕ). bits_from n (suc fuel) 0) num0 ∙ bits_from-zero (suc fuel) 0 in
      rw e (omega (arith, none_set))
  | inr e ↦ rw e (
      omega (
        arith,
        count_bits-eq fuel (num / 2) (count + num % 2) (omega (arith, pow-suc 2 fuel)),
        bits_from-half num fuel 0,
      ))
]

-- `number_set_bits_in` counts the bits of a uint16_t.
pub number_set_bits_in-eq : (num : ℕ) → num < 2 ^ 16 → number_set_bits_in num ≡ bits_from num 16 0
unfolding number_set_bits_in
number_set_bits_in-eq num h = count_bits-eq 16 num 0 h ∙ omega arith

pub bits_from-le : (x left i : ℕ) → bits_from x left i ≤ left
bits_from-le x zero i = omega arith
bits_from-le x (suc left) i = omega (arith, bits_from-le x left (i + 1))

-- The bit of the PC comes last.
pub bits_from-last : (x : ℕ) → bits_from x 16 0 ≡ bits_from x 15 0 + get_bit x 15
bits_from-last x = omega arith

-- A body that moves the address by four.
abbrev pub Advances : (ℕ → Moved → Moved) → Type 0
Advances body = (i : ℕ) (m : Moved) → (body i m).address ≡ add32 m.address 4

pub each_register-address :
    (body : ℕ → Moved → Moved)
    → Advances body
    → (list left i : ℕ) (m : Moved) → m.address < 2 ^ 32
    → (each_register body list left i m).address ≡ u32 (m.address + 4 * bits_from list left i)
unfolding each_register
each_register-address body adv list zero i m h = omega arith
each_register-address body adv list (suc left) i m h = elim (Bool-cases (get_bit list i == 1)) [
  | inl e ↦
      rw (e, each_register)
        (ground (
          arith,
          adv i m,
          each_register-address body adv list left (i + 1) (body i m) (rw (adv i m) (omega arith)),
        ))
  | inr e ↦
      rw (e, each_register) (ground (arith, each_register-address body adv list left (i + 1) m h))
]

-- The end address is the start plus four for each register but one, in every mode.
pub transfer_range-eq :
    (mode rn list : ℕ)
    → rn < 2 ^ 32
    → let (start, end) = transfer_range mode rn list in
      (start < 2 ^ 32) × (end ≡ sub32 (u32 (start + 4 * number_set_bits_in list)) 4)
unfolding transfer_range
transfer_range-eq mode rn list h = ground arith
