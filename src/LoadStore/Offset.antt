-- ===== src/LoadStore/Offset.antt =====
-- The addresses of LDR and STR in arm_load_store.c with an offset and without write-back.
use arm_simulator.Base.{
  ℕ, ◌+◌, ◌-◌, ◌*◌, ◌/◌, ◌%◌, ◌^◌, ◌≤◌, ◌<◌, ◌≡◌, ◌⊎◌, refl, sym, ap, ◌∙◌, arith, ◌==◌,
  if◌then◌else◌, add32, sub32, Option,
}
use arm_simulator.Util.{get_bit, get_bits}
use arm_simulator.Util.Fields.{get_bits_lem}
use arm_simulator.Base.Powers.{pow-pos, pow-product}
use native.Mathlib.Nat.{add-mul-div_right, add-mul-mod_self_right}
use arm_simulator.Memory.{Memory}
use arm_simulator.Registers.{Registers}
use arm_simulator.Core.{Arm, Target, arm_read_cpsr, arm_read_register, arm_read_register_internal}
use arm_simulator.LoadStore.{
  arm_load_store, go_on, transfer, process_load_store_instruction, scaled_address, offset_mode,
  check_u, shift_operation,
}

-- An offset in the instruction or in a register, which may be shifted; P is set and W is not.
abbrev pub IsOffset : ℕ → Type 0
IsOffset ins =
    ((get_bits ins 27 25 ≡ 2) ⊎ ((get_bits ins 27 25 ≡ 3) × (get_bit ins 4 ≡ 0)))
    × (get_bit ins 24 ≡ 1)
    × (get_bit ins 21 ≡ 0)

module _ (t : Target) (p : Arm) (ins : ℕ) where
  abbrev pub offset : ℕ
  offset =
      let rm = arm_read_register p (get_bits ins 3 0) in
      if get_bits ins 27 25 == 2
      then get_bits ins 11 0
      else if get_bits ins 11 4 == 0
      then rm
      else shift_operation t p rm (get_bits ins 6 5) (get_bits ins 11 7)

  abbrev pub effective : ℕ
  effective =
      let rn = arm_read_register p (get_bits ins 19 16) in
      if get_bit ins 23 == 1 then add32 rn offset else sub32 rn offset

  pub addressed : IsOffset ins → arm_load_store t p ins ≡ (0, transfer t p ins effective)
  unfolding arm_load_store go_on scaled_address process_load_store_instruction offset_mode check_u
  addressed (k, pre, keep) = ground arith

-- The load with the fields of a store.
abbrev pub as_load : ℕ → ℕ
as_load ins = ins + 2 ^ 20

module _ (ins : ℕ) (store : get_bit ins 20 ≡ 0) where
  -- The fields below bit 20 and those above it.
  pub lower : (h l : ℕ) → l ≤ h → h < 20 → get_bits (as_load ins) h l ≡ get_bits ins h l
  lower h l le lt =
      let w = h - l + 1 in
      let free = 20 - (l + w) in
      let n = 2 ^ free in
      let total : free + w + l ≡ 20 = omega arith in
      let whole : 2 ^ 20 ≡ n * 2 ^ w * 2 ^ l = sym (
        ap (λ (y : ℕ). y * 2 ^ l) (pow-product free w)
        ∙ pow-product (free + w) l
        ∙ ap (λ (k : ℕ). 2 ^ k) total) in
      rw (get_bits_lem (as_load ins) h l (omega arith), get_bits_lem ins h l (omega arith))
        (ap (λ (y : ℕ). (ins + y) / 2 ^ l % 2 ^ w) whole
          ∙ ap (λ (y : ℕ). y % 2 ^ w) (add-mul-div_right ins (n * 2 ^ w) (pow-pos l))
          ∙ add-mul-mod_self_right (ins / 2 ^ l) n (2 ^ w))

  same_kind : get_bits (as_load ins) 27 25 ≡ get_bits ins 27 25
  same_kind =
      rw (get_bits_lem (as_load ins) 27 25 (omega arith), get_bits_lem ins 27 25 (omega arith))
        (omega arith)

  pub as_load-IsOffset : IsOffset ins → IsOffset (as_load ins)
  as_load-IsOffset (k, pre, keep) = rw same_kind (ground arith)

  pub same_effective : (t : Target) (p : Arm) → effective t p (as_load ins) ≡ effective t p ins
  same_effective t p =
      let up : get_bit (as_load ins) 23 ≡ get_bit ins 23 = omega arith in
      rw
        (
          same_kind,
          up,
          lower 3 0 (omega arith) (omega arith),
          lower 11 0 (omega arith) (omega arith),
          lower 11 4 (omega arith) (omega arith),
          lower 6 5 (omega arith) (omega arith),
          lower 11 7 (omega arith) (omega arith),
          lower 19 16 (omega arith) (omega arith),
        )
        refl

-- The address does not depend on the memory.
pub effective-mem :
    (t : Target) (p : Arm) (r : Registers) (mem : Option Memory) (ins : ℕ)
    → effective t (record p { reg = r; mem = mem }) ins ≡ effective t (record p { reg = r }) ins
unfolding arm_read_register arm_read_register_internal shift_operation arm_read_cpsr
effective-mem t p r mem ins = refl
