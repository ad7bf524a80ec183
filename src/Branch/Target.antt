-- ===== src/Branch/Target.antt =====
-- arm_branch of arm_branch_other.c: the PC and the link register.
use arm_simulator.Base.{
  ℕ, ◌+◌, ◌-◌, ◌*◌, ◌/◌, ◌%◌, ◌^◌, ◌<◌, ◌≡◌, refl, arith, add32, sub32, shl32, shr32, u8, bit_and,
  bit_or, ltb, ◌==◌, if◌then◌else◌, Bool-cases, inl, inr, ◌∙◌, ap, sym,
}
use arm_simulator.Base.Bits.{
  bit_and_mask, bit_and-div, bit_and-mod, bit_and-zero, bit_or_fields_left,
}
use arm_simulator.Util.{get_bit}
use mathlib.Core.Logic.{ite}
use arm_simulator.Registers.Valid as RegistersValid
use arm_simulator.Registers.Banks.{IsMode, read-write, bank, Bank-discrete}
use arm_simulator.Core.Valid.{IsValid, parts}
use arm_simulator.Exception.Entry.{write-keeps_cpsr}
use arm_simulator.Registers.{Registers, registers_get_mode, registers_read, registers_write}
use arm_simulator.Core.{Arm, arm_read_register, arm_write_register, arm_write_register_internal}
use arm_simulator.Branch.{arm_branch, branch_offset, br_code, br_index}

-- The signed offset of 24 bits, times four, modulo 2^32.
abbrev pub signed_offset : ℕ → ℕ
signed_offset ins =
    let x = ins % 2 ^ 24 in if ltb x (2 ^ 23) then 4 * x else 2 ^ 32 - 4 * (2 ^ 24 - x)

above_fields : (x : ℕ) → x < 2 ^ 24 → bit_or x 0x3F000000 ≡ x + 0x3F000000
above_fields x h = omega (arith, bit_or_fields_left 24 0x3F x h)

branch_offset-eq : (ins : ℕ) → branch_offset ins ≡ signed_offset ins
unfolding branch_offset
branch_offset-eq ins =
    rw (bit_and_mask 24 ins) (ground (arith, above_fields (ins % 2 ^ 24) (omega arith)))

-- The test of the code of a branch.
is_branch :
    (ins : ℕ)
    → ins / 2 ^ 25 % 8 ≡ 5
    → u8 (shr32 (bit_and ins (shl32 br_code br_index)) br_index) ≡ br_code
is_branch ins h =
    let x = ins / 2 ^ 25 in
    let split : bit_and ins (shl32 br_code br_index) / 2 ^ 25 ≡ bit_and x 5 =
      bit_and-div 25 ins (shl32 br_code br_index) in
    let low : bit_and x 5 % 2 ^ 3 ≡ bit_and (x % 2 ^ 3) 5 = bit_and-mod 3 x 5 in
    let high : bit_and x 5 / 2 ^ 3 ≡ bit_and (x / 2 ^ 3) 0 = bit_and-div 3 x 5 in
    omega (arith, split, low, high, bit_and-zero (x / 2 ^ 3), ap (λ (y : ℕ). bit_and y 5) h)

module _ {size cycle : ℕ} {p : Arm} (ins : ℕ) (v : IsValid size cycle p)
    (known : IsMode (registers_get_mode p.reg)) where
  abbrev mode : ℕ
  mode = registers_get_mode p.reg

  abbrev pc : ℕ
  pc = arm_read_register p 15

  goes_to :
      (r : Registers) (target : ℕ)
      → RegistersValid.IsValid r
      → registers_get_mode r ≡ mode
      → let q = registers_write r 15 (registers_get_mode r) target in
        (registers_read q 15 mode ≡ target) × (registers_read q 14 mode ≡ registers_read r 14 mode)
  goes_to r target w e = rw e (
    read-write {r = r} 15 mode target 15 mode w (omega arith) (omega arith) known known ∙ own_bank,
    read-write {r = r} 15 mode target 14 mode w (omega arith) (omega arith) known known,
  )
    where
      own_bank :
          ite (Bank-discrete (bank 15 mode) (bank 15 mode)) target (registers_read r 15 mode)
          ≡ target
      own_bank = ground arith

  abbrev linked : Registers
  linked = registers_write p.reg 14 mode (sub32 pc 4)

  linked-mode : registers_get_mode linked ≡ mode
  linked-mode =
      RegistersValid.get_mode-eq linked
      ∙ ap (λ (c : ℕ). c % 32) (write-keeps_cpsr p.reg 14 mode (sub32 pc 4))
      ∙ sym (RegistersValid.get_mode-eq p.reg)

  linked-read : registers_read linked 14 mode ≡ sub32 pc 4
  linked-read =
      read-write {r = p.reg} 14 mode (sub32 pc 4) 14 mode (parts v).registers (omega arith)
        (omega arith) known known
      ∙ own_bank
    where
      own_bank :
          ite
            (Bank-discrete (bank 14 mode) (bank 14 mode))
            (sub32 pc 4)
            (registers_read p.reg 14 mode)
          ≡ sub32 pc 4
      own_bank = ground arith

  -- A branch, in a valid processor that is in one of the seven modes: the PC moves by four times
  -- the signed offset of 24 bits from the PC that is read, modulo 2^32; with L the link register
  -- holds that PC less four, and without L what it held.
  pub arm_branch-target :
      ins / 2 ^ 25 % 8 ≡ 5
      → let (status, q) = arm_branch p ins in
        (status ≡ 0)
        × (registers_read q.reg 15 mode ≡ add32 pc (signed_offset ins))
        × (registers_read q.reg 14 mode
            ≡ (if get_bit ins 24 == 1 then sub32 pc 4 else registers_read p.reg 14 mode))
  unfolding arm_branch arm_write_register arm_write_register_internal
  arm_branch-target h = elim (Bool-cases (get_bit ins 24 == 1)) [
    | inl e ↦
        let w =
          RegistersValid.write-IsValid 14 mode (sub32 pc 4) (parts v).registers (omega arith) in
        let (to, kept) = goes_to linked (add32 pc (signed_offset ins)) w linked-mode in
        rw (is_branch ins h, branch_offset-eq ins) (rw e (refl, to, kept ∙ linked-read))
    | inr e ↦
        let (to, kept) = goes_to p.reg (add32 pc (signed_offset ins)) (parts v).registers refl in
        rw (is_branch ins h, branch_offset-eq ins) (rw e (refl, to, kept))
  ]
