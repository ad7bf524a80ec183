-- ===== src/DataProcessing/Flags.antt =====
-- arm_data_processing.c: the flags that an instruction with S leaves in the CPSR.
use arm_simulator.Base.{
  ℕ, ◌%◌, ◌^◌, ◌<◌, ◌≡◌, ◌≢◌, refl, arith, max, bit_and, bit_or, shl32, ◌==◌, if◌then◌else◌, ◌∙◌,
  ==_ne,
}
use arm_simulator.Base.Bits.{bit_or-bit, bit_or-mod, bit_or-zero, bit_and_mask}
use mathlib.Core.Path.{subst}
use arm_simulator.DataProcessing.Specified.{specified, alu-specified}
use arm_simulator.Constants.{n_flag, z_flag, c_flag, v_flag}
use arm_simulator.Util.{get_bit}
use arm_simulator.Core.{
  Arm, arm_read_cpsr, arm_write_cpsr, arm_write_register, arm_write_register_internal,
}
use arm_simulator.Registers.{registers_read_cpsr, registers_write_cpsr, registers_write}
use arm_simulator.DataProcessing.{
  Opcode, AluOut, alu, opcode_of, new_cpsr, data_processing, write_flags, write_result, add_with,
  sub_with, add_with_carry, sub_with_carry, and,
}

module _ (a b c d e : ℕ) where
  abbrev or_five : ℕ
  or_five = bit_or (bit_or (bit_or (bit_or a b) c) d) e

  or_five-bit :
      (k : ℕ)
      → get_bit or_five k
        ≡ max
            (max (max (max (get_bit a k) (get_bit b k)) (get_bit c k)) (get_bit d k))
            (get_bit e k)
  or_five-bit k = rw (bit_or-bit k (bit_or (bit_or (bit_or a b) c) d) e) (
      rw (bit_or-bit k (bit_or (bit_or a b) c) d)
        (rw (bit_or-bit k (bit_or a b) c) (rw (bit_or-bit k a b))))

  or_five-mod :
      (k : ℕ)
      → b % 2 ^ k ≡ 0
      → c % 2 ^ k ≡ 0
      → d % 2 ^ k ≡ 0
      → e % 2 ^ k ≡ 0
      → or_five % 2 ^ k ≡ a % 2 ^ k
  or_five-mod k hb hc hd he = rw (bit_or-mod k (bit_or (bit_or (bit_or a b) c) d) e) (
      rw (bit_or-mod k (bit_or (bit_or a b) c) d) (
        rw (bit_or-mod k (bit_or a b) c)
          (rw (bit_or-mod k a b) (rw (hb, hc, hd, he) (simp bit_or-zero)))))

-- The four flags of a result, as they stand in a status register.
pub record HasFlags (cpsr : ℕ) (out : AluOut) : Type 0 where
  pub negative : get_bit cpsr n_flag ≡ get_bit out.result 31
  pub zeroed : get_bit cpsr z_flag ≡ (if out.result == 0 then 1 else 0)
  pub carried : get_bit cpsr c_flag ≡ out.carry
  pub overflowed : get_bit cpsr v_flag ≡ out.overflow

module _ (cpsr : ℕ) (out : AluOut) (hc : out.carry < 2) (hv : out.overflow < 2) where
  pub new_cpsr-HasFlags : HasFlags (new_cpsr cpsr out) out
  unfolding new_cpsr
  new_cpsr-HasFlags =
      let low = bit_and cpsr 0x0FFFFFFF in
      let n = shl32 (get_bit out.result 31) n_flag in
      let z = shl32 (if out.result == 0 then 1 else 0) z_flag in
      let c = shl32 out.carry c_flag in
      let w = shl32 out.overflow v_flag in
      let m = bit_and_mask 28 cpsr in
      record {
        negative = or_five-bit low n z c w 31 ∙ ground (arith, m);
        zeroed = or_five-bit low n z c w 30 ∙ ground (arith, m);
        carried = or_five-bit low n z c w 29 ∙ ground (arith, m);
        overflowed = or_five-bit low n z c w 28 ∙ ground (arith, m);
      }

pub new_cpsr-low : (cpsr : ℕ) (out : AluOut) → new_cpsr cpsr out % 2 ^ 28 ≡ cpsr % 2 ^ 28
unfolding new_cpsr
new_cpsr-low cpsr out =
    or_five-mod _ _ _ _ _ 28 (omega arith) (omega arith) (omega arith) (omega arith)
    ∙ omega (arith, bit_and_mask 28 cpsr)

-- The flags of an operation are bits.
pub alu_bits :
    (op : Opcode) (rn operand sc c v : ℕ)
    → sc < 2
    → v < 2
    → let out = alu op rn operand sc c v in (out.carry < 2) × (out.overflow < 2)
unfolding alu sub_with add_with add_with_carry sub_with_carry
alu_bits and a b sc c v p q = (p, q)
alu_bits op a b sc c v p q = ground arith

-- A processor after the flags are written.
module _ (p : Arm) (rd : ℕ) (out : AluOut) where
  pub write_result-cpsr : arm_read_cpsr (write_result p rd out) ≡ arm_read_cpsr p
  unfolding write_result arm_read_cpsr arm_write_register arm_write_register_internal
      registers_read_cpsr registers_write
  write_result-cpsr = ground arith

pub cpsr-write_cpsr : (p : Arm) (value : ℕ) → arm_read_cpsr (arm_write_cpsr p value) ≡ value
unfolding arm_read_cpsr arm_write_cpsr registers_read_cpsr registers_write_cpsr
cpsr-write_cpsr p value = refl

-- With S and a destination other than the PC, the status and the CPSR after the instruction.
pub data_processing-cpsr :
    (p : Arm) (opcode rd rn operand sc : ℕ)
    → rd ≢ 15
    → let cpsr = arm_read_cpsr p in
      let out = alu (opcode_of opcode) rn operand sc (get_bit cpsr c_flag) (get_bit cpsr v_flag) in
      let (status, q) = data_processing p 1 opcode rd rn operand sc in
      (status ≡ 0) × (arm_read_cpsr q ≡ new_cpsr cpsr out)
unfolding data_processing write_flags
data_processing-cpsr p opcode rd rn operand sc n = rw (==_ne rd 15 n) (refl, cpsr-write_cpsr _ _)

-- The same with the result of `alu`.
pub data_processing-flags :
    (p : Arm) (opcode rd rn operand sc : ℕ)
    → rd ≢ 15
    → sc < 2
    → let cpsr = arm_read_cpsr p in
      let out = alu (opcode_of opcode) rn operand sc (get_bit cpsr c_flag) (get_bit cpsr v_flag) in
      let (status, q) = data_processing p 1 opcode rd rn operand sc in
      (status ≡ 0) × HasFlags (arm_read_cpsr q) out × (arm_read_cpsr q % 2 ^ 28 ≡ cpsr % 2 ^ 28)
data_processing-flags p opcode rd rn operand sc n h =
    let cpsr = arm_read_cpsr p in
    let out = alu (opcode_of opcode) rn operand sc (get_bit cpsr c_flag) (get_bit cpsr v_flag) in
    let (ok, e) = data_processing-cpsr p opcode rd rn operand sc n in
    let (bc, bv) =
      alu_bits (opcode_of opcode) rn operand sc (get_bit cpsr c_flag) (get_bit cpsr v_flag) h
        (omega arith) in
    rw e (ok, new_cpsr-HasFlags cpsr out bc bv, new_cpsr-low cpsr out)

-- A data processing instruction with S, on two uint32_t values, whose destination is not the PC and
-- whose shifter carry is a bit, succeeds; its N and Z are those of the result that is specified for
-- its code, its C and V are the specified ones, and bits 0 to 27 of the CPSR, with the mode and the
-- interrupt masks, stay as they were.
pub data_processing-HasFlags :
    (p : Arm) (opcode rd rn operand sc : ℕ)
    → opcode < 16
    → rn < 2 ^ 32
    → operand < 2 ^ 32
    → rd ≢ 15
    → sc < 2
    → let cpsr = arm_read_cpsr p in
      let out = specified opcode rn operand sc (get_bit cpsr c_flag) (get_bit cpsr v_flag) in
      let (status, q) = data_processing p 1 opcode rd rn operand sc in
      (status ≡ 0) × HasFlags (arm_read_cpsr q) out × (arm_read_cpsr q % 2 ^ 28 ≡ cpsr % 2 ^ 28)
data_processing-HasFlags p opcode rd rn operand sc code-lt rn-lt operand-lt n h =
    let cpsr = arm_read_cpsr p in
    let q = (data_processing p 1 opcode rd rn operand sc).1 in
    let (ok, flags, low) = data_processing-flags p opcode rd rn operand sc n h in
    (
      ok,
      subst (HasFlags (arm_read_cpsr q))
          (alu-specified opcode rn operand sc (get_bit cpsr c_flag) (get_bit cpsr v_flag) code-lt
            rn-lt operand-lt (omega arith))
          flags,
      low,
    )
