-- ===== src/DataProcessing/Valid.antt =====
-- arm_data_processing.c: the invariant of the processor.
use arm_simulator.Base.{
  ℕ, ◌*◌, ◌^◌, ◌<◌, ◌≡◌, arith, add32, not32, shl32, shr32, bit_and, bit_or, ◌==◌, if◌then◌else◌,
  Option, none, some, ◌||◌, refl,
}
use arm_simulator.Base.Bits.{bit_and-lt, bit_or-lt, bit_xor-lt, bit_and_mask, bit_and-lt_left}
use arm_simulator.Constants.{c_flag, v_flag, user_mask, priv_mask, state_mask, n_flag, z_flag}
use arm_simulator.Util.{get_bit, get_bits, ror}
use arm_simulator.Util.Bounds.{shr32-lt, get_bits-lt, asr-lt, ror-lt}
use arm_simulator.Core.{
  Arm, Target, arm_read_register, arm_read_cpsr, arm_read_spsr, arm_current_mode_has_spsr,
}
use arm_simulator.Core.Valid.{
  IsValid, write_register-IsValid, write_spsr-IsValid, write_cpsr-IsValid, has_spsr-IsValid,
  read_register-lt, read_cpsr-lt, read_spsr-lt,
}
use arm_simulator.DataProcessing.{
  sub_with, add_with, add_with_carry, sub_with_carry, write_result, write_flags, Opcode, AluOut,
  alu, opcode_of, new_cpsr, data_processing, shifter, lsl_by_immediate, lsl_by_register,
  lsr_by_immediate, lsr_by_register, asr_by_immediate, asr_by_register, ror_by_immediate,
  ror_by_register, arm_data_processing_shift, arm_data_processing_immediate, arm_msr_immediate,
  arm_data_processing_immediate_msr, byte_mask_of, merge, and, eor, tst, teq, orr, bic, mvn,
}

-- The result of every operation on two words is a word.
pub alu-lt :
    (op : Opcode) (rn operand sc c v : ℕ)
    → rn < 2 ^ 32
    → operand < 2 ^ 32
    → (alu op rn operand sc c v).result < 2 ^ 32
unfolding alu sub_with add_with add_with_carry sub_with_carry
alu-lt and a b sc c v p q = bit_and-lt 32 a b p q
alu-lt eor a b sc c v p q = bit_xor-lt 32 a b p q
alu-lt tst a b sc c v p q = bit_and-lt 32 a b p q
alu-lt teq a b sc c v p q = bit_xor-lt 32 a b p q
alu-lt orr a b sc c v p q = bit_or-lt 32 a b p q
alu-lt bic a b sc c v p q = bit_and-lt 32 a (not32 b) p (omega arith)
alu-lt mvn a b sc c v p q = omega arith
alu-lt op a b sc c v p q = ground arith

bit_and-low : (cpsr : ℕ) → bit_and cpsr 0x0FFFFFFF < 2 ^ 32
bit_and-low cpsr = omega (arith, bit_and_mask 28 cpsr)

merge-lt :
    (old operand mask : ℕ) → old < 2 ^ 32 → operand < 2 ^ 32 → merge old operand mask < 2 ^ 32
unfolding merge
merge-lt old operand mask a b =
    bit_or-lt 32 (bit_and old (not32 mask)) (bit_and operand mask)
      (bit_and-lt_left 32 old (not32 mask) a) (bit_and-lt_left 32 operand mask b)

new_cpsr-lt : (cpsr : ℕ) (out : AluOut) → new_cpsr cpsr out < 2 ^ 32
unfolding new_cpsr
new_cpsr-lt cpsr out =
    let low = bit_and cpsr 0x0FFFFFFF in
    let n = shl32 (get_bit out.result 31) n_flag in
    let z = shl32 (if out.result == 0 then 1 else 0) z_flag in
    let c = shl32 out.carry c_flag in
    let w = shl32 out.overflow v_flag in
    bit_or-lt 32 (bit_or (bit_or (bit_or low n) z) c) w
      (bit_or-lt 32 (bit_or (bit_or low n) z) c
        (bit_or-lt 32 (bit_or low n) z (bit_or-lt 32 low n (bit_and-low cpsr) (omega arith))
          (omega arith))
        (omega arith))
      (omega arith)

module _ {size cycle : ℕ} {p : Arm} (v : IsValid size cycle p) where
  pub write_result-IsValid :
      (rd : ℕ) (out : AluOut) → out.result < 2 ^ 32 → IsValid size cycle (write_result p rd out)
  unfolding write_result
  write_result-IsValid rd out h = ground (arith, v, write_register-IsValid v rd out.result)

  write_flags-IsValid :
      (cpsr s_bit rd : ℕ) (out : AluOut) → IsValid size cycle (write_flags p cpsr s_bit rd out).1
  unfolding write_flags
  write_flags-IsValid cpsr s_bit rd out =
      let w = has_spsr-IsValid v in
      ground (
        arith,
        v,
        w,
        write_cpsr-IsValid w (arm_read_spsr (arm_current_mode_has_spsr p).1) (read_spsr-lt w),
        write_cpsr-IsValid v (new_cpsr cpsr out) (new_cpsr-lt cpsr out),
      )

  arm_msr_immediate-IsValid :
      (t : Target) (ins : ℕ) → ins < 2 ^ 32 → IsValid size cycle (arm_msr_immediate t p ins).1
  unfolding arm_msr_immediate
  arm_msr_immediate-IsValid t ins h =
      let w = has_spsr-IsValid v in
      let operand = ror t.wide (get_bits ins 7 0) (get_bits ins 11 8 * 2) in
      let o =
        ror-lt t.wide t.wide_cases (get_bits ins 7 0) (get_bits ins 11 8 * 2)
          (get_bits-lt ins 7 0 h) in
      let byte_mask = byte_mask_of (get_bits ins 19 16) in
      let cpsr = arm_read_cpsr p in
      let priv = bit_and byte_mask (bit_or user_mask priv_mask) in
      let user = bit_and byte_mask user_mask in
      let saved = bit_and byte_mask (bit_or (bit_or user_mask priv_mask) state_mask) in
      let spsr = arm_read_spsr (arm_current_mode_has_spsr p).1 in
      ground (
        arith,
        v,
        w,
        write_cpsr-IsValid v (merge cpsr operand user)
            (merge-lt cpsr operand user (read_cpsr-lt v) o),
        write_cpsr-IsValid v (merge cpsr operand priv)
            (merge-lt cpsr operand priv (read_cpsr-lt v) o),
        write_spsr-IsValid w (merge spsr operand saved)
            (merge-lt spsr operand saved (read_spsr-lt w) o),
      )

module _ {size cycle : ℕ} {p : Arm} (v : IsValid size cycle p) where
  data_processing-IsValid :
      (s_bit opcode rd rn operand carry : ℕ)
      → rn < 2 ^ 32
      → operand < 2 ^ 32
      → IsValid size cycle (data_processing p s_bit opcode rd rn operand carry).1
  unfolding data_processing
  data_processing-IsValid s_bit opcode rd rn operand carry a b =
      write_flags-IsValid
        (write_result-IsValid v rd _ (alu-lt (opcode_of opcode) rn operand carry _ _ a b)) _ s_bit
        rd _

-- The operand of each addressing mode is a word.
module _ (rm amount c : ℕ) (h : rm < 2 ^ 32) where
  lsl_by_immediate-lt : (lsl_by_immediate rm amount c).0 < 2 ^ 32
  unfolding lsl_by_immediate
  lsl_by_immediate-lt = ground arith

  lsl_by_register-lt : (lsl_by_register rm amount c).0 < 2 ^ 32
  unfolding lsl_by_register
  lsl_by_register-lt = ground arith

  lsr_by_immediate-lt : (lsr_by_immediate rm amount).0 < 2 ^ 32
  unfolding lsr_by_immediate
  lsr_by_immediate-lt = ground (arith, shr32-lt rm amount h)

  lsr_by_register-lt : (lsr_by_register rm amount c).0 < 2 ^ 32
  unfolding lsr_by_register
  lsr_by_register-lt = ground (arith, shr32-lt rm amount h)

  module _ (t : Target) where
    asr_by_immediate-lt : (asr_by_immediate t.wide rm amount).0 < 2 ^ 32
    unfolding asr_by_immediate
    asr_by_immediate-lt = ground (arith, asr-lt t.wide t.wide_cases rm amount h)

    asr_by_register-lt : (asr_by_register t.wide rm amount c).0 < 2 ^ 32
    unfolding asr_by_register
    asr_by_register-lt = ground (arith, asr-lt t.wide t.wide_cases rm amount h)

    ror_by_immediate-lt : (ror_by_immediate t.wide rm amount c).0 < 2 ^ 32
    unfolding ror_by_immediate
    ror_by_immediate-lt = ground (
      arith,
      ror-lt t.wide t.wide_cases rm amount h,
      bit_or-lt 32 (shl32 c 31) (shr32 rm 1) (omega arith) (shr32-lt rm 1 h),
    )

    ror_by_register-lt : (low : ℕ) → (ror_by_register t.wide rm amount low c).0 < 2 ^ 32
    unfolding ror_by_register
    ror_by_register-lt low = ground (arith, ror-lt t.wide t.wide_cases rm low h)

module _ {size cycle : ℕ} {p : Arm} (v : IsValid size cycle p) (t : Target) (ins : ℕ)
    (h : ins < 2 ^ 32) where
  pub arm_data_processing_immediate_msr-IsValid :
      IsValid size cycle (arm_data_processing_immediate_msr t p ins).1
  unfolding arm_data_processing_immediate_msr arm_data_processing_immediate
  arm_data_processing_immediate_msr-IsValid =
      let operand = ror t.wide (get_bits ins 7 0) (get_bits ins 11 8 * 2) in
      let o =
        ror-lt t.wide t.wide_cases (get_bits ins 7 0) (get_bits ins 11 8 * 2)
          (get_bits-lt ins 7 0 h) in
      let rotate_imm = get_bits ins 11 8 in
      let carry =
        if rotate_imm == 0 then get_bit (arm_read_cpsr p) c_flag else get_bit operand 31 in
      ground (
        arith,
        arm_msr_immediate-IsValid v t ins h,
        data_processing-IsValid v (get_bit ins 20) (get_bits ins 24 21) (get_bits ins 15 12)
            (arm_read_register p (get_bits ins 19 16)) operand carry
            (read_register-lt v (get_bits ins 19 16)) o,
      )

  -- The operand is a word in each of the eight addressing modes.
  shifter-lt : (operand carry : ℕ) → shifter t p ins ≡ some (operand, carry) → operand < 2 ^ 32
  unfolding shifter
  shifter-lt operand carry e =
      let c = get_bit (arm_read_cpsr p) c_flag in
      let rm = get_bits ins 3 0 in
      let rn = get_bits ins 19 16 in
      let imm = get_bits ins 11 7 in
      let x = arm_read_register p rm in
      let y = if rm == 15 || rn == 15 then add32 (arm_read_register p 15) 4 else x in
      let xl = read_register-lt v rm in
      let yl : y < 2 ^ 32 = ground arith in
      let amount = get_bits (arm_read_register p (get_bits ins 11 8)) 7 0 in
      let low = get_bits (arm_read_register p (get_bits ins 11 8)) 4 0 in
      ground (
        arith,
        lsl_by_immediate-lt y imm c yl,
        lsl_by_register-lt x amount c xl,
        lsr_by_immediate-lt y imm c yl,
        lsr_by_register-lt x amount c xl,
        asr_by_immediate-lt y imm c yl t,
        asr_by_register-lt x amount c xl t,
        ror_by_immediate-lt y imm c yl t,
        ror_by_register-lt x amount c xl t low,
      )

  pub arm_data_processing_shift-IsValid : IsValid size cycle (arm_data_processing_shift t p ins).1
  unfolding arm_data_processing_shift
  arm_data_processing_shift-IsValid = go (shifter t p ins) refl
    where
      go :
          (o : Option (ℕ × ℕ))
          → shifter t p ins ≡ o
          → IsValid size cycle (arm_data_processing_shift t p ins).1
      go none e = rw (e, arm_data_processing_shift) v
      go (some (operand, carry)) e =
          rw (e, arm_data_processing_shift)
            (data_processing-IsValid v _ _ _ _ operand carry (read_register-lt v _)
              (shifter-lt operand carry e))
