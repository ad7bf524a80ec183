-- ===== src/DataProcessing/Confined.antt =====
-- arm_data_processing.c in user mode.
use arm_simulator.Base.{
  Option-cases, inl, inr, sym, ◌-◌, ℕ, ◌*◌, ◌%◌, ◌^◌, ◌<◌, ◌≡◌, arith, not32, bit_and, ◌==◌,
  if◌then◌else◌, ◌∙◌,
}
use arm_simulator.Base.Bits.{
  bit_and-mod, bit_or-mod, bit_and-zero, bit_or-zero, bit_and_mask, bit_and-lt_right,
}
use arm_simulator.Constants.{c_flag, user_mask}
use arm_simulator.Util.{get_bit, get_bits, ror}
use arm_simulator.Registers.{Registers}
use arm_simulator.Core.{Arm, Target, arm_read_register, arm_read_cpsr}
use arm_simulator.Core.Confined.{
  Confined, write_register-Confined, write_cpsr-Confined, has_spsr-Confined, answer-none,
  not_privileged,
}
use arm_simulator.DataProcessing.{
  AluOut, new_cpsr, write_result, write_flags, data_processing, shifter, arm_data_processing_shift,
  arm_data_processing_immediate, arm_msr_immediate, arm_data_processing_immediate_msr, byte_mask_of,
  merge,
}
use arm_simulator.DataProcessing.Flags.{new_cpsr-low, write_result-cpsr}

-- The flags are all that an MSR changes with the mask of user mode.
module _ (byte_mask : ℕ) where
  abbrev mask : ℕ
  mask = bit_and byte_mask user_mask

  mask-low : mask % 2 ^ 28 ≡ 0
  mask-low = bit_and-mod 28 byte_mask user_mask ∙ bit_and-zero (byte_mask % 2 ^ 28)

  mask-lt : mask < 2 ^ 32
  mask-lt = bit_and-lt_right 32 byte_mask user_mask (omega arith)

  rest-low : not32 mask % 2 ^ 28 ≡ 2 ^ 28 - 1
  rest-low = omega (arith, mask-low, mask-lt)

  merge_user : (old operand : ℕ) → merge old operand mask % 2 ^ 28 ≡ old % 2 ^ 28
  unfolding merge
  merge_user old operand =
      bit_or-mod 28 (bit_and old (not32 mask)) (bit_and operand mask)
      ∙ rw (bit_and-mod 28 old (not32 mask), bit_and-mod 28 operand mask)
          (rw (mask-low, rest-low)
            (rw (bit_and-zero (operand % 2 ^ 28), bit_or-zero (bit_and (old % 2 ^ 28) (2 ^ 28 - 1)))
              (bit_and_mask 28 (old % 2 ^ 28) ∙ omega arith)))

module _ {r : Registers} {p : Arm} (c : Confined r p) where
  write_result-Confined : (rd : ℕ) (out : AluOut) → Confined r (write_result p rd out)
  unfolding write_result
  write_result-Confined rd out = ground (arith, c, write_register-Confined c rd out.result)

  write_flags-Confined :
      (cpsr s_bit rd : ℕ) (out : AluOut)
      → cpsr ≡ arm_read_cpsr p
      → Confined r (write_flags p cpsr s_bit rd out).1
  unfolding write_flags
  write_flags-Confined cpsr s_bit rd out e = ground (
    arith,
    c,
    has_spsr-Confined c,
    answer-none c,
    write_cpsr-Confined c (new_cpsr cpsr out) (omega (arith, new_cpsr-low cpsr out, e)),
  )

  arm_msr_immediate-Confined : (t : Target) (ins : ℕ) → Confined r (arm_msr_immediate t p ins).1
  unfolding arm_msr_immediate
  arm_msr_immediate-Confined t ins =
      let operand = ror t.wide (get_bits ins 7 0) (get_bits ins 11 8 * 2) in
      let byte_mask = byte_mask_of (get_bits ins 19 16) in
      let cpsr = arm_read_cpsr p in
      ground (
        arith,
        c,
        has_spsr-Confined c,
        answer-none c,
        not_privileged c,
        write_cpsr-Confined c (merge cpsr operand (bit_and byte_mask user_mask))
            (merge_user byte_mask cpsr operand),
      )

module _ {r : Registers} {p : Arm} (c : Confined r p) where
  data_processing-Confined :
      (s_bit opcode rd rn operand carry : ℕ)
      → Confined r (data_processing p s_bit opcode rd rn operand carry).1
  unfolding data_processing
  data_processing-Confined s_bit opcode rd rn operand carry =
      write_flags-Confined (write_result-Confined c rd _) _ s_bit rd _
        (sym (write_result-cpsr p rd _))

  pub arm_data_processing_immediate_msr-Confined :
      (t : Target) (ins : ℕ) → Confined r (arm_data_processing_immediate_msr t p ins).1
  unfolding arm_data_processing_immediate_msr arm_data_processing_immediate
  arm_data_processing_immediate_msr-Confined t ins =
      let operand = ror t.wide (get_bits ins 7 0) (get_bits ins 11 8 * 2) in
      let carry =
        if get_bits ins 11 8 == 0 then get_bit (arm_read_cpsr p) c_flag else get_bit operand 31 in
      ground (
        arith,
        arm_msr_immediate-Confined c t ins,
        data_processing-Confined (get_bit ins 20) (get_bits ins 24 21) (get_bits ins 15 12)
            (arm_read_register p (get_bits ins 19 16)) operand carry,
      )

  pub arm_data_processing_shift-Confined :
      (t : Target) (ins : ℕ) → Confined r (arm_data_processing_shift t p ins).1
  unfolding arm_data_processing_shift
  arm_data_processing_shift-Confined t ins = elim (Option-cases (shifter t p ins)) [
    | inl e ↦ rw (e, arm_data_processing_shift) c
    | inr ((operand, carry), e) ↦
        rw (e, arm_data_processing_shift) (data_processing-Confined _ _ _ _ operand carry)
  ]
