-- ===== src/Instruction.antt =====
-- arm_instruction.c: the condition of an instruction, the dispatch on its bits 27 to 25, and a step
-- of the processor. `none` is the end of the process by a failed assertion.
pub mod Condition
pub mod Valid
pub mod Confined
pub mod Arithmetic
use arm_simulator.Base.{
  ℕ, zero, ◌+◌, ◌*◌, ◌/◌, ◌^◌, u8, shr32, ◌==◌, if◌then◌else◌, ◌&&◌, ◌||◌, not, Bool, true, false,
  Option, none, some,
}
use arm_simulator.Constants.{undefined_instruction, n_flag, z_flag, c_flag, v_flag}
use arm_simulator.Util.{get_bit, get_bits}
use arm_simulator.Core.{Arm, Target, value_local, arm_read_cpsr, arm_fetch}
use arm_simulator.Exception.{arm_exception}
use arm_simulator.Branch.{arm_branch, arm_coprocessor_others_swi, arm_miscellaneous}
use arm_simulator.DataProcessing.{arm_data_processing_shift, arm_data_processing_immediate_msr}
use arm_simulator.LoadStore.{arm_load_store, arm_coprocessor_load_store}
use arm_simulator.LoadStore.Multiple.{arm_load_store_multiple}

-- `get_bit(status, N) == get_bit(status, V)`
abbrev pub same : Bool → Bool → Bool
same true b = b
same false b = not b

-- The `switch` on the condition field, at the flags.
unfoldable pub condition_holds : ℕ → Bool → Bool → Bool → Bool → Bool
condition_holds code n z c v =
    if code == 0
    then z
    else if code == 1
    then not z
    else if code == 2
    then c
    else if code == 3
    then not c
    else if code == 4
    then n
    else if code == 5
    then not n
    else if code == 6
    then v
    else if code == 7
    then not v
    else if code == 8
    then c && not z
    else if code == 9
    then not c || z
    else if code == 10
    then same n v
    else if code == 11
    then not (same n v)
    else if code == 12
    then not z && same n v
    else if code == 13
    then z || not (same n v)
    else if code == 14
    then true
    else false

unfoldable pub instruction_cond : Arm → ℕ → Bool
instruction_cond p inst =
    let status = arm_read_cpsr p in
    condition_holds (shr32 inst 28) (get_bit status n_flag == 1) (get_bit status z_flag == 1)
      (get_bit status c_flag == 1) (get_bit status v_flag == 1)

module _ (t : Target) where
  -- The case 0b000 of the dispatch.
  unfoldable pub execute_000 : Arm → ℕ → ℕ × Arm
  execute_000 p instruction =
      let bit_4 = get_bit instruction 4 in
      let bit_7 = get_bit instruction 7 in
      if bit_4 == 1 && bit_7 == 1
      then arm_load_store t p instruction
      else if get_bits instruction 24 23 == 2 && get_bit instruction 20 == 0
      then if bit_4 == 0 || (bit_4 == 1 && bit_7 == 0)
        then arm_miscellaneous p instruction
        else (undefined_instruction, p)
      else arm_data_processing_shift t p instruction

  unfoldable pub execute_decoded : Arm → ℕ → Option (ℕ × Arm)
  execute_decoded p instruction =
      let kind = get_bits instruction 27 25 in
      if kind == 0
      then some (execute_000 p instruction)
      else if kind == 1
      then some (arm_data_processing_immediate_msr t p instruction)
      else if kind == 2
      then some (arm_load_store t p instruction)
      else if kind == 3
      then (if get_bit instruction 4 == 0
          then some (arm_load_store t p instruction)
          else some (undefined_instruction, p))
      else if kind == 4
      then arm_load_store_multiple t p instruction
      else if kind == 5
      then some (arm_branch p instruction)
      else if kind == 6
      then some (arm_coprocessor_load_store p instruction)
      else if kind == 7
      then some (arm_coprocessor_others_swi p instruction)
      else some (undefined_instruction, p)

  unfoldable pub arm_execute_instruction : Arm → Option (ℕ × Arm)
  arm_execute_instruction p =
      let (_, instruction, p1) = arm_fetch t p (t.uninit value_local p) in
      if instruction_cond p1 instruction then execute_decoded p1 instruction else some (zero, p1)

  -- A result that is not 0 goes to `arm_exception`.
  unfoldable pub arm_step : Arm → Option (ℕ × Arm)
  arm_step p = elim (arm_execute_instruction p) [
    | none ↦ none
    | some (result, p1) ↦
        if result == 0 then some (result, p1) else some (arm_exception t p1 (u8 result))
  ]
