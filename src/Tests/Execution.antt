-- ===== src/Tests/Execution.antt =====
-- The theorems on instructions and exceptions, at concrete inputs.
use arm_simulator.Base.{
  ℕ, u8, ◌%◌, ◌^◌, ◌≡◌, inl, inr, refl, arith, replicate, [], shr32, add32, sub32, if◌then◌else◌,
  ◌==◌, false, some,
}
use arm_simulator.DataProcessing.Specified.{specified}
use arm_simulator.Constants.{svc, usr, c_flag, v_flag, undefined_instruction}
use arm_simulator.Util.{get_bit}
use arm_simulator.Memory.{with_bytes}
use arm_simulator.Registers.{
  registers_create, registers_get_mode, registers_read, registers_write_cpsr,
}
use arm_simulator.Core.{Arm, arm_read_cpsr, arm_read_register}
use arm_simulator.Core.Valid.{parts, with_registers}
use arm_simulator.Registers.Valid.{write_cpsr-IsValid}
use arm_simulator.Instruction.Confined.{Isolated, arm_step-Isolated}
use arm_simulator.Branch.{arm_branch}
use arm_simulator.Branch.Target.{arm_branch-target, signed_offset}
use arm_simulator.Exception.{arm_create, raise_exception, arm_exception}
use arm_simulator.Exception.Create.{arm_create-starts}
use arm_simulator.Exception.Entry.{raise_exception-entry, handler_cpsr, vector_of, link}
use arm_simulator.DataProcessing.{data_processing, add_with_carry}
use arm_simulator.Registers.Spsr.{IsExceptionMode}
use arm_simulator.DataProcessing.Return.{data_processing-return}
use arm_simulator.DataProcessing.Flags.{HasFlags, data_processing-HasFlags}
use arm_simulator.DataProcessing.Compare.{
  cmp-condition, cmp-higher_or_same, add_with_carry-lost, signed_test,
}
use arm_simulator.LoadStore.Multiple.{arm_load_store_multiple}
use arm_simulator.LoadStore.Multiple.Valid.{Returns, arm_load_store_multiple-Returns}
use arm_simulator.Instruction.{arm_step, instruction_cond}
use arm_simulator.Instruction.Valid.{arm_step-Returns}
use arm_simulator.Tests.Machine.{
  target, program, program-Holds, machine, machine-IsValid, machine-IsMode,
}

arm_step-Returns_example : Returns 32 1 (arm_step target machine)
arm_step-Returns_example = arm_step-Returns target machine-IsValid

-- ldmia r13!, {r0, r1}
arm_load_store_multiple-Returns_example :
    Returns 32 0 (arm_load_store_multiple target machine 0xE8BD0003)
arm_load_store_multiple-Returns_example =
    arm_load_store_multiple-Returns target 0xE8BD0003 machine-IsValid

-- adds r1, r2, r3 at the largest positive value and 1.
data_processing-HasFlags_example :
    let cpsr = arm_read_cpsr machine in
    let out = specified 4 0x7FFFFFFF 1 0 (get_bit cpsr c_flag) (get_bit cpsr v_flag) in
    let (status, q) = data_processing machine 1 4 1 0x7FFFFFFF 1 0 in
    (status ≡ 0) × HasFlags (arm_read_cpsr q) out × (arm_read_cpsr q % 2 ^ 28 ≡ cpsr % 2 ^ 28)
data_processing-HasFlags_example =
    data_processing-HasFlags machine 4 1 0x7FFFFFFF 1 0 (omega arith) (omega arith) (omega arith)
      (omega arith) (omega arith)

-- cmp of -1 with 1, then an instruction with LT.
cmp-condition_example :
    let (status, q) = data_processing machine 1 10 0 0xFFFFFFFF 1 0 in
    (status ≡ 0) × (instruction_cond q 0xB0000000 ≡ signed_test (shr32 0xB0000000 28) 0xFFFFFFFF 1)
cmp-condition_example =
    cmp-condition machine 0 0xFFFFFFFF 1 0 0xB0000000 (omega arith) (omega arith) (omega arith)
      (omega arith) (inr (inr (inr (inl refl))))

cmp-higher_or_same_example :
    instruction_cond (data_processing machine 1 10 0 5 3 0).1 0x20000000 ≡ false
cmp-higher_or_same_example =
    cmp-higher_or_same machine 0 5 3 0 0x20000000 (omega arith) (omega arith) (omega arith)
      (omega arith) refl

add_with_carry-lost_example : (add_with_carry 5 3 1).result ≡ 8
add_with_carry-lost_example = add_with_carry-lost 5 3 (omega arith)

arm_create-starts_example :
    let q =
      (arm_create target
        (registers_create (replicate 96 1) (replicate 5 2))
        (with_bytes program 32)).reg in
    (q.cpsr ≡ 0x1d3)
    × (registers_get_mode q ≡ svc)
    × (registers_read q 15 svc ≡ 0)
    × (registers_read q 13 svc ≡ 32 % 2 ^ 32)
arm_create-starts_example =
    arm_create-starts target (replicate 96 1) (replicate 5 2) program-Holds refl refl

raise_exception-entry_example :
    let q = raise_exception machine undefined_instruction in
    (q.reg.cpsr ≡ handler_cpsr undefined_instruction)
    × (registers_get_mode q.reg ≡ svc)
    × (registers_read q.reg 15 svc ≡ vector_of undefined_instruction)
    × (registers_read q.reg 14 (registers_get_mode machine.reg)
        ≡ link undefined_instruction (arm_read_register machine 15))
raise_exception-entry_example =
    raise_exception-entry undefined_instruction machine-IsValid machine-IsMode
      (inr (inr (inr (inr refl))))

-- A memory of zeros: the word 0 has the condition EQ, and Z is clear.
abbrev idle : Arm
idle = record {
  cycle_count = 7;
  reg = record { genreg = replicate 96 0; cpsr = 0x10; rstat = replicate 5 0 };
  mem = with_bytes (replicate 4 0) 4;
  output = [];
}

-- bl, two words back from the PC that is read.
arm_branch-target_example :
    let (status, q) = arm_branch machine 0xEBFFFFFE in
    let mode = registers_get_mode machine.reg in
    (status ≡ 0)
    × (registers_read q.reg 15 mode
        ≡ add32 (arm_read_register machine 15) (signed_offset 0xEBFFFFFE))
    × (registers_read q.reg 14 mode ≡ (
        if get_bit 0xEBFFFFFE 24 == 1
        then sub32 (arm_read_register machine 15) 4
        else registers_read machine.reg 14 mode))
arm_branch-target_example = arm_branch-target 0xEBFFFFFE machine-IsValid machine-IsMode refl

machine-IsExceptionMode : IsExceptionMode (registers_get_mode machine.reg)
machine-IsExceptionMode =
    let (_, e, _, _) =
      arm_create-starts target (replicate 96 7) (replicate 5 7) program-Holds refl refl in
    rw e (inr (inr (inl refl)))

-- movs pc, lr at the address 8.
data_processing-return_example :
    let (status, q) = data_processing machine 1 13 15 0 8 0 in
    (status ≡ 0) × (arm_read_cpsr q ≡ arm_read_cpsr machine)
data_processing-return_example =
    data_processing-return 13 0 8 0 machine-IsValid machine-IsExceptionMode (omega arith)
      (omega arith)

-- The machine in user mode, before its first instruction.
abbrev user_machine : Arm
user_machine = record machine { reg = registers_write_cpsr machine.reg 0x10 }

user_machine-user : registers_get_mode user_machine.reg ≡ usr
unfolding registers_get_mode registers_write_cpsr
user_machine-user = refl

arm_step-Isolated_example :
    (status : ℕ) × (q : Arm) × (arm_step target user_machine
      ≡ some (if status == 0 then (status, q) else arm_exception target q (u8 status)))
    × Isolated user_machine q
arm_step-Isolated_example =
    arm_step-Isolated target
      (with_registers machine-IsValid
        (write_cpsr-IsValid 0x10 (parts machine-IsValid).registers (omega arith)))
      user_machine-user
