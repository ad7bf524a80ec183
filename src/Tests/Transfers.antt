-- ===== src/Tests/Transfers.antt =====
-- The theorems on LDR, STR, LDM and STM, at a processor in user mode with twelve bytes of memory.
use arm_simulator.Base.{
  [], ℕ, ◌≡◌, ◌^◌, ◌==◌, refl, arith, inl, replicate, if◌then◌else◌, some, AllBelow-replicate,
}
use arm_simulator.Constants.{usr}
use arm_simulator.Util.{get_bit, get_bits}
use arm_simulator.Memory.{with_bytes}
use arm_simulator.Registers.{
  Registers, registers_get_mode, registers_read, registers_write, mode_ind,
}
use arm_simulator.Registers.Valid as RegistersValid
use arm_simulator.Core.{Arm, arm_read_register, arm_read_register_internal}
use arm_simulator.Core.Valid.{IsValid, valid}
use arm_simulator.LoadStore.{arm_load_store}
use arm_simulator.LoadStore.Offset.{as_load, effective}
use arm_simulator.LoadStore.Single.{load_word-store_word}
use arm_simulator.LoadStore.Multiple.{arm_load_store_multiple, transfer_range, number_set_bits_in}
use arm_simulator.LoadStore.Multiple.Range.{bits_from}
use arm_simulator.LoadStore.Multiple.Transfer.{list_of, base_of, range_of}
use arm_simulator.LoadStore.Multiple.Restored.{load_multiple-store_multiple}
use arm_simulator.LoadStore.Multiple.WriteBack.{written_base, store_multiple-written_base}
use arm_simulator.Tests.Machine.{target}

abbrev registers : Registers
registers = record { genreg = replicate 96 0; cpsr = 0x10; rstat = replicate 5 0 }

registers-IsValid : RegistersValid.IsValid registers
registers-IsValid = record {
  general = refl;
  words = AllBelow-replicate (2 ^ 32) 96 0 (omega arith);
  status = omega arith;
  saved = refl;
  saved_words = AllBelow-replicate (2 ^ 32) 5 0 (omega arith);
}

abbrev small : Arm
small = record {
  cycle_count = 0;
  reg = registers;
  mem = with_bytes (replicate 12 0) 12;
  output = [];
}

small-IsValid : IsValid 12 0 small
small-IsValid = valid (record {
  registers = registers-IsValid;
  bytes = replicate 12 0;
  memory = record {
    is_intact = refl;
    are_bytes = omega arith;
    at_least = omega arith;
    at_most = omega arith;
  };
  same_size = refl;
  same_cycle = refl;
})

-- r1 is 5 then.
abbrev changed : Registers
changed = registers_write registers 1 usr 5

-- stmia r0, {r1, r2}
abbrev stm : ℕ
stm = 0xE8800006

stm-list : list_of stm ≡ 6
unfolding get_bits
stm-list = refl

stm-base : base_of stm ≡ 0
unfolding get_bits
stm-base = refl

user : registers_get_mode registers ≡ usr
unfolding registers_get_mode
user = refl

changed-user : registers_get_mode changed ≡ registers_get_mode registers
unfolding registers_get_mode registers_write mode_ind
changed-user = refl

changed-base :
    registers_read changed (base_of stm) (registers_get_mode registers)
    ≡ registers_read registers (base_of stm) (registers_get_mode registers)
unfolding registers_get_mode registers_read registers_write mode_ind get_bits
changed-base = refl

stm-range : (range_of small stm).0 ≡ 0
unfolding registers_get_mode registers_read mode_ind get_bits transfer_range arm_read_register
    arm_read_register_internal
stm-range = refl

stm-bits : bits_from (list_of stm) 16 0 ≡ 2
unfolding get_bits
stm-bits = refl

load_multiple-store_multiple_example :
    (q q' : Arm) × (arm_load_store_multiple target small stm ≡ some (0, q))
    × (q.reg ≡ registers)
    × (arm_load_store_multiple target (record q { reg = changed }) (as_load stm) ≡ some (0, q'))
    × (registers_read q'.reg 1 (registers_get_mode registers) ≡ (
        if get_bit (list_of stm) 1 == 1
        then registers_read registers 1 (registers_get_mode registers)
        else registers_read changed 1 (registers_get_mode registers)))
    × (q'.reg.cpsr ≡ changed.cpsr)
load_multiple-store_multiple_example =
    load_multiple-store_multiple target stm changed 1 small-IsValid
      (RegistersValid.write-IsValid 1 usr 5 registers-IsValid (omega arith)) (inl user) changed-user
      changed-base (omega (arith, stm-list)) (omega (arith, stm-list)) refl refl refl
      (omega (arith, stm-range, stm-bits)) (omega arith) (omega arith)

-- str r1, [r0, #4]
abbrev str : ℕ
str = 0xE5801004

str-address : effective target small str ≡ 4
unfolding registers_get_mode registers_read mode_ind get_bits arm_read_register
    arm_read_register_internal
str-address = refl

str-same : effective target (record small { reg = changed }) str ≡ effective target small str
unfolding registers_get_mode registers_read registers_write mode_ind get_bits arm_read_register
    arm_read_register_internal
str-same = refl

load_word-store_word_example :
    let mode = registers_get_mode small.reg in
    let rd = get_bits str 15 12 in
    (q q' : Arm) × (arm_load_store target small str ≡ (0, q))
    × (q.reg ≡ small.reg)
    × (arm_load_store target (record q { reg = changed }) (as_load str) ≡ (0, q'))
    × (registers_read q'.reg 1 mode
        ≡ (if rd == 1 then registers_read small.reg rd mode else registers_read changed 1 mode))
    × (q'.mem ≡ q.mem)
load_word-store_word_example =
    load_word-store_word target str changed 1 small-IsValid
      (RegistersValid.write-IsValid 1 usr 5 registers-IsValid (omega arith)) (inl user) changed-user
      str-same (unfold get_bits in (inl refl, refl, refl)) refl refl
      (unfold get_bits in omega arith) (omega (arith, str-address)) (omega arith)

-- stmdb r13!, {r1, r2}
store_multiple-written_base_example :
    (q : Arm) × (arm_load_store_multiple target small 0xE92D0006 ≡ some (0, q))
    × (q.reg
        ≡ registers_write registers (base_of 0xE92D0006) (registers_get_mode registers) (
            written_base
              (get_bits 0xE92D0006 24 23)
              (arm_read_register small (base_of 0xE92D0006))
              (number_set_bits_in (list_of 0xE92D0006))))
store_multiple-written_base_example =
    store_multiple-written_base target 0xE92D0006 small-IsValid (unfold get_bits in omega arith)
      refl refl refl
