-- ===== src/Tests/Arithmetic.antt =====
-- The theorems on the operand and the result of data processing, and on what is freed, at concrete
-- inputs.
use arm_simulator.Base.{ℕ, ◌≡◌, refl, arith, some, none, true, false}
use arm_simulator.Registers.{registers_create}
use arm_simulator.DataProcessing.{shifter}
use arm_simulator.DataProcessing.Operand.{operand_of, shifter-operand_of}
use arm_simulator.Lifetime
use arm_simulator.Lifetime.{
  Heap, undefined, returned, main_creates, main_destroys, arm_destroy, registers_destroy,
}
use arm_simulator.Lifetime.Balance.{
  IsFresh, main_creates-main_destroys, registers_create-registers_destroy,
}
use arm_simulator.Tests.Machine.{target, machine, machine-IsValid}

-- mov r1, r2, ror r3
shifter-operand_of_example : shifter target machine 0xE1A01372 ≡ operand_of machine 0xE1A01372
shifter-operand_of_example = shifter-operand_of target 0xE1A01372 machine-IsValid

abbrev empty_heap : Heap
empty_heap = record { next = 1; live = λ q. none }

empty_heap-IsFresh : IsFresh empty_heap
empty_heap-IsFresh = record { not_null = omega arith; null = refl; unused = λ q le. refl }

main_creates-main_destroys_example :
    (reg : ℕ) × (mem : ℕ) × (arm : ℕ) × (h1 : Heap) × (h2 : Heap) × (main_creates true true true
        true true true empty_heap
      ≡ returned (some (reg, mem, arm)) h1)
    × (arm_destroy arm h1 ≡ returned tt h2)
    × ((q : ℕ) → h2.live q ≡ none)
    × (main_destroys reg mem arm h1 ≡ undefined)
main_creates-main_destroys_example = main_creates-main_destroys empty_heap empty_heap-IsFresh

registers_create-registers_destroy_example :
    (r : ℕ) × (h1 : Heap) × (Lifetime.registers_create true false true empty_heap ≡ returned r h1)
    × (registers_destroy r h1 ≡ undefined)
registers_create-registers_destroy_example =
    registers_create-registers_destroy true false true empty_heap empty_heap-IsFresh refl
