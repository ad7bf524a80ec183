-- ===== src/Tests/Storage.antt =====
-- The theorems on the memory and the registers, at concrete inputs.
use arm_simulator.Base.{◌≡◌, inl, inr, refl, arith, replicate, if◌then◌else◌, ◌==◌}
use mathlib.Core.Logic.{ite}
use arm_simulator.Constants.{success, usr, irq}
use arm_simulator.Memory.{with_bytes, memory_read_half, memory_read_word, memory_write_word}
use arm_simulator.Memory.Halves.{read_half-write_word}
use arm_simulator.Memory.RoundTrip.{read_word-write_word}
use arm_simulator.Registers.{registers_create, registers_read, registers_write, Registers}
use arm_simulator.Registers.Valid.{IsValid, create-IsValid}
use arm_simulator.Registers.Banks.{bank, Bank-discrete, read-write}
use arm_simulator.Tests.Machine.{program, program-Holds}

read_word-write_word_example :
    let (code, mem') = memory_write_word (with_bytes program 32) 12 0xDEADBEEF 1 in
    (code ≡ success) × (memory_read_word mem' 12 0 1 ≡ (success, 0xDEADBEEF))
read_word-write_word_example =
    read_word-write_word 12 0xDEADBEEF 1 program-Holds (omega arith) 0 (omega arith)

read_half-write_word_example :
    let mem' = (memory_write_word (with_bytes program 32) 12 0xDEADBEEF 1).1 in
    (memory_read_half mem' 12 0 1 ≡ (success, 0xDEAD))
    × (memory_read_half mem' 14 0 1 ≡ (success, 0xBEEF))
read_half-write_word_example =
    read_half-write_word 12 0xDEADBEEF 1 program-Holds 0 (omega arith) (omega arith)

abbrev registers : Registers
registers = registers_create (replicate 96 7) (replicate 5 7)

registers-IsValid : IsValid registers
registers-IsValid = (create-IsValid (replicate 96 7) (replicate 5 7) 0 0 refl refl).0

read-write_example : registers_read (registers_write registers 8 irq 42) 8 usr ≡ (
    if 8 == 8
    then ite (Bank-discrete (bank 8 irq) (bank 8 usr)) 42 (registers_read registers 8 usr)
    else registers_read registers 8 usr)
read-write_example =
    read-write 8 irq 42 8 usr registers-IsValid (omega arith) (omega arith) (inr (inr (inl refl)))
      (inl refl)
