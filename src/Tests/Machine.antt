-- ===== src/Tests/Machine.antt =====
-- A processor with 32 bytes of memory, right after its creation, and a target on which a shift by
-- 32 gives 0 and a local that is not assigned holds 0.
use arm_simulator.Base.{ℕ, inl, inr, refl, arith, replicate, List, ◌∷◌}
use arm_simulator.Memory.{with_bytes}
use arm_simulator.Memory.Holds.{Holds}
use arm_simulator.Registers.{registers_create, registers_get_mode}
use arm_simulator.Registers.Banks.{IsMode}
use arm_simulator.Core.{Arm, Target}
use arm_simulator.Core.Valid.{IsValid}
use arm_simulator.Exception.{arm_create}
use arm_simulator.Exception.Create.{arm_create-IsValid, arm_create-starts}

abbrev pub target : Target
target = record {
  endianess = 0;
  uninit = λ l p. 0;
  wide = λ x k. 0;
  uninit-lt = λ l p. omega arith;
  wide_cases = λ x k. inr refl;
}

-- mov r0, #5; add r0, r0, #3; swi 0x123456, in little-endian order.
abbrev pub program : List ℕ
program =
    0x05
    ∷ 0x00
    ∷ 0xA0
    ∷ 0xE3
    ∷ 0x03
    ∷ 0x00
    ∷ 0x80
    ∷ 0xE2
    ∷ 0x56
    ∷ 0x34
    ∷ 0x12
    ∷ 0xEF
    ∷ replicate 20 0

abbrev pub machine : Arm
machine =
    arm_create target (registers_create (replicate 96 7) (replicate 5 7)) (with_bytes program 32)

pub program-Holds : Holds (with_bytes program 32) program
program-Holds = record {
  is_intact = refl;
  are_bytes = omega arith;
  at_least = omega arith;
  at_most = omega arith;
}

pub machine-IsValid : IsValid 32 0 machine
machine-IsValid =
    arm_create-IsValid target (replicate 96 7) (replicate 5 7) program-Holds refl refl (omega arith)

pub machine-IsMode : IsMode (registers_get_mode machine.reg)
machine-IsMode =
    let (_, e, _, _) =
      arm_create-starts target (replicate 96 7) (replicate 5 7) program-Holds refl refl in
    rw e (inr (inr (inr (inl refl))))
