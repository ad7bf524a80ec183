-- ===== src/Instruction/Condition.antt =====
-- instruction_cond of arm_instruction.c, and a step whose condition fails.
use arm_simulator.Base.{
  ◌==◌, ◌&&◌, ◌||◌, if◌then◌else◌, ◌/◌, ◌%◌, ◌^◌, ap, ◌∙◌, ℕ, ◌<◌, ◌≡◌, arith, Bool, true, not,
}
use arm_simulator.Core.{arm_read_cpsr, Arm, Target, value_local, arm_fetch}
use arm_simulator.Registers.{registers_read_cpsr, registers_write}
use arm_simulator.Core.Valid.{IsValid, fetch-lt}
use arm_simulator.Instruction.{condition_holds, instruction_cond}

-- ARM manual A3-1: the conditions in pairs, of which the odd one asks for the opposite; the last pair
-- is always and never.
abbrev pub pair_passes : ℕ → (n z c v : Bool) → Bool
pair_passes pair n z c v =
    if pair == 0
    then z
    else if pair == 1
    then c
    else if pair == 2
    then n
    else if pair == 3
    then v
    else if pair == 4
    then c && not z
    else if pair == 5
    then (n && v) || (not n && not v)
    else if pair == 6
    then not z && ((n && v) || (not n && not v))
    else true

-- The condition of an instruction at the flags N, Z, C and V, bits 31 to 28 of the CPSR.
abbrev pub passes : ℕ → ℕ → Bool
passes ins cpsr =
    let code = ins / 2 ^ 28 in
    let pair =
      pair_passes (code / 2) (cpsr / 2 ^ 31 % 2 == 1) (cpsr / 2 ^ 30 % 2 == 1)
        (cpsr / 2 ^ 29 % 2 == 1) (cpsr / 2 ^ 28 % 2 == 1) in
    if code % 2 == 0 then pair else not pair

condition_holds-pair :
    (code : ℕ) (n z c v : Bool)
    → code < 16
    → condition_holds code n z c v ≡ (
        if code % 2 == 0
        then pair_passes (code / 2) n z c v
        else not (pair_passes (code / 2) n z c v))
unfolding condition_holds
condition_holds-pair code n z c v h = ground arith

instruction_cond-passes :
    (p : Arm) (ins : ℕ) → ins < 2 ^ 32 → instruction_cond p ins ≡ passes ins (arm_read_cpsr p)
unfolding instruction_cond
instruction_cond-passes p ins h = condition_holds-pair (ins / 2 ^ 28) _ _ _ _ (omega arith)

-- The word and the processor that a fetch gives.
abbrev pub fetched_word : Target → Arm → ℕ
fetched_word t p = (arm_fetch t p (t.uninit value_local p)).1

abbrev pub fetched : Target → Arm → Arm
fetched t p = (arm_fetch t p (t.uninit value_local p)).2

fetched-cpsr : (t : Target) (p : Arm) → arm_read_cpsr (fetched t p) ≡ arm_read_cpsr p
unfolding arm_fetch arm_read_cpsr registers_read_cpsr registers_write
fetched-cpsr t p = ground arith

pub fetched-passes :
    {size cycle : ℕ} (t : Target) {p : Arm}
    → IsValid size cycle p
    → instruction_cond (fetched t p) (fetched_word t p)
      ≡ passes (fetched_word t p) (arm_read_cpsr p)
fetched-passes t {p} v =
    instruction_cond-passes (fetched t p) (fetched_word t p)
      (fetch-lt v t (t.uninit value_local p) (t.uninit-lt value_local p))
    ∙ ap (passes (fetched_word t p)) (fetched-cpsr t p)
