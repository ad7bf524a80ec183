-- ===== src/DataProcessing/Compare.antt =====
-- CMP of arm_data_processing.c, followed by a condition of arm_instruction.c.
use arm_simulator.Base.{
  ℕ, ◌+◌, ◌^◌, ◌≤◌, ◌<◌, ◌≡◌, ◌≢◌, ◌⊎◌, arith, leb, ◌==◌, if◌then◌else◌, ◌||◌, not, Bool, false,
  to_int, sub32, shr32, ap, ◌∙◌,
}
use arm_simulator.Constants.{c_flag}
use arm_simulator.Util.{get_bit}
use arm_simulator.Core.{Arm, arm_read_cpsr}
use arm_simulator.DataProcessing.{
  signed_lt, sub_overflows, add_carry, sub_carry, sub_overflow, add_overflow, sub_with,
  add_with_carry, alu, opcode_of, data_processing,
}
use arm_simulator.DataProcessing.Flags.{data_processing-flags}
use arm_simulator.Instruction.{condition_holds, instruction_cond, same}

-- The conditions EQ, NE, GE, LT, GT and LE.
abbrev pub IsSignedTest : ℕ → Type 0
IsSignedTest code = (code ≡ 0) ⊎ (code ≡ 1) ⊎ (code ≡ 10) ⊎ (code ≡ 11) ⊎ (code ≡ 12) ⊎ (code ≡ 13)

-- What each asks of the two numbers that were compared.
abbrev pub signed_test : ℕ → ℕ → ℕ → Bool
signed_test code a b =
    if code == 0
    then a == b
    else if code == 1
    then not (a == b)
    else if code == 10
    then not (signed_lt a b)
    else if code == 11
    then signed_lt a b
    else if code == 12
    then signed_lt b a
    else not (signed_lt b a)

-- The value of N == V is that of "not less".
same-signed :
    (a b : ℕ)
    → a < 2 ^ 32
    → b < 2 ^ 32
    → same (get_bit (sub32 a b) 31 == 1) (sub_overflows a b) ≡ not (signed_lt a b)
same-signed a b ha hb = ground arith

zero-equal : (a b : ℕ) → a < 2 ^ 32 → b < 2 ^ 32 → (sub32 a b == 0) ≡ (a == b)
zero-equal a b ha hb = ground arith

flipped :
    (a b : ℕ)
    → a < 2 ^ 32
    → b < 2 ^ 32
    → signed_lt b a ≡ (if a == b then false else not (signed_lt a b))
flipped a b ha hb = ground arith

condition-compare :
    (code a b : ℕ) (c : Bool)
    → a < 2 ^ 32
    → b < 2 ^ 32
    → IsSignedTest code
    → condition_holds code (get_bit (sub32 a b) 31 == 1) (sub32 a b == 0) c (sub_overflows a b)
      ≡ signed_test code a b
unfolding condition_holds
condition-compare code a b c ha hb s =
    rw (zero-equal a b ha hb, flipped a b ha hb) (ground (arith, same-signed a b ha hb))

-- A bit that is the number of a truth value.
bit-true : (x : ℕ) (b : Bool) → x ≡ to_int b → (x == 1) ≡ b
bit-true x b e = ground arith

if-true : (x : ℕ) (b : Bool) → x ≡ (if b then 1 else 0) → (x == 1) ≡ b
if-true x b e = ground arith

-- A CMP of two uint32_t values, followed by an instruction with one of the six signed conditions:
-- the condition holds exactly when the comparison of the two values as int32_t does. The CMP itself
-- succeeds.
pub cmp-condition :
    (p : Arm) (rd a b sc inst : ℕ)
    → rd ≢ 15
    → sc < 2
    → a < 2 ^ 32
    → b < 2 ^ 32
    → IsSignedTest (shr32 inst 28)
    → let (status, q) = data_processing p 1 10 rd a b sc in
      (status ≡ 0) × (instruction_cond q inst ≡ signed_test (shr32 inst 28) a b)
unfolding instruction_cond alu opcode_of sub_with sub_overflow
cmp-condition p rd a b sc inst n h ha hb s =
    let (ok, flags, low) = data_processing-flags p 10 rd a b sc n h in
    let q = (data_processing p 1 10 rd a b sc).1 in
    let c = get_bit (arm_read_cpsr q) c_flag == 1 in
    (
      ok,
      rw
          (
            ap (λ (x : ℕ). x == 1) flags.negative,
            if-true _ _ flags.zeroed,
            bit-true _ _ flags.overflowed,
          )
          (condition-compare (shr32 inst 28) a b c ha hb s),
    )

-- The carry of a subtraction, as it is computed: it is set when the int32_t subtraction overflows
-- or the subtrahend is negative as an int32_t.
pub sub_carry-eq :
    (a b : ℕ) → a < 2 ^ 32 → b < 2 ^ 32 → sub_carry a b ≡ (sub_overflow a b || leb (2 ^ 31) b)
unfolding sub_carry sub_overflow
sub_carry-eq a b ha hb = ground arith

small-sub_carry : (a b : ℕ) → b ≤ a → a < 2 ^ 31 → sub_carry a b ≡ false
unfolding sub_overflow
small-sub_carry a b le h = ground (arith, sub_carry-eq a b (omega arith) (omega arith))

-- After a CMP of two values with `b ≤ a < 2^31` the condition HS (unsigned higher or same) does not
-- hold, though `a` is at least `b`.
pub cmp-higher_or_same :
    (p : Arm) (rd a b sc inst : ℕ)
    → rd ≢ 15
    → sc < 2
    → b ≤ a
    → a < 2 ^ 31
    → shr32 inst 28 ≡ 2
    → instruction_cond (data_processing p 1 10 rd a b sc).1 inst ≡ false
unfolding instruction_cond alu opcode_of sub_with condition_holds
cmp-higher_or_same p rd a b sc inst n h le hb e =
    let (ok, flags, low) = data_processing-flags p 10 rd a b sc n h in
    rw e (bit-true _ _ flags.carried ∙ small-sub_carry a b le hb)

-- The carry of an addition, as it is computed: it is set when the int32_t addition overflows or the
-- second operand is negative as an int32_t.
pub add_carry-eq :
    (a b : ℕ) → a < 2 ^ 32 → b < 2 ^ 32 → add_carry a b ≡ (add_overflow a b || leb (2 ^ 31) b)
unfolding add_carry add_overflow
add_carry-eq a b ha hb = ground arith

-- ADC with the carry set adds no carry when the sum fits below 2^31: the result is the plain sum,
-- one less than `a + b + C`.
pub add_with_carry-lost : (a b : ℕ) → a + b + 1 < 2 ^ 31 → (add_with_carry a b 1).result ≡ a + b
unfolding add_with_carry add_carry add_overflow
add_with_carry-lost a b h = ground arith
