-- ===== src/DataProcessing/Specified.antt =====
-- The sixteen operations of arm_data_processing.c by their codes, as numbers: what each leaves in Rd
-- and in the flags C and V. The logical ones, the sums, the differences and V are those of the ARM
-- manual; C of the sums and differences and the results of ADC, SBC and RSC are those of the source.
use arm_simulator.Base.{
  get_or, List, [], ◌∷◌, ℕ, ◌+◌, ◌-◌, ◌%◌, ◌^◌, ◌<◌, ◌≡◌, refl, arith, leb, if◌then◌else◌, ◌&&◌,
  ◌||◌, not, Bool, add32, sub32, bit_and, bit_or, bit_xor,
}
use arm_simulator.DataProcessing.{
  AluOut, Opcode, alu, opcode_of, add_carry, add_overflow, sub_carry, sub_overflow, add_with,
  sub_with, add_with_carry, sub_with_carry,
}

abbrev pub negative : ℕ → Bool
negative a = leb (2 ^ 31) a

abbrev pub sum : ℕ → ℕ → ℕ
sum a b = (a + b) % 2 ^ 32

abbrev pub difference : ℕ → ℕ → ℕ
difference a b = (a + (2 ^ 32 - b)) % 2 ^ 32

-- Two numbers of one sign whose sum has the other.
abbrev pub sum_overflows : ℕ → ℕ → Bool
sum_overflows a b =
    if negative a
    then negative b && not (negative (sum a b))
    else not (negative b) && negative (sum a b)

-- Two numbers of different signs whose difference has the sign of the second.
abbrev pub difference_overflows : ℕ → ℕ → Bool
difference_overflows a b =
    if negative a
    then not (negative b) && not (negative (difference a b))
    else negative b && negative (difference a b)

-- C of the source: the carry and the borrow of the architecture are others.
abbrev pub sum_sets_carry : ℕ → ℕ → Bool
sum_sets_carry a b = sum_overflows a b || negative b

abbrev pub difference_sets_carry : ℕ → ℕ → Bool
difference_sets_carry a b = difference_overflows a b || negative b

abbrev pub sum_of : ℕ → ℕ → ℕ → AluOut
sum_of a b change_rd = record {
  result = sum a b;
  carry = if sum_sets_carry a b then 1 else 0;
  overflow = if sum_overflows a b then 1 else 0;
  change_rd = change_rd;
}

abbrev pub difference_of : ℕ → ℕ → ℕ → AluOut
difference_of a b change_rd = record {
  result = difference a b;
  carry = if difference_sets_carry a b then 1 else 0;
  overflow = if difference_overflows a b then 1 else 0;
  change_rd = change_rd;
}

-- ADC adds the old C where the sum overflows, and else the C that it leaves.
abbrev pub sum_with_carry : ℕ → ℕ → ℕ → AluOut
sum_with_carry a b c =
    let without = sum a b in
    let carry = if sum_sets_carry a b || sum_overflows without c then 1 else 0 in
    record {
      result = sum without (if sum_overflows a b then c else carry);
      carry = carry;
      overflow = if sum_overflows a b || sum_overflows without carry then 1 else 0;
      change_rd = 1;
    }

-- SBC and RSC take away 1 less the old C where the difference overflows, and else 1 less the C that
-- they leave.
abbrev pub difference_with_carry : ℕ → ℕ → ℕ → AluOut
difference_with_carry a b c =
    let without = difference a b in
    let carry =
      if difference_sets_carry a b || difference_overflows without (1 - c) then 1 else 0 in
    record {
      result = difference without (if difference_overflows a b then 1 - c else 1 - carry);
      carry = carry;
      overflow =
          if difference_overflows a b || difference_overflows without (1 - carry) then 1 else 0;
      change_rd = 1;
    }

-- An operation that takes C from the second operand and keeps V.
abbrev pub keeping : ℕ → ℕ → ℕ → ℕ → AluOut
keeping result sc v change_rd = record {
  result = result;
  carry = sc;
  overflow = v;
  change_rd = change_rd;
}

-- ARM manual A3-3: the operations in the order of their codes.
abbrev operations : List Opcode
operations =
    Opcode.and ∷ Opcode.eor ∷ Opcode.sub ∷ Opcode.rsb ∷ Opcode.add ∷ Opcode.adc ∷ Opcode.sbc
    ∷ Opcode.rsc ∷ Opcode.tst ∷ Opcode.teq ∷ Opcode.cmp ∷ Opcode.cmn ∷ Opcode.orr ∷ Opcode.mov
    ∷ Opcode.bic ∷ Opcode.mvn ∷ []

-- At Rn, the second operand and its carry, and the flags C and V.
abbrev performed : Opcode → ℕ → ℕ → ℕ → ℕ → ℕ → AluOut
performed Opcode.and a b sc c v = keeping (bit_and a b) sc v 1
performed Opcode.eor a b sc c v = keeping (bit_xor a b) sc v 1
performed Opcode.sub a b sc c v = difference_of a b 1
performed Opcode.rsb a b sc c v = difference_of b a 1
performed Opcode.add a b sc c v = sum_of a b 1
performed Opcode.adc a b sc c v = sum_with_carry a b c
performed Opcode.sbc a b sc c v = difference_with_carry a b c
performed Opcode.rsc a b sc c v = difference_with_carry b a c
performed Opcode.tst a b sc c v = keeping (bit_and a b) sc v 0
performed Opcode.teq a b sc c v = keeping (bit_xor a b) sc v 0
performed Opcode.cmp a b sc c v = difference_of a b 0
performed Opcode.cmn a b sc c v = sum_of a b 0
performed Opcode.orr a b sc c v = keeping (bit_or a b) sc v 1
performed Opcode.mov a b sc c v = keeping b sc v 1
performed Opcode.bic a b sc c v = keeping (bit_and a (2 ^ 32 - 1 - b)) sc v 1
performed Opcode.mvn a b sc c v = keeping (2 ^ 32 - 1 - b) sc v 1

abbrev pub specified : ℕ → ℕ → ℕ → ℕ → ℕ → ℕ → AluOut
specified code = performed (get_or operations code Opcode.mvn)

opcode_of-eq : (code : ℕ) → code < 16 → opcode_of code ≡ get_or operations code Opcode.mvn
unfolding opcode_of
opcode_of-eq code h = ground arith

module _ (a b : ℕ) (ha : a < 2 ^ 32) (hb : b < 2 ^ 32) where
  sum-eq : add32 a b ≡ sum a b
  sum-eq = omega arith

  difference-eq : sub32 a b ≡ difference a b
  difference-eq = omega arith

  overflow-sum : add_overflow a b ≡ sum_overflows a b
  unfolding add_overflow
  overflow-sum = ground arith

  overflow-difference : sub_overflow a b ≡ difference_overflows a b
  unfolding sub_overflow
  overflow-difference = ground arith

  carry-sum : add_carry a b ≡ sum_sets_carry a b
  unfolding add_carry
  carry-sum = ground arith

  carry-difference : sub_carry a b ≡ difference_sets_carry a b
  unfolding sub_carry
  carry-difference = ground arith

module _ (a b : ℕ) (ha : a < 2 ^ 32) (hb : b < 2 ^ 32) where
  add_with-eq : (change_rd : ℕ) → add_with a b change_rd ≡ sum_of a b change_rd
  unfolding add_with
  add_with-eq change_rd = rw (overflow-sum a b ha hb, carry-sum a b ha hb) (ground arith)

  sub_with-eq : (change_rd : ℕ) → sub_with a b change_rd ≡ difference_of a b change_rd
  unfolding sub_with
  sub_with-eq change_rd =
      rw (overflow-difference a b ha hb, carry-difference a b ha hb, difference-eq a b ha hb)
        (ground arith)

  module _ (c : ℕ) (hc : c < 2) where
    add_with_carry-eq : add_with_carry a b c ≡ sum_with_carry a b c
    unfolding add_with_carry
    add_with_carry-eq =
        let s : sum a b < 2 ^ 32 = omega arith in
        rw (overflow-sum a b ha hb, carry-sum a b ha hb)
          (ground (
            arith,
            carry-sum (sum a b) c s (omega arith),
            overflow-sum (sum a b) 0 s (omega arith),
            overflow-sum (sum a b) 1 s (omega arith),
          ))

    sub_with_carry-eq : sub_with_carry a b c ≡ difference_with_carry a b c
    unfolding sub_with_carry
    sub_with_carry-eq =
        let s : difference a b < 2 ^ 32 = omega arith in
        rw (overflow-difference a b ha hb, carry-difference a b ha hb, difference-eq a b ha hb)
          (ground (
            arith,
            carry-difference (difference a b) 0 s (omega arith),
            carry-difference (difference a b) 1 s (omega arith),
            overflow-difference (difference a b) 0 s (omega arith),
            overflow-difference (difference a b) 1 s (omega arith),
          ))

-- The code does what is specified.
pub alu-specified :
    (code a b sc c v : ℕ)
    → code < 16
    → a < 2 ^ 32
    → b < 2 ^ 32
    → c < 2
    → alu (opcode_of code) a b sc c v ≡ specified code a b sc c v
unfolding alu
alu-specified code a b sc c v h ha hb hc =
    rw (opcode_of-eq code h) (performs (get_or operations code Opcode.mvn))
  where
    performs : (op : Opcode) → alu op a b sc c v ≡ performed op a b sc c v
    performs Opcode.and = refl
    performs Opcode.eor = refl
    performs Opcode.sub = sub_with-eq a b ha hb 1
    performs Opcode.rsb = sub_with-eq b a hb ha 1
    performs Opcode.add = add_with-eq a b ha hb 1
    performs Opcode.adc = add_with_carry-eq a b ha hb c hc
    performs Opcode.sbc = sub_with_carry-eq a b ha hb c hc
    performs Opcode.rsc = sub_with_carry-eq b a hb ha c hc
    performs Opcode.tst = refl
    performs Opcode.teq = refl
    performs Opcode.cmp = sub_with-eq a b ha hb 0
    performs Opcode.cmn = add_with-eq a b ha hb 0
    performs Opcode.orr = refl
    performs Opcode.mov = refl
    performs Opcode.bic = refl
    performs Opcode.mvn = refl
