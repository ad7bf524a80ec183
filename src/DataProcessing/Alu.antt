-- ===== src/DataProcessing/Alu.antt =====
-- The operations of `data_processing` in arm_data_processing.c: result, flags, and whether Rd is
-- written.
use arm_simulator.Base.{
  ℕ, ◌+◌, ◌*◌, ◌%◌, ◌^◌, add32, sub32, not32, ltb, leb, ◌==◌, if◌then◌else◌, to_int, ◌||◌, bit_and,
  bit_or, bit_xor, Bool,
}

pub data Opcode : Type 0 where
  and eor sub rsb add adc sbc rsc tst teq cmp cmn orr mov bic mvn : Opcode

unfoldable pub opcode_of : ℕ → Opcode
opcode_of code =
    if code == 0
    then and
    else if code == 1
    then eor
    else if code == 2
    then sub
    else if code == 3
    then rsb
    else if code == 4
    then add
    else if code == 5
    then adc
    else if code == 6
    then sbc
    else if code == 7
    then rsc
    else if code == 8
    then tst
    else if code == 9
    then teq
    else if code == 10
    then cmp
    else if code == 11
    then cmn
    else if code == 12
    then orr
    else if code == 13
    then mov
    else if code == 14
    then bic
    else mvn

-- The signed value of a pattern, plus 2^31.
abbrev pub biased : ℕ → ℕ
biased a = (a + 2 ^ 31) % 2 ^ 32

-- `a < b` on int32_t.
abbrev pub signed_lt : ℕ → ℕ → Bool
signed_lt a b = ltb (biased a) (biased b)

-- `__builtin_add_overflow` and `__builtin_sub_overflow` on int32_t: whether the exact result is
-- outside [-2^31, 2^31). The wrapped result is stored in any case.
abbrev pub add_overflows : ℕ → ℕ → Bool
add_overflows a b = ltb (biased a + biased b) (2 ^ 31) || leb (3 * 2 ^ 31) (biased a + biased b)

abbrev pub sub_overflows : ℕ → ℕ → Bool
sub_overflows a b = ltb (biased a + 2 ^ 31) (biased b) || leb (biased b + 2 ^ 31) (biased a)

-- Each returns its flag; what it stores is `add32 a b` or `sub32 a b`.
unfoldable pub add_carry : ℕ → ℕ → Bool
add_carry a b = add_overflows a b || signed_lt (add32 a b) a

unfoldable pub add_overflow : ℕ → ℕ → Bool
add_overflow a b = add_overflows a b

unfoldable pub sub_carry : ℕ → ℕ → Bool
sub_carry a b = sub_overflows a b || signed_lt a (sub32 a b)

unfoldable pub sub_overflow : ℕ → ℕ → Bool
sub_overflow a b = sub_overflows a b

pub record AluOut : Type 0 where
  pub result : ℕ
  pub carry : ℕ
  pub overflow : ℕ
  pub change_rd : ℕ

-- `!C_bit`
abbrev pub not_int : ℕ → ℕ
not_int c = if c == 0 then 1 else 0

-- An operation that takes the carry of the shifter and keeps V.
abbrev pub logical : ℕ → ℕ → ℕ → ℕ → AluOut
logical result shifter_carry v change_rd = record {
  result = result;
  carry = shifter_carry;
  overflow = v;
  change_rd = change_rd;
}

unfoldable pub sub_with : ℕ → ℕ → ℕ → AluOut
sub_with a b change_rd = record {
  result = sub32 a b;
  carry = to_int (sub_carry a b);
  overflow = to_int (sub_overflow a b);
  change_rd = change_rd;
}

unfoldable pub add_with : ℕ → ℕ → ℕ → AluOut
add_with a b change_rd = record {
  result = add32 a b;
  carry = to_int (add_carry a b);
  overflow = to_int (add_overflow a b);
  change_rd = change_rd;
}

-- ADC. The second line of the source has already assigned C when the third reads it, and the
-- calls store into `result` as they run, unless `||` skips them.
unfoldable pub add_with_carry : ℕ → ℕ → ℕ → AluOut
add_with_carry a b c =
    let tmp = add32 a b in
    let new_c = to_int (add_carry a b || add_carry tmp c) in
    record {
      result = if add_overflow a b then add32 tmp c else add32 tmp new_c;
      carry = new_c;
      overflow = to_int (add_overflow a b || add_overflow tmp new_c);
      change_rd = 1;
    }

-- SBC, and RSC with the operands exchanged; the same remarks hold.
unfoldable pub sub_with_carry : ℕ → ℕ → ℕ → AluOut
sub_with_carry a b c =
    let tmp = sub32 a b in
    let new_c = to_int (sub_carry a b || sub_carry tmp (not_int c)) in
    record {
      result = if sub_overflow a b then sub32 tmp (not_int c) else sub32 tmp (not_int new_c);
      carry = new_c;
      overflow = to_int (sub_overflow a b || sub_overflow tmp (not_int new_c));
      change_rd = 1;
    }

-- The `switch`, at Rn, the shifter operand and its carry, and the flags C and V.
unfoldable pub alu : Opcode → ℕ → ℕ → ℕ → ℕ → ℕ → AluOut
alu and rn op sc c v = logical (bit_and rn op) sc v 1
alu eor rn op sc c v = logical (bit_xor rn op) sc v 1
alu sub rn op sc c v = sub_with rn op 1
alu rsb rn op sc c v = sub_with op rn 1
alu add rn op sc c v = add_with rn op 1
alu adc rn op sc c v = add_with_carry rn op c
alu sbc rn op sc c v = sub_with_carry rn op c
alu rsc rn op sc c v = sub_with_carry op rn c
alu tst rn op sc c v = logical (bit_and rn op) sc v 0
alu teq rn op sc c v = logical (bit_xor rn op) sc v 0
alu cmp rn op sc c v = sub_with rn op 0
alu cmn rn op sc c v = add_with rn op 0
alu orr rn op sc c v = logical (bit_or rn op) sc v 1
alu mov rn op sc c v = logical op sc v 1
alu bic rn op sc c v = logical (bit_and rn (not32 op)) sc v 1
alu mvn rn op sc c v = logical (not32 op) sc v 1
