-- ===== src/LoadStore/Multiple/WriteBack.antt =====
-- The base register after an STM of arm_load_store.c.
use arm_simulator.Base.{
  ℕ, zero, suc, ◌+◌, ◌*◌, ◌^◌, ◌≤◌, ◌<◌, ◌≡◌, ◌≢◌, refl, arith, u32, sub32, ◌==◌, if◌then◌else◌,
  Bool-cases, inl, inr, ◌∙◌, some,
}
use arm_simulator.Util.{get_bit, get_bits}
use arm_simulator.Registers.{registers_get_mode, registers_write}
use arm_simulator.Core.{
  Arm, Target, arm_read_register, arm_write_register, arm_write_register_internal, arm_write_word,
}
use arm_simulator.Core.Valid.{IsValid, read_register-lt}
use arm_simulator.LoadStore.Multiple.{
  Moved, number_set_bits_in, each_register, transfer_range, store_one, transfer_all, finish,
  arm_load_store_multiple,
}
use arm_simulator.LoadStore.Multiple.Range.{
  bits_from, bits_from-le, each_register-address, transfer_range-eq,
}
use arm_simulator.LoadStore.Multiple.Transfer.{
  list_of, base_of, range_of, first, multiple-eq, counted, store_one-Advances,
}

-- The base that is written, for the addressing mode, the base before and the number of registers.
abbrev pub written_base : ℕ → ℕ → ℕ → ℕ
written_base addressing rn n =
    if addressing == 1
    then u32 (rn + 4 * n)
    else if addressing == 3
    then u32 (rn + 4 * n + 4)
    else if addressing == 0
    then u32 (rn + 4)
    else rn

written_base-eq :
    (addressing rn list : ℕ)
    → rn < 2 ^ 32
    → number_set_bits_in list ≤ 16
    → u32 ((transfer_range addressing rn list).0 + 4 * number_set_bits_in list)
      ≡ written_base addressing rn (number_set_bits_in list)
unfolding transfer_range
written_base-eq addressing rn list h le = ground arith

stores-registers :
    (t : Target) (list left i : ℕ) (m : Moved)
    → (each_register (store_one t arm_read_register) list left i m).after.reg ≡ m.after.reg
unfolding each_register store_one arm_write_word
stores-registers t list zero i m = refl
stores-registers t list (suc left) i m = elim (Bool-cases (get_bit list i == 1)) [
  | inl e ↦
      rw (e, each_register)
        (stores-registers t list left (i + 1) (store_one t arm_read_register i m))
  | inr e ↦ rw (e, each_register) (stores-registers t list left (i + 1) m)
]

finish-written :
    (ins end : ℕ) (m : Moved)
    → get_bit ins 21 ≡ 1
    → end ≡ sub32 m.address 4
    → finish ins end (0, m) ≡ some (0, arm_write_register m.after (base_of ins) m.address)
unfolding finish
finish-written ins end m w e = ground (arith, w, e)

-- An STM with write-back, without S, and with a register in its list, in a valid processor,
-- succeeds and changes no register but its base, which afterwards, modulo 2^32, is 4 n more in the
-- mode increment after, 4 n + 4 more in increment before, 4 more in decrement after, and the same
-- as before in decrement before, the mode of a push: the code writes the address after the last
-- transfer, whatever the mode is.
pub store_multiple-written_base :
    {size cycle : ℕ} {p : Arm} (t : Target) (ins : ℕ)
    → IsValid size cycle p
    → list_of ins ≢ 0
    → get_bit ins 20 ≡ 0
    → get_bit ins 21 ≡ 1
    → get_bit ins 22 ≡ 0
    → (q : Arm) × (arm_load_store_multiple t p ins ≡ some (0, q))
      × (q.reg
          ≡ registers_write p.reg (base_of ins) (registers_get_mode p.reg) (
              written_base
                (get_bits ins 24 23)
                (arm_read_register p (base_of ins))
                (number_set_bits_in (list_of ins))))
unfolding transfer_all arm_write_register arm_write_register_internal
store_multiple-written_base {p = p} t ins v some_register store w no_s =
    let rn-lt = read_register-lt v (base_of ins) in
    let rn = arm_read_register p (base_of ins) in
    let bounds = transfer_range-eq (get_bits ins 24 23) rn (list_of ins) rn-lt in
    let m = each_register (store_one t arm_read_register) (list_of ins) 16 0 (first t p ins) in
    let address : m.address ≡ u32 ((range_of p ins).0 + 4 * bits_from (list_of ins) 16 0) =
      each_register-address (store_one t arm_read_register) (store_one-Advances t) (list_of ins) 16
        0 (first t p ins) bounds.0 in
    let le = bits_from-le (list_of ins) 16 0 in
    let base : m.address ≡ written_base (get_bits ins 24 23) rn (number_set_bits_in (list_of ins)) =
      omega (arith, address, counted ins)
      ∙ written_base-eq (get_bits ins 24 23) rn (list_of ins) rn-lt
          (omega (arith, counted ins, le)) in
    (
      arm_write_register m.after (base_of ins) m.address,
      multiple-eq t p ins some_register no_s
          ∙ rw store (
              finish-written ins (range_of p ins).1 m w
                (omega (arith, bounds, counted ins, address))),
      rw (stores-registers t (list_of ins) 16 0 (first t p ins), base) refl,
    )
