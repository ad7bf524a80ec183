-- ===== src/LoadStore/Confined.antt =====
-- arm_load_store of arm_load_store.c in user mode.
use arm_simulator.Base.{ℕ, arith, shl32, u8, u16, bit_or}
use arm_simulator.Util.{get_bit, get_bits}
use arm_simulator.Registers.{Registers}
use arm_simulator.Core.{
  Arm, Target, value_local, arm_read_register, arm_read_byte, arm_read_half, arm_read_word,
}
use arm_simulator.Core.Confined.{
  Confined, write_register-Confined, write_byte-Confined, write_half-Confined, write_word-Confined,
}
use arm_simulator.LoadStore.{
  Addressed, offset_mode, pre_indexed, post_indexed, unassigned, process_load_store_instruction,
  scaled_address, half_address, shift_operation, transfer, transfer_half, go_on, arm_load_store,
}

module _ {reg : Registers} {p : Arm} (c : Confined reg p) (t : Target) where
  -- The three ways to use an offset.
  module _ (u r rn offset : ℕ) where
    offset_mode-Confined : Confined reg (offset_mode p u rn offset).after
    unfolding offset_mode
    offset_mode-Confined = c

    pre_indexed-Confined : Confined reg (pre_indexed p u r rn offset).after
    unfolding pre_indexed
    pre_indexed-Confined = write_register-Confined c r _

    post_indexed-Confined : Confined reg (post_indexed p u r rn offset).after
    unfolding post_indexed
    post_indexed-Confined = write_register-Confined c r _

  unassigned-Confined : Confined reg (unassigned t p).after
  unfolding unassigned
  unassigned-Confined = c

  process-Confined :
      (ins value : ℕ) → Confined reg (process_load_store_instruction t p ins value).after
  unfolding process_load_store_instruction
  process-Confined ins value =
      let r = get_bits ins 19 16 in
      let rn = arm_read_register p r in
      let u = get_bit ins 23 in
      ground (
        arith,
        unassigned-Confined,
        offset_mode-Confined u r rn value,
        pre_indexed-Confined u r rn value,
        post_indexed-Confined u r rn value,
      )

  scaled_address-Confined : (ins : ℕ) → Confined reg (scaled_address t p ins).after
  unfolding scaled_address
  scaled_address-Confined ins =
      let r = get_bits ins 19 16 in
      let rn = arm_read_register p r in
      let u = get_bit ins 23 in
      let rm_val = arm_read_register p (get_bits ins 3 0) in
      let index = shift_operation t p rm_val (get_bits ins 6 5) (get_bits ins 11 7) in
      ground (
        arith,
        unassigned-Confined,
        offset_mode-Confined u r rn index,
        pre_indexed-Confined u r rn index,
        post_indexed-Confined u r rn index,
      )

  half_address-Confined : (ins : ℕ) → Confined reg (half_address t p ins).after
  unfolding half_address
  half_address-Confined ins =
      let r = get_bits ins 19 16 in
      let rn = arm_read_register p r in
      let u = get_bit ins 23 in
      let rm_val = arm_read_register p (get_bits ins 3 0) in
      let offset_8 = bit_or (shl32 (get_bits ins 11 8) 4) (get_bits ins 3 0) in
      ground (
        arith,
        unassigned-Confined,
        offset_mode-Confined u r rn offset_8,
        offset_mode-Confined u r rn rm_val,
        pre_indexed-Confined u r rn offset_8,
        pre_indexed-Confined u r rn rm_val,
        post_indexed-Confined u r rn offset_8,
        post_indexed-Confined u r rn rm_val,
      )

  transfer-Confined : (ins address : ℕ) → Confined reg (transfer t p ins address)
  unfolding transfer
  transfer-Confined ins address =
      let rd = get_bits ins 15 12 in
      let any = t.uninit value_local p in
      ground (
        arith,
        write_register-Confined c rd (arm_read_byte t p address (u8 any)).1,
        write_register-Confined c rd (arm_read_word t p address any).1,
        write_byte-Confined c t address (u8 (arm_read_register p rd)),
        write_word-Confined c t address (arm_read_register p rd),
      )

  transfer_half-Confined : (ins address : ℕ) → Confined reg (transfer_half t p ins address).1
  unfolding transfer_half
  transfer_half-Confined ins address =
      let rd = get_bits ins 15 12 in
      let any = u16 (t.uninit value_local p) in
      ground (
        arith,
        c,
        write_register-Confined c rd (arm_read_half t p address any).1,
        write_half-Confined c t address (u16 (arm_read_register p rd)),
      )

go_on-Confined :
    {reg : Registers} (t : Target) (a : Addressed) (ins : ℕ)
    → Confined reg a.after
    → Confined reg (go_on t a ins).1
unfolding go_on
go_on-Confined t a ins c = ground (arith, c, transfer-Confined c t ins a.address)

pub arm_load_store-Confined :
    {reg : Registers} {p : Arm}
    → Confined reg p
    → (t : Target) (ins : ℕ) → Confined reg (arm_load_store t p ins).1
unfolding arm_load_store
arm_load_store-Confined {p = p} c t ins =
    let offset_12 = get_bits ins 11 0 in
    let rm_val = arm_read_register p (get_bits ins 3 0) in
    ground (
      arith,
      go_on-Confined t (process_load_store_instruction t p ins offset_12) ins
          (process-Confined c t ins offset_12),
      go_on-Confined t (process_load_store_instruction t p ins rm_val) ins
          (process-Confined c t ins rm_val),
      go_on-Confined t (scaled_address t p ins) ins (scaled_address-Confined c t ins),
      go_on-Confined t (unassigned t p) ins (unassigned-Confined c t),
      transfer_half-Confined (half_address-Confined c t ins) t ins (half_address t p ins).address,
    )
