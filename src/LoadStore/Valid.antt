-- ===== src/LoadStore/Valid.antt =====
-- arm_load_store of arm_load_store.c: the invariant of the processor.
use arm_simulator.Base.{ℕ, ◌^◌, ◌<◌, arith, shl32, u8, u16, bit_or}
use arm_simulator.Util.{get_bit, get_bits}
use arm_simulator.Core.{
  Arm, Target, value_local, arm_read_register, arm_read_byte, arm_read_half, arm_read_word,
}
use arm_simulator.Core.Valid.{
  IsValid, write_register-IsValid, arm_read_byte-lt, arm_read_half-lt, arm_read_word-lt,
  write_byte-IsValid, write_half-IsValid, write_word-IsValid,
}
use arm_simulator.LoadStore.{
  Addressed, check_u, offset_mode, pre_indexed, post_indexed, unassigned,
  process_load_store_instruction, scaled_address, half_address, shift_operation, transfer,
  transfer_half, go_on, arm_load_store,
}

check_u-lt : (u rn offset : ℕ) → check_u u rn offset < 2 ^ 32
unfolding check_u
check_u-lt u rn offset = ground arith

module _ {size cycle : ℕ} {p : Arm} (v : IsValid size cycle p) (t : Target) where
  -- The write-back of each way to use an offset.
  module _ (u r rn offset : ℕ) where
    offset_mode-IsValid : IsValid size cycle (offset_mode p u rn offset).after
    unfolding offset_mode
    offset_mode-IsValid = v

    pre_indexed-IsValid : IsValid size cycle (pre_indexed p u r rn offset).after
    unfolding pre_indexed
    pre_indexed-IsValid = write_register-IsValid v r _ (check_u-lt u rn offset)

    post_indexed-IsValid : IsValid size cycle (post_indexed p u r rn offset).after
    unfolding post_indexed
    post_indexed-IsValid = write_register-IsValid v r _ (check_u-lt u rn offset)

  unassigned-IsValid : IsValid size cycle (unassigned t p).after
  unfolding unassigned
  unassigned-IsValid = v

  process-IsValid :
      (ins value : ℕ) → IsValid size cycle (process_load_store_instruction t p ins value).after
  unfolding process_load_store_instruction
  process-IsValid ins value =
      let r = get_bits ins 19 16 in
      let rn = arm_read_register p r in
      let u = get_bit ins 23 in
      ground (
        arith,
        unassigned-IsValid,
        offset_mode-IsValid u r rn value,
        pre_indexed-IsValid u r rn value,
        post_indexed-IsValid u r rn value,
      )

  scaled_address-IsValid : (ins : ℕ) → IsValid size cycle (scaled_address t p ins).after
  unfolding scaled_address
  scaled_address-IsValid ins =
      let r = get_bits ins 19 16 in
      let rn = arm_read_register p r in
      let u = get_bit ins 23 in
      let rm_val = arm_read_register p (get_bits ins 3 0) in
      let index = shift_operation t p rm_val (get_bits ins 6 5) (get_bits ins 11 7) in
      ground (
        arith,
        unassigned-IsValid,
        offset_mode-IsValid u r rn index,
        pre_indexed-IsValid u r rn index,
        post_indexed-IsValid u r rn index,
      )

  half_address-IsValid : (ins : ℕ) → IsValid size cycle (half_address t p ins).after
  unfolding half_address
  half_address-IsValid ins =
      let r = get_bits ins 19 16 in
      let rn = arm_read_register p r in
      let u = get_bit ins 23 in
      let rm_val = arm_read_register p (get_bits ins 3 0) in
      let offset_8 = bit_or (shl32 (get_bits ins 11 8) 4) (get_bits ins 3 0) in
      ground (
        arith,
        unassigned-IsValid,
        offset_mode-IsValid u r rn offset_8,
        offset_mode-IsValid u r rn rm_val,
        pre_indexed-IsValid u r rn offset_8,
        pre_indexed-IsValid u r rn rm_val,
        post_indexed-IsValid u r rn offset_8,
        post_indexed-IsValid u r rn rm_val,
      )

  transfer-IsValid : (ins address : ℕ) → IsValid size cycle (transfer t p ins address)
  unfolding transfer
  transfer-IsValid ins address =
      let rd = get_bits ins 15 12 in
      let any = t.uninit value_local p in
      let any-lt = t.uninit-lt value_local p in
      let octet = (arm_read_byte t p address (u8 any)).1 in
      let mot = (arm_read_word t p address any).1 in
      ground (
        arith,
        write_register-IsValid v rd octet (arm_read_byte-lt v t address (u8 any) (omega arith)),
        write_register-IsValid v rd mot (arm_read_word-lt v t address any any-lt),
        write_byte-IsValid v t address (u8 (arm_read_register p rd)) (omega arith),
        write_word-IsValid v t address (arm_read_register p rd),
      )

  transfer_half-IsValid : (ins address : ℕ) → IsValid size cycle (transfer_half t p ins address).1
  unfolding transfer_half
  transfer_half-IsValid ins address =
      let rd = get_bits ins 15 12 in
      let any = u16 (t.uninit value_local p) in
      let half = (arm_read_half t p address any).1 in
      ground (
        arith,
        v,
        write_register-IsValid v rd half (arm_read_half-lt v t address any (omega arith)),
        write_half-IsValid v t address (u16 (arm_read_register p rd)),
      )

go_on-IsValid :
    {size cycle : ℕ} (t : Target) (a : Addressed) (ins : ℕ)
    → IsValid size cycle a.after
    → IsValid size cycle (go_on t a ins).1
unfolding go_on
go_on-IsValid t a ins v = ground (arith, v, transfer-IsValid v t ins a.address)

pub arm_load_store-IsValid :
    {size cycle : ℕ} {p : Arm}
    → IsValid size cycle p
    → (t : Target) (ins : ℕ) → IsValid size cycle (arm_load_store t p ins).1
unfolding arm_load_store
arm_load_store-IsValid {p} v t ins =
    let offset_12 = get_bits ins 11 0 in
    let rm_val = arm_read_register p (get_bits ins 3 0) in
    ground (
      arith,
      go_on-IsValid t (process_load_store_instruction t p ins offset_12) ins
          (process-IsValid v t ins offset_12),
      go_on-IsValid t (process_load_store_instruction t p ins rm_val) ins
          (process-IsValid v t ins rm_val),
      go_on-IsValid t (scaled_address t p ins) ins (scaled_address-IsValid v t ins),
      go_on-IsValid t (unassigned t p) ins (unassigned-IsValid v t),
      transfer_half-IsValid (half_address-IsValid v t ins) t ins (half_address t p ins).address,
    )
