-- ===== src/LoadStore.antt =====
-- arm_load_store.c: loads and stores of bytes, half-words and words with their addressing modes.
-- The transfers of several registers are in the child `Multiple`.
mod Address
pub mod Multiple
unfoldable pub use Address.*
pub mod Valid
pub mod Confined
pub mod Offset
pub mod Single
use arm_simulator.Base.{ℕ, zero, ◌+◌, ◌*◌, u8, u16, ◌==◌, if◌then◌else◌, ◌&&◌, bit_or}
use arm_simulator.Constants.{successfully_decoded, undefined_instruction}
use arm_simulator.Util.{get_bit, get_bits}
use arm_simulator.Core.{
  Arm, Target, value_local, arm_read_register, arm_write_register, arm_read_byte, arm_read_half,
  arm_read_word, arm_write_byte, arm_write_half, arm_write_word,
}

module _ (t : Target) where
  -- The last part of `arm_load_store`: LDR, LDRB, STR, STRB.
  unfoldable pub transfer : Arm → ℕ → ℕ → Arm
  transfer p ins address =
      let rd = get_bits ins 15 12 in
      let octet = (arm_read_byte t p address (u8 (t.uninit value_local p))).1 in
      let mot = (arm_read_word t p address (t.uninit value_local p)).1 in
      if get_bit ins 20 == 1
      then if get_bit ins 22 == 1
        then arm_write_register p rd octet
        else arm_write_register p rd mot
      else if get_bit ins 22 == 1
      then (arm_write_byte t p address (u8 (arm_read_register p rd))).1
      else (arm_write_word t p address (arm_read_register p rd)).1

  -- The end of the branch for LDRH and STRH.
  unfoldable pub transfer_half : Arm → ℕ → ℕ → ℕ × Arm
  transfer_half p ins address =
      let rd = get_bits ins 15 12 in
      let half = (arm_read_half t p address (u16 (t.uninit value_local p))).1 in
      if get_bit ins 20 == 0 && get_bit ins 6 == 0 && get_bit ins 5 == 1
      then (successfully_decoded, (arm_write_half t p address (u16 (arm_read_register p rd))).1)
      else if get_bit ins 20 == 1 && get_bit ins 6 == 0 && get_bit ins 5 == 1
      then (successfully_decoded, arm_write_register p rd half)
      else (undefined_instruction, p)

  -- The early return on a bad addressing mode, or the transfer.
  unfoldable pub go_on : Addressed → ℕ → ℕ × Arm
  go_on a ins =
      if a.status == 0 then (zero, transfer a.after ins a.address) else (a.status, a.after)

  unfoldable pub arm_load_store : Arm → ℕ → ℕ × Arm
  arm_load_store p ins =
      let kind = get_bits ins 27 25 in
      let offset_12 = get_bits ins 11 0 in
      let rm_val = arm_read_register p (get_bits ins 3 0) in
      let immediate = process_load_store_instruction t p ins offset_12 in
      let register = process_load_store_instruction t p ins rm_val in
      let scaled = scaled_address t p ins in
      let half = half_address t p ins in
      let plain = unassigned t p in
      if kind == 2
      then go_on immediate ins
      else if kind == 3 && get_bits ins 11 4 == 0
      then go_on register ins
      else if kind == 3 && get_bit ins 4 == 0
      then go_on scaled ins
      else if kind == 0 && get_bit ins 7 == 1 && get_bit ins 4 == 1
      then transfer_half half.after ins half.address
      else go_on plain ins

-- Not implemented in the source.
unfoldable pub arm_coprocessor_load_store : Arm → ℕ → ℕ × Arm
arm_coprocessor_load_store p ins = (undefined_instruction, p)
