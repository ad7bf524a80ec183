-- ===== src/LoadStore/Multiple.antt =====
-- `arm_load_store_multiple`: LDM and STM. Each loop over the registers recurs on the rounds left,
-- with the index of the register. A failed `assert` ends the process: the outcome `none`.
pub mod Valid
pub mod Confined
pub mod Range
pub mod Stored
pub mod Loaded
pub mod Transfer
pub mod Restored
pub mod WriteBack
use arm_simulator.Base.{
  ℕ, zero, suc, ◌+◌, ◌-◌, ◌*◌, ◌/◌, ◌%◌, ◌^◌, u32, add32, sub32, ◌==◌, if◌then◌else◌, ◌&&◌, ◌||◌,
  bit_and, Bool, Option, none, some,
}
use arm_simulator.Constants.{undefined_instruction, usr, sys}
use arm_simulator.Util.{get_bit, get_bits}
use arm_simulator.Core.{
  Arm, Target, value_local, arm_read_register, arm_read_usr_register, arm_read_cpsr, arm_read_spsr,
  arm_write_register, arm_write_usr_register, arm_write_cpsr, arm_read_word, arm_write_word,
  arm_current_mode_has_spsr,
}

-- `while (num)` on a uint16_t: sixteen rounds are enough.
unfoldable pub count_bits : ℕ → ℕ → ℕ → ℕ
count_bits zero num count = count
count_bits (suc fuel) num count =
    let rest = count_bits fuel (num / 2) (count + num % 2) in if num == 0 then count else rest

unfoldable pub number_set_bits_in : ℕ → ℕ
unfolding count_bits
number_set_bits_in num = count_bits 16 num 0

-- `address` and the processor; in an LDM without S also `value`, which a failed read leaves as the
-- round before left it.
pub record Moved : Type 0 where
  pub address : ℕ
  pub value : ℕ
  pub after : Arm

module _ (t : Target) where
  -- The bodies of the loops, for a register that is in the list.
  unfoldable pub load_one : (Arm → ℕ → ℕ → Arm) → ℕ → Moved → Moved
  load_one write i m =
      let value = (arm_read_word t m.after m.address (t.uninit value_local m.after)).1 in
      record { address = add32 m.address 4; value = m.value; after = write m.after i value }

  unfoldable pub load_keeping : ℕ → Moved → Moved
  load_keeping i m =
      let value = (arm_read_word t m.after m.address m.value).1 in
      record {
        address = add32 m.address 4;
        value = value;
        after = arm_write_register m.after i value;
      }

  unfoldable pub store_one : (Arm → ℕ → ℕ) → ℕ → Moved → Moved
  store_one read i m = record {
    address = add32 m.address 4;
    value = m.value;
    after = (arm_write_word t m.after m.address (read m.after i)).1;
  }

-- `for (; i < end; i++) if (get_bit(register_list, i) == 1) { body }` with the rounds left.
unfoldable pub each_register : (ℕ → Moved → Moved) → ℕ → ℕ → ℕ → Moved → Moved
each_register body list zero i m = m
each_register body list (suc left) i m =
    each_register body list left (i + 1) (if get_bit list i == 1 then body i m else m)

-- The start address and the end address.
unfoldable pub transfer_range : ℕ → ℕ → ℕ → ℕ × ℕ
transfer_range mode rn list =
    let bytes = u32 (number_set_bits_in list * 4) in
    if mode == 1
    then (rn, sub32 (add32 rn bytes) 4)
    else if mode == 3
    then (add32 rn 4, add32 rn bytes)
    else if mode == 0
    then (add32 (sub32 rn bytes) 4, rn)
    else (sub32 rn bytes, sub32 rn 4)

-- The assertion after the transfer, and the update of the base register.
unfoldable pub finish : ℕ → ℕ → ℕ × Moved → Option (ℕ × Arm)
finish ins end_address (status, m) =
    if status == 0
    then if end_address == sub32 m.address 4
      then if get_bit ins 21 == 1
        then some (zero, arm_write_register m.after (get_bits ins 19 16) m.address)
        else some (zero, m.after)
      else none
    else some (status, m.after)

module _ (t : Target) where
  -- S and L with the PC in the list; the status is UNDEFINED_INSTRUCTION where there is no SPSR.
  unfoldable pub ldm_spsr_pc : ℕ → Moved → ℕ × Moved
  ldm_spsr_pc list m =
      let loaded = each_register (load_one t arm_write_register) list 15 0 m in
      let (answer, p1) = arm_current_mode_has_spsr loaded.after in
      let p2 = arm_write_cpsr p1 (arm_read_spsr p1) in
      let pc_value = (arm_read_word t p2 loaded.address (t.uninit value_local p2)).1 in
      if answer == 0 then (undefined_instruction, record loaded { after = p1 }) else (
        zero,
        record loaded {
          address = add32 loaded.address 4;
          after = arm_write_register p2 15 pc_value;
        },
      )

  -- LDM with S = 0: the PC last, with its two low bits cleared.
  unfoldable pub ldm_plain : ℕ → Moved → Moved
  ldm_plain list m =
      let loaded = each_register (load_keeping t) list 15 0 m in
      let value = (arm_read_word t loaded.after loaded.address loaded.value).1 in
      if get_bit list 15 == 1
      then record {
        address = add32 loaded.address 4;
        value = value;
        after = arm_write_register loaded.after 15 (bit_and value 0xFFFFFFFC);
      }
      else loaded

  -- The transfer itself, as S and L choose.
  unfoldable pub transfer_all : ℕ → ℕ → ℕ → Moved → ℕ × Moved
  transfer_all s l list m =
      if s == 1
      then if l == 1
        then if get_bit list 15 == 1
          then ldm_spsr_pc list m
          else (zero, each_register (load_one t arm_write_usr_register) list 15 0 m)
        else (zero, each_register (store_one t arm_read_usr_register) list 16 0 m)
      else if l == 1
      then (zero, ldm_plain list m)
      else (zero, each_register (store_one t arm_read_register) list 16 0 m)

  unfoldable pub arm_load_store_multiple : Arm → ℕ → Option (ℕ × Arm)
  arm_load_store_multiple p ins =
      let list = get_bits ins 15 0 in
      let s = get_bit ins 22 in
      let mode = bit_and (arm_read_cpsr p) 0x1F in
      let range =
        transfer_range (get_bits ins 24 23) (arm_read_register p (get_bits ins 19 16)) list in
      let start : Moved = record { address = range.0; value = t.uninit value_local p; after = p } in
      if list == 0
      then some (undefined_instruction, p)
      else if s == 1 && (mode == usr || mode == sys)
      then some (undefined_instruction, p)
      else finish ins range.1 (transfer_all s (get_bit ins 20) list start)
