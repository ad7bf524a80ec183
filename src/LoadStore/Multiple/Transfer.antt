-- ===== src/LoadStore/Multiple/Transfer.antt =====
-- STM and LDM of arm_load_store.c as one loop between two addresses.
use arm_simulator.Base.{
  ℕ, ◌+◌, ◌*◌, ◌/◌, ◌^◌, ◌<◌, ◌≡◌, ◌≢◌, refl, arith, u32, sub32, ◌∙◌, ==_ne, some,
}
use arm_simulator.Base.Bits.{bit_and_mask}
use arm_simulator.Util.{get_bit, get_bits}
use arm_simulator.Core.{Arm, Target, value_local, arm_read_register}
use arm_simulator.LoadStore.Multiple.{
  Moved, number_set_bits_in, each_register, transfer_range, load_keeping, store_one, ldm_plain,
  transfer_all, finish, arm_load_store_multiple,
}
use arm_simulator.LoadStore.Multiple.Range.{
  bits_from, bits_from-last, number_set_bits_in-eq, Advances, each_register-address,
  transfer_range-eq,
}

-- The fields of an instruction.
abbrev pub list_of : ℕ → ℕ
list_of ins = get_bits ins 15 0

abbrev pub base_of : ℕ → ℕ
base_of ins = get_bits ins 19 16

abbrev pub range_of : Arm → ℕ → ℕ × ℕ
range_of p ins =
    transfer_range (get_bits ins 24 23) (arm_read_register p (base_of ins)) (list_of ins)

-- The end of a transfer without write-back.
finish-plain :
    (ins end : ℕ) (m : Moved)
    → get_bit ins 21 ≡ 0
    → end ≡ sub32 m.address 4
    → finish ins end (0, m) ≡ some (0, m.after)
unfolding finish
finish-plain ins end m w e = ground (arith, w, e)

abbrev pub first : Target → Arm → ℕ → Moved
first t p ins = record { address = (range_of p ins).0; value = t.uninit value_local p; after = p }

module _ (t : Target) (p : Arm) (ins : ℕ) (some_register : list_of ins ≢ 0)
    (no_s : get_bit ins 22 ≡ 0) where
  pub multiple-eq :
      arm_load_store_multiple t p ins
      ≡ finish ins
          (range_of p ins).1
          (transfer_all t 0 (get_bit ins 20) (list_of ins) (first t p ins))
  unfolding arm_load_store_multiple
  multiple-eq = rw (==_ne (list_of ins) 0 some_register) (rw no_s refl)

list-lt : (ins : ℕ) → list_of ins < 2 ^ 16
unfolding get_bits
list-lt ins = omega (arith, bit_and_mask 16 (ins / 2 ^ 0))

pub counted : (ins : ℕ) → number_set_bits_in (list_of ins) ≡ bits_from (list_of ins) 16 0
counted ins = number_set_bits_in-eq (list_of ins) (list-lt ins)

pub store_one-Advances : (t : Target) → Advances (store_one t arm_read_register)
unfolding store_one
store_one-Advances t i m = refl

load_keeping-Advances : (t : Target) → Advances (load_keeping t)
unfolding load_keeping
load_keeping-Advances t i m = refl

-- An instruction without S and write-back, and without the PC in its list.
module _ (t : Target) (p : Arm) (ins : ℕ) (some_register : list_of ins ≢ 0)
    (no_pc : get_bit (list_of ins) 15 ≡ 0) (no_s : get_bit ins 22 ≡ 0) (no_w : get_bit ins 21 ≡ 0)
    (base-lt : arm_read_register p (base_of ins) < 2 ^ 32) where
  bounds :
      ((range_of p ins).0 < 2 ^ 32)
      × ((range_of p ins).1
          ≡ sub32 (u32 ((range_of p ins).0 + 4 * number_set_bits_in (list_of ins))) 4)
  bounds =
      transfer_range-eq (get_bits ins 24 23) (arm_read_register p (base_of ins)) (list_of ins)
        base-lt

  -- The last address, for a loop over all registers or over all but the PC.
  at_end :
      (body : ℕ → Moved → Moved) (left : ℕ)
      → Advances body
      → bits_from (list_of ins) left 0 ≡ bits_from (list_of ins) 16 0
      → (range_of p ins).1
        ≡ sub32 (each_register body (list_of ins) left 0 (first t p ins)).address 4
  at_end body left adv e = omega (
    arith,
    bounds,
    counted ins,
    e,
    each_register-address body adv (list_of ins) left 0 (first t p ins) bounds.0,
  )

  abbrev pub stored : Moved
  stored = each_register (store_one t arm_read_register) (list_of ins) 16 0 (first t p ins)

  abbrev pub loaded : Moved
  loaded = each_register (load_keeping t) (list_of ins) 15 0 (first t p ins)

  pub stm-eq : get_bit ins 20 ≡ 0 → arm_load_store_multiple t p ins ≡ some (0, stored.after)
  unfolding transfer_all
  stm-eq l =
      multiple-eq t p ins some_register no_s
      ∙ rw l (
          finish-plain ins (range_of p ins).1 stored no_w
            (at_end (store_one t arm_read_register) 16 (store_one-Advances t) refl))

  pub ldm-eq : get_bit ins 20 ≡ 1 → arm_load_store_multiple t p ins ≡ some (0, loaded.after)
  unfolding transfer_all ldm_plain
  ldm-eq l =
      multiple-eq t p ins some_register no_s
      ∙ rw l (
          rw no_pc (
            finish-plain ins (range_of p ins).1 loaded no_w (
              at_end (load_keeping t) 15 (load_keeping-Advances t)
                (omega (arith, bits_from-last (list_of ins), no_pc)))))
