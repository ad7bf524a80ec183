-- ===== src/LoadStore/Multiple/Confined.antt =====
-- LDM and STM of arm_load_store.c in user mode.
use arm_simulator.Base.{ℕ, zero, suc, ◌+◌, arith, ◌==◌, Bool-cases, inl, inr, bit_and, none}
use arm_simulator.Constants.{undefined_instruction}
use arm_simulator.Util.{get_bit, get_bits}
use arm_simulator.Registers.{Registers}
use arm_simulator.Core.{
  Arm, Target, value_local, arm_read_register, arm_read_usr_register, arm_write_register,
  arm_write_usr_register, arm_read_word,
}
use arm_simulator.Core.Confined.{
  Confined, Leaves, leaves, at_end, write_register-Confined, write_usr_register-Confined,
  has_spsr-Confined, answer-none, write_word-Confined,
}
use arm_simulator.LoadStore.Multiple.{
  Moved, each_register, transfer_range, load_one, load_keeping, store_one, ldm_spsr_pc, ldm_plain,
  transfer_all, finish, arm_load_store_multiple,
}

module _ {reg : Registers} where
  each_register-Confined :
      (body : ℕ → Moved → Moved)
      → ((i : ℕ) (m : Moved) → Confined reg m.after → Confined reg (body i m).after)
      → (list left i : ℕ) (m : Moved) → Confined reg m.after
      → Confined reg (each_register body list left i m).after
  unfolding each_register
  each_register-Confined body keep list zero i m c = c
  each_register-Confined body keep list (suc left) i m c = elim (Bool-cases (get_bit list i == 1)) [
    | inl e ↦
        rw (e, each_register)
          (each_register-Confined body keep list left (i + 1) (body i m) (keep i m c))
    | inr e ↦ rw (e, each_register) (each_register-Confined body keep list left (i + 1) m c)
  ]

  module _ (t : Target) (i : ℕ) (m : Moved) (c : Confined reg m.after) where
    load-Confined : Confined reg (load_one t arm_write_register i m).after
    unfolding load_one
    load-Confined = write_register-Confined c i _

    usr_load-Confined : Confined reg (load_one t arm_write_usr_register i m).after
    unfolding load_one
    usr_load-Confined = write_usr_register-Confined c i _

    load_keeping-Confined : Confined reg (load_keeping t i m).after
    unfolding load_keeping
    load_keeping-Confined = write_register-Confined c i _

    store_one-Confined : (read : Arm → ℕ → ℕ) → Confined reg (store_one t read i m).after
    unfolding store_one
    store_one-Confined read = write_word-Confined c t m.address _

  module _ (t : Target) (list : ℕ) (m : Moved) (c : Confined reg m.after) where
    -- Without an SPSR the status is UNDEFINED_INSTRUCTION.
    ldm_spsr_pc-Confined : Confined reg (ldm_spsr_pc t list m).1.after
    unfolding ldm_spsr_pc
    ldm_spsr_pc-Confined =
        let w =
          each_register-Confined (load_one t arm_write_register) (load-Confined t) list 15 0 m c in
        ground (arith, has_spsr-Confined w, answer-none w)

    ldm_plain-Confined : Confined reg (ldm_plain t list m).after
    unfolding ldm_plain
    ldm_plain-Confined =
        let loaded = each_register (load_keeping t) list 15 0 m in
        let w = each_register-Confined (load_keeping t) (load_keeping-Confined t) list 15 0 m c in
        let value = (arm_read_word t loaded.after loaded.address loaded.value).1 in
        ground (arith, w, write_register-Confined w 15 (bit_and value 0xFFFFFFFC))

    transfer_all-Confined : (s l : ℕ) → Confined reg (transfer_all t s l list m).1.after
    unfolding transfer_all
    transfer_all-Confined s l = ground (
      arith,
      ldm_spsr_pc-Confined,
      ldm_plain-Confined,
      each_register-Confined (load_one t arm_write_usr_register) (usr_load-Confined t) list 15 0 m
          c,
      each_register-Confined (store_one t arm_read_usr_register)
          (λ i n w. store_one-Confined t i n w arm_read_usr_register) list 16 0 m c,
      each_register-Confined (store_one t arm_read_register)
          (λ i n w. store_one-Confined t i n w arm_read_register) list 16 0 m c,
    )

  finish-Leaves :
      (ins end_address : ℕ) (r : ℕ × Moved)
      → Confined reg r.1.after
      → Leaves reg (finish ins end_address r)
  unfolding finish
  finish-Leaves ins end_address (status, m) c =
      let updated = arm_write_register m.after (get_bits ins 19 16) m.address in
      let w = write_register-Confined c (get_bits ins 19 16) m.address in
      let stopped : Leaves reg none = at_end in
      ground (arith, leaves zero updated w, leaves zero m.after c, leaves status m.after c, stopped)

  pub arm_load_store_multiple-Leaves :
      {p : Arm} (t : Target) (ins : ℕ)
      → Confined reg p
      → Leaves reg (arm_load_store_multiple t p ins)
  unfolding arm_load_store_multiple
  arm_load_store_multiple-Leaves {p} t ins c =
      let list = get_bits ins 15 0 in
      let s = get_bit ins 22 in
      let l = get_bit ins 20 in
      let range =
        transfer_range (get_bits ins 24 23) (arm_read_register p (get_bits ins 19 16)) list in
      let start : Moved = record { address = range.0; value = t.uninit value_local p; after = p } in
      ground (
        arith,
        leaves undefined_instruction p c,
        finish-Leaves ins range.1 (transfer_all t s l list start)
            (transfer_all-Confined t list start c s l),
      )
