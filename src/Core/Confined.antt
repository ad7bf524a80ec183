-- ===== src/Core/Confined.antt =====
-- arm_core.c: a processor in user mode, and what its accesses leave as it was.
use arm_simulator.Base.{ℕ, ◌%◌, ◌^◌, ◌≡◌, refl, Option, none, some, ap}
use arm_simulator.Registers.{Registers, registers_current_mode_has_spsr, registers_read_cpsr}
use arm_simulator.Registers.Confined.{
  Kept, get_mode-user, write-Kept, write_cpsr-Kept, privileged-no, has_spsr-no,
}
use arm_simulator.Core.{
  Arm, Target, arm_current_mode_has_spsr, arm_in_a_privileged_mode, arm_read_cpsr,
  arm_write_register, arm_write_usr_register, arm_write_register_internal, arm_write_cpsr,
  arm_fetch, arm_write_byte, arm_write_half, arm_write_word,
}

-- `Kept` behind one constructor, so that a proof which splits the cases of an operation takes it
-- whole.
pub data Confined (r : Registers) (p : Arm) : Type 0 where
  confined : Kept r p.reg → Confined r p

-- What an instruction returns, if it returns.
pub data Leaves (r : Registers) : Option (ℕ × Arm) → Type 0 where
  leaves : (status : ℕ) (p : Arm) → Confined r p → Leaves r (some (status, p))
  at_end : Leaves r none

pub Confined-Kept : {r : Registers} {p : Arm} → Confined r p → Kept r p.reg
Confined-Kept (confined k) = k

module _ {r : Registers} {p : Arm} (c : Confined r p) where
  pub write_register-Confined : (reg value : ℕ) → Confined r (arm_write_register p reg value)
  unfolding arm_write_register arm_write_register_internal
  write_register-Confined reg value =
      let k = Confined-Kept c in rw (get_mode-user k) (confined (write-Kept k reg value))

  pub write_usr_register-Confined :
      (reg value : ℕ) → Confined r (arm_write_usr_register p reg value)
  unfolding arm_write_usr_register arm_write_register_internal
  write_usr_register-Confined reg value = confined (write-Kept (Confined-Kept c) reg value)

  pub write_cpsr-Confined :
      (value : ℕ) → value % 2 ^ 28 ≡ arm_read_cpsr p % 2 ^ 28 → Confined r (arm_write_cpsr p value)
  unfolding arm_write_cpsr arm_read_cpsr registers_read_cpsr
  write_cpsr-Confined value e = confined (write_cpsr-Kept (Confined-Kept c) value e)

  -- There is no SPSR, and the test for one changes nothing.
  pub has_spsr-none : arm_current_mode_has_spsr p ≡ (0, p)
  unfolding arm_current_mode_has_spsr registers_current_mode_has_spsr
  has_spsr-none = rw (has_spsr-no (Confined-Kept c)) refl

  pub answer-none : (arm_current_mode_has_spsr p).0 ≡ 0
  answer-none = ap (λ (a : ℕ × Arm). a.0) has_spsr-none

  pub has_spsr-Confined : Confined r (arm_current_mode_has_spsr p).1
  has_spsr-Confined = rw has_spsr-none c

  pub not_privileged : arm_in_a_privileged_mode p ≡ 0
  unfolding arm_in_a_privileged_mode
  not_privileged = privileged-no (Confined-Kept c)

  module _ (t : Target) where
    pub write_byte-Confined : (address value : ℕ) → Confined r (arm_write_byte t p address value).1
    unfolding arm_write_byte
    write_byte-Confined address value = confined (Confined-Kept c)

    pub write_half-Confined : (address value : ℕ) → Confined r (arm_write_half t p address value).1
    unfolding arm_write_half
    write_half-Confined address value = confined (Confined-Kept c)

    pub write_word-Confined : (address value : ℕ) → Confined r (arm_write_word t p address value).1
    unfolding arm_write_word
    write_word-Confined address value = confined (Confined-Kept c)

    pub fetch-Confined : (value : ℕ) → Confined r (arm_fetch t p value).2
    unfolding arm_fetch
    fetch-Confined value =
        let k = Confined-Kept c in rw (get_mode-user k) (confined (write-Kept k 15 _))
