-- ===== src/Registers/Confined.antt =====
-- registers.c: what changes of the registers in user mode cannot reach.
use arm_simulator.Base.{
  ℕ, ◌+◌, ◌%◌, ◌^◌, ◌≤◌, ◌<◌, ◌≡◌, ◌⊎◌, ◌≢◌, refl, arith, get_or, get_or-set_ne, ◌==◌, ◌∙◌, sym,
  Bool-cases, inl, inr,
}
use arm_simulator.Base.Bits.{bit_and_mask}
use arm_simulator.Constants.{usr}
use arm_simulator.Registers.Banks.{IsMode, bank, shared}
use arm_simulator.Registers.{
  Registers, registers_get_mode, registers_read, registers_write, registers_write_cpsr,
  registers_read_spsr, registers_mode_has_spsr, registers_in_a_privileged_mode, mode_ind, no_index,
}

-- From `r`, which is in user mode: the control bits, the SPSRs and the registers of the exception
-- modes are as they were.
pub record Kept (r q : Registers) : Type 0 where
  pub user : r.cpsr % 2 ^ 5 ≡ usr
  pub control : q.cpsr % 2 ^ 28 ≡ r.cpsr % 2 ^ 28
  pub saved : q.rstat ≡ r.rstat
  pub banked : (i : ℕ) → 16 ≤ i → get_or q.genreg i 0 ≡ get_or r.genreg i 0

pub get_mode-eq : (r : Registers) → registers_get_mode r ≡ r.cpsr % 2 ^ 5
unfolding registers_get_mode
get_mode-eq r = omega (arith, bit_and_mask 5 r.cpsr)

pub Kept-same : (r : Registers) → registers_get_mode r ≡ usr → Kept r r
Kept-same r e = record {
  user = sym (get_mode-eq r) ∙ e;
  control = refl;
  saved = refl;
  banked = λ i h. refl;
}

-- A register of user mode is one of the first sixteen, or none.
usr_place : (reg : ℕ) → (mode_ind reg usr ≡ no_index) ⊎ (mode_ind reg usr + reg < 16)
unfolding mode_ind
usr_place reg = ground arith

bank_place :
    (reg mode : ℕ) → reg < 16 → IsMode mode → bank reg mode ≢ shared → 16 ≤ mode_ind reg mode + reg
unfolding mode_ind
bank_place reg mode h m n = ground arith

module _ {r q : Registers} (k : Kept r q) where
  pub get_mode-user : registers_get_mode q ≡ usr
  get_mode-user = get_mode-eq q ∙ omega (arith, k.user, k.control)

  pub write-Kept : (reg value : ℕ) → Kept r (registers_write q reg usr value)
  unfolding registers_write
  write-Kept reg value = elim (Bool-cases (mode_ind reg usr == no_index)) [
    | inl e ↦ rw e k
    | inr e ↦ rw e (record {
      user = k.user;
      control = k.control;
      saved = k.saved;
      banked = λ i h.
          get_or-set_ne q.genreg (mode_ind reg usr + reg) i value 0 (ground (arith, usr_place reg))
          ∙ k.banked i h;
    })
  ]

  pub write_cpsr-Kept :
      (value : ℕ) → value % 2 ^ 28 ≡ q.cpsr % 2 ^ 28 → Kept r (registers_write_cpsr q value)
  unfolding registers_write_cpsr
  write_cpsr-Kept value e = record {
    user = k.user;
    control = e ∙ k.control;
    saved = k.saved;
    banked = k.banked;
  }

  pub privileged-no : registers_in_a_privileged_mode q ≡ 0
  unfolding registers_in_a_privileged_mode
  privileged-no = rw get_mode-user refl

  pub has_spsr-no : registers_mode_has_spsr q (registers_get_mode q) ≡ (0, q)
  unfolding registers_mode_has_spsr
  has_spsr-no = rw get_mode-user refl

  -- A register with a bank of its own is not one of the first sixteen.
  pub banked_read :
      (reg mode : ℕ)
      → reg < 16
      → IsMode mode
      → bank reg mode ≢ shared
      → registers_read q reg mode ≡ registers_read r reg mode
  unfolding registers_read
  banked_read reg mode h m n = elim (Bool-cases (mode_ind reg mode == no_index)) [
    | inl e ↦ rw e refl
    | inr e ↦ rw e (k.banked (mode_ind reg mode + reg) (bank_place reg mode h m n))
  ]

  pub saved_read : (mode : ℕ) → registers_read_spsr q mode ≡ registers_read_spsr r mode
  unfolding registers_read_spsr
  saved_read mode = rw k.saved refl
