-- ===== src/Exception/Entry.antt =====
-- arm_exception.c: the registers after entering an exception.
use arm_simulator.Base.{
  ℕ, ◌%◌, ◌^◌, ◌<◌, ◌≡◌, ◌⊎◌, inl, inr, refl, arith, add32, ◌==◌, if◌then◌else◌, ◌∙◌, ap,
}
use arm_simulator.Constants.{
  data_abort, fast_interrupt, interrupt, prefetch_abort, undefined_instruction, svc,
}
use arm_simulator.Util.{clr_bit}
use arm_simulator.Registers.{
  Registers, registers_get_mode, registers_read, registers_write, registers_write_cpsr,
  registers_write_spsr, registers_read_cpsr,
}
use arm_simulator.Registers.Valid as RegistersValid
use arm_simulator.Registers.Banks.{IsMode, read-write, bank, Bank-discrete}
use mathlib.Core.Logic.{ite}
use arm_simulator.Core.{
  Arm, arm_read_register, arm_read_cpsr, arm_write_register, arm_write_cpsr, arm_write_spsr,
  arm_write_register_internal,
}
use arm_simulator.Core.Valid.{IsValid, parts, read_register-lt}
use arm_simulator.Exception.{enter, exception_cpsr, raise_exception}

-- The exceptions with a return address: all that are raised but RESET.
abbrev pub IsRaised : ℕ → Type 0
IsRaised e =
    (e ≡ data_abort)
    ⊎ (e ≡ fast_interrupt)
    ⊎ (e ≡ interrupt)
    ⊎ (e ≡ prefetch_abort)
    ⊎ (e ≡ undefined_instruction)

-- ARM manual A2-16: where each handler begins.
abbrev pub vector_of : ℕ → ℕ
vector_of e =
    if e == undefined_instruction
    then 0x04
    else if e == prefetch_abort
    then 0x0C
    else if e == data_abort
    then 0x10
    else if e == interrupt
    then 0x18
    else 0x1C

-- The return address, from the PC that is read.
abbrev pub link : ℕ → ℕ → ℕ
link e pc =
    if e == undefined_instruction then pc else if e == data_abort then add32 pc 8 else add32 pc 4

-- The CPSR in the handler.
abbrev pub handler_cpsr : ℕ → ℕ
handler_cpsr e = if e == fast_interrupt then exception_cpsr else clr_bit exception_cpsr 6

raise-enter :
    (p : Arm) (e : ℕ)
    → IsRaised e
    → raise_exception p e ≡ enter p (link e (arm_read_register p 15)) (handler_cpsr e) (vector_of e)
unfolding raise_exception
raise-enter p e (inl h) = rw h refl
raise-enter p e (inr (inl h)) = rw h refl
raise-enter p e (inr (inr (inl h))) = rw h refl
raise-enter p e (inr (inr (inr (inl h)))) = rw h refl
raise-enter p e (inr (inr (inr (inr h)))) = rw h refl

-- The other registers do not depend on the status registers.
read-write_spsr :
    (r : Registers) (mode value reg mode' : ℕ)
    → registers_read (registers_write_spsr r mode value) reg mode' ≡ registers_read r reg mode'
unfolding registers_write_spsr registers_read
read-write_spsr r mode value reg mode' = ground arith

handler-svc : (e : ℕ) → IsRaised e → (handler_cpsr e < 2 ^ 32) × (handler_cpsr e % 32 ≡ svc)
unfolding clr_bit
handler-svc e (inl h) = rw h (omega arith, refl)
handler-svc e (inr (inl h)) = rw h (omega arith, refl)
handler-svc e (inr (inr (inl h))) = rw h (omega arith, refl)
handler-svc e (inr (inr (inr (inl h)))) = rw h (omega arith, refl)
handler-svc e (inr (inr (inr (inr h)))) = rw h (omega arith, refl)

pub write-keeps_cpsr :
    (r : Registers) (reg mode value : ℕ) → (registers_write r reg mode value).cpsr ≡ r.cpsr
unfolding registers_write
write-keeps_cpsr r reg mode value = ground arith

-- The last two calls: the CPSR, then the PC in the mode that it selects.
module _ (r : Registers) (v : RegistersValid.IsValid r) (cpsr vector : ℕ) (h : cpsr < 2 ^ 32)
    (to_svc : cpsr % 32 ≡ svc) where
  abbrev pub in_handler : Registers
  in_handler =
      let r1 = registers_write_cpsr r cpsr in registers_write r1 15 (registers_get_mode r1) vector

  set_mode : registers_get_mode (registers_write_cpsr r cpsr) ≡ svc
  unfolding registers_write_cpsr
  set_mode = RegistersValid.get_mode-eq (registers_write_cpsr r cpsr) ∙ to_svc

  pub handler_status : in_handler.cpsr ≡ cpsr
  unfolding registers_write_cpsr
  handler_status = write-keeps_cpsr (registers_write_cpsr r cpsr) 15 _ vector

  pub handler_read :
      (reg mode : ℕ)
      → reg < 16
      → IsMode mode
      → registers_read in_handler reg mode
        ≡ (if 15 == reg then vector else registers_read r reg mode)
  unfolding registers_write_cpsr registers_read
  handler_read reg mode l m = rw set_mode (
      read-write {r = registers_write_cpsr r cpsr} 15 svc vector reg mode
        (RegistersValid.write_cpsr-IsValid cpsr v h) (omega arith) l (ground arith) m
      ∙ rest)
    where
      rest :
          (if 15 == reg
            then ite
                (Bank-discrete (bank 15 svc) (bank reg mode))
                vector
                (registers_read (registers_write_cpsr r cpsr) reg mode)
            else registers_read (registers_write_cpsr r cpsr) reg mode)
          ≡ (if 15 == reg then vector else registers_read r reg mode)
      rest = ground arith

module _ (p : Arm) (v : RegistersValid.IsValid p.reg)
    (known : IsMode (registers_get_mode p.reg)) where
  abbrev old_mode : ℕ
  old_mode = registers_get_mode p.reg

  -- After `arm_write_register p 14 restore_pc` and the saving of the CPSR.
  abbrev saved : ℕ → Registers
  saved restore_pc =
      let r1 = registers_write p.reg 14 old_mode restore_pc in
      registers_write_spsr r1 (registers_get_mode r1) (registers_read_cpsr r1)

  enter-reg :
      (restore_pc cpsr vector : ℕ)
      → cpsr < 2 ^ 32
      → cpsr % 32 ≡ svc
      → restore_pc < 2 ^ 32
      → let q = enter p restore_pc cpsr vector in
        (q.reg.cpsr ≡ cpsr)
        × (registers_read q.reg 15 svc ≡ vector)
        × (registers_read q.reg 14 old_mode ≡ restore_pc)
  unfolding enter arm_write_register arm_write_spsr arm_write_cpsr arm_write_register_internal
      arm_read_cpsr registers_read_cpsr
  enter-reg restore_pc cpsr vector h s l =
      let r1 = registers_write p.reg 14 old_mode restore_pc in
      let v1 = RegistersValid.write-IsValid 14 old_mode restore_pc v l in
      let v2 = RegistersValid.write_spsr-IsValid (registers_get_mode r1) r1.cpsr v1 v1.status in
      let r2 = registers_write_spsr r1 (registers_get_mode r1) r1.cpsr in
      (
        handler_status r2 v2 cpsr vector h s,
        handler_read r2 v2 cpsr vector h s 15 svc (omega arith) (ground arith),
        handler_read r2 v2 cpsr vector h s 14 old_mode (omega arith) known
            ∙ read-write_spsr r1 _ _ 14 old_mode
            ∙ read-write {r = p.reg} 14 old_mode restore_pc 14 old_mode v (omega arith)
                (omega arith) known known
            ∙ own_bank,
      )
    where
      own_bank :
          ite
            (Bank-discrete (bank 14 old_mode) (bank 14 old_mode))
            restore_pc
            (registers_read p.reg 14 old_mode)
          ≡ restore_pc
      own_bank = ground arith

link-lt : (e pc : ℕ) → pc < 2 ^ 32 → link e pc < 2 ^ 32
link-lt e pc h = ground arith

-- Each exception but RESET, raised in a valid processor that is in one of the seven modes: the
-- handler starts at its vector, in supervisor mode with interrupts disabled (fast ones too for an
-- FIQ), and the return address is in r14 of the mode that was interrupted.
pub raise_exception-entry :
    {size cycle : ℕ} {p : Arm} (e : ℕ)
    → IsValid size cycle p
    → IsMode (registers_get_mode p.reg)
    → IsRaised e
    → let q = raise_exception p e in
      (q.reg.cpsr ≡ handler_cpsr e)
      × (registers_get_mode q.reg ≡ svc)
      × (registers_read q.reg 15 svc ≡ vector_of e)
      × (registers_read q.reg 14 (registers_get_mode p.reg) ≡ link e (arm_read_register p 15))
raise_exception-entry {p} e w known h =
    let (small, in_svc) = handler-svc e h in
    let (status, pc, lr) =
      enter-reg p (parts w).registers known (link e (arm_read_register p 15)) (handler_cpsr e)
        (vector_of e) small in_svc (link-lt e _ (read_register-lt w 15)) in
    rw (raise-enter p e h)
      (status, RegistersValid.get_mode-eq _ ∙ ap (λ (c : ℕ). c % 32) status ∙ in_svc, pc, lr)
