-- ===== src/Registers/Spsr.antt =====
-- registers.c: the saved status registers, and the test for one.
use arm_simulator.Base.{ℕ, ◌≡◌, ◌⊎◌, arith, get_or-set_self, get_or-set_ne, ◌==◌, if◌then◌else◌}
use arm_simulator.Constants.{fiq, irq, svc, abt, und}
use arm_simulator.Registers.{
  Registers, registers_mode_has_spsr, registers_read_spsr, registers_write_spsr,
}
use arm_simulator.Registers.Valid.{IsValid}

-- The five modes that have an SPSR.
abbrev pub IsExceptionMode : ℕ → Type 0
IsExceptionMode m = (m ≡ fiq) ⊎ (m ≡ irq) ⊎ (m ≡ svc) ⊎ (m ≡ abt) ⊎ (m ≡ und)

-- The SPSR that is written in an exception mode is the one that is read there, and no other
-- exception mode's SPSR changes.
pub read_spsr-write_spsr :
    {r : Registers} (mode value mode' : ℕ)
    → IsValid r
    → IsExceptionMode mode
    → IsExceptionMode mode'
    → registers_read_spsr (registers_write_spsr r mode value) mode'
      ≡ (if mode == mode' then value else registers_read_spsr r mode')
unfolding registers_read_spsr registers_write_spsr
read_spsr-write_spsr {r} mode value mode' v m m' = grind (arith, get_or-set_self, get_or-set_ne)

-- Asking whether a mode has an SPSR overwrites that SPSR: where the answer is yes, the SPSR of the
-- mode then holds the CPSR, whatever was saved there.
pub mode_has_spsr_overwrites :
    {r : Registers} (mode : ℕ)
    → IsValid r
    → IsExceptionMode mode
    → let (answer, r') = registers_mode_has_spsr r mode in
      (answer ≡ 1)
      × (registers_read_spsr r' mode ≡ r.cpsr)
      × (r'.cpsr ≡ r.cpsr)
      × (r'.genreg ≡ r.genreg)
unfolding registers_mode_has_spsr registers_read_spsr
mode_has_spsr_overwrites {r} mode v m = ground (
  arith,
  get_or-set_self r.rstat 0 r.cpsr 0,
  get_or-set_self r.rstat 1 r.cpsr 0,
  get_or-set_self r.rstat 2 r.cpsr 0,
  get_or-set_self r.rstat 3 r.cpsr 0,
  get_or-set_self r.rstat 4 r.cpsr 0,
)

-- Outside those modes the answer is no, and nothing changes.
pub mode_has_spsr_no :
    (r : Registers) (mode : ℕ) → ¬ (IsExceptionMode mode) → registers_mode_has_spsr r mode ≡ (0, r)
unfolding registers_mode_has_spsr
mode_has_spsr_no r mode n = ground arith
