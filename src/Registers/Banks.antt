-- ===== src/Registers/Banks.antt =====
-- registers.c: banked registers, that is which (register, mode) pairs name one physical register by
-- the table of the architecture.
use arm_simulator.Base.{
  Bool-cases, ==_iff, inr, ap, ◌∙◌, ℕ, ◌+◌, ◌≤◌, ◌<◌, ◌≡◌, ◌⊎◌, inl, refl, arith, List, length,
  get_or, set, get_or-set_self, get_or-set_ne, ◌==◌, leb, if◌then◌else◌, false, ◌||◌,
}
use mathlib.Core.Logic.{ite, if_pos}
use arm_simulator.Constants.{usr, fiq, irq, svc, abt, und, sys}
use arm_simulator.Registers.{Registers, registers_read, registers_write, mode_ind, no_index}
use arm_simulator.Registers.Valid.{IsValid}

-- The physical bank of a register: the one shared by all modes, or that of a mode.
pub data Bank : Type 0 where
  shared of_fiq of_irq of_svc of_abt of_und : Bank

-- A mode with its own r13 and r14, or r8 to r14.
abbrev pub IsMode : ℕ → Type 0
IsMode m = (m ≡ usr) ⊎ (m ≡ fiq) ⊎ (m ≡ irq) ⊎ (m ≡ svc) ⊎ (m ≡ abt) ⊎ (m ≡ und) ⊎ (m ≡ sys)

-- ARM manual A2-5: r0 to r7 and the PC are shared; r8 to r12 have a copy for FIQ; r13 and r14 have
-- one for each exception mode.
abbrev pub bank : ℕ → ℕ → Bank
bank reg mode =
    if leb reg 7 || reg == 15
    then shared
    else if mode == fiq
    then of_fiq
    else if leb reg 12
    then shared
    else if mode == irq
    then of_irq
    else if mode == svc
    then of_svc
    else if mode == abt
    then of_abt
    else if mode == und
    then of_und
    else shared

-- Where a bank begins in the table.
abbrev base : Bank → ℕ
base shared = 0
base of_svc = 16
base of_abt = 32
base of_und = 48
base of_irq = 64
base of_fiq = 80

mode_ind-bank : (reg mode : ℕ) → reg < 16 → IsMode mode → mode_ind reg mode ≡ base (bank reg mode)
unfolding mode_ind
mode_ind-bank reg mode h m = ground arith

base_injective :
    (a b : Bank) (r s : ℕ) → r < 16 → s < 16 → base a + r ≡ base b + s → (a ≡ b) × (r ≡ s)
base_injective a b r s p q e = ground arith

pub Bank-discrete : Discrete Bank
Bank-discrete = hlevel

base-le : (b : Bank) → base b ≤ 80
base-le b = ground arith

base-some : (b : Bank) → (base b == no_index) ≡ false
base-some b = ground arith

-- The same for the table alone.
cell_read-write :
    (cells : List ℕ) (a b : Bank) (reg reg' value : ℕ)
    → length cells ≡ 96
    → reg < 16
    → reg' < 16
    → get_or (set cells (base a + reg) value) (base b + reg') 0 ≡ (
        if reg == reg'
        then ite (Bank-discrete a b) value (get_or cells (base b + reg') 0)
        else get_or cells (base b + reg') 0)
cell_read-write cells a b reg reg' value l h h' = ground (
  arith,
  base-le a,
  base_injective a b reg reg' h h',
  get_or-set_self cells (base a + reg) value 0,
  get_or-set_ne cells (base a + reg) (base b + reg') value 0,
)

no_mode_ind : (reg mode : ℕ) → 8 ≤ reg → reg < 15 → ¬ (IsMode mode) → mode_ind reg mode ≡ no_index
unfolding mode_ind
no_mode_ind reg mode lo hi n = ground (arith, λ (e : mode ≡ usr). n (inl e))

-- Reading after a write, for the sixteen registers of the seven modes: the value that was written
-- if the two names stand for one physical register, that is the same number in the same bank of
-- the architecture, and otherwise what was there before.
pub read-write :
    {r : Registers} (reg mode value reg' mode' : ℕ)
    → IsValid r
    → reg < 16
    → reg' < 16
    → IsMode mode
    → IsMode mode'
    → registers_read (registers_write r reg mode value) reg' mode' ≡ (
        if reg == reg'
        then ite
            (Bank-discrete (bank reg mode) (bank reg' mode'))
            value
            (registers_read r reg' mode')
        else registers_read r reg' mode')
unfolding registers_read registers_write
read-write {r} reg mode value reg' mode' v h h' m m' =
    rw (mode_ind-bank reg mode h m, mode_ind-bank reg' mode' h' m')
      (rw (base-some (bank reg mode), base-some (bank reg' mode'))
        (cell_read-write r.genreg (bank reg mode) (bank reg' mode') reg reg' value v.general h h'))

-- A register that is written and one that is read in the same mode.
pub read-write_same_mode :
    {r : Registers} (reg mode value reg' : ℕ)
    → IsValid r
    → reg < 16
    → reg' < 16
    → IsMode mode
    → registers_read (registers_write r reg mode value) reg' mode
      ≡ (if reg == reg' then value else registers_read r reg' mode)
read-write_same_mode {r} reg mode value reg' v h h' m = elim (Bool-cases (reg == reg')) [
  | inl same ↦
      let e = (==_iff reg reg').0 same in
      read-write reg mode value reg' mode v h h' m m
      ∙ rw same (
          if_pos (Bank-discrete (bank reg mode) (bank reg' mode)) (ap (λ (i : ℕ). bank i mode) e)
            value (registers_read r reg' mode))
  | inr other ↦ read-write reg mode value reg' mode v h h' m m ∙ rw other
]

-- In a mode that does not exist, r8 to r14 read 0 and writes to them change nothing.
pub unknown_mode :
    (r : Registers) (reg mode value : ℕ)
    → 8 ≤ reg
    → reg < 15
    → ¬ (IsMode mode)
    → (registers_read r reg mode ≡ 0) × (registers_write r reg mode value ≡ r)
unfolding registers_read registers_write
unknown_mode r reg mode value lo hi n = rw (no_mode_ind reg mode lo hi n) (refl, refl)
