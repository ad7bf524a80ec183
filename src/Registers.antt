-- ===== src/Registers.antt =====
-- registers.c: the general registers of every mode in one table of 96 words, the CPSR, and the five
-- saved status registers. A mode is the low five bits of the CPSR.
pub mod Valid
pub mod Banks
pub mod Spsr
pub mod Confined
use arm_simulator.Base.{
  ℕ, zero, suc, ◌+◌, ◌%◌, ◌^◌, bit_and, leb, ◌==◌, if◌then◌else◌, ◌&&◌, ◌||◌, get_or, set, List,
}
use arm_simulator.Constants.{usr, fiq, irq, svc, abt, und, sys}

-- Where the registers of a mode begin in the table.
abbrev pub usr_index : ℕ
usr_index = 0

abbrev pub svc_index : ℕ
svc_index = 16

abbrev pub abt_index : ℕ
abt_index = 32

abbrev pub und_index : ℕ
und_index = 48

abbrev pub irq_index : ℕ
irq_index = 64

abbrev pub fiq_index : ℕ
fiq_index = 80

abbrev pub greg_table : ℕ
greg_table = 96

abbrev pub stat_reg : ℕ
stat_reg = 5

-- `struct registers_data`
pub record Registers : Type 0 where
  pub genreg : List ℕ
  pub cpsr : ℕ
  pub rstat : List ℕ

-- `for (i = 0; i < n; i++) table[i] = 0;` with the rounds left.
unfoldable pub clear : ℕ → ℕ → List ℕ → List ℕ
clear zero i table = table
clear (suc left) i table = clear left (i + 1) (set table i 0)

-- The arguments are the arrays that `malloc` returns, with whatever they hold.
unfoldable pub registers_create : List ℕ → List ℕ → Registers
unfolding clear
registers_create genreg rstat = record {
  genreg = clear greg_table 0 genreg;
  cpsr = 0;
  rstat = clear stat_reg 0 rstat;
}

unfoldable pub registers_get_mode : Registers → ℕ
registers_get_mode r = bit_and r.cpsr 0x1F % 2 ^ 8

-- A test that also writes: in a mode that has an SPSR, the CPSR is stored into it.
unfoldable pub registers_mode_has_spsr : Registers → ℕ → ℕ × Registers
registers_mode_has_spsr r mode =
    if mode == fiq
    then (1, record r { rstat = set r.rstat 0 r.cpsr })
    else if mode == irq
    then (1, record r { rstat = set r.rstat 1 r.cpsr })
    else if mode == svc
    then (1, record r { rstat = set r.rstat 2 r.cpsr })
    else if mode == abt
    then (1, record r { rstat = set r.rstat 3 r.cpsr })
    else if mode == und
    then (1, record r { rstat = set r.rstat 4 r.cpsr })
    else (0, r)

unfoldable pub registers_current_mode_has_spsr : Registers → ℕ × Registers
registers_current_mode_has_spsr r = registers_mode_has_spsr r (registers_get_mode r)

unfoldable pub registers_in_a_privileged_mode : Registers → ℕ
registers_in_a_privileged_mode r =
    let mode = registers_get_mode r in
    if mode == fiq || mode == irq || mode == svc || mode == abt || mode == und || mode == sys
    then svc
    else 0

-- `(uint32_t) -1`
abbrev pub no_index : ℕ
no_index = 0xFFFFFFFF

unfoldable pub mode_ind : ℕ → ℕ → ℕ
mode_ind reg mode =
    if leb reg 7
    then usr_index
    else if leb 8 reg && leb reg 12
    then if mode == fiq
      then fiq_index
      else if mode == usr || mode == sys || mode == svc || mode == abt || mode == und || mode == irq
      then usr_index
      else no_index
    else if leb 13 reg && leb reg 14
    then if mode == usr || mode == sys
      then usr_index
      else if mode == svc
      then svc_index
      else if mode == abt
      then abt_index
      else if mode == und
      then und_index
      else if mode == irq
      then irq_index
      else if mode == fiq
      then fiq_index
      else no_index
    else if reg == 15
    then usr_index
    else no_index

-- 0 where the mode or the register does not exist.
unfoldable pub registers_read : Registers → ℕ → ℕ → ℕ
registers_read r reg mode =
    let index = mode_ind reg mode in
    if index == no_index then 0 else get_or r.genreg (index + reg) 0

unfoldable pub registers_read_cpsr : Registers → ℕ
registers_read_cpsr r = r.cpsr

-- The place of a mode's SPSR in `rstat`, given as a function of the cases of the `switch`.
unfoldable pub registers_read_spsr : Registers → ℕ → ℕ
registers_read_spsr r mode =
    if mode == fiq
    then get_or r.rstat 0 0
    else if mode == irq
    then get_or r.rstat 1 0
    else if mode == svc
    then get_or r.rstat 2 0
    else if mode == abt
    then get_or r.rstat 3 0
    else if mode == und
    then get_or r.rstat 4 0
    else 0

-- No effect where the mode or the register does not exist.
unfoldable pub registers_write : Registers → ℕ → ℕ → ℕ → Registers
registers_write r reg mode value =
    let index = mode_ind reg mode in
    if index == no_index then r else record r { genreg = set r.genreg (index + reg) value }

unfoldable pub registers_write_cpsr : Registers → ℕ → Registers
registers_write_cpsr r value = record r { cpsr = value }

unfoldable pub registers_write_spsr : Registers → ℕ → ℕ → Registers
registers_write_spsr r mode value =
    if mode == fiq
    then record r { rstat = set r.rstat 0 value }
    else if mode == irq
    then record r { rstat = set r.rstat 1 value }
    else if mode == svc
    then record r { rstat = set r.rstat 2 value }
    else if mode == abt
    then record r { rstat = set r.rstat 3 value }
    else if mode == und
    then record r { rstat = set r.rstat 4 value }
    else r
