-- ===== src/Constants.antt =====
-- arm_constants.h and the exit codes of werror.h: modes, exceptions, CPSR bits, shifts and masks.
use Prim.Native.Nat.{ℕ}

-- ARM modes, the low five bits of the CPSR.
abbrev pub usr : ℕ
usr = 0x10

abbrev pub fiq : ℕ
fiq = 0x11

abbrev pub irq : ℕ
irq = 0x12

abbrev pub svc : ℕ
svc = 0x13

abbrev pub abt : ℕ
abt = 0x17

abbrev pub und : ℕ
und = 0x1b

abbrev pub sys : ℕ
sys = 0x1f

-- Results of an instruction: normal execution, the exceptions, and the end of the simulation.
abbrev pub successfully_decoded : ℕ
successfully_decoded = 0

abbrev pub reset : ℕ
reset = 1

abbrev pub data_abort : ℕ
data_abort = 2

abbrev pub fast_interrupt : ℕ
fast_interrupt = 3

abbrev pub interrupt : ℕ
interrupt = 4

abbrev pub prefetch_abort : ℕ
prefetch_abort = 6

abbrev pub undefined_instruction : ℕ
undefined_instruction = 7

abbrev pub software_interrupt : ℕ
software_interrupt = 8

abbrev pub end_simulation : ℕ
end_simulation = 9

-- Positions of the condition flags in the CPSR.
abbrev pub n_flag : ℕ
n_flag = 31

abbrev pub z_flag : ℕ
z_flag = 30

abbrev pub c_flag : ℕ
c_flag = 29

abbrev pub v_flag : ℕ
v_flag = 28

-- Shift operations.
abbrev pub lsl : ℕ
lsl = 0

abbrev pub lsr : ℕ
lsr = 1

abbrev pub asr_code : ℕ
asr_code = 2

abbrev pub ror_code : ℕ
ror_code = 3

-- Masks of `msr`.
abbrev pub unalloc_mask : ℕ
unalloc_mask = 0x0FFFFF00

abbrev pub user_mask : ℕ
user_mask = 0xF0000000

abbrev pub priv_mask : ℕ
priv_mask = 0x0000000F

abbrev pub state_mask : ℕ
state_mask = 0x00000020

-- Exit codes of the memory functions.
abbrev pub success : ℕ
success = 0

abbrev pub alloc_error : ℕ
alloc_error = 2

abbrev pub null_reference : ℕ
null_reference = 3

abbrev pub data_corrupted : ℕ
data_corrupted = 4

abbrev pub index_out_of_range : ℕ
index_out_of_range = 8
