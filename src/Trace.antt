-- ===== src/Trace.antt =====
-- trace.c: what is traced, the sequence of memory addresses, the stack of source locations and the
-- lines that are printed, in the default format. A text is its bytes. `LOCATION` and
-- `END_LOCATION` of trace_location.h are `trace_start_location` and `trace_end_location`.
pub mod Requests
pub mod Locations
pub mod Printing
pub mod Scopes
use arm_simulator.Base.{
  ℕ, zero, suc, ◌+◌, ◌-◌, ◌%◌, ◌^◌, ltb, leb, ◌==◌, if◌then◌else◌, ◌&&◌, ◌||◌, not, Bool, true,
  false, Option, none, some, List, [], ◌∷◌, ◌++◌, replicate, get_or, set, add32, sub32, bit_and,
  bit_or,
}
use arm_simulator.Gdb.Text.{codes}
use arm_simulator.Names.{arm_get_mode_name, arm_get_register_name}
use arm_simulator.Registers.{Registers, registers_read, registers_read_cpsr, registers_read_spsr}

-- `MEMORY`, `REGISTERS`, `STATE` and `POSITION`.
abbrev pub memory_flag : ℕ
memory_flag = 32

abbrev pub registers_flag : ℕ
registers_flag = 64

abbrev pub state_flag : ℕ
state_flag = 128

abbrev pub position_flag : ℕ
position_flag = 256

-- The static variables; an int is its bit pattern, so that a top of -1 is 2^32 - 1. `file` is the
-- name of the file that is written to (`none` before it is set, `some none` for stdout), and
-- `output` what was written so far.
pub record Tracer : Type 0 where
  pub file : Option (Option (List ℕ))
  pub output : List ℕ
  pub last_address : ℕ
  pub enabled : Bool
  pub location_file_stack : List (List ℕ)
  pub location_line_stack : List ℕ
  pub location_stack_top : ℕ
  pub trace_flags : ℕ
  pub states : List ℕ

abbrev pub location_stack_size : ℕ
location_stack_size = 128

-- The values with which the program starts; pointers are NULL, here the empty text.
unfoldable pub initial : Tracer
initial = record {
  file = none;
  output = [];
  last_address = 0x12345678;
  enabled = true;
  location_file_stack = replicate location_stack_size [];
  location_line_stack = replicate location_stack_size 0;
  location_stack_top = 2 ^ 32 - 1;
  trace_flags = 0;
  states = replicate 32 0;
}

unfoldable pub set_trace_file : Tracer → Option (List ℕ) → Tracer
set_trace_file t file = record t { file = some file }

-- `none` is a write outside the two arrays.
unfoldable pub trace_start_location : Tracer → List ℕ → ℕ → Option Tracer
trace_start_location t file line =
    let top = add32 t.location_stack_top 1 in
    if t.enabled
    then if ltb top location_stack_size
      then some (record t {
        location_stack_top = top;
        location_file_stack = set t.location_file_stack top file;
        location_line_stack = set t.location_line_stack top line;
      })
      else none
    else some t

unfoldable pub trace_end_location : Tracer → Tracer
trace_end_location t =
    if t.enabled then record t { location_stack_top = sub32 t.location_stack_top 1 } else t

unfoldable pub trace_disable : Tracer → Tracer
trace_disable t = record t { enabled = false }

unfoldable pub trace_enable : Tracer → Tracer
trace_enable t = record t { enabled = true }

-- An argument of type int.
unfoldable pub trace_add : Tracer → ℕ → Tracer
trace_add t flags =
    if leb (2 ^ 31) flags
    then t
    else if ltb flags 32
    then record t { trace_flags = bit_or t.trace_flags state_flag; states = set t.states flags 1 }
    else record t { trace_flags = bit_or t.trace_flags flags }

-- `trace_flags & flag`
abbrev pub asked : Tracer → ℕ → Bool
asked t flag = not (bit_and t.trace_flags flag == 0)

-- The conversions %d, %08X and %3s of `fprintf`.
pub record Conversions : Type 0 where
  pub decimal : ℕ → List ℕ
  pub hexadecimal : ℕ → List ℕ
  pub three_wide : List ℕ → List ℕ

module _ (c : Conversions) where
  unfoldable pub trace_print_location : Tracer → List ℕ
  trace_print_location t =
      let top = t.location_stack_top in
      if t.enabled && asked t position_flag && ltb top (2 ^ 31)
      then get_or t.location_file_stack top []
        ++ codes ", "
        ++ c.decimal (get_or t.location_line_stack top 0)
        ++ codes ": "
      else []

  -- `trace_memory_type`, `trace_register_type` and `trace_memory_cause`.
  abbrev pub trace_type : ℕ → List ℕ
  trace_type kind = if kind == 0 then codes "write" else codes "read"

  abbrev pub trace_memory_cause : ℕ → List ℕ
  trace_memory_cause cause = if cause == 0 then [] else codes ", fetch"

  unfoldable pub memory_line : ℕ → ℕ → ℕ → ℕ → ℕ → ℕ → List ℕ
  memory_line cycle kind size cause address value =
      codes "Cycle "
      ++ c.decimal cycle
      ++ codes ", Mem "
      ++ trace_type kind
      ++ codes " ("
      ++ c.decimal size
      ++ codes " bytes"
      ++ trace_memory_cause cause
      ++ codes ") addr: "
      ++ c.hexadecimal address
      ++ codes ", val: "
      ++ c.hexadecimal value
      ++ codes "\n"

  unfoldable pub trace_memory : Tracer → ℕ → ℕ → ℕ → ℕ → ℕ → ℕ → Tracer
  trace_memory t cycle kind size cause address value =
      if t.enabled && asked t memory_flag
      then record t {
        last_address = address;
        output =
            t.output ++ trace_print_location t ++ memory_line cycle kind size cause address value;
      }
      else t

  -- The name of a mode after an underscore, or nothing.
  unfoldable pub mode_suffix : ℕ → List ℕ
  mode_suffix mode = elim (arm_get_mode_name mode) [ none ↦ [] | some name ↦ codes "_" ++ name ]

  unfoldable pub register_line : ℕ → ℕ → ℕ → ℕ → ℕ → List ℕ
  register_line cycle kind reg mode value =
      codes "Cycle "
      ++ c.decimal cycle
      ++ codes ", Register "
      ++ trace_type kind
      ++ codes ", "
      ++ arm_get_register_name reg
      ++ mode_suffix mode
      ++ codes ", val: "
      ++ c.hexadecimal value
      ++ codes "\n"

  unfoldable pub trace_register : Tracer → ℕ → ℕ → ℕ → ℕ → ℕ → Tracer
  trace_register t cycle kind reg mode value =
      if t.enabled && asked t registers_flag
      then record t {
        output = t.output ++ trace_print_location t ++ register_line cycle kind reg mode value;
      }
      else t

  -- The inner loop of `trace_arm_state`, with the rounds left; `count` is equal to `reg`.
  unfoldable pub state_registers : ℕ → Registers → ℕ → ℕ → List ℕ
  state_registers zero r mode reg = []
  state_registers (suc left) r mode reg =
      (if ltb 0 reg && reg % 5 == 0 then codes "\n    " else [])
      ++ codes "   "
      ++ c.three_wide (arm_get_register_name reg)
      ++ codes "="
      ++ c.hexadecimal (registers_read r reg mode)
      ++ state_registers left r mode (reg + 1)

  unfoldable pub state_line : Registers → ℕ → List ℕ → List ℕ
  state_line r mode name =
      name
      ++ codes ":"
      ++ state_registers 16 r mode 0
      ++ codes "   CPSR="
      ++ c.hexadecimal (registers_read_cpsr r)
      ++ codes "   SPSR="
      ++ c.hexadecimal (registers_read_spsr r mode)
      ++ codes "\n"

  -- The outer loop, with the rounds left.
  unfoldable pub state_lines : ℕ → Tracer → Registers → ℕ → List ℕ
  state_lines zero t r mode = []
  state_lines (suc left) t r mode =
      elim (arm_get_mode_name mode) [
        | none ↦ []
        | some name ↦ if get_or t.states mode 0 == 0 then [] else state_line r mode name
      ]
      ++ state_lines left t r (mode + 1)

  unfoldable pub trace_arm_state : Tracer → Registers → Tracer
  trace_arm_state t r =
      if t.enabled && asked t state_flag
      then record t { output = t.output ++ state_lines 32 t r 0 }
      else t
