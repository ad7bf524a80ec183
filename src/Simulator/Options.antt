-- ===== src/Simulator/Options.antt =====
-- main of arm_simulator.c: the options. What `getopt_long` returns is given: a list of option
-- characters, each with its `optarg`, and `fopen`, which says whether a file could be opened.
use arm_simulator.Base.{
  ℕ, ◌-◌, ◌^◌, u16, ◌==◌, if◌then◌else◌, ◌||◌, Bool, Option, none, some, List, [], ◌∷◌, replicate,
}
use arm_simulator.Gdb.Text.{atoi}
use arm_simulator.Names.{arm_get_mode_number}
use arm_simulator.Debug.{Debugged, max_files_number, add_debug_to}
use arm_simulator.Trace.{Tracer, initial, trace_add, registers_flag, memory_flag, position_flag}

-- `shared` as far as the options set it, `trace_file` (none is stdout), and what they configure.
pub record Options : Type 0 where
  pub gdb_port : ℕ
  pub irq_port : ℕ
  pub trace_file : Option (List ℕ)
  pub tracer : Tracer
  pub debugged : Debugged

-- Before the loop: no file has been asked for, to debug or to write to.
abbrev pub defaults : Options
defaults = record {
  gdb_port = 0;
  irq_port = 0;
  trace_file = none;
  tracer = initial;
  debugged = record { files = replicate max_files_number []; nb = 0 };
}

-- The options are read, or `exit` is called with a code.
pub data Parsed : Type 0 where
  parsed : Options → Parsed
  exited : ℕ → Parsed

-- An int of which a negative one is -1.
abbrev pub int_or_minus_one : Option ℕ → ℕ
int_or_minus_one none = 2 ^ 32 - 1
int_or_minus_one (some n) = n

module _ (fopen : List ℕ → Bool) where
  -- The cases of the `switch` that need an argument; `none` is a use of NULL.
  unfoldable pub with_argument : Options → ℕ → List ℕ → Option Parsed
  with_argument o opt text =
      if opt == b'g'
      then some (parsed (record o { gdb_port = u16 (atoi text) }))
      else if opt == b'i'
      then some (parsed (record o { irq_port = u16 (atoi text) }))
      else if opt == b't'
      then if fopen text
        then some (parsed (record o { trace_file = some text }))
        else some (exited 1)
      else if opt == b's'
      then some (
          parsed (record o {
            tracer = trace_add o.tracer (int_or_minus_one (arm_get_mode_number text));
          }))
      else if opt == b'd'
      then elim (add_debug_to o.debugged text) [
        | none ↦ none
        | some d ↦ some (parsed (record o { debugged = d }))
      ]
      else some (exited 1)

  -- One round of the loop.
  unfoldable pub parse_option : Options → ℕ → Option (List ℕ) → Option Parsed
  parse_option o opt optarg =
      if opt == b'h'
      then some (exited 0)
      else if opt == b'r'
      then some (parsed (record o { tracer = trace_add o.tracer registers_flag }))
      else if opt == b'm'
      then some (parsed (record o { tracer = trace_add o.tracer memory_flag }))
      else if opt == b'p'
      then some (parsed (record o { tracer = trace_add o.tracer position_flag }))
      else elim optarg [
        | some text ↦ with_argument o opt text
        | none ↦
            if opt == b'g' || opt == b'i' || opt == b't' || opt == b's' || opt == b'd'
            then none
            else some (exited 1)
      ]

  unfoldable pub parse_options : List (ℕ × Option (List ℕ)) → Options → Option Parsed
  parse_options [] o = some (parsed o)
  parse_options ((opt, optarg) ∷ rest) o = elim (parse_option o opt optarg) [
    | some (parsed q) ↦ parse_options rest q
    | other ↦ other
  ]
