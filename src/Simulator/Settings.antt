-- ===== src/Simulator/Settings.antt =====
-- The options of main in arm_simulator.c: the settings that a list of them asks for.
use arm_simulator.Base.{
  ℕ, ◌≡◌, u16, ◌==◌, if◌then◌else◌, ◌||◌, Bool, true, false, Option, none, some, List, [], ◌∷◌,
  length, get_or,
}
use arm_simulator.Gdb.Text.{atoi}
use arm_simulator.Names.{arm_get_mode_number}
use arm_simulator.Trace.{asked, memory_flag, registers_flag, state_flag, position_flag}
use arm_simulator.Simulator.Options.{Options}

-- Whether an option occurs.
abbrev pub given : ℕ → List (ℕ × Option (List ℕ)) → Bool
given c [] = false
given c ((opt, optarg) ∷ rest) = opt == c || given c rest

-- The port after one option, and the one that the last occurrence of an option gives.
abbrev pub port_after : ℕ → ℕ → Option (List ℕ) → ℕ → ℕ
port_after c opt none port = port
port_after c opt (some text) port = if opt == c then u16 (atoi text) else port

abbrev pub last_port : ℕ → List (ℕ × Option (List ℕ)) → ℕ → ℕ
last_port c [] port = port
last_port c ((opt, optarg) ∷ rest) port = last_port c rest (port_after c opt optarg port)

-- The mode that one option names.
abbrev pub names_mode : ℕ → Option (List ℕ) → Option ℕ
names_mode opt none = none
names_mode opt (some text) = if opt == b's' then arm_get_mode_number text else none

abbrev pub is_mode : ℕ → Option ℕ → Bool
is_mode mode none = false
is_mode mode (some n) = n == mode

abbrev pub is_some : Option ℕ → Bool
is_some none = false
is_some (some n) = true

-- Whether a mode is named, and whether any is.
abbrev pub names : ℕ → List (ℕ × Option (List ℕ)) → Bool
names mode [] = false
names mode ((opt, optarg) ∷ rest) = is_mode mode (names_mode opt optarg) || names mode rest

abbrev pub names_any : List (ℕ × Option (List ℕ)) → Bool
names_any [] = false
names_any ((opt, optarg) ∷ rest) = is_some (names_mode opt optarg) || names_any rest

-- The ports are the last that were given; accesses are traced as asked for by one of the options,
-- and the state in the modes that were named.
pub record Chosen (o : Options) (opts : List (ℕ × Option (List ℕ))) (q : Options) : Type 0 where
  pub gdb : q.gdb_port ≡ last_port b'g' opts o.gdb_port
  pub irq : q.irq_port ≡ last_port b'i' opts o.irq_port
  pub memory : asked q.tracer memory_flag ≡ (asked o.tracer memory_flag || given b'm' opts)
  pub registers : asked q.tracer registers_flag ≡ (asked o.tracer registers_flag || given b'r' opts)
  pub position : asked q.tracer position_flag ≡ (asked o.tracer position_flag || given b'p' opts)
  pub state : asked q.tracer state_flag ≡ (asked o.tracer state_flag || names_any opts)
  pub modes :
      (mode : ℕ)
      → get_or q.tracer.states mode 0
        ≡ (if names mode opts then 1 else get_or o.tracer.states mode 0)
  pub same_length : length q.tracer.states ≡ length o.tracer.states
