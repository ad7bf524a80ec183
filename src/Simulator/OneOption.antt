-- ===== src/Simulator/OneOption.antt =====
-- main of arm_simulator.c: what one option does to each setting.
use arm_simulator.Base.{
  ℕ, ◌^◌, ◌-◌, ◌≡◌, arith, ◌==◌, if◌then◌else◌, ◌||◌, ◌&&◌, not, bit_and, Bool, Option, none, some,
  List, [], ◌∷◌, length, get_or, inl, inr, Option-cases,
}
use arm_simulator.Names.Search.{arm_get_mode_number-lt}
use arm_simulator.Names.{arm_get_mode_number}
use arm_simulator.Trace.{asked, trace_add, memory_flag, registers_flag, state_flag, position_flag}
use arm_simulator.Trace.Requests.{
  asked-trace_add, asked-trace_add_mode, trace_add-negative, states-trace_add,
  states-trace_add_mode, length-states,
}
use arm_simulator.Simulator.Options.{Options, parsed, int_or_minus_one, with_argument, parse_option}
use arm_simulator.Simulator.Settings.{port_after, names_mode, is_mode, is_some, Chosen}

-- What one option does to each setting.
module _ (fopen : List ℕ → Bool) (o q : Options) where
  parse_option-gdb :
      (opt : ℕ) (optarg : Option (List ℕ))
      → parse_option fopen o opt optarg ≡ some (parsed q)
      → q.gdb_port ≡ port_after b'g' opt optarg o.gdb_port
  unfolding parse_option with_argument
  parse_option-gdb opt none e = ground arith
  parse_option-gdb opt (some text) e = ground arith

  parse_option-irq :
      (opt : ℕ) (optarg : Option (List ℕ))
      → parse_option fopen o opt optarg ≡ some (parsed q)
      → q.irq_port ≡ port_after b'i' opt optarg o.irq_port
  unfolding parse_option with_argument
  parse_option-irq opt none e = ground arith
  parse_option-irq opt (some text) e = ground arith

  -- What the flags of the three options and of the modes add.
  abbrev added : ℕ → ℕ → Option (List ℕ) → Bool
  added flag opt optarg =
      (opt == b'r' && flag == registers_flag)
      || (opt == b'm' && flag == memory_flag)
      || (opt == b'p' && flag == position_flag)
      || (is_some (names_mode opt optarg) && flag == state_flag)

  asked_mode :
      (k : ℕ) (text : List ℕ)
      → asked (trace_add o.tracer (int_or_minus_one (arm_get_mode_number text))) (2 ^ k) ≡ (
          asked o.tracer (2 ^ k)
          || (is_some (arm_get_mode_number text) && not (bit_and state_flag (2 ^ k) == 0)))
  asked_mode k text = elim (Option-cases (arm_get_mode_number text)) [
    | inl no_mode ↦ rw no_mode (ground (arith, trace_add-negative o.tracer (2 ^ 32 - 1)))
    | inr (n, mode) ↦
        rw mode (asked-trace_add_mode o.tracer k n (arm_get_mode_number-lt text n mode))
  ]

  parse_option-memory :
      (opt : ℕ) (optarg : Option (List ℕ))
      → parse_option fopen o opt optarg ≡ some (parsed q)
      → asked q.tracer memory_flag ≡ (asked o.tracer memory_flag || added memory_flag opt optarg)
  unfolding parse_option with_argument
  parse_option-memory opt none e = ground (
    arith,
    asked-trace_add o.tracer 5 64,
    asked-trace_add o.tracer 5 32,
    asked-trace_add o.tracer 5 256,
  )
  parse_option-memory opt (some text) e = ground (
    arith,
    asked-trace_add o.tracer 5 64,
    asked-trace_add o.tracer 5 32,
    asked-trace_add o.tracer 5 256,
    asked_mode 5 text,
  )

  parse_option-registers :
      (opt : ℕ) (optarg : Option (List ℕ))
      → parse_option fopen o opt optarg ≡ some (parsed q)
      → asked q.tracer registers_flag
        ≡ (asked o.tracer registers_flag || added registers_flag opt optarg)
  unfolding parse_option with_argument
  parse_option-registers opt none e = ground (
    arith,
    asked-trace_add o.tracer 6 64,
    asked-trace_add o.tracer 6 32,
    asked-trace_add o.tracer 6 256,
  )
  parse_option-registers opt (some text) e = ground (
    arith,
    asked-trace_add o.tracer 6 64,
    asked-trace_add o.tracer 6 32,
    asked-trace_add o.tracer 6 256,
    asked_mode 6 text,
  )

  parse_option-state :
      (opt : ℕ) (optarg : Option (List ℕ))
      → parse_option fopen o opt optarg ≡ some (parsed q)
      → asked q.tracer state_flag ≡ (asked o.tracer state_flag || added state_flag opt optarg)
  unfolding parse_option with_argument
  parse_option-state opt none e = ground (
    arith,
    asked-trace_add o.tracer 7 64,
    asked-trace_add o.tracer 7 32,
    asked-trace_add o.tracer 7 256,
  )
  parse_option-state opt (some text) e = ground (
    arith,
    asked-trace_add o.tracer 7 64,
    asked-trace_add o.tracer 7 32,
    asked-trace_add o.tracer 7 256,
    asked_mode 7 text,
  )

  parse_option-position :
      (opt : ℕ) (optarg : Option (List ℕ))
      → parse_option fopen o opt optarg ≡ some (parsed q)
      → asked q.tracer position_flag
        ≡ (asked o.tracer position_flag || added position_flag opt optarg)
  unfolding parse_option with_argument
  parse_option-position opt none e = ground (
    arith,
    asked-trace_add o.tracer 8 64,
    asked-trace_add o.tracer 8 32,
    asked-trace_add o.tracer 8 256,
  )
  parse_option-position opt (some text) e = ground (
    arith,
    asked-trace_add o.tracer 8 64,
    asked-trace_add o.tracer 8 32,
    asked-trace_add o.tracer 8 256,
    asked_mode 8 text,
  )

  states_mode :
      (text : List ℕ) (mode : ℕ)
      → length o.tracer.states ≡ 32
      → let t = trace_add o.tracer (int_or_minus_one (arm_get_mode_number text)) in
        get_or t.states mode 0
        ≡ (if is_mode mode (arm_get_mode_number text) then 1 else get_or o.tracer.states mode 0)
  states_mode text mode h = elim (Option-cases (arm_get_mode_number text)) [
    | inl no_mode ↦ rw no_mode (ground (arith, trace_add-negative o.tracer (2 ^ 32 - 1)))
    | inr (n, e) ↦ rw e (states-trace_add_mode o.tracer n mode (arm_get_mode_number-lt text n e) h)
  ]

  parse_option-states :
      (opt : ℕ) (optarg : Option (List ℕ))
      → parse_option fopen o opt optarg ≡ some (parsed q)
      → length o.tracer.states ≡ 32
      → (mode : ℕ)
      → get_or q.tracer.states mode 0
        ≡ (if is_mode mode (names_mode opt optarg) then 1 else get_or o.tracer.states mode 0)
  unfolding parse_option with_argument
  parse_option-states opt none e h mode = ground (
    arith,
    states-trace_add o.tracer 64,
    states-trace_add o.tracer 32,
    states-trace_add o.tracer 256,
  )
  parse_option-states opt (some text) e h mode = ground (
    arith,
    states-trace_add o.tracer 64,
    states-trace_add o.tracer 32,
    states-trace_add o.tracer 256,
    states_mode text mode h,
  )

  parse_option-length :
      (opt : ℕ) (optarg : Option (List ℕ))
      → parse_option fopen o opt optarg ≡ some (parsed q)
      → length q.tracer.states ≡ length o.tracer.states
  unfolding parse_option with_argument
  parse_option-length opt none e =
      ground
        (arith, length-states o.tracer 64, length-states o.tracer 32, length-states o.tracer 256)
  parse_option-length opt (some text) e = ground (
    arith,
    length-states o.tracer 64,
    length-states o.tracer 32,
    length-states o.tracer 256,
    length-states o.tracer (int_or_minus_one (arm_get_mode_number text)),
  )

  pub parse_option-Chosen :
      (opt : ℕ) (optarg : Option (List ℕ))
      → length o.tracer.states ≡ 32
      → parse_option fopen o opt optarg ≡ some (parsed q)
      → Chosen o ((opt, optarg) ∷ []) q
  parse_option-Chosen opt optarg h e = record {
    gdb = parse_option-gdb opt optarg e;
    irq = parse_option-irq opt optarg e;
    memory = ground (arith, parse_option-memory opt optarg e);
    registers = ground (arith, parse_option-registers opt optarg e);
    position = ground (arith, parse_option-position opt optarg e);
    state = ground (arith, parse_option-state opt optarg e);
    modes = λ mode. ground (arith, parse_option-states opt optarg e h mode);
    same_length = parse_option-length opt optarg e;
  }
