-- ===== src/Tests/Options.antt =====
-- The theorems on options and traces at concrete inputs.
use arm_simulator.Base.{ℕ, refl, arith, ◌≡◌, Bool, Option, none, some, List, [], ◌∷◌, ◌++◌, true}
use arm_simulator.Gdb.Text.{hex_text, codes, atoi, is_space, text_equal}
use arm_simulator.Names.{arm_get_mode_number, mode_number_from, is_named, arm_get_mode_name}
use arm_simulator.Trace.{Tracer, Conversions, initial, trace_add}
use arm_simulator.Trace.Locations.{call_first, Work, done, access, located, of_memory, run}
use arm_simulator.Trace.Printing.{Standing, Same}
use arm_simulator.Trace.Scopes.{text_of, run-work_text}
use arm_simulator.Simulator.Options.{
  Options, defaults, parsed, with_argument, parse_option, parse_options,
}
use arm_simulator.Simulator.Settings.{Chosen}
use arm_simulator.Simulator.Chosen.{parse_options-Chosen}

abbrev opened : List ℕ → Bool
opened name = true

-- --gdb-port 7 --trace-memory --trace-state SVC
abbrev options : List (ℕ × Option (List ℕ))
options = (b'g', some (codes "7")) ∷ (b'm', none) ∷ (b's', some (codes "SVC")) ∷ []

abbrev after : Options
after = record defaults { gdb_port = 7; tracer = trace_add (trace_add initial 32) 19 }

read_options : parse_options opened options defaults ≡ some (parsed after)
unfolding parse_options parse_option with_argument atoi arm_get_mode_number mode_number_from
    is_named text_equal arm_get_mode_name is_space
read_options = refl

parse_options-Chosen_example : Chosen defaults options after
unfolding initial
parse_options-Chosen_example = parse_options-Chosen opened options defaults after refl read_options

-- %d and %X in hexadecimal digits.
abbrev conversions : Conversions
conversions = record {
  decimal = λ n. hex_text 8 n;
  hexadecimal = λ n. hex_text 8 n;
  three_wide = λ name. name;
}

abbrev tracing : Tracer
tracing = trace_add (trace_add initial 32) 256

-- A fetch between LOCATION and END_LOCATION.
abbrev fetch : Work
fetch =
    located call_first (codes "arm_instruction.c") 145
      (access (of_memory 1 1 4 1 0 0xE3A00005) done) done

tracing-Standing : Standing 0 tracing
unfolding trace_add initial
tracing-Standing = record {
  is_enabled = refl;
  top = refl;
  bounded = omega arith;
  files = refl;
  lines = refl;
}

run-work_text_example :
    (q : Tracer) × (run conversions fetch tracing ≡ some q)
    × (q.output ≡ tracing.output ++ text_of conversions tracing none fetch)
    × Standing 0 q
    × Same 0 tracing q
run-work_text_example = run-work_text conversions fetch 0 tracing tracing-Standing (omega arith)
