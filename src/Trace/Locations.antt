-- ===== src/Trace/Locations.antt =====
-- trace.c and trace_location.h: the stack of source locations.
use arm_simulator.Base.{ℕ, suc, Option, none, some, List, max}
use arm_simulator.Trace.{
  Tracer, Conversions, trace_start_location, trace_end_location, trace_memory, trace_register,
}

-- A traced access of the processor.
pub data Access : Type 0 where
  of_memory : (cycle kind size cause address value : ℕ) → Access
  of_register : (cycle kind reg mode value : ℕ) → Access

-- A write is `(LOCATION, call, END_LOCATION)`, with its commas in order. A read is
-- `(LOCATION, call + END_LOCATION)`, where C leaves open which operand of the sum comes first.
pub data Order : Type 0 where
  call_first end_first : Order

-- What runs between LOCATION and END_LOCATION: accesses, and calls with locations of their own.
pub data Work : Type 0 where
  done : Work
  access : Access → Work → Work
  located : Order → (file : List ℕ) (line : ℕ) → Work → Work → Work

abbrev pub depth : Work → ℕ
depth done = 0
depth (access a rest) = depth rest
depth (located order file line inner rest) = max (suc (depth inner)) (depth rest)

module _ (c : Conversions) where
  unfoldable pub trace_access : Tracer → Access → Tracer
  trace_access t (of_memory cycle kind size cause address value) =
      trace_memory c t cycle kind size cause address value
  trace_access t (of_register cycle kind reg mode value) =
      trace_register c t cycle kind reg mode value

  unfoldable pub run : Work → Tracer → Option Tracer
  run done t = some t
  run (access a rest) t = run rest (trace_access t a)
  run (located call_first file line inner rest) t = elim (trace_start_location t file line) [
    | none ↦ none
    | some u ↦ elim (run inner u) [ none ↦ none | some v ↦ run rest (trace_end_location v) ]
  ]
  run (located end_first file line inner rest) t = elim (trace_start_location t file line) [
    | none ↦ none
    | some u ↦ elim (run inner (trace_end_location u)) [ none ↦ none | some v ↦ run rest v ]
  ]
