-- ===== src/Trace/Printing.antt =====
-- trace.c: what an access prints, at the location on top of the stack.
use arm_simulator.Base.{
  ℕ, zero, suc, ◌+◌, ◌-◌, ◌%◌, ◌^◌, ◌≤◌, ◌<◌, ◌≡◌, arith, refl, sym, if◌then◌else◌, ◌&&◌, Bool,
  Option, none, some, List, [], ◌++◌, length, get_or, true, false, ap, ◌∙◌,
}
use mathlib.Core.List.{append-nil, append_assoc}
use arm_simulator.Gdb.Text.{codes}
use arm_simulator.Trace.{
  Tracer, Conversions, trace_memory, trace_register, trace_print_location, memory_line,
  register_line, asked, memory_flag, registers_flag, position_flag,
}
use arm_simulator.Trace.Locations.{
  Access, of_memory, of_register, Work, done, access, located, call_first, end_first, trace_access,
}

-- The innermost location, and the text before a line.
module _ (c : Conversions) (memory registers position : Bool) where
  abbrev pub shown : Option (List ℕ × ℕ) → List ℕ
  shown none = []
  shown (some (file, line)) =
      if position then file ++ codes ", " ++ c.decimal line ++ codes ": " else []

  abbrev pub access_text : Option (List ℕ × ℕ) → Access → List ℕ
  access_text here (of_memory cycle kind size cause address value) =
      if memory then shown here ++ memory_line c cycle kind size cause address value else []
  access_text here (of_register cycle kind reg mode value) =
      if registers then shown here ++ register_line c cycle kind reg mode value else []

  -- What some work prints where the calls around it have the location `here`.
  abbrev pub work_text : Option (List ℕ × ℕ) → Work → List ℕ
  work_text here done = []
  work_text here (access a rest) = access_text here a ++ work_text here rest
  work_text here (located call_first file line inner rest) =
      work_text (some (file, line)) inner ++ work_text here rest
  work_text here (located end_first file line inner rest) =
      work_text here inner ++ work_text here rest

-- The location at the top of a stack of `k` entries.
abbrev pub scope : Tracer → ℕ → Option (List ℕ × ℕ)
scope t zero = none
scope t (suc k) = some (get_or t.location_file_stack k [], get_or t.location_line_stack k 0)

-- A tracer that is enabled, with `k` locations on its stack.
pub record Standing (k : ℕ) (t : Tracer) : Type 0 where
  pub is_enabled : t.enabled ≡ true
  pub top : t.location_stack_top ≡ (k + 2 ^ 32 - 1) % 2 ^ 32
  pub bounded : k ≤ 128
  pub files : length t.location_file_stack ≡ 128
  pub lines : length t.location_line_stack ≡ 128

-- The same requests, and the same locations below `k`.
pub record Same (k : ℕ) (t q : Tracer) : Type 0 where
  pub flags : q.trace_flags ≡ t.trace_flags
  pub files :
      (i : ℕ) → i < k → get_or q.location_file_stack i [] ≡ get_or t.location_file_stack i []
  pub lines : (i : ℕ) → i < k → get_or q.location_line_stack i 0 ≡ get_or t.location_line_stack i 0

pub scope-eq : (k : ℕ) (t q : Tracer) → Same k t q → scope q k ≡ scope t k
scope-eq zero t q s = refl
scope-eq (suc k) t q s = rw (s.files k (omega arith), s.lines k (omega arith))

printed :
    (t u : Tracer) (e m : Bool) (text : List ℕ)
    → e ≡ true
    → u.output ≡ t.output ++ text
    → (if e && m then u else t).output ≡ t.output ++ (if m then text else [])
printed t u true true text h o = o
printed t u true false text h o = sym (append-nil t.output)
printed t u false m text h o = cc

module _ (c : Conversions) where
  print_location-scope :
      (k : ℕ) (t : Tracer)
      → Standing k t
      → trace_print_location c t
        ≡ shown c (asked t memory_flag) (asked t registers_flag) (asked t position_flag) (scope t k)
  unfolding trace_print_location
  print_location-scope zero t s = ground (arith, s.top, s.is_enabled)
  print_location-scope (suc k) t s =
      let e : t.location_stack_top ≡ k = omega (arith, s.top, s.bounded) in
      rw (s.is_enabled, e) (ground (arith, s.bounded))

  -- An access prints its text at the top location, and keeps the stack.
  pub access-output :
      (k : ℕ) (t : Tracer) (a : Access)
      → Standing k t
      → (trace_access c t a).output
        ≡ t.output
          ++ access_text c
              (asked t memory_flag)
              (asked t registers_flag)
              (asked t position_flag)
              (scope t k)
              a
  unfolding trace_access trace_memory trace_register
  access-output k t (of_memory cycle kind size cause address value) s =
      printed t
        (record t {
          last_address = address;
          output =
              t.output
              ++ trace_print_location c t
              ++ memory_line c cycle kind size cause address value;
        })
        t.enabled (asked t memory_flag)
        (trace_print_location c t ++ memory_line c cycle kind size cause address value) s.is_enabled
        (append_assoc t.output (trace_print_location c t)
          (memory_line c cycle kind size cause address value))
      ∙ ap
          (λ (place : List ℕ).
            t.output
            ++ (if asked t memory_flag
                then place ++ memory_line c cycle kind size cause address value
                else []))
          (print_location-scope k t s)
  access-output k t (of_register cycle kind reg mode value) s =
      printed t
        (record t {
          output =
              t.output ++ trace_print_location c t ++ register_line c cycle kind reg mode value;
        })
        t.enabled (asked t registers_flag)
        (trace_print_location c t ++ register_line c cycle kind reg mode value) s.is_enabled
        (append_assoc t.output (trace_print_location c t)
          (register_line c cycle kind reg mode value))
      ∙ ap
          (λ (place : List ℕ).
            t.output
            ++ (if asked t registers_flag
                then place ++ register_line c cycle kind reg mode value
                else []))
          (print_location-scope k t s)

  pub access-Same : (k : ℕ) (t : Tracer) (a : Access) → Same k t (trace_access c t a)
  unfolding trace_access trace_memory trace_register
  access-Same k t (of_memory cycle kind size cause address value) = ground arith
  access-Same k t (of_register cycle kind reg mode value) = ground arith

  pub access-Standing :
      (k : ℕ) (t : Tracer) (a : Access) → Standing k t → Standing k (trace_access c t a)
  unfolding trace_access trace_memory trace_register
  access-Standing k t (of_memory cycle kind size cause address value) s = ground arith
  access-Standing k t (of_register cycle kind reg mode value) s = ground arith
