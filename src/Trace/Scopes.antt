-- ===== src/Trace/Scopes.antt =====
-- trace.c and trace_location.h: the location that a line shows is that of the innermost call.
use arm_simulator.Base.{
  ℕ, suc, ◌+◌, ◌≤◌, ◌<◌, ◌≡◌, arith, refl, sym, add32, Option, some, List, [], ◌++◌, set,
  get_or-set_self, get_or-set_ne, length-set, ap, ap₂, ◌∙◌,
}
use mathlib.Core.List.{append-nil, append_assoc}
use arm_simulator.Trace.{
  Tracer, Conversions, trace_start_location, trace_end_location, asked, memory_flag, registers_flag,
  position_flag,
}
use arm_simulator.Trace.Locations.{
  Work, done, access, located, call_first, end_first, depth, trace_access, run,
}
use arm_simulator.Trace.Printing.{
  work_text, scope, scope-eq, Standing, Same, access-output, access-Same, access-Standing,
}

-- LOCATION pushes a location, and END_LOCATION, after some work, takes it off.
abbrev pushed : ℕ → List ℕ → ℕ → Tracer → Tracer
pushed k file line t = record t {
  location_stack_top = k;
  location_file_stack = set t.location_file_stack k file;
  location_line_stack = set t.location_line_stack k line;
}

module _ (k : ℕ) (t : Tracer) (s : Standing k t) (room : k < 128) (file : List ℕ) (line : ℕ) where
  abbrev entered : Tracer
  entered = pushed k file line t

  start-pushed : trace_start_location t file line ≡ some entered
  unfolding trace_start_location
  start-pushed =
      let e : add32 t.location_stack_top 1 ≡ k = omega (arith, s.top) in
      rw e (ground (arith, s.is_enabled))

  pushed-Standing : Standing (suc k) entered
  pushed-Standing = record {
    is_enabled = s.is_enabled;
    top = omega arith;
    bounded = omega arith;
    files = length-set t.location_file_stack k file ∙ s.files;
    lines = length-set t.location_line_stack k line ∙ s.lines;
  }

  pushed-scope : scope entered (suc k) ≡ some (file, line)
  pushed-scope =
      rw
        (
          get_or-set_self t.location_file_stack k file [] (omega (arith, s.files)),
          get_or-set_self t.location_line_stack k line 0 (omega (arith, s.lines)),
        )
        refl

  end-Standing : (v : Tracer) → Standing (suc k) v → Standing k (trace_end_location v)
  unfolding trace_end_location
  end-Standing v w = ground (arith, w.top, w.is_enabled)

  end-Same : (v : Tracer) → Same (suc k) entered v → Same k t (trace_end_location v)
  unfolding trace_end_location
  end-Same v w = record {
    flags = ground (arith, w.flags);
    files = λ i le. ground (arith, w.files i, get_or-set_ne t.location_file_stack k i file []);
    lines = λ i le. ground (arith, w.lines i, get_or-set_ne t.location_line_stack k i line 0);
  }

end-output : (v : Tracer) → (trace_end_location v).output ≡ v.output
unfolding trace_end_location
end-output v = ground arith

run-located :
    (c : Conversions) (file : List ℕ) (line : ℕ) (inner rest : Work) (t : Tracer) {u v q : Tracer}
    → trace_start_location t file line ≡ some u
    → run c inner u ≡ some v
    → run c rest (trace_end_location v) ≡ some q
    → run c (located call_first file line inner rest) t ≡ some q
unfolding run
run-located c file line inner rest t e f g = rw (e, run) (rw f g)

run-located_end :
    (c : Conversions) (file : List ℕ) (line : ℕ) (inner rest : Work) (t : Tracer) {u v q : Tracer}
    → trace_start_location t file line ≡ some u
    → run c inner (trace_end_location u) ≡ some v
    → run c rest v ≡ some q
    → run c (located end_first file line inner rest) t ≡ some q
unfolding run
run-located_end c file line inner rest t e f g = rw (e, run) (rw f g)

-- Two pieces of output after another.
glued :
    (start a b : List ℕ) {first second b' : List ℕ}
    → first ≡ start ++ a
    → second ≡ first ++ b'
    → b' ≡ b
    → second ≡ start ++ (a ++ b)
glued start a b e f g = f ∙ ap₂ (λ (x y : List ℕ). x ++ y) e g ∙ append_assoc start a b

Same-refl : (k : ℕ) (t : Tracer) → Same k t t
Same-refl k t = record { flags = refl; files = λ i le. refl; lines = λ i le. refl }

Same-trans : (k : ℕ) (t u v : Tracer) → Same k t u → Same k u v → Same k t v
Same-trans k t u v a b = record {
  flags = b.flags ∙ a.flags;
  files = λ i le. b.files i le ∙ a.files i le;
  lines = λ i le. b.lines i le ∙ a.lines i le;
}

module _ (c : Conversions) where
  -- What a tracer asks for decides what work prints.
  abbrev pub text_of : Tracer → Option (List ℕ × ℕ) → Work → List ℕ
  text_of t here w =
      work_text c (asked t memory_flag) (asked t registers_flag) (asked t position_flag) here w

  text-Same :
      (k : ℕ) (t q : Tracer) (w : Work)
      → Same k t q
      → text_of q (scope q k) w ≡ text_of t (scope t k) w
  text-Same k t q w s =
      rw (s.flags) (ap (λ (h : Option (List ℕ × ℕ)). text_of t h w) (scope-eq k t q s))

  -- Traced work, with calls nested in one another, whose locations fit into the 128 places of the
  -- stack above the `k` that are on it, runs to its end; what it prints is the line of each access
  -- that is traced, with the location of the innermost call around it whose END_LOCATION comes after
  -- the call, or of the top of the stack where there is none in the work (the END_LOCATION of a read
  -- may come first); it leaves the stack as it was.
  pub run-work_text :
      (w : Work) (k : ℕ) (t : Tracer)
      → Standing k t
      → k + depth w ≤ 128
      → (q : Tracer) × (run c w t ≡ some q)
        × (q.output ≡ t.output ++ text_of t (scope t k) w)
        × Standing k q
        × Same k t q
  unfolding run
  run-work_text done k t s fits = (t, refl, sym (append-nil t.output), s, Same-refl k t)
  run-work_text (access a rest) k t s fits =
      let u = trace_access c t a in
      let us = access-Same c k t a in
      let (q, runs, prints, stands, same) =
        run-work_text rest k u (access-Standing c k t a s) fits in
      (
        q,
        runs,
        glued t.output _ _ (access-output c k t a s) prints (text-Same k t u rest us),
        stands,
        Same-trans k t u q us same,
      )
  run-work_text (located call_first file line inner rest) k t s fits =
      let room : k < 128 = omega (arith, fits) in
      let u = pushed k file line t in
      let (v, enters, prints, stands, same) =
        run-work_text inner (suc k) u (pushed-Standing k t s room file line)
          (omega (arith, fits)) in
      let e = trace_end_location v in
      let es = end-Same k t s room file line v same in
      let (q, runs, more, stands', same') =
        run-work_text rest k e (end-Standing k t s room file line v stands) (omega (arith, fits)) in
      let inside =
        prints
        ∙ ap (λ (h : Option (List ℕ × ℕ)). t.output ++ text_of t h inner)
            (pushed-scope k t s room file line) in
      (
        q,
        run-located c file line inner rest t (start-pushed k t s room file line) enters runs,
        glued t.output _ _ (end-output v ∙ inside) more (text-Same k t e rest es),
        stands',
        Same-trans k t e q es same',
      )
  run-work_text (located end_first file line inner rest) k t s fits =
      let room : k < 128 = omega (arith, fits) in
      let u = pushed k file line t in
      let us = pushed-Standing k t s room file line in
      let e = trace_end_location u in
      let es = end-Same k t s room file line u (Same-refl (suc k) u) in
      let (v, enters, prints, stands, same) =
        run-work_text inner k e (end-Standing k t s room file line u us) (omega (arith, fits)) in
      let vs = Same-trans k t e v es same in
      let (q, runs, more, stands', same') = run-work_text rest k v stands (omega (arith, fits)) in
      (
        q,
        run-located_end c file line inner rest t (start-pushed k t s room file line) enters runs,
        glued t.output _ _
            (prints ∙ ap₂ (λ (x y : List ℕ). x ++ y) (end-output u) (text-Same k t e inner es)) more
            (text-Same k t v rest vs),
        stands',
        Same-trans k t v q vs same',
      )
