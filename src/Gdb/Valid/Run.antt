-- ===== src/Gdb/Valid/Run.antt =====
-- single_step, step and cont of gdb_protocol.c on a valid session.
use arm_simulator.Base.{
  ==_ne, ◌⊎◌, ◌≢◌, ◌==◌, ℕ, zero, suc, ◌≡◌, refl, arith, add32, true, false, some, Bool-cases, inl,
  inr, ◌∙◌, ap, sym, ◌<◌,
}
use mathlib.Core.Path.{subst}
use arm_simulator.Registers.{registers_read, registers_get_mode}
use arm_simulator.Core.{Arm, Target}
use arm_simulator.Instruction.{arm_step}
use arm_simulator.Gdb.Search.{IsSorted, IsBreakpoint, gdb_find_breakpoint_lem}
use arm_simulator.Instruction.Valid.{arm_step-Returns}
use arm_simulator.Gdb.Session.{
  Session, returned, gdb_send_stop_reason, stopped, single_step, step, cont,
}
use arm_simulator.Gdb.Valid.{IsSession, session, Keeps, kept, no_fuel, send_data-IsSession}

module _ (t : Target) {size : ℕ} where
  -- A step returns a valid session.
  pub single_step-IsSession :
      (s : Session)
      → IsSession size s
      → (q : Session) × (single_step t s ≡ some q) × IsSession size q
  unfolding single_step
  single_step-IsSession s (session cycle p b) =
      let ((result, arm), e, w) = arm_step-Returns t p in
      (
        record s { arm = arm; target_exception = result },
        rw (e, single_step) refl,
        session (add32 cycle 1) w b,
      )

  pub stop_reason-IsSession :
      (s : Session) → IsSession size s → IsSession size (gdb_send_stop_reason s)
  unfolding gdb_send_stop_reason
  stop_reason-IsSession s v = send_data-IsSession s v _

  pub step-Keeps : (s : Session) → IsSession size s → Keeps size (step t s)
  unfolding step
  step-Keeps s v =
      let (q, e, w) = single_step-IsSession s v in
      rw (e, step) (kept (gdb_send_stop_reason q) (stop_reason-IsSession q w))

  pub cont-Keeps : (fuel : ℕ) (s : Session) → IsSession size s → Keeps size (cont t fuel s)
  unfolding cont
  cont-Keeps zero s v = no_fuel
  cont-Keeps (suc fuel) s v =
      let (q, e, w) = single_step-IsSession s v in
      rw (e, cont)
        (elim (Bool-cases (stopped q)) [
          | inl yes_stop ↦
              rw (yes_stop, cont) (kept (gdb_send_stop_reason q) (stop_reason-IsSession q w))
          | inr no_stop ↦ rw (no_stop, cont) (cont-Keeps fuel q w)
        ])

-- The PC is at one of the breakpoints in use, or the step before gave an exception.
abbrev pub Halts : Session → Type 0
Halts s =
    IsBreakpoint s.breaks (registers_read s.arm.reg 15 (registers_get_mode s.arm.reg))
    ⊎ (s.target_exception ≢ 0)

-- A step of the processor, with its result in the session.
abbrev pub Stepped : Target → Session → Session → Type 0
Stepped t s q =
    (result : ℕ) × (arm : Arm) × (arm_step t s.arm ≡ some (result, arm))
    × (q ≡ record s { arm = arm; target_exception = result })

-- From `s`, `n` steps to states that do not halt, and one to `q`, which does.
pub data StopsAt (t : Target) : ℕ → Session → Session → Type 0 where
  at_once : {s q : Session} → Stepped t s q → Halts q → StopsAt t zero s q
  goes_on :
      {n : ℕ} {s m q : Session}
      → Stepped t s m
      → ¬ (Halts m)
      → StopsAt t n m q
      → StopsAt t (suc n) s q

stopped-true : (s : Session) → IsSorted s.breaks → Halts s → stopped s ≡ true
unfolding stopped
stopped-true s v h =
    let pc = registers_read s.arm.reg 15 (registers_get_mode s.arm.reg) in
    elim (gdb_find_breakpoint_lem s.breaks pc v) [
      | inl (m, e, l, at) ↦ rw (e, stopped) refl
      | inr (e, absent) ↦
          rw (e, stopped)
            (elim h [
              | inl there ↦ absurd (absent there)
              | inr raised ↦ rw (==_ne s.target_exception 0 raised) refl
            ])
    ]

stopped-false : (s : Session) → IsSorted s.breaks → ¬ (Halts s) → stopped s ≡ false
unfolding stopped
stopped-false s v h =
    let pc = registers_read s.arm.reg 15 (registers_get_mode s.arm.reg) in
    elim (gdb_find_breakpoint_lem s.breaks pc v) [
      | inl (m, e, l, at) ↦ absurd (h (inl (m, l, at)))
      | inr (e, absent) ↦ elim (Bool-cases (s.target_exception == 0)) [
        | inl none_raised ↦ rw (e, stopped) (rw none_raised refl)
        | inr raised ↦ absurd (h (inr (λ z. (ground arith))))
      ]
    ]

single_step-Stepped : (t : Target) (s q : Session) → Stepped t s q → single_step t s ≡ some q
unfolding single_step
single_step-Stepped t s q (result, arm, e, same) = rw (e, single_step) (ap some (sym same))

Stepped-breaks :
    (t : Target) (s q : Session) → Stepped t s q → IsSorted s.breaks → IsSorted q.breaks
Stepped-breaks t s q (result, arm, e, same) v =
    subst (λ (x : Session). IsSorted x.breaks) (sym same) v

module _ (t : Target) where
  round_stops :
      (fuel : ℕ) (s q : Session)
      → single_step t s ≡ some q
      → stopped q ≡ true
      → cont t (suc fuel) s ≡ returned (gdb_send_stop_reason q)
  unfolding cont
  round_stops fuel s q e f = rw (e, cont) (rw (f, cont) refl)

  round_goes_on :
      (fuel : ℕ) (s q : Session)
      → single_step t s ≡ some q
      → stopped q ≡ false
      → cont t (suc fuel) s ≡ cont t fuel q
  unfolding cont
  round_goes_on fuel s q e f = rw (e, cont) (rw (f, cont) refl)

  -- With sorted breakpoints, where the processor comes to a breakpoint or to an exception after `n`
  -- more steps, `cont` with fuel for more than `n` rounds returns, at the first such state, with the
  -- reason sent.
  pub cont-StopsAt :
      (fuel n : ℕ) (s q : Session)
      → n < fuel
      → IsSorted s.breaks
      → StopsAt t n s q
      → cont t fuel s ≡ returned (gdb_send_stop_reason q)
  cont-StopsAt zero n s q l v run = absurd (omega arith)
  cont-StopsAt (suc fuel) zero s q l v (at_once e h) =
      round_stops fuel s q (single_step-Stepped t s q e)
        (stopped-true q (Stepped-breaks t s q e v) h)
  cont-StopsAt (suc fuel) (suc n) s q l v (goes_on {m = m} e h run) =
      let w = Stepped-breaks t s m e v in
      round_goes_on fuel s m (single_step-Stepped t s m e) (stopped-false m w h)
      ∙ cont-StopsAt fuel n m q (omega arith) w run
