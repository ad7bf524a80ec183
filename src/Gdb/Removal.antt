-- ===== src/Gdb/Removal.antt =====
-- gdb_remove_breakpoint of gdb_protocol.c.
use arm_simulator.Base.{
  ℕ, zero, suc, ◌+◌, ◌-◌, ◌≤◌, ◌<◌, ◌≡◌, ◌≢◌, inl, inr, refl, arith, ltb, ◌==◌, if◌then◌else◌,
  get_or, set, length, List, Bool-cases, ltb→lt, true, false, ◌↔◌, ◌∙◌, get_or-set_self,
  get_or-set_ne, length-set, ==_iff, ap, sym,
}
use arm_simulator.Gdb.{Breakpoints, move_down, gdb_remove_breakpoint}
use arm_simulator.Gdb.Search.{IsSorted, IsBreakpoint, gdb_find_breakpoint_lem}

move_down-length : (left j : ℕ) (table : List ℕ) → length (move_down left j table) ≡ length table
unfolding move_down
move_down-length zero j table = refl
move_down-length (suc left) j table =
    move_down-length left (j + 1) (set table j (get_or table (j + 1) 0)) ∙ length-set table j _

-- Elements before `j` stay, and each of the `left` from there takes the value of the next.
move_down-before :
    (left j : ℕ) (table : List ℕ) (i : ℕ)
    → i < j
    → get_or (move_down left j table) i 0 ≡ get_or table i 0
unfolding move_down
move_down-before zero j table i l = refl
move_down-before (suc left) j table i l =
    move_down-before left (j + 1) (set table j (get_or table (j + 1) 0)) i (omega arith)
    ∙ get_or-set_ne table j i _ 0 (omega arith)

move_down-moved :
    (left j : ℕ) (table : List ℕ) (i : ℕ)
    → j ≤ i
    → i < j + left
    → j + left < length table
    → get_or (move_down left j table) i 0 ≡ get_or table (i + 1) 0
unfolding move_down
move_down-moved zero j table i l u h = absurd (omega arith)
move_down-moved (suc left) j table i l u h =
    let next = get_or table (j + 1) 0 in
    elim (Bool-cases (i == j)) [
      | inl e ↦
          let at : i ≡ j = (==_iff i j).0 e in
          rw at (
            move_down-before left (j + 1) (set table j next) j (omega arith)
            ∙ get_or-set_self table j next 0 (omega arith))
      | inr e ↦
          move_down-moved left (j + 1) (set table j next) i (ground arith) (omega arith)
            (rw (length-set table j next) (omega arith))
          ∙ get_or-set_ne table j (i + 1) next 0 (omega arith)
    ]

-- What `gdb_remove_breakpoint` promises, at what it returned.
pub data Removed (gdb : Breakpoints) (address : ℕ) (answer : ℕ) (gdb' : Breakpoints) : Type 0 where
  not_there :
      ¬ (IsBreakpoint gdb address) → answer ≡ 0 → gdb' ≡ gdb → Removed gdb address answer gdb'
  taken_out :
      answer ≡ 1
      → IsSorted gdb'
      → ((a : ℕ) → IsBreakpoint gdb' a ↔ (IsBreakpoint gdb a × (a ≢ address)))
      → Removed gdb address answer gdb'

module _ (gdb : Breakpoints) (s : IsSorted gdb) (m : ℕ) (h : m < gdb.breakpoints_number) where
  abbrev last : ℕ
  last = gdb.breakpoints_number - 1

  abbrev without : Breakpoints
  without = record {
    breakpoints = move_down (last - m) m gdb.breakpoints;
    breakpoints_number = last;
  }

  -- Where the element at `i` stood.
  abbrev origin : ℕ → ℕ
  origin i = if ltb i m then i else i + 1

  at_origin :
      (i : ℕ) → i < last → get_or without.breakpoints i 0 ≡ get_or gdb.breakpoints (origin i) 0
  at_origin i l = elim (Bool-cases (ltb i m)) [
    | inl b ↦ rw b (move_down-before (last - m) m gdb.breakpoints i (ltb→lt i m b))
    | inr b ↦ rw b (
        move_down-moved (last - m) m gdb.breakpoints i (ground arith) (ground arith)
          (omega (arith, s.room, s.in_use)))
  ]

  without-IsSorted : IsSorted without
  without-IsSorted = record {
    room = move_down-length (last - m) m gdb.breakpoints ∙ s.room;
    in_use = omega (arith, s.in_use);
    goes_up = λ i j l u. omega (
      arith,
      at_origin i (omega arith),
      at_origin j u,
      s.goes_up (origin i) (origin j) (ground arith) (ground arith),
    );
  }

  -- No element stands twice.
  apart :
      (i j : ℕ)
      → i < gdb.breakpoints_number
      → j < gdb.breakpoints_number
      → get_or gdb.breakpoints i 0 ≡ get_or gdb.breakpoints j 0
      → i ≡ j
  apart i j hi hj e = elim (Bool-cases (ltb i j)) [
    | inl b ↦ absurd (omega (arith, s.goes_up i j (ltb→lt i j b) hj))
    | inr b ↦ elim (Bool-cases (ltb j i)) [
      | inl c ↦ absurd (omega (arith, s.goes_up j i (ltb→lt j i c) hi))
      | inr c ↦ ground arith
    ]
  ]

  without-elements :
      (address : ℕ)
      → get_or gdb.breakpoints m 0 ≡ address
      → (a : ℕ) → IsBreakpoint without a ↔ (IsBreakpoint gdb a × (a ≢ address))
  without-elements address at a = (forth, back)
    where
      forth : IsBreakpoint without a → IsBreakpoint gdb a × (a ≢ address)
      forth (i, l, e) =
          let o = at_origin i l in
          ((origin i, ground arith, sym o ∙ e), λ f. absurd (ground (arith, apart (origin i) m)))

      back : IsBreakpoint gdb a × (a ≢ address) → IsBreakpoint without a
      back ((i, l, e), n) = elim (Bool-cases (ltb i m)) [
        | inl b ↦ (i, ground arith, at_origin i (ground arith) ∙ ap element (below_gap b) ∙ e)
        | inr b ↦ elim (Bool-cases (i == m)) [
          | inl c ↦ absurd (n (sym e ∙ ap element ((==_iff i m).0 c) ∙ at))
          | inr c ↦ (
            i - 1,
            ground arith,
            at_origin (i - 1) (ground arith) ∙ ap element (above_gap b c) ∙ e,
          )
        ]
      ]
        where
          element : ℕ → ℕ
          element k = get_or gdb.breakpoints k 0

          below_gap : ltb i m ≡ true → origin i ≡ i
          below_gap b = ground arith

          above_gap : ltb i m ≡ false → (i == m) ≡ false → origin (i - 1) ≡ i
          above_gap b c = ground arith

-- Removing a breakpoint from a sorted array: where the address is not set the answer is 0 and
-- nothing changes; otherwise the answer is 1, the array is sorted again, and the breakpoints are
-- the others.
pub gdb_remove_breakpoint_lem :
    (gdb : Breakpoints) (address : ℕ)
    → IsSorted gdb
    → let (answer, gdb') = gdb_remove_breakpoint gdb address in Removed gdb address answer gdb'
unfolding gdb_remove_breakpoint
gdb_remove_breakpoint_lem gdb address s = elim (gdb_find_breakpoint_lem gdb address s) [
  | inl (m, e, h, at) ↦
      rw (e, gdb_remove_breakpoint)
        (taken_out refl (without-IsSorted gdb s m h) (without-elements gdb s m h address at))
  | inr (e, n) ↦ rw (e, gdb_remove_breakpoint) (not_there n refl refl)
]
