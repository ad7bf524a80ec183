-- ===== src/Gdb/Search.antt =====
-- gdb_find_breakpoint of gdb_protocol.c, and the invariant of the breakpoints.
use arm_simulator.Base.{
  ℕ, zero, suc, ◌+◌, ◌/◌, ◌≤◌, ◌<◌, ◌≡◌, ◌≢◌, ◌⊎◌, inl, inr, refl, arith, ltb, get_or, length, List,
  Option, none, some, Bool-cases, ltb→lt,
}
use arm_simulator.Gdb.{Breakpoints, max_breakpoints_number, search_between, gdb_find_breakpoint}

-- The first `n` elements go up.
abbrev pub GoesUp : List ℕ → ℕ → Type 0
GoesUp table n = (i j : ℕ) → i < j → j < n → get_or table i 0 < get_or table j 0

-- The invariant of the breakpoints.
pub record IsSorted (gdb : Breakpoints) : Type 0 where
  pub room : length gdb.breakpoints ≡ max_breakpoints_number
  pub in_use : gdb.breakpoints_number ≤ max_breakpoints_number
  pub goes_up : GoesUp gdb.breakpoints gdb.breakpoints_number

-- The address is among the elements in use.
abbrev pub IsBreakpoint : Breakpoints → ℕ → Type 0
IsBreakpoint gdb address =
    (i : ℕ) × (i < gdb.breakpoints_number) × (get_or gdb.breakpoints i 0 ≡ address)

-- What a search between two places tells.
data Answer (table : List ℕ) (address begin end : ℕ) (o : Option ℕ) : Type 0 where
  found :
      (m : ℕ)
      → o ≡ some m
      → begin ≤ m
      → m < end
      → get_or table m 0 ≡ address
      → Answer table address begin end o
  absent :
      o ≡ none
      → ((i : ℕ) → begin ≤ i → i < end → get_or table i 0 ≢ address)
      → Answer table address begin end o

-- An answer for a part, where the rest cannot hold the address.
widen :
    {table : List ℕ} {address begin end : ℕ} {o : Option ℕ} (begin' end' : ℕ)
    → begin' ≤ begin
    → end ≤ end'
    → ((i : ℕ) → begin' ≤ i → i < begin → get_or table i 0 ≢ address)
    → ((i : ℕ) → end ≤ i → i < end' → get_or table i 0 ≢ address)
    → Answer table address begin end o
    → Answer table address begin' end' o
widen begin' end' lo hi below above (found m e l h at) = found m e (omega arith) (omega arith) at
widen {begin = begin} {end = end} begin' end' lo hi below above (absent e none_in) =
    absent e λ i l h. elim (Bool-cases (ltb i begin)) [
      | inl before ↦ below i l (ltb→lt i begin before)
      | inr not_before ↦ elim (Bool-cases (ltb i end)) [
        | inl inside ↦ none_in i (ground arith) (ltb→lt i end inside)
        | inr after ↦ above i (ground arith) h
      ]
    ]

module _ (table : List ℕ) (address n : ℕ) (up : GoesUp table n) where
  -- At a place and after it the elements are at least that element.
  after_place : (m i : ℕ) → m ≤ i → i < n → get_or table m 0 ≤ get_or table i 0
  after_place m i le h = elim (Bool-cases (ltb m i)) [
    | inl l ↦ omega (arith, up m i (ltb→lt m i l) h)
    | inr l ↦ let same_place : m ≡ i = ground arith in rw same_place (omega arith)
  ]

  search-Answer :
      (fuel begin end : ℕ)
      → end ≤ begin + fuel
      → end ≤ n
      → Answer table address begin end (search_between fuel table address begin end)
  unfolding search_between
  search-Answer zero begin end enough h = absent refl λ i l u. absurd (omega arith)
  search-Answer (suc fuel) begin end enough h = elim (Bool-cases (ltb begin end)) [
    | inr empty ↦ rw (empty, search_between) (absent refl λ i l u. absurd (ground arith))
    | inl more ↦
        let middle = (begin + end) / 2 in
        let begin<end = ltb→lt begin end more in
        elim (Bool-cases (ltb address (get_or table middle 0))) [
          | inl less ↦
              rw (more, search_between)
                (rw less (
                  widen begin end (omega arith) (omega arith) (λ i l u. absurd (omega arith))
                    (λ i l u e.
                      omega (arith, after_place middle i l (omega arith), ltb→lt _ _ less))
                    (search-Answer fuel begin middle (omega arith) (omega arith))))
          | inr not_less ↦ elim (Bool-cases (ltb (get_or table middle 0) address)) [
            | inl greater ↦
                rw (more, search_between)
                  (rw (not_less, greater)
                    (widen begin end (omega arith) (omega arith)
                      (λ i l u e. omega (
                        arith,
                        after_place i middle (omega arith) (omega arith),
                        ltb→lt _ _ greater,
                      ))
                      (λ i l u. absurd (omega arith))
                      (search-Answer fuel (middle + 1) end (omega arith) h)))
            | inr not_greater ↦
                rw (more, search_between)
                  (rw (not_less, not_greater)
                    (found middle refl (omega arith) (omega arith) (ground arith)))
          ]
        ]
  ]

-- The search of a sorted array ends with a place that holds the address, or with -1 where no
-- element in use is the address.
pub gdb_find_breakpoint_lem :
    (gdb : Breakpoints) (address : ℕ)
    → IsSorted gdb
    → ((m : ℕ) × (gdb_find_breakpoint gdb address ≡ some m)
        × (m < gdb.breakpoints_number)
        × (get_or gdb.breakpoints m 0 ≡ address))
      ⊎ ((gdb_find_breakpoint gdb address ≡ none) × ¬ (IsBreakpoint gdb address))
unfolding gdb_find_breakpoint
gdb_find_breakpoint_lem gdb address s =
    elim (search-Answer gdb.breakpoints address gdb.breakpoints_number s.goes_up
      (gdb.breakpoints_number + 1) 0 gdb.breakpoints_number (omega arith) (omega arith)) [
        | found m e l h at ↦ inl (m, e, h, at)
        | absent e none_in ↦ inr (e, λ (i, h, at). none_in i (omega arith) h at)
      ]
