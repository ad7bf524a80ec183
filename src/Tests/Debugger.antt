-- ===== src/Tests/Debugger.antt =====
-- The theorems on breakpoints, at concrete inputs.
use arm_simulator.Base.{
  ℕ, zero, suc, ◌<◌, ◌≡◌, ◌⊎◌, refl, arith, replicate, ◌∷◌, get_or, some, none,
}
use arm_simulator.Gdb.{Breakpoints, gdb_find_breakpoint, gdb_add_breakpoint, gdb_remove_breakpoint}
use arm_simulator.Gdb.Search.{GoesUp, IsSorted, IsBreakpoint, gdb_find_breakpoint_lem}
use arm_simulator.Gdb.Insertion.{Added, gdb_add_breakpoint_lem}
use arm_simulator.Gdb.Removal.{Removed, gdb_remove_breakpoint_lem}

-- Breakpoints at 4 and 8.
abbrev pub two_breakpoints : Breakpoints
two_breakpoints = record { breakpoints = 4 ∷ 8 ∷ replicate 1022 0; breakpoints_number = 2 }

two-GoesUp : GoesUp two_breakpoints.breakpoints 2
two-GoesUp zero (suc zero) l h = omega arith
two-GoesUp zero zero l h = absurd (omega arith)
two-GoesUp (suc i) zero l h = absurd (omega arith)
two-GoesUp i (suc (suc j)) l h = absurd (omega arith)
two-GoesUp (suc i) (suc zero) l h = absurd (omega arith)

pub two-IsSorted : IsSorted two_breakpoints
two-IsSorted = record { room = refl; in_use = omega arith; goes_up = two-GoesUp }

gdb_find_breakpoint_example :
    ((m : ℕ) × (gdb_find_breakpoint two_breakpoints 8 ≡ some m)
      × (m < 2)
      × (get_or two_breakpoints.breakpoints m 0 ≡ 8))
    ⊎ ((gdb_find_breakpoint two_breakpoints 8 ≡ none) × ¬ (IsBreakpoint two_breakpoints 8))
gdb_find_breakpoint_example = gdb_find_breakpoint_lem two_breakpoints 8 two-IsSorted

gdb_add_breakpoint_example :
    let (answer, gdb') = gdb_add_breakpoint two_breakpoints 6 in Added two_breakpoints 6 answer gdb'
gdb_add_breakpoint_example = gdb_add_breakpoint_lem two_breakpoints 6 two-IsSorted

gdb_remove_breakpoint_example :
    let (answer, gdb') = gdb_remove_breakpoint two_breakpoints 4 in
    Removed two_breakpoints 4 answer gdb'
gdb_remove_breakpoint_example = gdb_remove_breakpoint_lem two_breakpoints 4 two-IsSorted
