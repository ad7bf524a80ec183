-- ===== src/Tests/Debugging.antt =====
-- The theorems on the array of files to debug, at concrete inputs.
use arm_simulator.Base.{
  ℕ, zero, suc, ◌<◌, ◌≡◌, ◌⊎◌, ◌↔◌, refl, arith, replicate, [], ◌∷◌, get_or, true, some,
}
use arm_simulator.Gdb.Text.{codes}
use arm_simulator.Debug.{Debugged, strcmp, is_debugged, add_debug_to}
use arm_simulator.Debug.Search.{IsSorted, is_debugged_lem}
use arm_simulator.Debug.Insertion.{IsArray, IsDebugged, add_debug_to_lem}

abbrev two_files : Debugged
two_files = record { files = codes "core" ∷ codes "gdb" ∷ replicate 62 []; nb = 2 }

two-IsSorted : IsSorted two_files
two-IsSorted zero (suc zero) l u e = absurd (unfold strcmp in cc)
two-IsSorted zero zero l u e = absurd (omega arith)
two-IsSorted (suc i) zero l u e = absurd (omega arith)
two-IsSorted i (suc (suc j)) l u e = absurd (omega arith)
two-IsSorted (suc i) (suc zero) l u e = absurd (omega arith)

is_debugged_lem_example :
    (is_debugged two_files (codes "gdb") ≡ true)
    ↔ ((i : ℕ) × (i < 2) × (get_or two_files.files i [] ≡ codes "gdb"))
is_debugged_lem_example = is_debugged_lem two_files (codes "gdb") two-IsSorted

add_debug_to_lem_example :
    (d' : Debugged) × (add_debug_to two_files (codes "debug") ≡ some d')
    × IsArray d'
    × (IsDebugged d' (codes "gdb")
        ↔ ((codes "gdb" ≡ codes "debug") ⊎ IsDebugged two_files (codes "gdb")))
add_debug_to_lem_example =
    add_debug_to_lem two_files (codes "debug") (codes "gdb")
      (record { room = refl; in_use = omega arith; sorted = two-IsSorted }) (omega arith)
