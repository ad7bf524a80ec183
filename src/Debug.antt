-- ===== src/Debug.antt =====
-- debug.c: the sorted array of the files whose messages are printed. A name is its bytes, without
-- NUL.
pub mod Order
pub mod Search
pub mod Moves
pub mod Insertion
use arm_simulator.Base.{
  ℕ, zero, suc, ◌+◌, ◌-◌, ◌/◌, ltb, leb, ◌==◌, if◌then◌else◌, ◌&&◌, Bool, true, false, Option, none,
  some, List, [], ◌∷◌, get_or, set,
}

-- The sign of `strcmp`.
pub data Sign : Type 0 where
  before same after : Sign

unfoldable pub strcmp : List ℕ → List ℕ → Sign
strcmp [] [] = same
strcmp [] (b ∷ t) = before
strcmp (a ∷ s) [] = after
strcmp (a ∷ s) (b ∷ t) =
    let rest = strcmp s t in if ltb a b then before else if ltb b a then after else rest

abbrev pub max_files_number : ℕ
max_files_number = 64

-- `debugged_files` and `nb_debugged_files`.
pub record Debugged : Type 0 where
  pub files : List (List ℕ)
  pub nb : ℕ

abbrev pub is_before : Sign → Bool
is_before before = true
is_before same = false
is_before after = false

abbrev pub is_same : Sign → Bool
is_same before = false
is_same same = true
is_same after = false

-- The first loop of `add_debug_to`, with the rounds left up to 64.
unfoldable pub place_from : ℕ → Debugged → List ℕ → ℕ → ℕ
place_from zero d name i = i
place_from (suc left) d name i =
    let further = place_from left d name (i + 1) in
    if ltb i d.nb && is_before (strcmp (get_or d.files i []) name) then further else i

-- The second loop, at `j = i + left`.
unfoldable pub move_up : ℕ → ℕ → List (List ℕ) → List (List ℕ)
move_up zero i files = files
move_up (suc left) i files = move_up left i (set files (i + left + 1) (get_or files (i + left) []))

-- `none` is a write past the end of the array, which C leaves open: the array is full, and the
-- place is not at its end.
unfoldable pub add_debug_to : Debugged → List ℕ → Option Debugged
add_debug_to d name =
    let i = place_from max_files_number d name 0 in
    if leb max_files_number i
    then some d
    else if leb max_files_number d.nb
    then none
    else some (record { files = set (move_up (d.nb - i) i d.files) i name; nb = d.nb + 1 })

-- The loop of `__is_debugged`, with its rounds as fuel, and the test after it; `end` is `to + 1`,
-- since `to` may be -1.
unfoldable pub is_between : ℕ → List (List ℕ) → List ℕ → ℕ → ℕ → Bool
is_between zero files name from end = false
is_between (suc fuel) files name from end =
    let middle = (from + (end - 1)) / 2 in
    let upper = is_between fuel files name (middle + 1) end in
    let lower = is_between fuel files name from middle in
    if ltb (from + 1) end
    then elim (strcmp (get_or files middle []) name) [
      | before ↦ upper
      | after ↦ lower
      | same ↦ true
    ]
    else from + 1 == end && is_same (strcmp (get_or files from []) name)

-- `__is_debugged`; as many rounds as files, and one more, are enough.
unfoldable pub is_debugged : Debugged → List ℕ → Bool
is_debugged d name = is_between (d.nb + 1) d.files name 0 d.nb
