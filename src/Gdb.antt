-- ===== src/Gdb.antt =====
-- gdb_protocol.c: the breakpoints, a sorted array with the number of its elements in use.
pub mod Text
pub mod Session
pub mod Commands
pub mod Packets
pub mod Scanner
pub mod Valid
pub mod Search
pub mod Insertion
pub mod Removal
use arm_simulator.Base.{
  ℕ, zero, suc, ◌+◌, ◌-◌, ◌*◌, ◌/◌, ltb, ◌==◌, if◌then◌else◌, get_or, set, List, Option, none, some,
}

abbrev pub max_breakpoints_number : ℕ
max_breakpoints_number = 1024

-- The two fields of `struct gdb_protocol_data`.
pub record Breakpoints : Type 0 where
  pub breakpoints : List ℕ
  pub breakpoints_number : ℕ

-- The loop of `gdb_find_breakpoint`, with its rounds as fuel; `none` is -1.
unfoldable pub search_between : ℕ → List ℕ → ℕ → ℕ → ℕ → Option ℕ
search_between zero table address begin end = none
search_between (suc fuel) table address begin end =
    let middle = (begin + end) / 2 in
    let lower = search_between fuel table address begin middle in
    let upper = search_between fuel table address (middle + 1) end in
    if ltb begin end
    then if ltb address (get_or table middle 0)
      then lower
      else if ltb (get_or table middle 0) address
      then upper
      else some middle
    else none

-- As many rounds as elements are enough.
unfoldable pub gdb_find_breakpoint : Breakpoints → ℕ → Option ℕ
gdb_find_breakpoint gdb address =
    search_between (gdb.breakpoints_number + 1) gdb.breakpoints address 0 gdb.breakpoints_number

-- The loop of `gdb_add_breakpoint` at `j`, and the write after it.
unfoldable pub insert_from : List ℕ → ℕ → ℕ → List ℕ
insert_from table address zero = set table 0 address
insert_from table address (suc j) =
    let moved = insert_from (set table (suc j) (get_or table j 0)) address j in
    if ltb address (get_or table j 0) then moved else set table (suc j) address

-- 1 and the array with the address, or 0 where the array is full.
unfoldable pub gdb_add_breakpoint : Breakpoints → ℕ → ℕ × Breakpoints
gdb_add_breakpoint gdb address =
    let n = gdb.breakpoints_number in
    if ltb n max_breakpoints_number
    then elim (gdb_find_breakpoint gdb address) [
      | some middle ↦ (1, gdb)
      | none ↦ (
        1,
        record { breakpoints = insert_from gdb.breakpoints address n; breakpoints_number = n + 1 },
      )
    ]
    else (0, gdb)

-- The loop of `gdb_remove_breakpoint`, with the rounds left.
unfoldable pub move_down : ℕ → ℕ → List ℕ → List ℕ
move_down zero j table = table
move_down (suc left) j table = move_down left (j + 1) (set table j (get_or table (j + 1) 0))

-- 1 and the array without the address, or 0 where it was not there.
unfoldable pub gdb_remove_breakpoint : Breakpoints → ℕ → ℕ × Breakpoints
gdb_remove_breakpoint gdb address = elim (gdb_find_breakpoint gdb address) [
  | none ↦ (0, gdb)
  | some position ↦
      let last = gdb.breakpoints_number - 1 in
      (
        1,
        record {
          breakpoints = move_down (last - position) position gdb.breakpoints;
          breakpoints_number = last;
        },
      )
]
