-- ===== src/Gdb/Insertion.antt =====
-- gdb_add_breakpoint of gdb_protocol.c.
use arm_simulator.Base.{
  ℕ, zero, suc, ◌+◌, ◌-◌, ◌≤◌, ◌<◌, ◌≡◌, ◌≢◌, ◌⊎◌, inl, inr, refl, arith, ltb, ◌==◌, get_or, set,
  length, List, Bool-cases, ltb→lt, ◌↔◌, ◌∙◌, get_or-set_self, get_or-set_ne, length-set, ==_iff,
  ap, sym,
}
use arm_simulator.Gdb.{Breakpoints, max_breakpoints_number, insert_from, gdb_add_breakpoint}
use arm_simulator.Gdb.Search.{GoesUp, IsSorted, IsBreakpoint, gdb_find_breakpoint_lem}

-- What the loop from `j` leaves: the address at `place`, the elements from there to `j` one place
-- up, and the others where they were.
record Inserted (table : List ℕ) (address j : ℕ) (table' : List ℕ) : Type 0 where
  place : ℕ
  place_le : place ≤ j
  before : (i : ℕ) → i < place → get_or table' i 0 ≡ get_or table i 0
  here : get_or table' place 0 ≡ address
  moved : (i : ℕ) → place < i → i ≤ j → get_or table' i 0 ≡ get_or table (i - 1) 0
  after : (i : ℕ) → j < i → get_or table' i 0 ≡ get_or table i 0
  lower : (i : ℕ) → i < place → i + 1 ≡ place → get_or table i 0 ≤ address
  higher : (i : ℕ) → place ≤ i → i < j → address < get_or table i 0
  same_length : length table' ≡ length table

at_once :
    (table : List ℕ) (address j : ℕ)
    → j < length table
    → ((i : ℕ) → i < j → i + 1 ≡ j → get_or table i 0 ≤ address)
    → Inserted table address j (set table j address)
at_once table address j h below = record {
  place = j;
  place_le = omega arith;
  before = λ i l. get_or-set_ne table j i address 0 (omega arith);
  here = get_or-set_self table j address 0 h;
  moved = λ i l u. absurd (omega arith);
  after = λ i l. get_or-set_ne table j i address 0 (omega arith);
  lower = below;
  higher = λ i l u. absurd (omega arith);
  same_length = length-set table j address;
}

-- One round more, from `suc j`.
one_more :
    (table : List ℕ) (address j : ℕ) (table' : List ℕ)
    → suc j < length table
    → address < get_or table j 0
    → Inserted (set table (suc j) (get_or table j 0)) address j table'
    → Inserted table address (suc j) table'
one_more table address j table' h less r =
    let x = get_or table j 0 in
    let kept : (i : ℕ) → i ≤ j → get_or (set table (suc j) x) i 0 ≡ get_or table i 0 =
      λ i l. get_or-set_ne table (suc j) i x 0 (omega arith) in
    record {
      place = r.place;
      place_le = omega (arith, r.place_le);
      before = λ i l. r.before i l ∙ kept i (omega (arith, r.place_le));
      here = r.here;
      moved = λ i l u. elim (Bool-cases (i == suc j)) [
        | inl e ↦
            let at_end : i ≡ suc j = (==_iff i (suc j)).0 e in
            let down : j ≡ suc j - 1 = omega arith in
            rw at_end (
              r.after (suc j) (omega arith)
              ∙ get_or-set_self table (suc j) x 0 h
              ∙ ap (λ (n : ℕ). get_or table n 0) down)
        | inr e ↦ r.moved i l (ground arith) ∙ kept (i - 1) (ground arith)
      ];
      after = λ i l. r.after i (omega arith) ∙ get_or-set_ne table (suc j) i x 0 (omega arith);
      lower = λ i l u. omega (arith, r.lower i l u, kept i (omega (arith, r.place_le)));
      higher = λ i l u. elim (Bool-cases (i == j)) [
        | inl e ↦ let ij : i ≡ j = (==_iff i j).0 e in rw ij less
        | inr e ↦ omega (arith, r.higher i l (ground arith), kept i (ground arith))
      ];
      same_length = r.same_length ∙ length-set table (suc j) x;
    }

insert_from-Inserted :
    (address j : ℕ) (table : List ℕ)
    → j < length table
    → Inserted table address j (insert_from table address j)
unfolding insert_from
insert_from-Inserted address zero table h = at_once table address 0 h λ i l u. absurd (omega arith)
insert_from-Inserted address (suc j) table h = elim (Bool-cases (ltb address (get_or table j 0))) [
  | inl less ↦
      rw (less, insert_from)
        (one_more table address j _ h (ltb→lt _ _ less) (
          insert_from-Inserted address j (set table (suc j) (get_or table j 0))
            (rw (length-set table (suc j) (get_or table j 0)) (omega arith))))
  | inr not_less ↦
      rw (not_less, insert_from)
        (at_once table address (suc j) h
          λ i l u. let same_place : i ≡ j = omega arith in rw same_place (ground arith))
]

module _ (table : List ℕ) (address n : ℕ) (table' : List ℕ)
    (r : Inserted table address n table') where
  -- The element that stands at `i` afterwards, with where it comes from.
  data From (i : ℕ) : Type 0 where
    old_below : i < r.place → get_or table' i 0 ≡ get_or table i 0 → From i
    the_new : i ≡ r.place → get_or table' i 0 ≡ address → From i
    old_above : r.place < i → get_or table' i 0 ≡ get_or table (i - 1) 0 → From i

  stands_at : (i : ℕ) → i < n + 1 → From i
  stands_at i l = elim (Bool-cases (ltb i r.place)) [
    | inl b ↦ old_below (ltb→lt i r.place b) (r.before i (ltb→lt i r.place b))
    | inr b ↦ elim (Bool-cases (i == r.place)) [
      | inl e ↦
          let at : i ≡ r.place = (==_iff i r.place).0 e in
          the_new at (ap (λ (k : ℕ). get_or table' k 0) at ∙ r.here)
      | inr e ↦ old_above (ground arith) (r.moved i (ground arith) (omega arith))
    ]
  ]

  module _ (up : GoesUp table n) (new : (i : ℕ) → i < n → get_or table i 0 ≢ address) where
    below_place : (i : ℕ) → i < r.place → get_or table i 0 < address
    below_place i l = elim (Bool-cases (i + 1 == r.place)) [
      | inl e ↦
          let last : i + 1 ≡ r.place = (==_iff (i + 1) r.place).0 e in
          omega (arith, r.lower i l last, new i (omega (arith, r.place_le)))
      | inr e ↦
          let k = r.place - 1 in
          omega (
            arith,
            up i k (ground arith) (omega (arith, r.place_le)),
            r.lower k (omega arith) (omega arith),
          )
    ]

    Inserted-GoesUp : GoesUp table' (n + 1)
    Inserted-GoesUp i j l h = pairs (stands_at i (omega arith)) (stands_at j h)
      where
        pairs : From i → From j → get_or table' i 0 < get_or table' j 0
        pairs (old_below a e) (old_below b f) =
            omega (arith, e, f, up i j l (omega (arith, r.place_le)))
        pairs (old_below a e) (the_new b f) = omega (arith, e, f, below_place i a)
        pairs (old_below a e) (old_above b f) =
            omega (arith, e, f, below_place i a, r.higher (j - 1) (omega arith) (omega arith))
        pairs (the_new a e) (old_below b f) = absurd (omega arith)
        pairs (the_new a e) (the_new b f) = absurd (omega arith)
        pairs (the_new a e) (old_above b f) =
            omega (arith, e, f, r.higher (j - 1) (omega arith) (omega arith))
        pairs (old_above a e) (old_below b f) = absurd (omega arith)
        pairs (old_above a e) (the_new b f) = absurd (omega arith)
        pairs (old_above a e) (old_above b f) =
            omega (arith, e, f, up (i - 1) (j - 1) (omega arith) (omega arith))

-- The elements in use, before and after.
module _ (gdb : Breakpoints) (address : ℕ) (table' : List ℕ)
    (r : Inserted gdb.breakpoints address gdb.breakpoints_number table')
    (new : (i : ℕ) → i < gdb.breakpoints_number → get_or gdb.breakpoints i 0 ≢ address) where
  abbrev with_new : Breakpoints
  with_new = record { breakpoints = table'; breakpoints_number = gdb.breakpoints_number + 1 }

  with_new-IsSorted :
      IsSorted gdb → gdb.breakpoints_number < max_breakpoints_number → IsSorted with_new
  with_new-IsSorted s less = record {
    room = r.same_length ∙ s.room;
    in_use = omega arith;
    goes_up = Inserted-GoesUp gdb.breakpoints address gdb.breakpoints_number table' r s.goes_up new;
  }

  with_new-elements : (a : ℕ) → IsBreakpoint with_new a ↔ (IsBreakpoint gdb a ⊎ (a ≡ address))
  with_new-elements a = (forth, back)
    where
      origin :
          (i : ℕ)
          → get_or table' i 0 ≡ a
          → i < gdb.breakpoints_number + 1
          → From gdb.breakpoints address gdb.breakpoints_number table' r i
          → IsBreakpoint gdb a ⊎ (a ≡ address)
      origin i at h (old_below l e) = inl (i, omega (arith, r.place_le), omega arith)
      origin i at h (the_new l e) = inr (omega arith)
      origin i at h (old_above l e) = inl (i - 1, omega arith, omega arith)

      forth : IsBreakpoint with_new a → IsBreakpoint gdb a ⊎ (a ≡ address)
      forth (i, h, at) =
          origin i at h (stands_at gdb.breakpoints address gdb.breakpoints_number table' r i h)

      back : IsBreakpoint gdb a ⊎ (a ≡ address) → IsBreakpoint with_new a
      back (inl (i, h, at)) = elim (Bool-cases (ltb i r.place)) [
        | inl b ↦ (i, omega arith, r.before i (ltb→lt i r.place b) ∙ at)
        | inr b ↦
            let same_place : i + 1 - 1 ≡ i = omega arith in
            (
              i + 1,
              omega arith,
              r.moved (i + 1) (ground arith) (omega arith)
                  ∙ ap (λ (k : ℕ). get_or gdb.breakpoints k 0) same_place
                  ∙ at,
            )
      ]
      back (inr e) = (r.place, omega (arith, r.place_le), r.here ∙ omega arith)

-- What `gdb_add_breakpoint` promises, at what it returned.
pub data Added (gdb : Breakpoints) (address : ℕ) (answer : ℕ) (gdb' : Breakpoints) : Type 0 where
  refused :
      gdb.breakpoints_number ≡ max_breakpoints_number
      → answer ≡ 0
      → gdb' ≡ gdb
      → Added gdb address answer gdb'
  set_there :
      answer ≡ 1
      → IsSorted gdb'
      → ((a : ℕ) → IsBreakpoint gdb' a ↔ (IsBreakpoint gdb a ⊎ (a ≡ address)))
      → Added gdb address answer gdb'

already_there :
    (gdb : Breakpoints) (address : ℕ)
    → IsBreakpoint gdb address
    → (a : ℕ) → IsBreakpoint gdb a ↔ (IsBreakpoint gdb a ⊎ (a ≡ address))
already_there gdb address (m, h, at) a = (λ b. inl b, back)
  where
    back : IsBreakpoint gdb a ⊎ (a ≡ address) → IsBreakpoint gdb a
    back (inl b) = b
    back (inr e) = (m, h, at ∙ sym e)

-- Adding a breakpoint to a sorted array: where the array is full the answer is 0 and nothing
-- changes; otherwise the answer is 1, the array is sorted again, and the breakpoints are those from
-- before with the address.
pub gdb_add_breakpoint_lem :
    (gdb : Breakpoints) (address : ℕ)
    → IsSorted gdb
    → let (answer, gdb') = gdb_add_breakpoint gdb address in Added gdb address answer gdb'
unfolding gdb_add_breakpoint
gdb_add_breakpoint_lem gdb address s =
    elim (Bool-cases (ltb gdb.breakpoints_number max_breakpoints_number)) [
      | inr full ↦
          let in_use = s.in_use in rw (full, gdb_add_breakpoint) (refused (ground arith) refl refl)
      | inl less ↦ elim (gdb_find_breakpoint_lem gdb address s) [
        | inl (m, e, h, at) ↦
            rw (less, gdb_add_breakpoint)
              (rw (e, gdb_add_breakpoint) (set_there refl s (already_there gdb address (m, h, at))))
        | inr (e, not_there) ↦
            let space = ltb→lt _ _ less in
            let r =
              insert_from-Inserted address gdb.breakpoints_number gdb.breakpoints
                (omega (arith, s.room)) in
            let new =
              λ (i : ℕ) (h : i < gdb.breakpoints_number)
                  (at : get_or gdb.breakpoints i 0 ≡ address).
                not_there (i, h, at) in
            rw (less, gdb_add_breakpoint)
              (rw (e, gdb_add_breakpoint)
                (set_there refl (with_new-IsSorted gdb address _ r new s space)
                  (with_new-elements gdb address _ r new)))
      ]
    ]
