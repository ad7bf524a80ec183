-- ===== src/Debug/Search.antt =====
-- __is_debugged of debug.c on a sorted array.
use arm_simulator.Base.{
  ℕ, zero, suc, ◌+◌, ◌-◌, ◌/◌, ◌≤◌, ◌<◌, ◌≡◌, ◌≢◌, ◌↔◌, inl, inr, refl, arith, ltb, ltb→lt, ◌==◌,
  ==_iff, ◌&&◌, true, false, Bool-cases, List, [], get_or, ap, sym, ◌∙◌,
}
use arm_simulator.Debug.{
  Sign, before, same, after, strcmp, Debugged, is_same, is_between, is_debugged,
}
use arm_simulator.Debug.Order.{strcmp_refl, strcmp-same, strcmp_flip, Sign-cases}

-- No file is after a later one.
abbrev pub IsSorted : Debugged → Type 0
IsSorted d =
    (i j : ℕ) → i < j → j < d.nb → strcmp (get_or d.files i []) (get_or d.files j []) ≢ after

-- The cases of a round.
module _ (fuel : ℕ) (files : List (List ℕ)) (name : List ℕ) (from end : ℕ) where
  abbrev middle : ℕ
  middle = (from + (end - 1)) / 2

  abbrev order : Sign
  order = strcmp (get_or files middle []) name

  round_upper :
      ltb (from + 1) end ≡ true
      → order ≡ before
      → is_between (suc fuel) files name from end ≡ is_between fuel files name (middle + 1) end
  unfolding is_between
  round_upper e f = rw (e, is_between) (rw f refl)

  round_lower :
      ltb (from + 1) end ≡ true
      → order ≡ after
      → is_between (suc fuel) files name from end ≡ is_between fuel files name from middle
  unfolding is_between
  round_lower e f = rw (e, is_between) (rw f refl)

  round_found :
      ltb (from + 1) end ≡ true → order ≡ same → is_between (suc fuel) files name from end ≡ true
  unfolding is_between
  round_found e f = rw (e, is_between) (rw f refl)

  round_last :
      ltb (from + 1) end ≡ false
      → is_between (suc fuel) files name from end
        ≡ (from + 1 == end && is_same (strcmp (get_or files from []) name))
  unfolding is_between
  round_last e = rw (e, is_between) refl

is_same-true : (o : Sign) → is_same o ≡ true → o ≡ same
is_same-true before e = absurd (cc)
is_same-true same e = refl
is_same-true after e = absurd (cc)

module _ (files : List (List ℕ)) (name : List ℕ) where
  -- A name between two places.
  abbrev Between : ℕ → ℕ → Type 0
  Between from end = (i : ℕ) × (from ≤ i) × (i < end) × (get_or files i [] ≡ name)

  is_between-true :
      (fuel from end : ℕ) → is_between fuel files name from end ≡ true → Between from end
  is_between-true zero from end e = absurd (unfold is_between in cc)
  is_between-true (suc fuel) from end e = elim (Bool-cases (ltb (from + 1) end)) [
    | inl f ↦
        let m = (from + (end - 1)) / 2 in
        let lt = ltb→lt (from + 1) end f in
        elim (Sign-cases (strcmp (get_or files m []) name)) [
          | inl g ↦
              let (i, l, u, at) =
                is_between-true fuel (m + 1) end
                  (sym (round_upper fuel files name from end f g) ∙ e) in
              (i, omega (arith, l, lt), u, at)
          | inr (inl g) ↦
              (m, omega (arith, lt), omega (arith, lt), strcmp-same (get_or files m []) name g)
          | inr (inr g) ↦
              let (i, l, u, at) =
                is_between-true fuel from m (sym (round_lower fuel files name from end f g) ∙ e) in
              (i, l, omega (arith, u, lt), at)
        ]
    | inr f ↦
        let last = sym (round_last fuel files name from end f) ∙ e in
        let o = strcmp (get_or files from []) name in
        let one : (from + 1 == end) ≡ true = ground (arith, last) in
        let hit : is_same o ≡ true = ground (arith, last) in
        (
          from,
          omega arith,
          omega (arith, (==_iff (from + 1) end).0 one),
          strcmp-same (get_or files from []) name (is_same-true o hit),
        )
  ]

  module _ (n : ℕ)
      (sorted : (i j : ℕ)
        → i < j
        → j < n
        → strcmp (get_or files i []) (get_or files j []) ≢ after) where
    -- Before a file that is before the name, and after one that is after it, the name is not.
    not_below :
        (m i : ℕ)
        → m < n
        → strcmp (get_or files m []) name ≡ before
        → get_or files i [] ≡ name
        → m < i
    not_below m i h e at = elim (Bool-cases (ltb m i)) [
      | inl l ↦ ltb→lt m i l
      | inr l ↦
          let to_i : strcmp (get_or files m []) (get_or files i []) ≡ before =
            ap (strcmp (get_or files m [])) at ∙ e in
          elim (Bool-cases (ltb i m)) [
            | inl u ↦ absurd (
                sorted i m (ltb→lt i m u) h
                  (strcmp_flip (get_or files m []) (get_or files i []) to_i))
            | inr u ↦
                let eq : m ≡ i = ground (arith, l, u) in
                let own : strcmp (get_or files m []) (get_or files i []) ≡ same =
                  ap (λ (k : ℕ). strcmp (get_or files m []) (get_or files k [])) (sym eq)
                  ∙ strcmp_refl (get_or files m []) in
                absurd (let g : before ≡ same = sym to_i ∙ own in cc)
          ]
    ]

    not_above :
        (m i : ℕ)
        → i < n
        → strcmp (get_or files m []) name ≡ after
        → get_or files i [] ≡ name
        → i < m
    not_above m i h e at = elim (Bool-cases (ltb i m)) [
      | inl l ↦ ltb→lt i m l
      | inr l ↦
          let to_i : strcmp (get_or files m []) (get_or files i []) ≡ after =
            ap (strcmp (get_or files m [])) at ∙ e in
          elim (Bool-cases (ltb m i)) [
            | inl u ↦ absurd (sorted m i (ltb→lt m i u) h to_i)
            | inr u ↦
                let eq : m ≡ i = ground (arith, l, u) in
                let own : strcmp (get_or files m []) (get_or files i []) ≡ same =
                  ap (λ (k : ℕ). strcmp (get_or files m []) (get_or files k [])) (sym eq)
                  ∙ strcmp_refl (get_or files m []) in
                absurd (let g : after ≡ same = sym to_i ∙ own in cc)
          ]
    ]

    is_between_found :
        (fuel from end i : ℕ)
        → from ≤ i
        → i < end
        → end ≤ n
        → end < from + fuel
        → get_or files i [] ≡ name
        → is_between fuel files name from end ≡ true
    is_between_found zero from end i l u le enough at = absurd (omega arith)
    is_between_found (suc fuel) from end i l u le enough at =
        elim (Bool-cases (ltb (from + 1) end)) [
          | inl f ↦
              let m = (from + (end - 1)) / 2 in
              let lt = ltb→lt (from + 1) end f in
              elim (Sign-cases (strcmp (get_or files m []) name)) [
                | inl g ↦
                    round_upper fuel files name from end f g
                    ∙ is_between_found fuel (m + 1) end i
                        (omega (arith, not_below m i (omega (arith, lt)) g at)) u le
                        (omega (arith, lt)) at
                | inr (inl g) ↦ round_found fuel files name from end f g
                | inr (inr g) ↦
                    round_lower fuel files name from end f g
                    ∙ is_between_found fuel from m i l (not_above m i (omega arith) g at)
                        (omega (arith, lt)) (omega (arith, lt)) at
              ]
          | inr f ↦
              let only : i ≡ from = ground (arith, f) in
              let here : get_or files from [] ≡ name =
                ap (λ (k : ℕ). get_or files k []) (sym only) ∙ at in
              let last : (from + 1 == end) ≡ true = ground (arith, f) in
              round_last fuel files name from end f ∙ rw (last, here) (rw (strcmp_refl name) refl)
        ]

-- On a sorted array the search answers yes exactly for the names in use, and as many rounds as
-- files, and one more, are enough.
pub is_debugged_lem :
    (d : Debugged) (name : List ℕ)
    → IsSorted d
    → (is_debugged d name ≡ true) ↔ ((i : ℕ) × (i < d.nb) × (get_or d.files i [] ≡ name))
unfolding is_debugged
is_debugged_lem d name sorted = (
  λ e. let (i, l, u, at) = is_between-true d.files name (d.nb + 1) 0 d.nb e in (i, u, at),
  λ (i, u, at).
      is_between_found d.files name d.nb sorted (d.nb + 1) 0 d.nb i (omega arith) u (omega arith)
        (omega arith) at,
)
