-- ===== src/Debug/Insertion.antt =====
-- add_debug_to of debug.c: the array stays sorted.
use arm_simulator.Base.{
  ℕ, zero, suc, ◌+◌, ◌-◌, ◌≤◌, ◌<◌, ◌≡◌, ◌↔◌, ◌⊎◌, inl, inr, refl, arith, ltb, leb, ltb→lt, false,
  Bool-cases, List, [], get_or, set, length, length-set, get_or-set_self, get_or-set_ne, sym, ◌∙◌,
  some,
}
use mathlib.Core.Path.{subst}
use arm_simulator.Debug.{
  before, after, Debugged, place_from, move_up, add_debug_to, max_files_number,
}
use arm_simulator.Debug.Order.{strcmp_flip_after, IsLe, IsLe-trans}
use arm_simulator.Debug.Moves.{Place, place_from-Place, move_up-same, move_up-moved}
use arm_simulator.Debug.Search.{IsSorted}

-- The invariant of the array.
pub record IsArray (d : Debugged) : Type 0 where
  pub room : length d.files ≡ max_files_number
  pub in_use : d.nb ≤ max_files_number
  pub sorted : IsSorted d

abbrev pub IsDebugged : Debugged → List ℕ → Type 0
IsDebugged d name = (i : ℕ) × (i < d.nb) × (get_or d.files i [] ≡ name)

-- A place in the new array: before the name, the name, or moved up by one.
data Placed (d : Debugged) (name : List ℕ) (p : ℕ) (new : List (List ℕ)) : ℕ → Type 0 where
  kept : (k : ℕ) → k < p → get_or new k [] ≡ get_or d.files k [] → Placed d name p new k
  put : get_or new p [] ≡ name → Placed d name p new p
  moved :
      (m : ℕ)
      → p ≤ m
      → m < d.nb
      → get_or new (m + 1) [] ≡ get_or d.files m []
      → Placed d name p new (m + 1)

module _ (d : Debugged) (name : List ℕ) (v : IsArray d) (free : d.nb < max_files_number) where
  abbrev p : ℕ
  p = place_from max_files_number d name 0

  place : Place d name 0 p
  place = place_from-Place max_files_number 0 d name (omega arith) (omega (arith, free))

  abbrev up : List (List ℕ)
  up = move_up (d.nb - p) p d.files

  abbrev new : List (List ℕ)
  new = set up p name

  length-move_up :
      (left i : ℕ) (files : List (List ℕ)) → length (move_up left i files) ≡ length files
  unfolding move_up
  length-move_up zero i files = refl
  length-move_up (suc left) i files =
      length-move_up left i (set files (i + left + 1) (get_or files (i + left) []))
      ∙ length-set files (i + left + 1) (get_or files (i + left) [])

  new-room : length new ≡ max_files_number
  new-room = length-set up p name ∙ length-move_up (d.nb - p) p d.files ∙ v.room

  new-kept : (k : ℕ) → k < p → get_or new k [] ≡ get_or d.files k []
  new-kept k h =
      get_or-set_ne up p k name [] (omega arith)
      ∙ move_up-same p k (d.nb - p) d.files (inl (omega arith))

  new-put : get_or new p [] ≡ name
  new-put =
      get_or-set_self up p name []
        (omega (arith, length-move_up (d.nb - p) p d.files, v.room, free, place.at_most))

  new-moved : (m : ℕ) → p ≤ m → m < d.nb → get_or new (m + 1) [] ≡ get_or d.files m []
  new-moved m l u =
      get_or-set_ne up p (m + 1) name [] (omega arith)
      ∙ move_up-moved p m (d.nb - p) d.files l (omega (arith, place.at_most))
          (omega (arith, place.at_most, v.room, free))

  every_place : (k : ℕ) → k < d.nb + 1 → Placed d name p new k
  every_place k h = elim (Bool-cases (ltb k p)) [
    | inl e ↦ kept k (ltb→lt k p e) (new-kept k (ltb→lt k p e))
    | inr e ↦ elim (Bool-cases (ltb p k)) [
      | inr f ↦
          let at : p ≡ k = ground (arith, e, f) in subst (Placed d name p new) at (put new-put)
      | inl f ↦
          let l = ltb→lt p k f in
          let at : (k - 1) + 1 ≡ k = omega (arith, l) in
          subst (Placed d name p new) at (
            moved (k - 1) (omega (arith, l)) (omega (arith, l))
              (new-moved (k - 1) (omega (arith, l)) (omega (arith, l))))
    ]
  ]

  -- The name is no more than any file from its place on.
  name_le : (m : ℕ) → p ≤ m → m < d.nb → IsLe name (get_or d.files m [])
  name_le m l u =
      let at_place =
        strcmp_flip_after (get_or d.files p []) name (place.there (omega (arith, l, u))) in
      elim (Bool-cases (ltb p m)) [
        | inl e ↦
            IsLe-trans name (get_or d.files p []) (get_or d.files m []) at_place
              (v.sorted p m (ltb→lt p m e) u)
        | inr e ↦
            let at : p ≡ m = ground (arith, e) in
            subst (λ (k : ℕ). IsLe name (get_or d.files k [])) at at_place
      ]

  ordered :
      {i j : ℕ}
      → Placed d name p new i
      → Placed d name p new j
      → i < j
      → IsLe (get_or new i []) (get_or new j [])
  ordered (kept i h e) (kept j k f) l = rw (e, f) (v.sorted i j l (omega (arith, place.at_most)))
  ordered (kept i h e) (put f) l =
      rw (e, f) λ g. absurd (let c : before ≡ after = sym (place.below i (omega arith) h) ∙ g in cc)
  ordered (kept i h e) (moved m a b f) l = rw (e, f) (v.sorted i m (omega arith) b)
  ordered (put e) (kept j k f) l = absurd (omega arith)
  ordered (put e) (put f) l = absurd (omega arith)
  ordered (put e) (moved m a b f) l = rw (e, f) (name_le m a b)
  ordered (moved m a b e) (kept j k f) l = absurd (omega arith)
  ordered (moved m a b e) (put f) l = absurd (omega arith)
  ordered (moved m a b e) (moved n a' b' f) l = rw (e, f) (v.sorted m n (omega arith) b')

  abbrev added : Debugged
  added = record { files = new; nb = d.nb + 1 }

  added-IsArray : IsArray added
  added-IsArray = record {
    room = new-room;
    in_use = omega (arith, free);
    sorted = λ i j l u. ordered (every_place i (omega arith)) (every_place j u) l;
  }

  was_there :
      (x : List ℕ) {i : ℕ}
      → Placed d name p new i
      → get_or new i [] ≡ x
      → (x ≡ name) ⊎ IsDebugged d x
  was_there x (kept i h e) f = inr (i, omega (arith, place.at_most), sym e ∙ f)
  was_there x (put e) f = inl (sym f ∙ e)
  was_there x (moved m a b e) f = inr (m, b, sym e ∙ f)

  is_there : (x : List ℕ) → (x ≡ name) ⊎ IsDebugged d x → IsDebugged added x
  is_there x (inl e) = (p, omega (arith, place.at_most), new-put ∙ sym e)
  is_there x (inr (i, u, at)) = elim (Bool-cases (ltb i p)) [
    | inl e ↦ (i, omega arith, new-kept i (ltb→lt i p e) ∙ at)
    | inr e ↦ (i + 1, omega arith, new-moved i (ground (arith, e)) u ∙ at)
  ]

  add-eq : add_debug_to d name ≡ some added
  unfolding add_debug_to
  add-eq =
      let in_array : leb max_files_number p ≡ false = ground (arith, place.at_most, free) in
      let not_full : leb max_files_number d.nb ≡ false = ground (arith, free) in
      rw in_array (rw not_full refl)

-- Where the array is sorted and not full, the name is put into it, the array stays sorted, and the files in
-- use are those from before and the name.
pub add_debug_to_lem :
    (d : Debugged) (name x : List ℕ)
    → IsArray d
    → d.nb < max_files_number
    → (d' : Debugged) × (add_debug_to d name ≡ some d')
      × IsArray d'
      × (IsDebugged d' x ↔ ((x ≡ name) ⊎ IsDebugged d x))
add_debug_to_lem d name x v free = (
  added d name v free,
  add-eq d name v free,
  added-IsArray d name v free,
  (
    λ (i, u, at). was_there d name v free x (every_place d name v free i u) at,
    is_there d name v free x,
  ),
)
