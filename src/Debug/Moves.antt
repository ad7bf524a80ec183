-- ===== src/Debug/Moves.antt =====
-- The two loops of add_debug_to in debug.c.
use arm_simulator.Base.{
  ℕ, zero, suc, ◌+◌, ◌≤◌, ◌<◌, ◌≡◌, ◌≢◌, ◌⊎◌, inl, inr, refl, arith, ltb, ltb→lt, ◌&&◌, true, false,
  Bool-cases, List, [], get_or, set, length, length-set, get_or-set_self, get_or-set_ne, ap, sym,
  ◌∙◌,
}
use arm_simulator.Debug.{
  Sign, before, same, after, strcmp, Debugged, is_before, place_from, move_up,
}

-- The place of a name: the files before it are before the name, and the one there is not.
pub record Place (d : Debugged) (name : List ℕ) (i p : ℕ) : Type 0 where
  pub at_least : i ≤ p
  pub at_most : p ≤ d.nb
  pub below : (k : ℕ) → i ≤ k → k < p → strcmp (get_or d.files k []) name ≡ before
  pub there : p < d.nb → strcmp (get_or d.files p []) name ≢ before

is_before-true : (o : Sign) → is_before o ≡ true → o ≡ before
is_before-true before e = refl
is_before-true same e = absurd (cc)
is_before-true after e = absurd (cc)

pub place_from-Place :
    (left i : ℕ) (d : Debugged) (name : List ℕ)
    → i ≤ d.nb
    → d.nb ≤ i + left
    → Place d name i (place_from left d name i)
unfolding place_from
place_from-Place zero i d name l u = record {
  at_least = omega arith;
  at_most = l;
  below = λ k a b. absurd (omega arith);
  there = λ h. absurd (omega arith);
}
place_from-Place (suc left) i d name l u =
    elim (Bool-cases (ltb i d.nb && is_before (strcmp (get_or d.files i []) name))) [
      | inl e ↦
          let more : ltb i d.nb ≡ true = ground (arith, e) in
          let goes : is_before (strcmp (get_or d.files i []) name) ≡ true = ground (arith, e) in
          let q =
            place_from-Place left (i + 1) d name (omega (arith, ltb→lt i d.nb more))
              (omega arith) in
          rw (e, place_from)
            (record {
              at_least = omega (arith, q.at_least);
              at_most = q.at_most;
              below = λ k a b. elim (Bool-cases (ltb i k)) [
                | inl f ↦ q.below k (ground (arith, f)) b
                | inr f ↦
                    let at : i ≡ k = ground (arith, f) in
                    ap (λ (n : ℕ). strcmp (get_or d.files n []) name) (sym at)
                    ∙ is_before-true (strcmp (get_or d.files i []) name) goes
              ];
              there = q.there;
            })
      | inr e ↦
          rw (e, place_from)
            (record {
              at_least = omega arith;
              at_most = l;
              below = λ k a b. absurd (omega arith);
              there = λ h f. absurd (
                  let g : (ltb i d.nb && true) ≡ false =
                    sym (ap (λ (o : Sign). ltb i d.nb && is_before o) f) ∙ e in
                  ground (arith, g));
            })
    ]

-- The array after the second loop.
module _ (i : ℕ) where
  pub move_up-same :
      (k left : ℕ) (files : List (List ℕ))
      → (k ≤ i) ⊎ (i + left < k)
      → get_or (move_up left i files) k [] ≡ get_or files k []
  unfolding move_up
  move_up-same k zero files o = refl
  move_up-same k (suc left) files o =
      move_up-same k left (set files (i + left + 1) (get_or files (i + left) [])) (omega (arith, o))
      ∙ get_or-set_ne files (i + left + 1) k (get_or files (i + left) []) [] (omega (arith, o))

  pub move_up-moved :
      (k left : ℕ) (files : List (List ℕ))
      → i ≤ k
      → k < i + left
      → i + left < length files
      → get_or (move_up left i files) (k + 1) [] ≡ get_or files k []
  unfolding move_up
  move_up-moved k zero files l u room = absurd (omega arith)
  move_up-moved k (suc left) files l u room =
      let x = get_or files (i + left) [] in
      let files1 = set files (i + left + 1) x in
      elim (Bool-cases (ltb k (i + left))) [
        | inl e ↦
            move_up-moved k left files1 l (ltb→lt k (i + left) e)
              (omega (arith, length-set files (i + left + 1) x))
            ∙ get_or-set_ne files (i + left + 1) k x [] (omega arith)
        | inr e ↦
            let at : k ≡ i + left = ground (arith, e) in
            rw at (
              move_up-same (i + left + 1) left files1 (inr (omega arith))
              ∙ get_or-set_self files (i + left + 1) x [] (omega arith))
      ]
