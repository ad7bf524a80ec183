-- ===== src/Debug/Order.antt =====
-- The order of `strcmp`, as debug.c uses it.
use arm_simulator.Base.{
  ℕ, ◌<◌, ◌≡◌, ◌≢◌, ◌⊎◌, inl, inr, refl, arith, ltb, ltb→lt, true, false, Bool-cases, List, [], ◌∷◌,
  sym, ◌∙◌,
}
use arm_simulator.Debug.{Sign, before, same, after, strcmp}

pub strcmp_refl : (s : List ℕ) → strcmp s s ≡ same
unfolding strcmp
strcmp_refl [] = refl
strcmp_refl (a ∷ s) = let e : ltb a a ≡ false = ground arith in rw e (strcmp_refl s)

pub Sign-cases : (o : Sign) → (o ≡ before) ⊎ (o ≡ same) ⊎ (o ≡ after)
Sign-cases before = inl refl
Sign-cases same = inr (inl refl)
Sign-cases after = inr (inr refl)

-- The first bytes of two names.
module _ (a b : ℕ) (s t : List ℕ) where
  first_less : ltb a b ≡ true → (strcmp (a ∷ s) (b ∷ t) ≡ before) × (strcmp (b ∷ t) (a ∷ s) ≡ after)
  unfolding strcmp
  first_less e = let f : ltb b a ≡ false = ground (arith, e) in rw (e, f) (refl, refl)

  first_same : ltb a b ≡ false → ltb b a ≡ false → strcmp (a ∷ s) (b ∷ t) ≡ strcmp s t
  unfolding strcmp
  first_same e f = rw (e, f) refl

pub strcmp-same : (s t : List ℕ) → strcmp s t ≡ same → s ≡ t
strcmp-same [] [] e = refl
strcmp-same [] (b ∷ t) e = absurd (unfold strcmp in cc)
strcmp-same (a ∷ s) [] e = absurd (unfold strcmp in cc)
strcmp-same (a ∷ s) (b ∷ t) e = elim (Bool-cases (ltb a b)) [
  | inl f ↦ absurd (let g : before ≡ same = sym (first_less a b s t f).0 ∙ e in cc)
  | inr f ↦ elim (Bool-cases (ltb b a)) [
    | inl g ↦ absurd (let h : after ≡ same = sym (first_less b a t s g).1 ∙ e in cc)
    | inr g ↦
        let x : a ≡ b = ground (arith, f, g) in
        rw (x, strcmp-same s t (sym (first_same a b s t f g) ∙ e)) refl
  ]
]

pub strcmp_flip : (s t : List ℕ) → strcmp s t ≡ before → strcmp t s ≡ after
strcmp_flip [] [] e = absurd (unfold strcmp in cc)
strcmp_flip [] (b ∷ t) e = unfold strcmp in refl
strcmp_flip (a ∷ s) [] e = absurd (unfold strcmp in cc)
strcmp_flip (a ∷ s) (b ∷ t) e = elim (Bool-cases (ltb a b)) [
  | inl f ↦ (first_less a b s t f).1
  | inr f ↦ elim (Bool-cases (ltb b a)) [
    | inl g ↦ absurd (let h : after ≡ before = sym (first_less b a t s g).1 ∙ e in cc)
    | inr g ↦ first_same b a t s g f ∙ strcmp_flip s t (sym (first_same a b s t f g) ∙ e)
  ]
]

-- `strcmp` gives no more than 0.
abbrev pub IsLe : List ℕ → List ℕ → Type 0
IsLe s t = strcmp s t ≢ after

IsLe-cons : (a b : ℕ) (s t : List ℕ) → IsLe (a ∷ s) (b ∷ t) → (a < b) ⊎ ((a ≡ b) × IsLe s t)
IsLe-cons a b s t h = elim (Bool-cases (ltb a b)) [
  | inl f ↦ inl (ltb→lt a b f)
  | inr f ↦ elim (Bool-cases (ltb b a)) [
    | inl g ↦ absurd (h (first_less b a t s g).1)
    | inr g ↦ inr (ground (arith, f, g), λ e. h (first_same a b s t f g ∙ e))
  ]
]

cons-IsLe : (a b : ℕ) (s t : List ℕ) → (a < b) ⊎ ((a ≡ b) × IsLe s t) → IsLe (a ∷ s) (b ∷ t)
cons-IsLe a b s t (inl l) e =
    absurd (let g : before ≡ after = sym (first_less a b s t (ground arith)).0 ∙ e in cc)
cons-IsLe a b s t (inr (f, h)) e = h (sym (first_same a b s t (ground arith) (ground arith)) ∙ e)

pub IsLe-trans : (s t u : List ℕ) → IsLe s t → IsLe t u → IsLe s u
IsLe-trans [] t [] h k e = absurd (unfold strcmp in cc)
IsLe-trans [] t (c ∷ u) h k e = absurd (unfold strcmp in cc)
IsLe-trans (a ∷ s) [] u h k e = h (unfold strcmp in refl)
IsLe-trans (a ∷ s) (b ∷ t) [] h k e = k (unfold strcmp in refl)
IsLe-trans (a ∷ s) (b ∷ t) (c ∷ u) h k e =
    cons-IsLe a c s u
      (elim (IsLe-cons a b s t h) [
        | inl l ↦ elim (IsLe-cons b c t u k) [
          | inl m ↦ inl (omega arith)
          | inr (m, w) ↦ inl (omega arith)
        ]
        | inr (l, v) ↦ elim (IsLe-cons b c t u k) [
          | inl m ↦ inl (omega arith)
          | inr (m, w) ↦ inr (l ∙ m, IsLe-trans s t u v w)
        ]
      ])
      e

pub strcmp_flip_after : (s t : List ℕ) → strcmp s t ≢ before → IsLe t s
strcmp_flip_after [] [] h e = absurd (unfold strcmp in cc)
strcmp_flip_after [] (b ∷ t) h e = h (unfold strcmp in refl)
strcmp_flip_after (a ∷ s) [] h e = absurd (unfold strcmp in cc)
strcmp_flip_after (a ∷ s) (b ∷ t) h e = elim (Bool-cases (ltb b a)) [
  | inl g ↦ cons-IsLe b a t s (inl (ltb→lt b a g)) e
  | inr g ↦ elim (Bool-cases (ltb a b)) [
    | inl f ↦ absurd (h (first_less a b s t f).0)
    | inr f ↦
        cons-IsLe b a t s
          (inr (ground (arith, f, g), strcmp_flip_after s t (λ x. h (first_same a b s t f g ∙ x))))
          e
  ]
]
