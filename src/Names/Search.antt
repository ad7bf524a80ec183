-- ===== src/Names/Search.antt =====
-- arm_constants.c and send_irq.c: names are found, and only names.
use arm_simulator.Base.{
  ltb→lt, ◌-◌, ◌↔◌, ◌++◌, get_or, replicate, ℕ, zero, suc, ◌+◌, ◌≤◌, ◌<◌, ◌≡◌, ◌⊎◌, inl, inr, refl,
  arith, ltb, ◌==◌, Bool, true, false, Bool-cases, Option, none, some, Option-cases, List, [], ◌∷◌,
  ◌∙◌, ap, sym, ==_iff, ◌&&◌,
}
use mathlib.Core.Path.{subst}
use arm_simulator.Constants.{reset}
use arm_simulator.Registers.Banks.{IsMode}
use arm_simulator.Gdb.Text.{codes, text_equal}
use arm_simulator.Names.{
  mode_names_from_16, arm_mode_names, arm_get_exception_name, arm_get_mode_name, is_named,
  mode_number_from, arm_get_mode_number, irq_from, chosen_irq,
}

text_equal-true : (s t : List ℕ) → text_equal s t ≡ true → s ≡ t
unfolding text_equal
text_equal-true [] [] e = refl
text_equal-true (a ∷ s) (b ∷ t) e = elim (Bool-cases (a == b)) [
  | inl f ↦
      rw
        ((==_iff a b).0 f, text_equal-true s t (sym (ap (λ (x : Bool). x && text_equal s t) f) ∙ e))
        refl
  | inr f ↦ absurd (let g = sym (ap (λ (x : Bool). x && text_equal s t) f) ∙ e in cc)
]
text_equal-true [] (b ∷ t) e = absurd (cc)
text_equal-true (a ∷ s) [] e = absurd (cc)

is_named-true : (o : Option (List ℕ)) (name : List ℕ) → is_named o name ≡ true → o ≡ some name
unfolding is_named
is_named-true none name e = absurd (cc)
is_named-true (some entry) name e = ap some (sym (text_equal-true name entry e))

abbrev number_or : ℕ → Option ℕ → ℕ
number_or d none = d
number_or d (some n) = n

mode_number_from-name :
    (left i m : ℕ) (name : List ℕ)
    → mode_number_from left i name ≡ some m
    → arm_get_mode_name m ≡ some name
unfolding mode_number_from
mode_number_from-name zero i m name e = absurd (cc)
mode_number_from-name (suc left) i m name e =
    elim (Bool-cases (is_named (arm_get_mode_name i) name)) [
      | inl f ↦
          let at : some i ≡ some m = sym (unfold mode_number_from in rw (f) refl) ∙ e in
          ap arm_get_mode_name (sym (ap (number_or m) at))
          ∙ is_named-true (arm_get_mode_name i) name f
      | inr f ↦
          mode_number_from-name left (i + 1) m name
            (sym (unfold mode_number_from in rw (f) refl) ∙ e)
    ]

mode_number_from-lt :
    (left i m : ℕ) (name : List ℕ) → mode_number_from left i name ≡ some m → m < i + left
unfolding mode_number_from
mode_number_from-lt zero i m name e = absurd (cc)
mode_number_from-lt (suc left) i m name e = ground (arith, mode_number_from-lt left (i + 1) m name)

pub arm_get_mode_number-lt : (name : List ℕ) (m : ℕ) → arm_get_mode_number name ≡ some m → m < 32
unfolding arm_get_mode_number
arm_get_mode_number-lt name m e = mode_number_from-lt 32 0 m name e

-- The table has the seven modes and NULL elsewhere.
names_below :
    (n i : ℕ) (names : List (Option (List ℕ)))
    → i < n
    → get_or (replicate n none ++ names) i none ≡ none
names_below zero i names h = absurd (omega arith)
names_below (suc n) zero names h = refl
names_below (suc n) (suc i) names h = names_below n i names (omega arith)

names_beyond :
    (n i : ℕ) (names : List (Option (List ℕ)))
    → get_or (replicate n none ++ names) (n + i) none ≡ get_or names i none
names_beyond zero i names = let e : 0 + i ≡ i = omega arith in rw e refl
names_beyond (suc n) i names =
    let e : suc n + i ≡ suc (n + i) = omega arith in rw e (names_beyond n i names)

last_names : (k : ℕ) → IsMode (16 + k) ⊎ (get_or mode_names_from_16 k none ≡ none)
last_names zero = inl (inl refl)
last_names (suc zero) = inl (inr (inl refl))
last_names (suc (suc zero)) = inl (inr (inr (inl refl)))
last_names (suc (suc (suc zero))) = inl (inr (inr (inr (inl refl))))
last_names (suc (suc (suc (suc zero)))) = inr refl
last_names (suc (suc (suc (suc (suc zero))))) = inr refl
last_names (suc (suc (suc (suc (suc (suc zero)))))) = inr refl
last_names (suc (suc (suc (suc (suc (suc (suc zero))))))) = inl (inr (inr (inr (inr (inl refl)))))
last_names (suc (suc (suc (suc (suc (suc (suc (suc zero)))))))) = inr refl
last_names (suc (suc (suc (suc (suc (suc (suc (suc (suc zero))))))))) = inr refl
last_names (suc (suc (suc (suc (suc (suc (suc (suc (suc (suc zero)))))))))) = inr refl
last_names (suc (suc (suc (suc (suc (suc (suc (suc (suc (suc (suc zero))))))))))) =
    inl (inr (inr (inr (inr (inr (inl refl))))))
last_names (suc (suc (suc (suc (suc (suc (suc (suc (suc (suc (suc (suc zero)))))))))))) = inr refl
last_names (suc (suc (suc (suc (suc (suc (suc (suc (suc (suc (suc (suc (suc zero))))))))))))) =
    inr refl
last_names
      (suc (suc (suc (suc (suc (suc (suc (suc (suc (suc (suc (suc (suc (suc zero)))))))))))))) =
    inr refl
last_names
      (suc
        (suc (suc (suc (suc (suc (suc (suc (suc (suc (suc (suc (suc (suc (suc zero))))))))))))))) =
    inl (inr (inr (inr (inr (inr (inr (refl)))))))
last_names
      (suc (
        suc
          (suc (suc (suc (suc (suc (suc (suc (suc (suc (suc (suc (suc (suc (suc k)))))))))))))))) =
    inr refl

IsMode-cases : (mode : ℕ) → IsMode mode ⊎ (arm_get_mode_name mode ≡ none)
unfolding arm_get_mode_name
IsMode-cases mode = elim (Bool-cases (ltb mode 16)) [
  | inl e ↦ inr (names_below 16 mode mode_names_from_16 (ltb→lt mode 16 e))
  | inr e ↦
      let k = mode - 16 in
      let at : 16 + k ≡ mode = ground (arith, e) in
      elim (last_names k) [
        | inl m ↦ inl (subst IsMode at m)
        | inr f ↦ inr (
            ap (λ (i : ℕ). get_or arm_mode_names i none) (sym at)
            ∙ names_beyond 16 k mode_names_from_16
            ∙ f)
      ]
]

found :
    (mode : ℕ)
    → IsMode mode
    → (name : List ℕ) × (arm_get_mode_name mode ≡ some name)
      × (arm_get_mode_number name ≡ some mode)
unfolding arm_get_mode_name arm_get_mode_number mode_number_from is_named text_equal
found mode (inl e) = rw e (codes "USR", refl, refl)
found mode (inr (inl e)) = rw e (codes "FIQ", refl, refl)
found mode (inr (inr (inl e))) = rw e (codes "IRQ", refl, refl)
found mode (inr (inr (inr (inl e)))) = rw e (codes "SVC", refl, refl)
found mode (inr (inr (inr (inr (inl e))))) = rw e (codes "ABT", refl, refl)
found mode (inr (inr (inr (inr (inr (inl e)))))) = rw e (codes "UND", refl, refl)
found mode (inr (inr (inr (inr (inr (inr e)))))) = rw e (codes "SYS", refl, refl)

abbrev text_or : List ℕ → Option (List ℕ) → List ℕ
text_or d none = d
text_or d (some t) = t

-- What is found by the name that a place has is found by the name that is given.
same_name :
    (find : List ℕ → Option ℕ) (place : Option (List ℕ)) (name name' : List ℕ) (n : ℕ)
    → place ≡ some name
    → place ≡ some name'
    → find name' ≡ some n
    → find name ≡ some n
same_name find place name name' n e f g = ap find (ap (text_or name) (sym e ∙ f)) ∙ g

-- The number that is found by a name is that of the mode with this name.
pub arm_get_mode_number_lem :
    (mode : ℕ) (name : List ℕ)
    → (arm_get_mode_number name ≡ some mode) ↔ (arm_get_mode_name mode ≡ some name)
unfolding arm_get_mode_number
arm_get_mode_number_lem mode name = (
  λ e. mode_number_from-name 32 0 mode name e,
  λ e. elim (IsMode-cases mode) [
    | inl m ↦
        let (name', f, g) = found mode m in
        same_name arm_get_mode_number (arm_get_mode_name mode) name name' mode e f g
    | inr f ↦ absurd (let g : none ≡ some name = sym f ∙ e in cc)
  ],
)

-- The three cases of a round of the search.
module _ (fuel i : ℕ) (name : List ℕ) where
  irq_ends : arm_get_exception_name i ≡ none → irq_from (suc fuel) i name ≡ none
  unfolding irq_from
  irq_ends e = rw (e, irq_from) refl

  irq_there :
      (entry : List ℕ)
      → arm_get_exception_name i ≡ some entry
      → text_equal entry name ≡ true
      → irq_from (suc fuel) i name ≡ some i
  unfolding irq_from
  irq_there entry e f = rw (e, irq_from) (rw f refl)

  irq_further :
      (entry : List ℕ)
      → arm_get_exception_name i ≡ some entry
      → text_equal entry name ≡ false
      → irq_from (suc fuel) i name ≡ irq_from fuel (i + 1) name
  unfolding irq_from
  irq_further entry e f = rw (e, irq_from) (rw f refl)

-- The search from an exception on finds only what has the name.
irq_from-name :
    (fuel i irq : ℕ) (name : List ℕ)
    → irq_from fuel i name ≡ some irq
    → (i ≤ irq) × (arm_get_exception_name irq ≡ some name)
irq_from-name zero i irq name e = absurd (unfold irq_from in cc)
irq_from-name (suc fuel) i irq name e = elim (Option-cases (arm_get_exception_name i)) [
  | inl f ↦ absurd (let g : none ≡ some irq = sym (irq_ends fuel i name f) ∙ e in cc)
  | inr (entry, f) ↦ elim (Bool-cases (text_equal entry name)) [
    | inl g ↦
        let same : i ≡ irq = ap (number_or irq) (sym (irq_there fuel i name entry f g) ∙ e) in
        (
          omega (arith, same),
          ap arm_get_exception_name (sym same) ∙ f ∙ ap some (text_equal-true entry name g),
        )
    | inr g ↦
        let (le, h) =
          irq_from-name fuel (i + 1) irq name (sym (irq_further fuel i name entry f g) ∙ e) in
        (omega (arith, le), h)
  ]
]

exception_found :
    (irq : ℕ)
    → 1 ≤ irq
    → irq < 8
    → (name : List ℕ) × (arm_get_exception_name irq ≡ some name)
      × (chosen_irq (some name) ≡ some irq)
unfolding arm_get_exception_name chosen_irq irq_from text_equal
exception_found zero l h = absurd (omega arith)
exception_found (suc zero) l h = (codes "reset", refl, refl)
exception_found (suc (suc zero)) l h = (codes "data abort", refl, refl)
exception_found (suc (suc (suc zero))) l h = (codes "fast interrupt", refl, refl)
exception_found (suc (suc (suc (suc zero)))) l h = (codes "interrupt", refl, refl)
exception_found (suc (suc (suc (suc (suc zero))))) l h = (codes "imprecise abort", refl, refl)
exception_found (suc (suc (suc (suc (suc (suc zero)))))) l h = (codes "prefetch abort", refl, refl)
exception_found (suc (suc (suc (suc (suc (suc (suc zero))))))) l h =
    (codes "undefined instruction", refl, refl)
exception_found (suc (suc (suc (suc (suc (suc (suc (suc n)))))))) l h = absurd (omega arith)

exception_name-lt : (irq : ℕ) (name : List ℕ) → arm_get_exception_name irq ≡ some name → irq < 8
unfolding arm_get_exception_name
exception_name-lt irq name e = elim (Bool-cases (ltb irq 8)) [
  | inl f ↦ ltb→lt irq 8 f
  | inr f ↦
      absurd (let g : none ≡ some name = sym (unfold arm_get_exception_name in rw f refl) ∙ e in cc)
]

-- The byte that is sent for a name is that of the exception, other than 0, with this name; the
-- names are those of 1 to 7.
pub chosen_irq_lem :
    (irq : ℕ) (name : List ℕ)
    → (chosen_irq (some name) ≡ some irq)
      ↔ ((1 ≤ irq) × (irq < 8) × (arm_get_exception_name irq ≡ some name))
unfolding chosen_irq
chosen_irq_lem irq name = (
  λ e. let (l, f) = irq_from-name 8 reset irq name e in (l, exception_name-lt irq name f, f),
  λ (l, h, e).
      let (name', f, g) = exception_found irq l h in
      same_name (λ (n : List ℕ). chosen_irq (some n)) (arm_get_exception_name irq) name name' irq e
        f g,
)
