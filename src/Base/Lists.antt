-- ===== src/Base/Lists.antt =====
-- C arrays as lists, measured and indexed by native numbers.
use Prim.Native.Nat.{ℕ, zero, suc, ◌+◌, ◌<◌, ◌≤◌}
use mathlib.Core.Path.{◌≡◌, refl, ap}
use mathlib.Core.Logic.{◌≢◌}
use mathlib.Core.List.{List, [], ◌∷◌, ◌++◌}
use native.Mathlib.Omega.{arith}

module _ {ℓ} {A : Type ℓ} where
  abbrev pub length : List A → ℕ
  length [] = 0
  length (x ∷ xs) = suc (length xs)

  -- A read out of bounds gives the default.
  abbrev pub get_or : List A → ℕ → A → A
  get_or [] i d = d
  get_or (x ∷ xs) zero d = x
  get_or (x ∷ xs) (suc i) d = get_or xs i d

  -- A write out of bounds changes nothing.
  abbrev pub set : List A → ℕ → A → List A
  set [] i v = []
  set (x ∷ xs) zero v = v ∷ xs
  set (x ∷ xs) (suc i) v = x ∷ set xs i v

  abbrev pub replicate : ℕ → A → List A
  replicate zero a = []
  replicate (suc n) a = a ∷ replicate n a

  abbrev pub drop : ℕ → List A → List A
  drop zero xs = xs
  drop (suc n) [] = []
  drop (suc n) (x ∷ xs) = drop n xs

  abbrev pub take : ℕ → List A → List A
  take zero xs = []
  take (suc n) [] = []
  take (suc n) (x ∷ xs) = x ∷ take n xs

  pub take-append : (xs ys : List A) (n : ℕ) → n ≡ length xs → take n (xs ++ ys) ≡ xs
  take-append [] ys zero e = refl
  take-append [] ys (suc n) e = absurd (omega arith)
  take-append (x ∷ xs) ys zero e = absurd (omega arith)
  take-append (x ∷ xs) ys (suc n) e = ap (λ (r : List A). x ∷ r) (take-append xs ys n (omega arith))

  pub drop-append : (xs ys : List A) (n : ℕ) → n ≡ length xs → drop n (xs ++ ys) ≡ ys
  drop-append [] ys zero e = refl
  drop-append [] ys (suc n) e = absurd (omega arith)
  drop-append (x ∷ xs) ys zero e = absurd (omega arith)
  drop-append (x ∷ xs) ys (suc n) e = drop-append xs ys n (omega arith)

  -- What is dropped reaches past the first part.
  pub drop-append_more :
      (xs ys : List A) (n m : ℕ) → n ≡ length xs + m → drop n (xs ++ ys) ≡ drop m ys
  drop-append_more [] ys n m e = let same : n ≡ m = omega arith in rw same refl
  drop-append_more (x ∷ xs) ys zero m e = absurd (omega arith)
  drop-append_more (x ∷ xs) ys (suc n) m e = drop-append_more xs ys n m (omega arith)

  pub drop-append_suc :
      (xs : List A) (y : A) (ys : List A) (n : ℕ)
      → n ≡ suc (length xs)
      → drop n (xs ++ (y ∷ ys)) ≡ ys
  drop-append_suc [] y ys zero e = absurd (omega arith)
  drop-append_suc [] y ys (suc n) e = drop-append [] ys n (omega arith)
  drop-append_suc (x ∷ xs) y ys zero e = absurd (omega arith)
  drop-append_suc (x ∷ xs) y ys (suc n) e = drop-append_suc xs y ys n (omega arith)

  pub length-append : (xs ys : List A) → length (xs ++ ys) ≡ length xs + length ys
  length-append [] ys = omega arith
  length-append (x ∷ xs) ys = omega (arith, length-append xs ys)

  -- Writing back what is there changes nothing.
  pub set-get_or : (xs : List A) (i : ℕ) (d : A) → set xs i (get_or xs i d) ≡ xs
  set-get_or [] i d = refl
  set-get_or (x ∷ xs) zero d = refl
  set-get_or (x ∷ xs) (suc i) d = ap (λ (r : List A). x ∷ r) (set-get_or xs i d)

  pub length-set : (xs : List A) (i : ℕ) (v : A) → length (set xs i v) ≡ length xs
  length-set [] i v = refl
  length-set (x ∷ xs) zero v = refl
  length-set (x ∷ xs) (suc i) v = ap suc (length-set xs i v)

  pub get_or-set_self :
      (xs : List A) (i : ℕ) (v d : A) → i < length xs → get_or (set xs i v) i d ≡ v
  get_or-set_self [] i v d h = absurd (omega arith)
  get_or-set_self (x ∷ xs) zero v d h = refl
  get_or-set_self (x ∷ xs) (suc i) v d h = get_or-set_self xs i v d (omega arith)

  pub get_or-set_ne :
      (xs : List A) (i j : ℕ) (v d : A) → i ≢ j → get_or (set xs i v) j d ≡ get_or xs j d
  get_or-set_ne [] i j v d h = refl
  get_or-set_ne (x ∷ xs) zero zero v d h = absurd (h refl)
  get_or-set_ne (x ∷ xs) zero (suc j) v d h = refl
  get_or-set_ne (x ∷ xs) (suc i) zero v d h = refl
  get_or-set_ne (x ∷ xs) (suc i) (suc j) v d h = get_or-set_ne xs i j v d (λ e. h (ap suc e))

  pub get_or_beyond : (xs : List A) (i : ℕ) (d : A) → length xs ≤ i → get_or xs i d ≡ d
  get_or_beyond [] i d h = refl
  get_or_beyond (x ∷ xs) zero d h = absurd (omega arith)
  get_or_beyond (x ∷ xs) (suc i) d h = get_or_beyond xs i d (omega arith)

  pub length-replicate : (n : ℕ) (a : A) → length (replicate n a) ≡ n
  length-replicate zero a = refl
  length-replicate (suc n) a = ap suc (length-replicate n a)

-- Every element is below a bound.
abbrev pub AllBelow : ℕ → List ℕ → Type 0
AllBelow b [] = Unit {0}
AllBelow b (x ∷ xs) = (x < b) × AllBelow b xs

pub AllBelow-set : (b : ℕ) (xs : List ℕ) (i v : ℕ) → v < b → AllBelow b xs → AllBelow b (set xs i v)
AllBelow-set b [] i v h a = a
AllBelow-set b (x ∷ xs) zero v h a = (h, a.1)
AllBelow-set b (x ∷ xs) (suc i) v h a = (a.0, AllBelow-set b xs i v h a.1)

pub AllBelow-get_or : (b : ℕ) (xs : List ℕ) (i d : ℕ) → d < b → AllBelow b xs → get_or xs i d < b
AllBelow-get_or b [] i d h a = h
AllBelow-get_or b (x ∷ xs) zero d h a = a.0
AllBelow-get_or b (x ∷ xs) (suc i) d h a = AllBelow-get_or b xs i d h a.1

pub AllBelow-replicate : (b n a : ℕ) → a < b → AllBelow b (replicate n a)
AllBelow-replicate b zero a h = tt
AllBelow-replicate b (suc n) a h = (h, AllBelow-replicate b n a h)

pub AllBelow-from_get_or :
    (b : ℕ) (xs : List ℕ) → ((j : ℕ) → j < length xs → get_or xs j 0 < b) → AllBelow b xs
AllBelow-from_get_or b [] h = tt
AllBelow-from_get_or b (x ∷ xs) h =
    (h 0 (omega arith), AllBelow-from_get_or b xs (λ j l. h (suc j) (omega arith)))
