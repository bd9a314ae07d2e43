-- ===== src/Metrics/Sorting.antt =====
-- Sorting the latencies.
use logs_interceptor_python.Base.{
  ℕ, zero, suc, ◌≤◌, ◌<◌, ◌≡◌, refl, ap, ◌∙◌, true, false, List, [], ◌∷◌, length, ◌⊎◌, inl, inr,
  arith, Bool-cases,
}
use logs_interceptor_python.Metrics.{Floats, value_at, insert_sorted, sorted}

abbrev pub Member : {A : Type 0} → A → List A → Type 0
Member x [] = ⊥
Member x (y ∷ ys) = (x ≡ y) ⊎ Member x ys

pub value_at-Member :
    {A : Type 0} (d : A) (xs : List A) (i : ℕ) → i < length xs → Member (value_at d xs i) xs
unfolding value_at
value_at-Member d [] i h = absurd (omega arith)
value_at-Member d (x ∷ xs) zero h = inl refl
value_at-Member d (x ∷ xs) (suc i) h = inr (value_at-Member d xs i (omega arith))

-- What the comparison of floats promises where none is NaN, and the rounding of a product.
pub record IsOrdered (floats : Floats) : Type 0 where
  pub total : (x y : floats.Float) → floats.le x y ≡ false → floats.le y x ≡ true
  pub reflexive : (x : floats.Float) → floats.le x x ≡ true
  pub transitive :
      (x y z : floats.Float) → floats.le x y ≡ true → floats.le y z ≡ true → floats.le x z ≡ true
  pub scaled_mono : (p q n : ℕ) → p ≤ q → floats.scaled p n ≤ floats.scaled q n

module _ (floats : Floats) (ordered : IsOrdered floats) where
  open floats use {Float, le, zero_float, scaled}

  abbrev pub AllAbove : Float → List Float → Type 0
  AllAbove x [] = Unit {0}
  AllAbove x (y ∷ ys) = (le x y ≡ true) × AllAbove x ys

  abbrev pub Ascending : List Float → Type 0
  Ascending [] = Unit {0}
  Ascending (x ∷ xs) = AllAbove x xs × Ascending xs

  AllAbove-trans : (x y : Float) (ys : List Float) → le x y ≡ true → AllAbove y ys → AllAbove x ys
  AllAbove-trans x y [] h a = tt
  AllAbove-trans x y (z ∷ zs) h a = (ordered.transitive x y z h a.0, AllAbove-trans x y zs h a.1)

  AllAbove-insert :
      (x y : Float) (ys : List Float)
      → le x y ≡ true
      → AllAbove x ys
      → AllAbove x (insert_sorted floats y ys)
  unfolding insert_sorted
  AllAbove-insert x y [] h a = (h, tt)
  AllAbove-insert x y (z ∷ zs) h a = elim (Bool-cases (le y z)) [
    | inl e ↦ rw e (h, a)
    | inr e ↦ rw e (a.0, AllAbove-insert x y zs h a.1)
  ]

  insert-Ascending :
      (x : Float) (ys : List Float) → Ascending ys → Ascending (insert_sorted floats x ys)
  unfolding insert_sorted
  insert-Ascending x [] a = (tt, tt)
  insert-Ascending x (y ∷ ys) a = elim (Bool-cases (le x y)) [
    | inl e ↦ rw e ((e, AllAbove-trans x y ys e a.0), a)
    | inr e ↦ rw e (AllAbove-insert y x ys (ordered.total x y e) a.0, insert-Ascending x ys a.1)
  ]

  pub sorted-Ascending : (xs : List Float) → Ascending (sorted floats xs)
  unfolding sorted
  sorted-Ascending [] = tt
  sorted-Ascending (x ∷ xs) = insert-Ascending x (sorted floats xs) (sorted-Ascending xs)

  swap-Member :
      (z x y : Float) (ys zs : List Float)
      → (Member z zs → Member z (x ∷ ys))
      → Member z (y ∷ zs)
      → Member z (x ∷ y ∷ ys)
  swap-Member z x y ys zs f (inl e) = inr (inl e)
  swap-Member z x y ys zs f (inr m) = elim (f m) [ inl e ↦ inl e | inr n ↦ inr (inr n) ]

  Member-insert :
      (z x : Float) (ys : List Float) → Member z (insert_sorted floats x ys) → Member z (x ∷ ys)
  unfolding insert_sorted
  Member-insert z x [] m = m
  Member-insert z x (y ∷ ys) m = elim (Bool-cases (le x y)) [
    | inl e ↦ rw e at m
    | inr e ↦
        let m' : Member z (y ∷ insert_sorted floats x ys) = rw e at m in
        swap-Member z x y ys (insert_sorted floats x ys) (Member-insert z x ys) m'
  ]

  pub Member-sorted : (z : Float) (xs : List Float) → Member z (sorted floats xs) → Member z xs
  unfolding sorted
  Member-sorted z [] m = m
  Member-sorted z (x ∷ xs) m = elim (Member-insert z x (sorted floats xs) m) [
    | inl e ↦ inl e
    | inr n ↦ inr (Member-sorted z xs n)
  ]

  length-insert :
      (x : Float) (ys : List Float) → length (insert_sorted floats x ys) ≡ suc (length ys)
  unfolding insert_sorted
  length-insert x [] = refl
  length-insert x (y ∷ ys) = ground (arith, length-insert x ys)

  pub length-sorted : (xs : List Float) → length (sorted floats xs) ≡ length xs
  unfolding sorted
  length-sorted [] = refl
  length-sorted (x ∷ xs) = length-insert x (sorted floats xs) ∙ ap suc (length-sorted xs)

  above_at :
      (d x : Float) (xs : List Float) (j : ℕ)
      → AllAbove x xs
      → j < length xs
      → le x (value_at d xs j) ≡ true
  unfolding value_at
  above_at d x [] j a h = absurd (omega arith)
  above_at d x (y ∷ ys) zero a h = a.0
  above_at d x (y ∷ ys) (suc j) a h = above_at d x ys j a.1 (omega arith)

  pub value_at-le :
      (d : Float) (xs : List Float) (i j : ℕ)
      → Ascending xs
      → i ≤ j
      → j < length xs
      → le (value_at d xs i) (value_at d xs j) ≡ true
  unfolding value_at
  value_at-le d [] i j a h k = absurd (omega arith)
  value_at-le d (x ∷ xs) zero zero a h k = ordered.reflexive x
  value_at-le d (x ∷ xs) zero (suc j) a h k = above_at d x xs j a.0 (omega arith)
  value_at-le d (x ∷ xs) (suc i) zero a h k = absurd (omega arith)
  value_at-le d (x ∷ xs) (suc i) (suc j) a h k =
      value_at-le d xs i j a.1 (omega arith) (omega arith)
