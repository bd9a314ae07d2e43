-- ===== src/Loki/Sorted.antt =====
-- The values of a stream in order.
use logs_interceptor_python.Base.{
  ℕ, ◌≡◌, refl, sym, ◌∙◌, ap, String, Bool, true, false, List, [], ◌∷◌, ◌==◌, ℕ_comparable,
  String_comparable, if◌then◌else◌, Bool-cases, inl, inr, arith,
}
use logs_interceptor_python.Base.Text.{codes, is_before}
use logs_interceptor_python.Loki.{StreamValue, insert_value, sort_values}

is_before_total : (s t : List ℕ) → is_before s t ≡ false → is_before t s ≡ true
unfolding is_before
is_before_total [] t h = cc
is_before_total (c ∷ s) [] h = refl
is_before_total (c ∷ s) (d ∷ t) h = ground (arith, is_before_total s t)

is_before_trans :
    (s t u : List ℕ) → is_before s t ≡ true → is_before t u ≡ true → is_before s u ≡ true
unfolding is_before
is_before_trans [] t u h k = refl
is_before_trans (c ∷ s) [] u h k = cc
is_before_trans (c ∷ s) (d ∷ t) [] h k = cc
is_before_trans (c ∷ s) (d ∷ t) (e ∷ u) h k = ground (arith, is_before_trans s t u)

-- A timestamp is at most that of every value of a list.
abbrev pub IsLeast : String → List StreamValue → Type 0
IsLeast s [] = Unit
IsLeast s (u ∷ us) = (is_before (codes s) (codes u.0) ≡ true) × IsLeast s us

-- The timestamps do not fall.
abbrev pub IsSorted : List StreamValue → Type 0
IsSorted [] = Unit
IsSorted (v ∷ vs) = IsLeast v.0 vs × IsSorted vs

IsLeast-trans :
    (s t : String) (us : List StreamValue)
    → is_before (codes s) (codes t) ≡ true
    → IsLeast t us
    → IsLeast s us
IsLeast-trans s t [] h least = tt
IsLeast-trans s t (u ∷ us) h least =
    (is_before_trans (codes s) (codes t) (codes u.0) h least.0, IsLeast-trans s t us h least.1)

insert_value-IsLeast :
    (s : String) (v : StreamValue) (us : List StreamValue)
    → is_before (codes s) (codes v.0) ≡ true
    → IsLeast s us
    → IsLeast s (insert_value v us)
unfolding insert_value
insert_value-IsLeast s v [] h least = (h, tt)
insert_value-IsLeast s v (u ∷ us) h least = elim (Bool-cases (is_before (codes v.0) (codes u.0))) [
  | inl first ↦ rw first (h, least)
  | inr later ↦ rw later (least.0, insert_value-IsLeast s v us h least.1)
]

insert_value-IsSorted :
    (v : StreamValue) (us : List StreamValue) → IsSorted us → IsSorted (insert_value v us)
unfolding insert_value
insert_value-IsSorted v [] h = (tt, tt)
insert_value-IsSorted v (u ∷ us) h = elim (Bool-cases (is_before (codes v.0) (codes u.0))) [
  | inl first ↦ rw first ((first, IsLeast-trans v.0 u.0 us first h.0), h)
  | inr later ↦ rw later (
    insert_value-IsLeast u.0 v us (is_before_total (codes v.0) (codes u.0) later) h.0,
    insert_value-IsSorted v us h.1,
  )
]

pub sort_values-IsSorted : (vs : List StreamValue) → IsSorted (sort_values vs)
unfolding sort_values
sort_values-IsSorted [] = tt
sort_values-IsSorted (v ∷ vs) = insert_value-IsSorted v (sort_values vs) (sort_values-IsSorted vs)

-- The lines with a timestamp, in their order.
unfoldable pub lines_at : String → List StreamValue → List String
lines_at t [] = []
lines_at t (v ∷ vs) = let rest = lines_at t vs in if v.0 == t then v.1 ∷ rest else rest

is_before_refl : (s : List ℕ) → is_before s s ≡ true
unfolding is_before
is_before_refl [] = refl
is_before_refl (c ∷ s) = ground (arith, is_before_refl s)

-- Two timestamps that are out of order are not the same.
apart :
    (s r t : String) → is_before (codes s) (codes r) ≡ false → (s == t) ≡ true → (r == t) ≡ false
apart s r t later at = elim (Bool-cases (r == t)) [
  | inr other ↦ other
  | inl here ↦
      let same : s ≡ r =
        (String_comparable.equals_iff s t).0 at ∙ sym ((String_comparable.equals_iff r t).0 here) in
      let before : is_before (codes s) (codes r) ≡ true =
        ap (λ x. is_before (codes s) (codes x)) (sym same) ∙ is_before_refl (codes s) in
      cc
]

swapped :
    {A : Type 0} (v u : A) (l : List A) (at here : Bool)
    → (at ≡ true → here ≡ false)
    → (if here then u ∷ (if at then v ∷ l else l) else (if at then v ∷ l else l))
      ≡ (if at then v ∷ (if here then u ∷ l else l) else (if here then u ∷ l else l))
swapped v u l true true h = let e = h refl in cc
swapped v u l true false h = refl
swapped v u l false here h = refl

lines_at-insert_value :
    (t : String) (v : StreamValue) (us : List StreamValue)
    → lines_at t (insert_value v us) ≡ lines_at t (v ∷ us)
unfolding lines_at insert_value
lines_at-insert_value t v [] = refl
lines_at-insert_value t v (u ∷ us) = elim (Bool-cases (is_before (codes v.0) (codes u.0))) [
  | inl first ↦ rw first refl
  | inr later ↦ rw later (
      ap (λ l. if u.0 == t then u.1 ∷ l else l) (lines_at-insert_value t v us)
      ∙ swapped v.1 u.1 (lines_at t us) (v.0 == t) (u.0 == t) (apart v.0 u.0 t later))
]

-- Sorting keeps the lines of each timestamp, and their order.
pub lines_at-sort_values :
    (t : String) (vs : List StreamValue) → lines_at t (sort_values vs) ≡ lines_at t vs
unfolding lines_at sort_values
lines_at-sort_values t [] = refl
lines_at-sort_values t (v ∷ vs) =
    lines_at-insert_value t v (sort_values vs)
    ∙ ap (λ l. if v.0 == t then v.1 ∷ l else l) (lines_at-sort_values t vs)
