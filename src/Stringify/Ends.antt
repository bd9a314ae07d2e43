-- ===== src/Stringify/Ends.antt =====
-- `_safe_convert` on any heap, with references in circles or not: the depth bounds the calls.
use logs_interceptor_python.Base.{
  ℕ, suc, ◌≤◌, ◌≡◌, some, List, max, ℕ_comparable, String_comparable,
}
use logs_interceptor_python.Errors.{Result, ok, raise}
use logs_interceptor_python.Stringify.{
  Converted, plain, text, error, array, object, Items, nil, cons, Fields, end, field, Answer,
}

-- How deep a converted value is.
unfoldable mutual
  pub height : Converted → ℕ
  height (plain v) = 0
  height (text s) = 0
  height (error name message args) = 1
  height (array cs) = suc (height_items cs)
  height (object fs) = suc (height_fields fs)

  pub height_items : Items → ℕ
  height_items nil = 0
  height_items (cons c cs) = max (height c) (height_items cs)

  pub height_fields : Fields → ℕ
  height_fields end = 0
  height_fields (field k c fs) = max (height c) (height_fields fs)

-- What is returned is at most `n` deep.
abbrev pub IsShallow : {A : Type 0} → (A → ℕ) → ℕ → Result (A × List ℕ) → Type 0
IsShallow deep n (raise e) = Unit
IsShallow deep n (ok (a, seen)) = deep a ≤ n

-- A conversion ends: it raises, or what it returns is at most `n` deep.
abbrev pub Ends : {A : Type 0} → (A → ℕ) → ℕ → Answer A → Type 0
Ends {A = A} deep n x = (r : Result (A × List ℕ)) × (x ≡ some r) × IsShallow deep n r
