-- ===== src/Levels/Order.antt =====
-- The levels are totally ordered by their priorities.
use mathlib.Core.Path.{subst}
use text.Mathlib.TextEquality.{eq_iff}
use logs_interceptor_python.Base.{
  ℕ, ◌≡◌, refl, ap, ◌∙◌, sym, ℕ_comparable, String, true, some, ◌==◌, String_comparable, ◌⊎◌, inl,
  inr, arith, Bool-cases, if◌then◌else◌,
}
use logs_interceptor_python.Base.Dict.{lookup}
use logs_interceptor_python.Domain.{LogLevel}
use logs_interceptor_python.Errors.{ok}
use logs_interceptor_python.Levels.{
  LogLevelVo, is_valid, new, priority, is_greater_than_or_equal, at_least,
}

-- The level of a priority.
level_of : ℕ → LogLevel
level_of n =
    if n == 0
    then "debug"
    else if n == 1
    then "info"
    else if n == 2
    then "warn"
    else if n == 3
    then "error"
    else "fatal"

-- A level object that was made has a priority, and its level is that of the priority.
HasPriority : LogLevelVo → Type 0
HasPriority l = (k : ℕ) × (priority l ≡ some k) × (l.value ≡ level_of k)

named-HasPriority :
    (n : ℕ) (s : String)
    → priority (record { value = level_of n }) ≡ some n
    → (level_of n == s) ≡ true
    → HasPriority (record { value = s })
unfolding HasPriority
named-HasPriority n s p e =
    subst (λ t. HasPriority (record { value = t })) ((eq_iff (level_of n) s).0 e) (n, p, refl)

valid-HasPriority : (s : String) → is_valid s ≡ true → HasPriority (record { value = s })
unfolding is_valid priority lookup level_of
valid-HasPriority s h = elim (Bool-cases ("debug" == s)) [
  | inl e ↦ named-HasPriority 0 s refl e
  | inr e0 ↦ elim (Bool-cases ("info" == s)) [
    | inl e ↦ named-HasPriority 1 s refl e
    | inr e1 ↦ elim (Bool-cases ("warn" == s)) [
      | inl e ↦ named-HasPriority 2 s refl e
      | inr e2 ↦ elim (Bool-cases ("error" == s)) [
        | inl e ↦ named-HasPriority 3 s refl e
        | inr e3 ↦ named-HasPriority 4 s refl (ground (arith, e0, e1, e2, e3))
      ]
    ]
  ]
]

ok_injective : {A : Type 0} {a b : A} → ok a ≡ ok b → a ≡ b
ok_injective e = cc

same_priority :
    (j k : ℕ) (l m : LogLevelVo)
    → priority l ≡ some j
    → priority m ≡ some k
    → at_least (priority l) (priority m) ≡ some true
    → at_least (priority m) (priority l) ≡ some true
    → j ≡ k
same_priority j k l m p q a b = ground arith

-- What `new` returns is valid, and has the text that it was given.
new-HasPriority : (s : String) (l : LogLevelVo) → new s ≡ ok l → HasPriority l
unfolding new
new-HasPriority s l e = elim (Bool-cases (is_valid s)) [
  | inl h ↦ subst HasPriority (ok_injective (ground arith)) (valid-HasPriority s h)
  | inr h ↦ absurd (ground arith)
]

-- Of two levels that were made, one is at least the other, and they are the same if both are.
pub new-IsOrdered :
    (s t : String) (l m : LogLevelVo)
    → new s ≡ ok l
    → new t ≡ ok m
    → ((is_greater_than_or_equal l m ≡ some true) ⊎ (is_greater_than_or_equal m l ≡ some true))
      × (is_greater_than_or_equal l m ≡ some true
          → is_greater_than_or_equal m l ≡ some true
          → l.value ≡ m.value)
unfolding is_greater_than_or_equal HasPriority
new-IsOrdered s t l m e f =
    let (j, p, n) = new-HasPriority s l e in
    let (k, q, o) = new-HasPriority t m f in
    (ground arith, λ a b. n ∙ ap level_of (same_priority j k l m p q a b) ∙ sym o)
