-- ===== src/Context/Examples.antt =====
-- A context, and a function in it that raises.
use logs_interceptor_python.Base.{ℕ, ◌≡◌, refl, String, none, [], ◌∷◌, String_comparable}
use logs_interceptor_python.Base.Dict.{Dict}
use logs_interceptor_python.Context.{Scope, set, run_with_context}
use logs_interceptor_python.Domain.{Value, number}
use logs_interceptor_python.Errors.{Result, raise, runtime_error}

abbrev outer : Dict String Value
outer = ("user", number 1) ∷ ("id", number 2) ∷ []

abbrev scope : Scope ℕ
scope = record { context = none; rest = 0 }

-- A function that sets a key and raises.
abbrev fails : Scope ℕ → Result (Unit {0}) × Scope ℕ
fails s = (raise (runtime_error "no"), set "id" (number 4) s)

restores : run_with_context outer fails scope ≡ (raise (runtime_error "no"), scope)
unfolding run_with_context set
restores = refl
