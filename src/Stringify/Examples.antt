-- ===== src/Stringify/Examples.antt =====
-- Objects that refer to each other in a circle, and the theorem at them.
use logs_interceptor_python.Base.{ℕ, zero, suc, ◌≡◌, refl, String, true, false, none, some, [], ◌∷◌}
use logs_interceptor_python.Domain.{number, ref}
use logs_interceptor_python.Errors.{Result, ok, raise, runtime_error}
use logs_interceptor_python.Stringify.{
  Thing, dictionary, sequence, wrapper, Converted, plain, text, array, object, nil, cons, end,
  field, safe_convert, safe_stringify, stdout, stderr, internal_log,
}

-- a dict with a list that holds the dict, and an object whose `__dict__` is the dict
abbrev circle : ℕ → Thing
circle zero = dictionary ((ok "all", ref 1) ∷ (ok "n", number 7) ∷ [])
circle (suc zero) = sequence (ref 0 ∷ ref 2 ∷ [])
circle (suc (suc n)) = wrapper (ok (ref 0))

abbrev dumps : Converted → Result String
dumps c = ok "{}"

circular :
    safe_convert circle 10 12 0 (ref 2) []
    ≡ some (
        ok (
          object (
              field "all"
                (array
                  (cons (text "[Circular Reference]") (cons (text "[Circular Reference]") nil)))
                (field "n" (plain (number 7)) end)),
          1 ∷ 0 ∷ 2 ∷ [],
        ))
unfolding safe_convert
circular = refl

too_deep :
    safe_convert circle 0 2 0 (ref 0) []
    ≡ some (
        ok (
          object (field "all" (text "[Max Depth Reached]") (field "n" (plain (number 7)) end)),
          0 ∷ [],
        ))
unfolding safe_convert
too_deep = refl

-- a dataclass that refers to itself, for which `asdict` recurses without end
abbrev endless : ℕ → Thing
endless a = wrapper (raise (runtime_error "maximum recursion depth exceeded"))

unserializable :
    safe_stringify endless 10 dumps (ref 0)
    ≡ some "[Unserializable: maximum recursion depth exceeded]"
unfolding safe_stringify safe_convert
unserializable = refl

logs :
    (internal_log false false "warn" "late" (some "{}")
      ≡ some (stderr, "[logs-interceptor] late {}\n"))
    × (internal_log true false "debug" "late" none ≡ some (stdout, "[logs-interceptor] late\n"))
    × (internal_log false false "debug" "late" none ≡ none)
    × (internal_log true true "error" "late" none ≡ none)
unfolding internal_log
logs = (refl, refl, refl, refl)
