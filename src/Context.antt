-- ===== src/Context.antt =====
-- src/logs_interceptor/infrastructure/context/context_provider.py: `ContextVarProvider` in one task:
-- the value of its context variable, in a state `S` with the rest of what a function works on.
mod Examples
use logs_interceptor_python.Base.{
  ℕ, String, ◌≡◌, refl, Option, none, some, List, [], String_comparable, ap,
}
use logs_interceptor_python.Base.Dict.{Dict, lookup, insert, update}
use logs_interceptor_python.Domain.{Value, null}
use logs_interceptor_python.Errors.{Result, ok, raise}

-- The variable, which holds `none` before it is set, and the rest.
pub record Scope (S : Type 0) : Type 0 where
  pub context : Option (Dict String Value)
  pub rest : S

-- `self._context.get() or {}`
unfoldable pub get_context : {S : Type 0} → Scope S → Dict String Value
get_context s = elim s.context [ none ↦ [] | some d ↦ d ]

unfoldable pub set : {S : Type 0} → String → Value → Scope S → Scope S
unfolding get_context
set key value s = record s { context = some (insert key value (get_context s)) }

abbrev pub value_or : Option Value → Value → Value
value_or none default = default
value_or (some v) default = v

unfoldable pub get : {S : Type 0} → String → Value → Scope S → Value
unfolding get_context
get key default s = value_or (lookup key (get_context s)) default

unfoldable pub clear : {S : Type 0} → Scope S → Scope S
clear s = record s { context = some [] }

-- `run_with_context`; the token holds the value that the variable had.
unfoldable pub run_with_context :
    {S A : Type 0}
    → Dict String Value
    → (Scope S → Result A × Scope S)
    → Scope S
    → Result A × Scope S
unfolding get_context
run_with_context context fn s =
    let merged = update (get_context s) context in
    let (r, s') = fn (record s { context = some merged }) in (r, record s' { context = s.context })

module _ {S A B : Type 0} where
  -- A function run in a context inside another sees the outer context with the inner one over it;
  -- whatever it does to the context and whether it returns or raises, what follows it in the outer
  -- one sees the outer context again, and at the end the context is what it was.
  pub run_with_context-nests :
      (outer inner : Dict String Value) (fn : Scope S → Result A × Scope S)
      (after : Result A → Scope S → Result B × Scope S) (s : Scope S)
      → let inside : Scope S → Result B × Scope S =
          λ u. let (r, u') = run_with_context inner fn u in after r u' in
        let merged = update (get_context s) outer in
        let (r, t) = fn (record s { context = some (update merged inner) }) in
        let (r', t') = after r (record t { context = some merged }) in
        run_with_context outer inside s ≡ (r', record t' { context = s.context })
  unfolding run_with_context get_context
  run_with_context-nests outer inner fn after s = refl
