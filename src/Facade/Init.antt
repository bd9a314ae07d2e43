-- ===== src/Facade/Init.antt =====
-- An `init` that starts a logger, from the environment and the caller's configuration.
use logs_interceptor_python.Base.{
  ℕ, ◌≡◌, refl, ap, ◌∙◌, String, Bool, Option, none, some, List, [], ◌∷◌, Bool-cases, inl, inr,
}
use logs_interceptor_python.Base.Dict.{Dict}
use logs_interceptor_python.Breaker.Invariant as Breaker
use logs_interceptor_python.Errors.{ok}
use logs_interceptor_python.Facade.{
  World, init, retire, destroy_logger, get_logger, replace_runtime,
}
use logs_interceptor_python.Facade.Tidy.{OneLive, without_live, restore_runtime_twice}
use logs_interceptor_python.Factory.{Runtime, create, restore_runtime}
use logs_interceptor_python.Interceptor.{Process}
use logs_interceptor_python.Settings.Env.{load_config_from_env}
use logs_interceptor_python.Settings.Merge.{merge_configs}
use logs_interceptor_python.Settings.Merge.Accepted.{merge_configs-InRange}
use logs_interceptor_python.Settings.Numbers.{Float}
use logs_interceptor_python.Settings.Records.{LogsInterceptorConfig}
use logs_interceptor_python.Settings.Resolve.{IntLogsInterceptorConfig, breaker_config, resolve}
use logs_interceptor_python.Settings.Valid.{IsPositiveInt, IsPositiveBuffer, validate-IsPositive}
use logs_interceptor_python.Settings.Validate.{validate, validate_numbers, validate_required}

retire-live :
    (o : Option Runtime) (w : World) → w.runtime ≡ o → OneLive o w.live → (retire o w).live ≡ []
unfolding destroy_logger
retire-live none w e one = one
retire-live (some r) w e one =
    without_live r (restore_runtime r w.process).0.logger w.live
      (restore_runtime_twice r w.process).1 one

retire-created : (o : Option Runtime) (w : World) → (retire o w).created ≡ w.created
unfolding destroy_logger
retire-created none w = refl
retire-created (some r) w = refl

create-logger :
    (id : ℕ) (config : IntLogsInterceptorConfig) (p : Process) → (create id config p).0.logger ≡ id
unfolding create
create-logger id config p = elim (Bool-cases config.intercept_console) [
  | inl e ↦ rw e
  | inr e ↦ rw e
]

-- A configuration that is accepted starts the next logger as the only one that is live.
accepted-Started :
    (merged : LogsInterceptorConfig) (errors : List String) (w : World)
    → errors ≡ []
    → OneLive w.runtime w.live
    → let (r, w') = replace_runtime none merged errors w in
      (r ≡ ok w.created) × (get_logger w' ≡ ok w.created) × (w'.live ≡ w.created ∷ [])
unfolding get_logger
accepted-Started merged [] w e one =
    let w1 = retire w.runtime w in
    let same = retire-created w.runtime w in
    (
      ap ok same,
      ap ok (create-logger w1.created (resolve merged) w1.process ∙ same),
      rw (same, retire-live w.runtime w refl one),
    )
accepted-Started merged (x ∷ errors) w e one = cc

-- An `init` with a configuration whose numbers `validate` accepts, over any environment, starts a
-- logger if the merged configuration has the required texts and no constructor raises: it returns
-- the next logger, which is the current one and the only one that is live, and the resolved
-- circuit breaker has the positive limits that the breaker asks for, the buffer a positive size,
-- interval and memory limit, and the number of concurrent flushes is positive.
pub init-Started :
    (to_float : String → Option Float) (cwd : String) (environ : Dict String String)
    (is_url : String → Bool) (user : LogsInterceptorConfig) (w : World)
    → OneLive w.runtime w.live
    → validate_numbers user ≡ []
    → let env = load_config_from_env to_float cwd environ in
      let merged = merge_configs user env in
      validate_required is_url merged ≡ []
      → let (r, w') = init is_url env none (some user) w in
        let resolved = resolve merged in
        (r ≡ ok w.created)
        × (get_logger w' ≡ ok w.created)
        × (w'.live ≡ w.created ∷ [])
        × Breaker.IsPositive (breaker_config resolved.circuit_breaker)
        × IsPositiveBuffer merged.buffer
        × IsPositiveInt resolved.performance.max_concurrent_flushes
unfolding init
init-Started to_float cwd environ is_url user w one numbers required =
    let env = load_config_from_env to_float cwd environ in
    let merged = merge_configs user env in
    let accepted = merge_configs-InRange to_float cwd environ is_url user numbers ∙ required in
    let (result, current, live) = accepted-Started merged (validate is_url merged) w accepted one in
    let (breaker, _, buffer, flushes) = validate-IsPositive is_url merged accepted in
    (result, current, live, breaker, buffer, flushes)
