-- ===== src/Settings/Merge/Accepted.antt =====
-- What `validate` finds in a merged configuration.
use mathlib.Core.List.{append-nil}
use logs_interceptor_python.Base.{
  ◌≡◌, ◌∙◌, ap, String, Bool, Option, none, some, List, [], ◌++◌, append_empty, append_empties,
}
use logs_interceptor_python.Base.Dict.{Dict}
use logs_interceptor_python.Settings.Env.{load_config_from_env}
use logs_interceptor_python.Settings.Env.Ranges.{load_config_from_env-InRange}
use logs_interceptor_python.Settings.Merge.{
  merge_optional, merge_buffer, merge_filter, merge_circuit_breaker, merge_performance,
  merge_configs,
}
use logs_interceptor_python.Settings.Numbers.{Float}
use logs_interceptor_python.Settings.Records.{
  BufferConfig, FilterConfig, CircuitBreakerConfig, PerformanceConfig, LogsInterceptorConfig,
}
use logs_interceptor_python.Settings.Resolve.{or_else}
use logs_interceptor_python.Settings.Validate.{
  validate_non_negative, validate_positive, validate_rate, validate_level, validate_buffer,
  validate_filter, validate_breaker, validate_performance, validate_required, validate_numbers,
  validate,
}

-- A value that is chosen from two that pass a check passes it.
or_else-accepted :
    {A : Type 0} (check : Option A → List String) (user env : Option A)
    → check user ≡ []
    → check env ≡ []
    → check (or_else user env) ≡ []
or_else-accepted check none env u e = e
or_else-accepted check (some a) env u e = u

-- Two parts, each accepted of both.
two_parts :
    (u1 u2 e1 e2 m1 m2 : List String)
    → (u1 ≡ [] → e1 ≡ [] → m1 ≡ [])
    → (u2 ≡ [] → e2 ≡ [] → m2 ≡ [])
    → u1 ++ u2 ≡ []
    → e1 ++ e2 ≡ []
    → m1 ++ m2 ≡ []
two_parts u1 u2 e1 e2 m1 m2 first second u e =
    let (p1, p2) = append_empty u1 u2 u in
    let (q1, q2) = append_empty e1 e2 e in append_empties m1 m2 (first p1 q1) (second p2 q2)

merge_optional-accepted :
    {A : Type 0} (check : Option A → List String) (merge : A → A → A)
    → ((env user : A)
        → check (some user) ≡ []
        → check (some env) ≡ []
        → check (some (merge env user)) ≡ [])
    → (env user : Option A) → check user ≡ []
    → check env ≡ []
    → check (merge_optional merge env user) ≡ []
merge_optional-accepted check merge both none user u e = u
merge_optional-accepted check merge both (some env) none u e = e
merge_optional-accepted check merge both (some env) (some user) u e = both env user u e

-- Two parts more.
merge_buffer-accepted :
    (env user : BufferConfig)
    → validate_buffer (some user) ≡ []
    → validate_buffer (some env) ≡ []
    → validate_buffer (some (merge_buffer env user)) ≡ []
unfolding validate_buffer merge_buffer
merge_buffer-accepted env user =
    two_parts _ _ _ _ _ _
      (two_parts _ _ _ _ _ _
        (or_else-accepted (validate_positive "Buffer max size") user.max_size env.max_size)
        (or_else-accepted (validate_positive "Flush interval") user.flush_interval
          env.flush_interval))
      (or_else-accepted (validate_positive "Buffer max memory") user.max_memory_mb
        env.max_memory_mb)

merge_filter-accepted :
    (env user : FilterConfig)
    → validate_filter (some user) ≡ []
    → validate_filter (some env) ≡ []
    → validate_filter (some (merge_filter env user)) ≡ []
unfolding validate_filter merge_filter
merge_filter-accepted env user = or_else-accepted validate_rate user.sampling_rate env.sampling_rate

merge_circuit_breaker-accepted :
    (env user : CircuitBreakerConfig)
    → validate_breaker (some user) ≡ []
    → validate_breaker (some env) ≡ []
    → validate_breaker (some (merge_circuit_breaker env user)) ≡ []
unfolding validate_breaker merge_circuit_breaker
merge_circuit_breaker-accepted env user =
    two_parts _ _ _ _ _ _
      (two_parts _ _ _ _ _ _
        (or_else-accepted (validate_positive "Circuit breaker failure threshold")
          user.failure_threshold env.failure_threshold)
        (or_else-accepted (validate_positive "Circuit breaker reset timeout") user.reset_timeout
          env.reset_timeout))
      (or_else-accepted (validate_positive "Circuit breaker half-open requests")
        user.half_open_requests env.half_open_requests)

merge_performance-accepted :
    (env user : PerformanceConfig)
    → validate_performance (some user) ≡ []
    → validate_performance (some env) ≡ []
    → validate_performance (some (merge_performance env user)) ≡ []
unfolding validate_performance merge_performance
merge_performance-accepted env user =
    or_else-accepted (validate_positive "Max concurrent flushes") user.max_concurrent_flushes
      env.max_concurrent_flushes

merge_configs-accepted :
    (user env : LogsInterceptorConfig)
    → validate_numbers user ≡ []
    → validate_numbers env ≡ []
    → validate_numbers (merge_configs user env) ≡ []
unfolding validate_numbers merge_configs
merge_configs-accepted user env =
    two_parts _ _ _ _ _ _
      (two_parts _ _ _ _ _ _
        (two_parts _ _ _ _ _ _
          (two_parts _ _ _ _ _ _
            (two_parts _ _ _ _ _ _
              (two_parts _ _ _ _ _ _
                (two_parts _ _ _ _ _ _
                  (or_else-accepted (validate_non_negative "Transport timeout")
                    user.transport.timeout env.transport.timeout)
                  (or_else-accepted (validate_non_negative "Transport max retries")
                    user.transport.max_retries env.transport.max_retries))
                (or_else-accepted (validate_non_negative "Transport retry delay")
                  user.transport.retry_delay env.transport.retry_delay))
              (merge_optional-accepted validate_buffer merge_buffer merge_buffer-accepted env.buffer
                user.buffer))
            (merge_optional-accepted validate_filter merge_filter merge_filter-accepted env.filter
              user.filter))
          (merge_optional-accepted validate_breaker merge_circuit_breaker
            merge_circuit_breaker-accepted env.circuit_breaker user.circuit_breaker))
        (merge_optional-accepted validate_performance merge_performance merge_performance-accepted
          env.performance user.performance))
      (or_else-accepted validate_level user.transport.compression_level
        env.transport.compression_level)

-- If `validate` accepts the numbers of a caller's configuration, then of that configuration merged
-- over the one loaded from the environment, whatever the variables hold, it can only report a
-- missing text or the URL.
pub merge_configs-InRange :
    (to_float : String → Option Float) (cwd : String) (environ : Dict String String)
    (is_url : String → Bool) (user : LogsInterceptorConfig)
    → validate_numbers user ≡ []
    → let merged = merge_configs user (load_config_from_env to_float cwd environ) in
      validate is_url merged ≡ validate_required is_url merged
unfolding validate
merge_configs-InRange to_float cwd environ is_url user h =
    let env = load_config_from_env to_float cwd environ in
    let merged = merge_configs user env in
    ap (◌++◌ (validate_required is_url merged))
      (merge_configs-accepted user env h (load_config_from_env-InRange to_float cwd environ))
    ∙ append-nil (validate_required is_url merged)
