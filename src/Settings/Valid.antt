-- ===== src/Settings/Valid.antt =====
-- What a configuration without errors promises to the components.
use logs_interceptor_python.Base.{
  ℕ, zero, suc, ◌<◌, ◌≡◌, refl, String, Bool, Option, none, some, List, [], ◌++◌, arith,
  append_empty,
}
use logs_interceptor_python.Breaker.Invariant as Breaker
use logs_interceptor_python.Settings.Numbers.{ℤ, pos, negsuc, natural}
use logs_interceptor_python.Settings.Records.{
  BufferConfig, CircuitBreakerConfig, PerformanceConfig, LogsInterceptorConfig,
}
use logs_interceptor_python.Settings.Resolve.{
  or_default, resolve_buffer, resolve_circuit_breaker, resolve_performance, breaker_config, resolve,
}
use logs_interceptor_python.Settings.Validate.{
  validate_level, validate_positive, validate_buffer, validate_breaker, validate_filter,
  validate_performance, validate_required, validate_numbers, validate,
}

-- The number is positive, and so not changed by `natural`.
abbrev pub IsPositiveInt : ℤ → Type 0
IsPositiveInt z = (0 < natural z) × (z ≡ pos (natural z))

validate_positive-IsPositiveInt :
    (field : String) (n : ℕ) (z : Option ℤ)
    → 0 < n
    → validate_positive field z ≡ []
    → IsPositiveInt (or_default (pos n) z)
unfolding validate_positive
validate_positive-IsPositiveInt field n none h e = (h, refl)
validate_positive-IsPositiveInt field n (some (pos zero)) h e = cc
validate_positive-IsPositiveInt field n (some (pos (suc k))) h e = (omega arith, refl)
validate_positive-IsPositiveInt field n (some (negsuc k)) h e = cc

abbrev pub IsPositiveBuffer : Option BufferConfig → Type 0
IsPositiveBuffer b =
    let r = resolve_buffer b in
    IsPositiveInt r.max_size × IsPositiveInt r.flush_interval × IsPositiveInt r.max_memory_mb

abbrev pub IsPositiveBreaker : Option CircuitBreakerConfig → Type 0
IsPositiveBreaker c =
    let r = resolve_circuit_breaker c in
    IsPositiveInt r.failure_threshold
    × IsPositiveInt r.reset_timeout
    × IsPositiveInt r.half_open_requests

-- The three parts of a section's errors.
append_empty_three :
    {A : Type 0} (xs ys zs : List A) → xs ++ ys ++ zs ≡ [] → (xs ≡ []) × (ys ≡ []) × (zs ≡ [])
append_empty_three xs ys zs e =
    let (rest, third) = append_empty (xs ++ ys) zs e in
    let (first, second) = append_empty xs ys rest in (first, second, third)

resolve_buffer-IsPositive : (b : Option BufferConfig) → validate_buffer b ≡ [] → IsPositiveBuffer b
unfolding validate_buffer resolve_buffer
resolve_buffer-IsPositive none e = ((omega arith, refl), (omega arith, refl), (omega arith, refl))
resolve_buffer-IsPositive (some b) e =
    let (size, interval, memory) =
      append_empty_three (validate_positive "Buffer max size" b.max_size)
        (validate_positive "Flush interval" b.flush_interval)
        (validate_positive "Buffer max memory" b.max_memory_mb) e in
    (
      validate_positive-IsPositiveInt "Buffer max size" 100 b.max_size (omega arith) size,
      validate_positive-IsPositiveInt "Flush interval" 5000 b.flush_interval (omega arith) interval,
      validate_positive-IsPositiveInt "Buffer max memory" 50 b.max_memory_mb (omega arith) memory,
    )

resolve_circuit_breaker-IsPositive :
    (c : Option CircuitBreakerConfig) → validate_breaker c ≡ [] → IsPositiveBreaker c
unfolding validate_breaker resolve_circuit_breaker
resolve_circuit_breaker-IsPositive none e =
    ((omega arith, refl), (omega arith, refl), (omega arith, refl))
resolve_circuit_breaker-IsPositive (some c) e =
    let (threshold, timeout, requests) =
      append_empty_three (validate_positive "Circuit breaker failure threshold" c.failure_threshold)
        (validate_positive "Circuit breaker reset timeout" c.reset_timeout)
        (validate_positive "Circuit breaker half-open requests" c.half_open_requests) e in
    (
      validate_positive-IsPositiveInt "Circuit breaker failure threshold" 50 c.failure_threshold
          (omega arith) threshold,
      validate_positive-IsPositiveInt "Circuit breaker reset timeout" 30000 c.reset_timeout
          (omega arith) timeout,
      validate_positive-IsPositiveInt "Circuit breaker half-open requests" 3 c.half_open_requests
          (omega arith) requests,
    )

-- The errors without the last part.
before : {A : Type 0} {xs : List A} (ys : List A) → xs ++ ys ≡ [] → xs ≡ []
before {xs} ys e = (append_empty xs ys e).0

resolve_performance-IsPositive :
    (p : Option PerformanceConfig)
    → validate_performance p ≡ []
    → IsPositiveInt (resolve_performance p).max_concurrent_flushes
unfolding validate_performance resolve_performance
resolve_performance-IsPositive none e = (omega arith, refl)
resolve_performance-IsPositive (some p) e =
    validate_positive-IsPositiveInt "Max concurrent flushes" 3 p.max_concurrent_flushes
      (omega arith) e

-- If `validate` finds no error, the resolved circuit breaker section has the positive limits that
-- the breaker asks for, its three numbers, the size, interval and memory limit of the buffer and
-- the number of concurrent flushes are positive, whether they were given or are the defaults.
pub validate-IsPositive :
    (is_url : String → Bool) (c : LogsInterceptorConfig)
    → validate is_url c ≡ []
    → let r = resolve c in
      Breaker.IsPositive (breaker_config r.circuit_breaker)
      × IsPositiveBreaker c.circuit_breaker
      × IsPositiveBuffer c.buffer
      × IsPositiveInt r.performance.max_concurrent_flushes
unfolding validate validate_numbers resolve
validate-IsPositive is_url c e =
    let numbers = (append_empty (validate_required is_url c) (validate_numbers c) e).1 in
    let e1 = before (validate_level c.transport.compression_level) numbers in
    let (e2, flushes) = append_empty _ (validate_performance c.performance) e1 in
    let (e3, breaker) = append_empty _ (validate_breaker c.circuit_breaker) e2 in
    let (_, buffer) =
      append_empty _ (validate_buffer c.buffer) (before (validate_filter c.filter) e3) in
    let positive = resolve_circuit_breaker-IsPositive c.circuit_breaker breaker in
    (
      record { threshold = positive.0.0; requests = positive.2.0 },
      positive,
      resolve_buffer-IsPositive c.buffer buffer,
      resolve_performance-IsPositive c.performance flushes,
    )
