-- ===== src/Breaker/Stale.antt =====
-- Concurrent calls of `execute`, with those that run and whether each was admitted as a probe. In
-- these runs no other call comes between the record of a call and its release.
use logs_interceptor_python.Base.{
  ℕ, zero, suc, ◌+◌, ◌*◌, ◌≡◌, Bool, true, false, Option, none, some, List, [], ◌∷◌, ◌++◌,
  if◌then◌else◌,
}
use logs_interceptor_python.Breaker.{
  CircuitBreaker, half_open, is_half_open, new, admit, record_success, record_failure, release,
}
use logs_interceptor_python.Config.{ResolvedCircuitBreakerConfig}
use logs_interceptor_python.Errors.{Exception, runtime_error}

-- A call that runs: `counted_as_probe`.
pub record Call : Type 0 where
  pub counted_as_probe : Bool

-- The calls that run once `admit` has answered.
abbrev pub begun : Option Exception × CircuitBreaker → List Call → List Call
begun (some e, b) calls = calls
begun (none, b) calls = record { counted_as_probe = is_half_open b.state } ∷ calls

abbrev pub count_probes : List Call → ℕ
count_probes [] = 0
count_probes (c ∷ calls) = if c.counted_as_probe then count_probes calls + 1 else count_probes calls

module _ (config : ResolvedCircuitBreakerConfig) where
  -- The breaker and the calls that run, after any number of calls have begun, succeeded and failed.
  pub data Calls : CircuitBreaker → List Call → Type 0 where
    start : Calls new []
    begins :
        {b : CircuitBreaker} {calls : List Call} (now : ℕ)
        → Calls b calls
        → Calls (admit config now b).1 (begun (admit config now b) calls)
    succeeds :
        {b : CircuitBreaker} (before : List Call) (c : Call) (after : List Call)
        → Calls b (before ++ c ∷ after)
        → Calls (release (record_success config b)) (before ++ after)
    fails :
        {b : CircuitBreaker} (before : List Call) (c : Call) (after : List Call) (t t' : ℕ)
        (e : Exception)
        → Calls b (before ++ c ∷ after)
        → Calls (release (record_failure config t t' e b)) (before ++ after)

  abbrev boom : Exception
  boom = runtime_error "boom"

  abbrev stale : Call
  stale = record { counted_as_probe = false }

  abbrev probe : Call
  probe = record { counted_as_probe = true }

  abbrev probes : ℕ → List Call
  probes zero = []
  probes (suc n) = probe ∷ probes n

  -- The breaker is half-open, with `n` slots taken and one success counted.
  abbrev IsHalfOpen : ℕ → CircuitBreaker → Type 0
  IsHalfOpen n b = (b.state ≡ half_open) × (b.half_open_in_flight ≡ n) × (b.success_count ≡ 1)

  abbrev deadline : ℕ
  deadline = 1 + config.reset_timeout * 1000

  -- What `admit` makes of an open breaker whose deadline has passed.
  abbrev probed : CircuitBreaker → CircuitBreaker
  probed b = record b { state = half_open; success_count = 0; half_open_in_flight = 1 }
