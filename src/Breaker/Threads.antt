-- ===== src/Breaker/Threads.antt =====
-- `CircuitBreaker` shared by threads: every block under its lock may come at any moment, in any
-- order, so a call's admission, its record and its release interleave with those of other calls.
use logs_interceptor_python.Base.{ℕ}
use logs_interceptor_python.Breaker.{
  CircuitBreaker, new, reset, admit, record_success, record_failure, release,
}
use logs_interceptor_python.Breaker.Invariant.{
  IsPositive, IsValid, new-IsValid, reset-IsValid, admit-IsValid, record_success-IsValid,
  record_failure-IsValid, release-IsValid,
}
use logs_interceptor_python.Config.{ResolvedCircuitBreakerConfig}
use logs_interceptor_python.Errors.{Exception}

module _ (config : ResolvedCircuitBreakerConfig) where
  -- One block under the lock, run by some thread.
  pub data Step (b : CircuitBreaker) : CircuitBreaker → Type 0 where
    admits : (now : ℕ) → Step b (admit config now b).1
    succeeds : Step b (record_success config b)
    fails : (t t' : ℕ) (e : Exception) → Step b (record_failure config t t' e b)
    releases : Step b (release b)
    resets : Step b (reset b)

  pub data Reach : CircuitBreaker → Type 0 where
    start : Reach new
    later : {b c : CircuitBreaker} → Reach b → Step b c → Reach c

  Step-IsValid :
      {b c : CircuitBreaker} → IsPositive config → Step b c → IsValid config b → IsValid config c
  Step-IsValid {b} p (admits now) v = admit-IsValid config now b p v
  Step-IsValid {b} p succeeds v = record_success-IsValid config b p v
  Step-IsValid {b} p (fails t t' e) v = record_failure-IsValid config t t' e b v
  Step-IsValid {b} p releases v = release-IsValid config b v
  Step-IsValid {b} p resets v = reset-IsValid config b p

  -- However threads interleave the blocks under the lock, every state that the breaker reaches is
  -- valid, given positive limits: fewer failures than the threshold while closed, a deadline while
  -- open, and while half-open fewer successes than it takes to close and at most
  -- `half_open_requests` probes counted.
  pub Reach-IsValid : {b : CircuitBreaker} → IsPositive config → Reach b → IsValid config b
  Reach-IsValid p start = new-IsValid config p
  Reach-IsValid p (later r st) = Step-IsValid p st (Reach-IsValid p r)
