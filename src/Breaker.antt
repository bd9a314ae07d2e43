-- ===== src/Breaker.antt =====
-- src/logs_interceptor/infrastructure/circuit_breaker/circuit_breaker.py: `CircuitBreaker`.
-- `time.time()` is read in whole microseconds from the surrounding state `S`, where the guarded
-- operation works too; each block under the lock is one function.
pub mod Invariant
pub mod Refinement
pub mod Trips
pub mod Keeps
pub mod Threads
pub mod Stale
mod Examples
use logs_interceptor_python.Base.{
  ℕ, ◌+◌, ◌-◌, ◌*◌, String, Bool, true, false, not, ◌&&◌, ◌||◌, Option, none, some, ltb, leb, ◌==◌,
  ℕ_comparable, if◌then◌else◌,
}
use logs_interceptor_python.Config.{ResolvedCircuitBreakerConfig}
use logs_interceptor_python.Errors.{Exception, Result, ok, raise, runtime_error}

-- `types.CircuitBreakerState`: "closed", "open", "half-open"
pub data CircuitBreakerState : Type 0 where
  closed opened half_open : CircuitBreakerState

abbrev pub is_half_open : CircuitBreakerState → Bool
is_half_open half_open = true
is_half_open _ = false

pub record CircuitBreaker : Type 0 where
  pub state : CircuitBreakerState
  pub failures : ℕ
  pub success_count : ℕ
  pub half_open_in_flight : ℕ
  pub last_failure : Option ℕ
  pub next_attempt : Option ℕ
  pub last_error : Option String

-- `CircuitBreaker.__init__`, and what `reset` leaves
abbrev pub new : CircuitBreaker
new = record {
  state = closed;
  failures = 0;
  success_count = 0;
  half_open_in_flight = 0;
  last_failure = none;
  next_attempt = none;
  last_error = none;
}

unfoldable pub reset : CircuitBreaker → CircuitBreaker
reset b = record b {
  state = closed;
  failures = 0;
  success_count = 0;
  half_open_in_flight = 0;
  last_failure = none;
  next_attempt = none;
  last_error = none;
}

-- `self._next_attempt and now >= self._next_attempt`: a deadline of 0.0 is false
abbrev pub has_passed : Option ℕ → ℕ → Bool
has_passed none now = false
has_passed (some t) now = not (t == 0) && leb t now

-- `_is_open_locked` in the state "open"
abbrev leave_open : ℕ → CircuitBreaker → Bool × CircuitBreaker
leave_open now b =
    if has_passed b.next_attempt now
    then (false, record b { state = half_open; success_count = 0; half_open_in_flight = 0 })
    else (true, b)

unfoldable pub is_open_locked : ℕ → CircuitBreaker → Bool × CircuitBreaker
is_open_locked now b = elim b.state [
  | opened ↦ leave_open now b
  | closed ↦ (false, b)
  | half_open ↦ (false, b)
]

abbrev pub open_error : Exception
open_error = runtime_error "Circuit breaker is open"

abbrev pub probe_limit_error : Exception
probe_limit_error = runtime_error "Circuit breaker half-open probe limit reached"

-- the `finally` block of `execute`
unfoldable pub release : CircuitBreaker → CircuitBreaker
release b =
    if is_half_open b.state then record b { half_open_in_flight = b.half_open_in_flight - 1 } else b

-- `_is_open_locked` reads the clock in the state "open" only
abbrev pub read_if_open : {S : Type 0} → (S → ℕ × S) → CircuitBreakerState → S → ℕ × S
read_if_open time opened s = time s
read_if_open time closed s = (0, s)
read_if_open time half_open s = (0, s)

module _ (config : ResolvedCircuitBreakerConfig) where
  -- the first block of `execute`: the error raised, or the breaker with the probe counted
  unfoldable pub admit : ℕ → CircuitBreaker → Option Exception × CircuitBreaker
  unfolding is_open_locked
  admit now b =
      let (is_open, b') = is_open_locked now b in
      if is_open
      then (some open_error, b')
      else if is_half_open b'.state && leb config.half_open_requests b'.half_open_in_flight
      then (some probe_limit_error, b')
      else if is_half_open b'.state
      then (none, record b' { half_open_in_flight = b'.half_open_in_flight + 1 })
      else (none, b')

  -- `record_success` in the state "half-open"
  abbrev probe_succeeded : CircuitBreaker → CircuitBreaker
  probe_succeeded b =
      if leb config.half_open_requests (b.success_count + 1)
      then record b {
        state = closed;
        failures = 0;
        success_count = 0;
        half_open_in_flight = 0;
        last_error = none;
      }
      else record b { success_count = b.success_count + 1 }

  unfoldable pub record_success : CircuitBreaker → CircuitBreaker
  record_success b = elim b.state [
    | half_open ↦ probe_succeeded b
    | closed ↦ record b { failures = 0; last_error = none }
    | opened ↦ b
  ]

  -- `t` and `t'` are the two readings of the clock.
  unfoldable pub record_failure : ℕ → ℕ → Exception → CircuitBreaker → CircuitBreaker
  record_failure t t' error b =
      let b' = record b {
        failures = b.failures + 1;
        last_failure = some t;
        last_error = some error.message;
      } in
      if leb config.failure_threshold b'.failures || is_half_open b'.state
      then record b' {
        state = opened;
        success_count = 0;
        half_open_in_flight = 0;
        next_attempt = some (t' + config.reset_timeout * 1000);
      }
      else b'

  module _ {S : Type 0} (time : S → ℕ × S) where
    -- `record_failure`, which reads the clock again only when the breaker opens
    unfoldable pub record_failure_now : Exception → CircuitBreaker → S → CircuitBreaker × S
    unfolding record_failure
    record_failure_now error b s =
        let (t, s') = time s in
        if leb config.failure_threshold (b.failures + 1) || is_half_open b.state
        then (let (t', s'') = time s' in (record_failure t t' error b, s''))
        else (record_failure t 0 error b, s')

    module _ {A : Type 0} where
      -- what `execute` does once the operation has ended
      unfoldable pub settle : Result A → CircuitBreaker → S → Result A × CircuitBreaker × S
      unfolding record_success record_failure_now release
      settle (ok a) b s = (ok a, release (record_success b), s)
      settle (raise e) b s = let (b', s') = record_failure_now e b s in (raise e, release b', s')

      abbrev pub run_admitted :
          (S → Result A × S) → Option Exception → CircuitBreaker → S → Result A × CircuitBreaker × S
      run_admitted operation (some e) b s = (raise e, b, s)
      run_admitted operation none b s = let (r, s') = operation s in settle r b s'

      unfoldable pub execute :
          (S → Result A × S) → CircuitBreaker → S → Result A × CircuitBreaker × S
      unfolding admit settle
      execute operation b s =
          if config.enabled
          then (let (now, s1) = read_if_open time b.state s in
              let (refused, b1) = admit now b in run_admitted operation refused b1 s1)
          else (let (r, s') = operation s in (r, b, s'))
