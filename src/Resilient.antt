-- ===== src/Resilient.antt =====
-- src/logs_interceptor/infrastructure/transport/resilient_transport.py: `ResilientTransport`, a
-- transport behind retries, a circuit breaker and a dead letter queue. `W` is the rest of the
-- world, the wrapped transport included.
pub mod Retry
pub mod Send
pub mod Balance
pub mod Open
pub mod Queues
mod Examples
use logs_interceptor_python.Base.{
  ℕ, zero, suc, ◌+◌, ◌*◌, ◌^◌, String, Bool, true, false, ◌||◌, Option, none, some, List, [], ◌∷◌,
  ltb, leb, ◌==◌, ℕ_comparable, if◌then◌else◌,
}
use logs_interceptor_python.Base.Text.{lower, is_in, codes, text_append}
use logs_interceptor_python.Breaker.{
  CircuitBreakerState, closed, opened, half_open, CircuitBreaker, execute,
}
use logs_interceptor_python.Config.{ResolvedCircuitBreakerConfig}
use logs_interceptor_python.Dlq.{Added}
use logs_interceptor_python.Domain.{LogEntryEntity}
use logs_interceptor_python.Errors.{Exception, Result, ok, raise}
use logs_interceptor_python.Interfaces.{
  Host, TransportHealth, TransportMetrics, ILogTransport, IDeadLetterQueue,
}

pub record ResilientTransportConfig : Type 0 where
  pub max_retries : ℕ
  pub retry_delay : ℕ

pub record ResilientTransport (Q : Type 0) : Type 0 where
  pub circuit_breaker : Option CircuitBreaker
  pub dlq : Option Q
  pub metrics : TransportMetrics
  pub last_dlq_warning : ℕ

-- What a sending works on: the counts and the world.
pub record Scene (W : Type 0) : Type 0 where
  pub metrics : TransportMetrics
  pub world : W

abbrev no_metrics : TransportMetrics
no_metrics = record {
  total_sends = 0;
  successful_sends = 0;
  failed_sends = 0;
  avg_latency = 0;
  retry_attempts = 0;
  retried_requests = 0;
  dlq_dropped_entries = 0;
}

abbrev pub new : {Q : Type 0} → Option CircuitBreaker → Option Q → ResilientTransport Q
new circuit_breaker dlq = record {
  circuit_breaker = circuit_breaker;
  dlq = dlq;
  metrics = no_metrics;
  last_dlq_warning = 0;
}

abbrev markers : List String
markers = "timeout" ∷ "socket" ∷ "connect" ∷ "network" ∷ "429" ∷ "502" ∷ "503" ∷ "504" ∷ []

abbrev any_in : List String → List ℕ → Bool
any_in [] message = false
any_in (m ∷ ms) message = is_in (codes m) message || any_in ms message

abbrev by_message : String → Bool
by_message message = any_in markers (lower message)

abbrev by_status : Option ℕ → String → Bool
by_status none message = by_message message
by_status (some code) message = code == 429 || leb 500 code

abbrev by_flag : Option Bool → Exception → Bool
by_flag none error = by_status error.status_code error.message
by_flag (some retryable) error = retryable

unfoldable pub is_retryable_error : Exception → Bool
unfolding is_in lower
is_retryable_error error = by_flag error.retryable error

abbrev pub count_retry : Bool → TransportMetrics → TransportMetrics
count_retry request_retried m =
    let m' =
      if request_retried then m else record m { retried_requests = m.retried_requests + 1 } in
    record m' { retry_attempts = m'.retry_attempts + 1 }

-- An attempt that is not the last: the loop returns, goes on, or raises.
abbrev pub judge :
    {A : Type 0} → Result (Unit {0}) → Result (Unit {0}) × A → A → Result (Unit {0}) × A
judge (ok _) again s = (ok tt, s)
judge (raise error) again s = if is_retryable_error error then again else (raise error, s)

module _ {W : Type 0} (host : Host W) (config : ResilientTransportConfig) where
  -- `base_delay`, `jitter` and the sleep, in milliseconds
  unfoldable pub pause : ℕ → W → W
  pause attempt w =
      let (jitter, w') = host.randint w in host.sleep (config.retry_delay * 2 ^ attempt + jitter) w'

  -- The loop of `_retry_operation` from an attempt on; `left` is the number of attempts after it.
  unfoldable pub attempts :
      (W → Result (Unit {0}) × W) → ℕ → ℕ → Bool → Scene W → Result (Unit {0}) × Scene W
  attempts operation zero attempt request_retried s =
      let (r, w) = operation s.world in (r, record s { world = w })
  attempts operation (suc left) attempt request_retried s =
      let (r, w) = operation s.world in
      let next : Scene W = record {
        metrics = count_retry request_retried s.metrics;
        world = pause attempt w;
      } in
      let again = attempts operation left (attempt + 1) true next in
      judge r again (record s { world = w })

  unfoldable pub retry_operation :
      (W → Result (Unit {0}) × W) → Scene W → Result (Unit {0}) × Scene W
  retry_operation operation = attempts operation config.max_retries 0 false

module _ {W : Type 0} (host : Host W) where
  abbrev pub time_beside : Scene W → ℕ × Scene W
  time_beside s = let (t, w) = host.time s.world in (t, record s { world = w })

  -- `self._circuit_breaker.execute(operation)`, or `operation()` without a breaker
  unfoldable pub guarded :
      ResolvedCircuitBreakerConfig
      → (Scene W → Result (Unit {0}) × Scene W)
      → Option CircuitBreaker
      → Scene W
      → Result (Unit {0}) × Option CircuitBreaker × Scene W
  guarded limits operation none s = let (r, s') = operation s in (r, none, s')
  guarded limits operation (some b) s =
      let (r, b', s') = execute limits time_beside operation b s in (r, some b', s')

module _ {W Q : Type 0} (host : Host W) (queue : IDeadLetterQueue Q) where
  abbrev warn : ℕ → ResilientTransport Q → ResilientTransport Q
  warn now t =
      if ltb (t.last_dlq_warning + 10 * 1000000) now then record t { last_dlq_warning = now } else t

  -- what `_enqueue_dlq` does with the result of `add_batch`
  abbrev pub note_added : Result Added → ResilientTransport Q → W → ResilientTransport Q × W
  note_added (ok a) t w =
      let n = t.metrics.dlq_dropped_entries + a.dropped in
      (record t { metrics = record t.metrics { dlq_dropped_entries = n } }, w)
  note_added (raise _) t w = let (now, w') = host.time w in (warn now t, w')

  -- The queue reads the clock for the batch.
  abbrev pub enqueue_on :
      Option Q
      → List LogEntryEntity
      → Exception
      → ResilientTransport Q
      → W
      → ResilientTransport Q × W
  enqueue_on none entries error t w = (t, w)
  enqueue_on (some q) entries error t w =
      let (timestamp, w1) = host.time w in
      let (r, q') = queue.add_batch timestamp entries error.message q in
      note_added r (record t { dlq = some q' }) w1

  unfoldable pub enqueue_dlq :
      List LogEntryEntity → Exception → ResilientTransport Q → W → ResilientTransport Q × W
  enqueue_dlq entries error t w = enqueue_on t.dlq entries error t w

  -- `send` once the guarded operation has ended
  unfoldable pub settle_send :
      List LogEntryEntity
      → Result (Unit {0})
      → ResilientTransport Q
      → W
      → Result (Unit {0}) × ResilientTransport Q × W
  unfolding enqueue_dlq
  settle_send entries (ok _) t w =
      let n = t.metrics.successful_sends + 1 in
      (ok tt, record t { metrics = record t.metrics { successful_sends = n } }, w)
  settle_send entries (raise e) t w =
      let n = t.metrics.failed_sends + 1 in
      let (t', w') =
        enqueue_dlq entries e (record t { metrics = record t.metrics { failed_sends = n } }) w in
      (raise e, t', w')

  unfoldable pub send :
      ResilientTransportConfig
      → ResolvedCircuitBreakerConfig
      → ILogTransport W
      → List LogEntryEntity
      → ResilientTransport Q
      → W
      → Result (Unit {0}) × ResilientTransport Q × W
  send config limits transport [] t w = (ok tt, t, w)
  send config limits transport (x ∷ xs) t w =
      let m = record t.metrics { total_sends = t.metrics.total_sends + 1 } in
      let operation = retry_operation host config (transport.send (x ∷ xs)) in
      let (r, b, s) =
        guarded host limits operation t.circuit_breaker (record { metrics = m; world = w }) in
      settle_send (x ∷ xs) r (record t { circuit_breaker = b; metrics = s.metrics }) s.world

abbrev last_error_text : Option String → String
last_error_text none = "None"
last_error_text (some e) = e

abbrev merge : Option TransportMetrics → TransportMetrics → TransportMetrics
merge none own = own
merge (some base) own = record base {
  retry_attempts = base.retry_attempts + own.retry_attempts;
  retried_requests = base.retried_requests + own.retried_requests;
  dlq_dropped_entries = base.dlq_dropped_entries + own.dlq_dropped_entries;
}

module _ {W : Type 0} (transport : ILogTransport W) where
  abbrev pub health_behind : CircuitBreakerState → CircuitBreaker → W → TransportHealth × W
  health_behind opened b w = (
    record {
      healthy = false;
      last_successful_send = none;
      consecutive_failures = b.failures;
      error_message =
          some (text_append "CircuitBreaker is OPEN. Last error: " (last_error_text b.last_error));
    },
    w,
  )
  health_behind half_open b w = (
    record {
      healthy = true;
      last_successful_send = none;
      consecutive_failures = b.failures;
      error_message = some "CircuitBreaker is HALF_OPEN";
    },
    w,
  )
  health_behind closed b w = transport.get_health w

  unfoldable pub get_health : {Q : Type 0} → ResilientTransport Q → W → TransportHealth × W
  get_health t w = elim t.circuit_breaker [
    | none ↦ transport.get_health w
    | some b ↦ health_behind b.state b w
  ]

  unfoldable pub get_metrics : {Q : Type 0} → ResilientTransport Q → W → TransportMetrics × W
  get_metrics t w = let (base, w') = transport.get_metrics w in (merge base t.metrics, w')

  unfoldable pub is_available : W → Bool × W
  is_available w = transport.is_available w

  unfoldable pub destroy : W → W
  destroy w = transport.destroy w
