-- ===== src/Service/Lifecycle.antt =====
-- src/logs_interceptor/application/log_service.py: `flush`, `fatal`, `track_event`, `destroy` and
-- `get_health` of a service that no other thread uses: a batch that is enqueued is sent before the
-- call goes on. The averages are left out; `send` and `close` are `send` and `destroy` of the
-- transport.
pub mod Closes
pub mod Health
pub mod Report
use logs_interceptor_python.Base.{
  ℕ, suc, ◌+◌, ◌-◌, String, Bool, true, false, not, ◌&&◌, Option, none, some, List, [], ◌∷◌,
  is_empty, ltb, if◌then◌else◌,
}
use logs_interceptor_python.Base.Dict.{Dict}
use logs_interceptor_python.Base.Text.{codes, is_in, text_append}
use logs_interceptor_python.Breaker.{CircuitBreakerState, closed, opened, half_open}
use logs_interceptor_python.Buffer
use logs_interceptor_python.Buffer.{Metrics}
use logs_interceptor_python.Config.{ResolvedBufferConfig}
use logs_interceptor_python.Domain.{LogLevel, Value, LogEntryEntity}
use logs_interceptor_python.Errors.{Exception, Result, ok, raise}
use logs_interceptor_python.Interfaces.{TransportHealth}
use logs_interceptor_python.Service.{ServiceConfig, Reading, LogService, update_metrics}

module _ (config : ServiceConfig) (buffer_config : ResolvedBufferConfig) {W : Type 0}
    (send : List LogEntryEntity → W → Result (Unit {0}) × W) where
  -- what `_send_flush_batch` counts
  unfoldable pub count_flush : Reading → Result (Unit {0}) → LogService → LogService
  unfolding update_metrics
  count_flush r (ok u) s = update_metrics config false r (record s {
    metrics = record s.metrics { flush_count = s.metrics.flush_count + 1; last_flush_time = r.now };
  })
  count_flush r (raise e) s = record s {
    metrics = record s.metrics { error_count = s.metrics.error_count + 1 };
  }

  unfoldable pub send_flush_batch :
      Reading → List LogEntryEntity → LogService → W → Result (Unit {0}) × LogService × W
  unfolding count_flush
  send_flush_batch r entries s w = let (res, w') = send entries w in (res, count_flush r res s, w')

  -- `if entries: self._enqueue_flush(entries)`
  abbrev pub enqueue_entries :
      Reading → List LogEntryEntity → LogService → W → Result (Unit {0}) × LogService × W
  enqueue_entries r [] s w = (ok tt, s, w)
  enqueue_entries r (e ∷ es) s w = send_flush_batch r (e ∷ es) s w

  -- `if self._buffer.size() > 0: ...`, of `flush` and of `destroy`
  unfoldable pub flush_pending : Reading → LogService → W → Result (Unit {0}) × LogService × W
  unfolding send_flush_batch
  flush_pending r s w =
      if ltb 0 (Buffer.size s.buffer)
      then (let (entries, b) = Buffer.flush buffer_config r.now s.buffer in
          enqueue_entries r entries (record s { buffer = b }) w)
      else (ok tt, s, w)

  unfoldable pub flush : Reading → LogService → W → Result (Unit {0}) × LogService × W
  unfolding flush_pending
  flush r s w = if s.destroyed then (ok tt, s, w) else flush_pending r s w

  -- `fatal`: `logged` is what `log("fatal", ...)` gives. An error of the flush is passed over.
  unfoldable pub fatal : Reading → Option (LogService × W) → Option (LogService × W)
  unfolding flush
  fatal r logged = elim logged [
    | none ↦ none
    | some (s, w) ↦ let (res, s', w') = flush r s w in some (s', w')
  ]

  module _ (close : W → Result (Unit {0}) × W) where
    -- the `finally` block: neither error is raised
    abbrev pub destroy_parts :
        Result (Unit {0}) × LogService × W → Result (Unit {0}) × LogService × W
    destroy_parts (res, s, w) = (res, record s { buffer = Buffer.destroy s.buffer }, (close w).1)

    unfoldable pub destroy : Reading → LogService → W → Result (Unit {0}) × LogService × W
    unfolding flush_pending
    destroy r s w =
        if s.destroyed
        then (ok tt, s, w)
        else destroy_parts (flush_pending r (record s { destroyed = true }) w)

-- `track_event`, through `info`
unfoldable pub track_event :
    {A : Type 0}
    → (LogLevel → String → Option (Dict String Value) → A)
    → String
    → Option (Dict String Value)
    → A
track_event log event_name properties = log "info" (text_append "[EVENT] " event_name) properties

-- The utilization of the buffer is the quotient of the two numbers, 0 if the second is.
pub record HealthStatus : Type 0 where
  pub healthy : Bool
  pub last_successful_flush : ℕ
  pub consecutive_errors : ℕ
  pub buffer_utilization : ℕ × ℕ
  pub uptime : ℕ
  pub memory_usage_mb : ℕ
  pub circuit_breaker_state : CircuitBreakerState
  pub last_error : Option String

abbrev pub mentions_half_open : Option String → Bool
mentions_half_open none = false
mentions_half_open (some message) = is_in (codes "HALF_OPEN") (codes message)

unfoldable pub circuit_state : TransportHealth → CircuitBreakerState
unfolding is_in
circuit_state h =
    if not h.healthy
    then opened
    else if mentions_half_open h.error_message
    then half_open
    else closed

-- `started` is when the service was made, `now` the time.
unfoldable pub get_health : ℕ → ℕ → Metrics → TransportHealth → LogService → HealthStatus
unfolding circuit_state
get_health started now buffer_metrics transport_health s = record {
  healthy = ltb s.metrics.error_count 10 && transport_health.healthy;
  last_successful_flush = s.metrics.last_flush_time;
  consecutive_errors = s.metrics.error_count;
  buffer_utilization = (buffer_metrics.size, buffer_metrics.max_size);
  uptime = now - started;
  memory_usage_mb = s.metrics.memory_usage;
  circuit_breaker_state = circuit_state transport_health;
  last_error = transport_health.error_message;
}
