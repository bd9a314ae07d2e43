-- ===== src/Resilient/Open.antt =====
-- `send` while the circuit breaker is open.
use mathlib.Core.Path.{subst}
use logs_interceptor_python.Base.{
  ◌+◌, ◌≡◌, ◌≢◌, refl, sym, ap, true, false, Option, some, List, [], ◌∷◌,
}
use logs_interceptor_python.Breaker.{CircuitBreaker, opened, has_passed, open_error}
use logs_interceptor_python.Breaker.Trips.{open_refuses}
use logs_interceptor_python.Config.{ResolvedCircuitBreakerConfig}
use logs_interceptor_python.Domain.{LogEntryEntity}
use logs_interceptor_python.Errors.{Result, raise}
use logs_interceptor_python.Interfaces.{Host, ILogTransport, IDeadLetterQueue}
use logs_interceptor_python.Resilient.{
  ResilientTransportConfig, ResilientTransport, Scene, time_beside, retry_operation, guarded,
  enqueue_dlq, settle_send, send,
}

module _ {W : Type 0} (host : Host W) (limits : ResolvedCircuitBreakerConfig) where
  guarded_open :
      (operation : Scene W → Result (Unit {0}) × Scene W) (c : Option CircuitBreaker)
      (b : CircuitBreaker) (s : Scene W)
      → c ≡ some b
      → limits.enabled ≡ true
      → b.state ≡ opened
      → has_passed b.next_attempt (host.time s.world).0 ≡ false
      → guarded host limits operation c s
        ≡ (raise open_error, c, record s { world = (host.time s.world).1 })
  unfolding guarded
  guarded_open operation c b s e on st early =
      subst
        (λ d.
          guarded host limits operation d s
          ≡ (raise open_error, d, record s { world = (host.time s.world).1 }))
        (sym e)
        (ap (λ g. (g.0, some g.1, g.2))
          (open_refuses limits (time_beside host) operation b s on st early))

module _ {W Q : Type 0} (host : Host W) (queue : IDeadLetterQueue Q)
    (config : ResilientTransportConfig) (limits : ResolvedCircuitBreakerConfig)
    (transport : ILogTransport W) where
  -- While an enabled circuit breaker is open before its deadline, a `send` of a batch that is not
  -- empty raises its error without asking the wrapped transport: the clock is read, the sending is
  -- counted as a failure, and the batch goes to the dead letter queue.
  pub send_open :
      (entries : List LogEntryEntity) (t : ResilientTransport Q) (w : W) (b : CircuitBreaker)
      → entries ≢ []
      → t.circuit_breaker ≡ some b
      → limits.enabled ≡ true
      → b.state ≡ opened
      → has_passed b.next_attempt (host.time w).0 ≡ false
      → let m = record t.metrics {
        total_sends = t.metrics.total_sends + 1;
        failed_sends = t.metrics.failed_sends + 1;
      } in
        let (t', w') =
          enqueue_dlq host queue entries open_error (record t { metrics = m }) (host.time w).1 in
        send host queue config limits transport entries t w ≡ (raise open_error, t', w')
  unfolding send settle_send
  send_open [] t w b some_entry here on st early = absurd (some_entry refl)
  send_open (x ∷ xs) t w b some_entry here on st early =
      let m = record t.metrics { total_sends = t.metrics.total_sends + 1 } in
      let s : Scene W = record { metrics = m; world = w } in
      ap
        (λ g.
          settle_send host queue (x ∷ xs) g.0
            (record t { circuit_breaker = g.1; metrics = g.2.metrics }) g.2.world)
        (guarded_open host limits (retry_operation host config (transport.send (x ∷ xs)))
          t.circuit_breaker b s here on st early)
