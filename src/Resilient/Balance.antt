-- ===== src/Resilient/Balance.antt =====
-- `send` over many batches: every batch is counted once, as a success or as a failure.
use logs_interceptor_python.Base.{
  ℕ, ◌+◌, ◌≡◌, refl, Option, none, some, List, [], ◌∷◌, ltb, Bool-cases, inl, inr, ◌*◌, arith,
}
use logs_interceptor_python.Breaker.{CircuitBreaker}
use logs_interceptor_python.Config.{ResolvedCircuitBreakerConfig}
use logs_interceptor_python.Domain.{LogEntryEntity}
use logs_interceptor_python.Errors.{Exception, Result, ok, raise}
use logs_interceptor_python.Dlq.{Added}
use logs_interceptor_python.Interfaces.{Host, TransportMetrics, ILogTransport, IDeadLetterQueue}
use logs_interceptor_python.Resilient.{
  ResilientTransportConfig, ResilientTransport, Scene, new, retry_operation, guarded, note_added,
  enqueue_on, enqueue_dlq, settle_send, send, warn,
}
use logs_interceptor_python.Resilient.Send.{guarded-SameSends}

abbrev pub IsBalanced : TransportMetrics → Type 0
IsBalanced m = m.total_sends ≡ m.successful_sends + m.failed_sends

module _ {W Q : Type 0} (host : Host W) (queue : IDeadLetterQueue Q) where
  warn-metrics : (now : ℕ) (t : ResilientTransport Q) → (warn host queue now t).metrics ≡ t.metrics
  warn-metrics now t = elim (Bool-cases (ltb (t.last_dlq_warning + 10 * 1000000) now)) [
    | inl e ↦ rw e refl
    | inr e ↦ rw e refl
  ]

  note_added-IsBalanced :
      (r : Result Added) (t : ResilientTransport Q) (w : W)
      → IsBalanced t.metrics
      → IsBalanced (note_added host queue r t w).0.metrics
  note_added-IsBalanced (ok a) t w h = h
  note_added-IsBalanced (raise e) t w h = rw (warn-metrics (host.time w).0 t) h

  enqueue_on-IsBalanced :
      (d : Option Q) (entries : List LogEntryEntity) (e : Exception) (t : ResilientTransport Q)
      (w : W)
      → IsBalanced t.metrics
      → IsBalanced (enqueue_on host queue d entries e t w).0.metrics
  enqueue_on-IsBalanced none entries e t w h = h
  enqueue_on-IsBalanced (some q) entries e t w h =
      let (timestamp, w1) = host.time w in
      let (r, q') = queue.add_batch timestamp entries e.message q in
      note_added-IsBalanced r (record t { dlq = some q' }) w1 h

  settle_send-IsBalanced :
      (entries : List LogEntryEntity) (r : Result (Unit {0})) (t : ResilientTransport Q) (w : W)
      → t.metrics.total_sends ≡ t.metrics.successful_sends + t.metrics.failed_sends + 1
      → IsBalanced (settle_send host queue entries r t w).1.metrics
  unfolding settle_send enqueue_dlq
  settle_send-IsBalanced entries (ok _) t w h = omega (arith, h)
  settle_send-IsBalanced entries (raise e) t w h =
      enqueue_on-IsBalanced t.dlq entries e
        (record t { metrics = record t.metrics { failed_sends = t.metrics.failed_sends + 1 } }) w
        (omega (arith, h))

  module _ (config : ResilientTransportConfig) (limits : ResolvedCircuitBreakerConfig)
      (transport : ILogTransport W) where
    send-IsBalanced :
        (entries : List LogEntryEntity) (t : ResilientTransport Q) (w : W)
        → IsBalanced t.metrics
        → IsBalanced (send host queue config limits transport entries t w).1.metrics
    unfolding send
    send-IsBalanced [] t w h = h
    send-IsBalanced (x ∷ xs) t w h =
        let m = record t.metrics { total_sends = t.metrics.total_sends + 1 } in
        let operation = transport.send (x ∷ xs) in
        let s : Scene W = record { metrics = m; world = w } in
        let (r, b, s') =
          guarded host limits (retry_operation host config operation) t.circuit_breaker s in
        let same =
          guarded-SameSends host config limits operation t.circuit_breaker m s
            (record { total = refl; successful = refl; failed = refl; dropped = refl }) in
        settle_send-IsBalanced (x ∷ xs) r (record t { circuit_breaker = b; metrics = s'.metrics })
          s'.world (omega (arith, h, same.total, same.successful, same.failed))

    -- One batch after the other, whatever each send raises.
    unfoldable pub sends :
        List (List LogEntryEntity) → ResilientTransport Q → W → ResilientTransport Q × W
    sends [] t w = (t, w)
    sends (entries ∷ batches) t w =
        let (_, t', w') = send host queue config limits transport entries t w in sends batches t' w'

    sends-keep :
        (batches : List (List LogEntryEntity)) (t : ResilientTransport Q) (w : W)
        → IsBalanced t.metrics
        → IsBalanced (sends batches t w).0.metrics
    unfolding sends
    sends-keep [] t w h = h
    sends-keep (entries ∷ batches) t w h =
        let (_, t', w') = send host queue config limits transport entries t w in
        sends-keep batches t' w' (send-IsBalanced entries t w h)

    -- After any sequence of sends from a new transport, with or without a breaker and a dead
    -- letter queue and whatever each of them raised, the sendings counted are the successes and
    -- the failures counted.
    pub sends-IsBalanced :
        (batches : List (List LogEntryEntity)) (breaker : Option CircuitBreaker) (dlq : Option Q)
        (w : W)
        → IsBalanced (sends batches (new breaker dlq) w).0.metrics
    sends-IsBalanced batches breaker dlq w = sends-keep batches (new breaker dlq) w refl
