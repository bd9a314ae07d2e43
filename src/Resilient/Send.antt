-- ===== src/Resilient/Send.antt =====
-- `send`: what it counts, and where the entries of a failed batch go.
use mathlib.Core.Path.{subst}
use logs_interceptor_python.Base.{
  length-map, String, ℕ, ◌+◌, ◌≡◌, ◌≢◌, refl, sym, ◌∙◌, ap, Option, none, some, List, [], ◌∷◌, ◌++◌,
  map, length, length-append, last_n, arith,
}
use logs_interceptor_python.Breaker.{CircuitBreaker}
use logs_interceptor_python.Breaker.Keeps.{execute-keeps}
use logs_interceptor_python.Config.{ResolvedCircuitBreakerConfig}
use logs_interceptor_python.Dlq.{Added, make_item}
use logs_interceptor_python.Domain.{LogEntryEntity}
use logs_interceptor_python.Errors.{Exception, Result, ok, raise}
use logs_interceptor_python.Interfaces.{Host, TransportMetrics, ILogTransport, IDeadLetterQueue}
use logs_interceptor_python.Resilient.{
  ResilientTransportConfig, ResilientTransport, Scene, retry_operation, guarded, time_beside,
  note_added, enqueue_on, enqueue_dlq, settle_send, send,
}
use logs_interceptor_python.Resilient.Retry.{retry_operation-Runs}

-- The counts that retries leave alone.
pub record SameSends (m m' : TransportMetrics) : Type 0 where
  pub total : m'.total_sends ≡ m.total_sends
  pub successful : m'.successful_sends ≡ m.successful_sends
  pub failed : m'.failed_sends ≡ m.failed_sends
  pub dropped : m'.dlq_dropped_entries ≡ m.dlq_dropped_entries

module _ {W : Type 0} (host : Host W) (config : ResilientTransportConfig)
    (limits : ResolvedCircuitBreakerConfig) where
  retry_operation-SameSends :
      (operation : W → Result (Unit {0}) × W) (m : TransportMetrics) (s : Scene W)
      → SameSends m s.metrics
      → SameSends m (retry_operation host config operation s).1.metrics
  retry_operation-SameSends operation m s h =
      let (k, runs) = retry_operation-Runs host config operation s in
      let e = runs.metrics in
      record {
        total = ap (λ x. x.total_sends) e ∙ h.total;
        successful = ap (λ x. x.successful_sends) e ∙ h.successful;
        failed = ap (λ x. x.failed_sends) e ∙ h.failed;
        dropped = ap (λ x. x.dlq_dropped_entries) e ∙ h.dropped;
      }

  pub guarded-SameSends :
      (operation : W → Result (Unit {0}) × W) (b : Option CircuitBreaker) (m : TransportMetrics)
      (s : Scene W)
      → SameSends m s.metrics
      → SameSends m (guarded host limits (retry_operation host config operation) b s).2.metrics
  unfolding guarded
  guarded-SameSends operation none m s h = retry_operation-SameSends operation m s h
  guarded-SameSends operation (some b) m s h =
      execute-keeps limits (time_beside host) (λ u. SameSends m u.metrics) (λ u k. k)
        (retry_operation host config operation) (retry_operation-SameSends operation m) b s h

-- What `send` has done with a batch, by how it ended.
module _ {Q : Type 0} (queue : IDeadLetterQueue Q) (entries : List LogEntryEntity) where
  abbrev Delivered : ResilientTransport Q → ResilientTransport Q → Type 0
  Delivered t t' =
      (t'.metrics.successful_sends ≡ t.metrics.successful_sends + 1)
      × (t'.metrics.failed_sends ≡ t.metrics.failed_sends)
      × (t'.metrics.dlq_dropped_entries ≡ t.metrics.dlq_dropped_entries)
      × (t'.dlq ≡ t.dlq)

  -- `q` and `q'` are the queue before and after.
  abbrev Kept : String → Q → ResilientTransport Q → ResilientTransport Q → Type 0
  Kept reason q t t' =
      (timestamp : ℕ) × (q' : Q) × (t'.dlq ≡ some q')
      × queue.IsReady q'
      × (queue.held q'
          ≡ last_n (length (queue.held q'))
              (queue.held q ++ map (make_item timestamp reason) entries))
      × (t'.metrics.dlq_dropped_entries + length (queue.held q')
          ≡ t.metrics.dlq_dropped_entries + (length (queue.held q) + length entries))

  abbrev pub Settled : Result (Unit {0}) → Q → ResilientTransport Q → ResilientTransport Q → Type 0
  Settled (ok _) q t t' = Delivered t t'
  Settled (raise e) q t t' =
      (t'.metrics.successful_sends ≡ t.metrics.successful_sends)
      × (t'.metrics.failed_sends ≡ t.metrics.failed_sends + 1)
      × Kept e.message q t t'

Settled-before :
    {Q : Type 0} (queue : IDeadLetterQueue Q) (entries : List LogEntryEntity)
    (r : Result (Unit {0})) (q : Q) (t u t' : ResilientTransport Q)
    → SameSends (record t.metrics { total_sends = t.metrics.total_sends + 1 }) u.metrics
    → u.dlq ≡ t.dlq
    → Settled queue entries r q u t'
    → Settled queue entries r q t t'
Settled-before queue entries (ok _) q t u t' same dlq (successful, failed, dropped, queued) = (
  omega (arith, successful, same.successful),
  failed ∙ same.failed,
  dropped ∙ same.dropped,
  queued ∙ dlq,
)
Settled-before queue entries (raise e) q t u t' same dlq
      (successful, failed, (timestamp, q', here, ready, newest, count)) =
    (
      successful ∙ same.successful,
      omega (arith, failed, same.failed),
      (timestamp, q', here, ready, newest, omega (arith, count, same.dropped)),
    )

module _ {W Q : Type 0} (host : Host W) (queue : IDeadLetterQueue Q) where
  enqueue_dlq_took :
      (entries : List LogEntryEntity) (e : Exception) (t : ResilientTransport Q) (w : W) (q : Q)
      (a : Added)
      → t.dlq ≡ some q
      → (queue.add_batch (host.time w).0 entries e.message q).0 ≡ ok a
      → let n = t.metrics.dlq_dropped_entries + a.dropped in
        (enqueue_dlq host queue entries e t w).0 ≡ record t {
          dlq = some (queue.add_batch (host.time w).0 entries e.message q).1;
          metrics = record t.metrics { dlq_dropped_entries = n };
        }
  unfolding enqueue_dlq
  enqueue_dlq_took entries e t w q a here ran =
      let q' = (queue.add_batch (host.time w).0 entries e.message q).1 in
      let t' = record t { dlq = some q' } in
      ap (λ d. (enqueue_on host queue d entries e t w).0) here
      ∙ ap (λ r. (note_added host queue r t' (host.time w).1).0) ran

  abbrev Enqueued :
      List LogEntryEntity → String → Q → ResilientTransport Q → ResilientTransport Q → Type 0
  Enqueued entries reason q t t' =
      (t'.metrics.total_sends ≡ t.metrics.total_sends)
      × (t'.metrics.successful_sends ≡ t.metrics.successful_sends)
      × (t'.metrics.failed_sends ≡ t.metrics.failed_sends)
      × Kept queue entries reason q t t'

  enqueue_dlq-Enqueued :
      (entries : List LogEntryEntity) (e : Exception) (t : ResilientTransport Q) (w : W) (q : Q)
      → t.dlq ≡ some q
      → queue.IsReady q
      → Enqueued entries e.message q t (enqueue_dlq host queue entries e t w).0
  enqueue_dlq-Enqueued entries e t w q here ready =
      let timestamp = (host.time w).0 in
      let ((a, ran, count), newest, ready') = queue.takes timestamp entries e.message q ready in
      let items = map (make_item timestamp e.message) entries in
      let size : length (queue.held q ++ items) ≡ length (queue.held q) + length entries =
        length-append (queue.held q) items
        ∙ ap (◌+◌ (length (queue.held q))) (length-map (make_item timestamp e.message) entries) in
      subst (Enqueued entries e.message q t) (sym (enqueue_dlq_took entries e t w q a here ran))
        (refl, refl, refl, (timestamp, _, refl, ready', newest, omega (arith, count, size)))

  settle_send-Settled :
      (entries : List LogEntryEntity) (r : Result (Unit {0})) (t : ResilientTransport Q) (w : W)
      (q : Q)
      → t.dlq ≡ some q
      → queue.IsReady q
      → let (r', t', _) = settle_send host queue entries r t w in
        (r' ≡ r) × (t'.metrics.total_sends ≡ t.metrics.total_sends) × Settled queue entries r q t t'
  unfolding settle_send
  settle_send-Settled entries (ok _) t w q here ready = (refl, refl, (refl, refl, refl, refl))
  settle_send-Settled entries (raise e) t w q here ready =
      let t1 = record t {
        metrics = record t.metrics { failed_sends = t.metrics.failed_sends + 1 };
      } in
      let (total, successful, failed, kept) = enqueue_dlq-Enqueued entries e t1 w q here ready in
      (refl, total, (successful, failed, kept))

  module _ (config : ResilientTransportConfig) (limits : ResolvedCircuitBreakerConfig)
      (transport : ILogTransport W) where
    -- With a dead letter queue that is ready, a `send` of a batch that is not empty counts one
    -- more sending and either returns, having counted one more success and left the dead letter
    -- queue alone, or raises, having counted one more failure and handed the whole batch with the
    -- text of the error to the queue, which holds the newest of what it held and the batch, the
    -- others being counted as dropped.
    pub send-Settled :
        (entries : List LogEntryEntity) (t : ResilientTransport Q) (w : W) (q : Q)
        → entries ≢ []
        → t.dlq ≡ some q
        → queue.IsReady q
        → let (r, t', _) = send host queue config limits transport entries t w in
          (t'.metrics.total_sends ≡ t.metrics.total_sends + 1) × Settled queue entries r q t t'
    unfolding send
    send-Settled [] t w q some_entry here ready = absurd (some_entry refl)
    send-Settled (x ∷ xs) t w q some_entry here ready =
        let m = record t.metrics { total_sends = t.metrics.total_sends + 1 } in
        let operation = transport.send (x ∷ xs) in
        let s : Scene W = record { metrics = m; world = w } in
        let (r, b, s') =
          guarded host limits (retry_operation host config operation) t.circuit_breaker s in
        let same =
          guarded-SameSends host config limits operation t.circuit_breaker m s
            (record { total = refl; successful = refl; failed = refl; dropped = refl }) in
        let t1 = record t { circuit_breaker = b; metrics = s'.metrics } in
        let (back, total, settled) = settle_send-Settled (x ∷ xs) r t1 s'.world q here ready in
        (
          total ∙ same.total,
          subst
              (λ r'.
                Settled queue (x ∷ xs) r' q t (settle_send host queue (x ∷ xs) r t1 s'.world).1)
              (sym back) (Settled-before queue (x ∷ xs) r q t t1 _ same refl settled),
        )
