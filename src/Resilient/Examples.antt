-- ===== src/Resilient/Examples.antt =====
-- A scripted world, and each theorem about `ResilientTransport` in it.
use logs_interceptor_python.Base.{
  ℕ, ◌+◌, ◌≡◌, refl, true, false, none, some, Option, List, [], ◌∷◌, arith,
}
use logs_interceptor_python.Breaker
use logs_interceptor_python.Breaker.{CircuitBreaker, closed, opened, open_error}
use logs_interceptor_python.Config.{ResolvedCircuitBreakerConfig}
use logs_interceptor_python.Dlq.Memory
use logs_interceptor_python.Dlq.Memory.{MemoryDeadLetterQueue, IsBounded}
use logs_interceptor_python.Domain.{LogEntryEntity}
use logs_interceptor_python.Errors.{Result, ok, raise, runtime_error}
use logs_interceptor_python.Interfaces.{Host, ILogTransport}
use logs_interceptor_python.Resilient
use logs_interceptor_python.Resilient.{
  ResilientTransportConfig, ResilientTransport, Scene, new, no_metrics, retry_operation,
  enqueue_dlq, send,
}
use logs_interceptor_python.Resilient.Balance.{IsBalanced, sends, sends-IsBalanced}
use logs_interceptor_python.Resilient.Queues.{memory_dlq}
use logs_interceptor_python.Resilient.Retry.{Runs, retry_operation-Runs}
use logs_interceptor_python.Resilient.Send.{Settled, send-Settled}
use logs_interceptor_python.Service.Lifecycle.{circuit_state}
use logs_interceptor_python.Service.Lifecycle.Health.{shown, circuit_state-get_health}

-- The clock, what the next sends do, and the sleeps so far, newest first.
record World : Type 0 where
  clock : ℕ
  script : List (Result (Unit {0}))
  sleeps : List ℕ

abbrev host : Host World
host = record {
  time = λ w. (w.clock, record w { clock = w.clock + 1 });
  sleep = λ ms w. record w { sleeps = ms ∷ w.sleeps };
  randint = λ w. (7, w);
}

abbrev next : List (Result (Unit {0})) → World → Result (Unit {0}) × World
next [] w = (ok tt, w)
next (r ∷ rest) w = (r, record w { script = rest })

abbrev transport : ILogTransport World
transport = record {
  send = λ entries w. next w.script w;
  is_available = λ w. (true, w);
  get_health = λ w. (
    record {
      healthy = true;
      last_successful_send = none;
      consecutive_failures = 0;
      error_message = none;
    },
    w,
  );
  get_metrics = λ w. (none, w);
  destroy = λ w. w;
}

abbrev entry : LogEntryEntity
entry = record {
  address = 1;
  id = "id";
  timestamp = "2024-01-01T00:00:00Z";
  level = "info";
  message = "hello";
  context = none;
  trace_id = none;
  span_id = none;
  request_id = none;
  labels = none;
  metadata = none;
}

abbrev config : ResilientTransportConfig
config = record { max_retries = 2; retry_delay = 100 }

abbrev limits : ResolvedCircuitBreakerConfig
limits = record { enabled = true; failure_threshold = 2; reset_timeout = 1; half_open_requests = 1 }

abbrev timeout : Result (Unit {0})
timeout = raise (runtime_error "Read Timeout")

abbrev world : List (Result (Unit {0})) → World
world script = record { clock = 10; script = script; sleeps = [] }

abbrev scene : Scene World
scene = record { metrics = no_metrics; world = world (timeout ∷ timeout ∷ ok tt ∷ []) }

abbrev operation : World → Result (Unit {0}) × World
operation w = transport.send (entry ∷ []) w

retry_operation-Runs_example :
    (k : ℕ) × Runs host config operation 2 0 false scene k
      (retry_operation host config operation scene)
retry_operation-Runs_example = retry_operation-Runs host config operation scene

abbrev dlq : MemoryDeadLetterQueue
dlq = Memory.new 3

abbrev behind : Option CircuitBreaker → ResilientTransport MemoryDeadLetterQueue
behind breaker = new breaker (some dlq)

send-Settled_example :
    let t = behind (some Breaker.new) in
    let (r, t', _) =
      send host memory_dlq config limits transport
        (entry ∷ [])
        t
        (world (timeout ∷ timeout ∷ timeout ∷ [])) in
    (t'.metrics.total_sends ≡ 1) × Settled memory_dlq (entry ∷ []) r dlq t t'
send-Settled_example =
    send-Settled host memory_dlq config limits transport (entry ∷ []) (behind (some Breaker.new))
      (world (timeout ∷ timeout ∷ timeout ∷ [])) dlq (λ e. cc) refl
      (record { room = omega arith; bounded = omega arith })

sends-IsBalanced_example :
    IsBalanced
      (sends host memory_dlq config limits transport
        ((entry ∷ []) ∷ [] ∷ (entry ∷ []) ∷ [])
        (new (some Breaker.new) (some dlq))
        (world (timeout ∷ timeout ∷ timeout ∷ []))).0.metrics
sends-IsBalanced_example =
    sends-IsBalanced host memory_dlq config limits transport ((entry ∷ []) ∷ [] ∷ (entry ∷ []) ∷ [])
      (some Breaker.new) (some dlq) (world (timeout ∷ timeout ∷ timeout ∷ []))

circuit_state-get_health_example :
    circuit_state (Resilient.get_health transport (behind (some Breaker.new)) (world [])).0
    ≡ shown closed (transport.get_health (world [])).0
circuit_state-get_health_example =
    circuit_state-get_health transport (behind (some Breaker.new)) Breaker.new (world []) refl
      (λ healthy. refl)
