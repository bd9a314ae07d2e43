-- ===== src/Service/Lifecycle/Health.antt =====
-- What `get_health` says of the circuit breaker of a resilient transport.
use logs_interceptor_python.Base.{◌≡◌, refl, true, false, some, if◌then◌else◌, arith}
use logs_interceptor_python.Breaker.{CircuitBreaker, CircuitBreakerState, closed, opened, half_open}
use logs_interceptor_python.Interfaces.{TransportHealth, ILogTransport}
use logs_interceptor_python.Resilient
use logs_interceptor_python.Resilient.{ResilientTransport}
use logs_interceptor_python.Service.Lifecycle.{mentions_half_open, circuit_state}

-- A healthy transport does not speak of a breaker that is half open.
abbrev pub IsQuiet : TransportHealth → Type 0
IsQuiet h = h.healthy ≡ true → mentions_half_open h.error_message ≡ false

circuit_state-quiet :
    (h : TransportHealth) → IsQuiet h → circuit_state h ≡ (if h.healthy then closed else opened)
unfolding circuit_state
circuit_state-quiet h quiet = ground arith

-- The state of the breaker, but that a closed one counts as open if the transport is unhealthy.
abbrev pub shown : CircuitBreakerState → TransportHealth → CircuitBreakerState
shown closed behind = if behind.healthy then closed else opened
shown opened behind = opened
shown half_open behind = half_open

circuit_state-health_behind :
    {W : Type 0} (transport : ILogTransport W) (state : CircuitBreakerState) (b : CircuitBreaker)
    (w : W)
    → IsQuiet (transport.get_health w).0
    → circuit_state (Resilient.health_behind transport state b w).0
      ≡ shown state (transport.get_health w).0
unfolding circuit_state
circuit_state-health_behind transport closed b w quiet =
    circuit_state-quiet (transport.get_health w).0 quiet
circuit_state-health_behind transport opened b w quiet = refl
circuit_state-health_behind transport half_open b w quiet = refl

-- Over a resilient transport with a circuit breaker, whose wrapped transport does not say
-- HALF_OPEN of itself while it is healthy, the health of the service shows the state of the
-- breaker, but that a closed breaker is shown as open while the wrapped transport is unhealthy.
pub circuit_state-get_health :
    {W Q : Type 0} (transport : ILogTransport W) (t : ResilientTransport Q) (b : CircuitBreaker)
    (w : W)
    → t.circuit_breaker ≡ some b
    → IsQuiet (transport.get_health w).0
    → circuit_state (Resilient.get_health transport t w).0
      ≡ shown b.state (transport.get_health w).0
unfolding Resilient.get_health
circuit_state-get_health transport t b w e quiet =
    rw e (circuit_state-health_behind transport b.state b w quiet)
