-- ===== src/Facade/Proxy.antt =====
-- src/logs_interceptor/__init__.py: `_GlobalLoggerProxy`. A method of the current logger takes its
-- runtime and the state `W` behind it.
use logs_interceptor_python.Base.{Option, none, some}
use logs_interceptor_python.Errors.{Result, ok, raise, runtime_error}

module _ {R W : Type 0} where
  -- `debug`, `info`, `warn`, `error`, `fatal`, `log`, `track_event`, `flush` and `aflush`: nothing
  -- without a logger
  unfoldable pub pass_on : (R → W → Result (Unit {0}) × W) → Option R → W → Result (Unit {0}) × W
  pass_on method none w = (ok tt, w)
  pass_on method (some runtime) w = method runtime w

  -- `with_context`, `get_metrics` and `get_health`: an error without a logger
  unfoldable pub ask : {A : Type 0} → (R → W → Result A × W) → Option R → W → Result A × W
  ask method none w = (raise (runtime_error "LogsInterceptor not initialized"), w)
  ask method (some runtime) w = method runtime w
