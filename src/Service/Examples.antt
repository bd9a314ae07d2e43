-- ===== src/Service/Examples.antt =====
-- A small `LogService`, and each theorem at it.
use mathlib.Core.Path.{subst}
use logs_interceptor_python.Base.{
  ℕ, ◌+◌, ◌≡◌, refl, sym, String, Bool, true, false, none, some, Option, List, [], ◌∷◌, ◌==◌,
  String_comparable,
}
use logs_interceptor_python.Base.Dict.{Dict, update, insert}
use logs_interceptor_python.Breaker.{half_open}
use logs_interceptor_python.Buffer
use logs_interceptor_python.Buffer.{empty, size}
use logs_interceptor_python.Config.{ResolvedBufferConfig, ResolvedFilterConfig}
use logs_interceptor_python.Domain.{str, LogEntryEntity}
use logs_interceptor_python.Errors.{Result, ok, raise, runtime_error}
use logs_interceptor_python.Filter.{
  should_process, is_level_enabled, has_level, any_found, should_sample,
}
use logs_interceptor_python.Filter.Safe.{IsClosedContext}
use logs_interceptor_python.Sanitize.{other, Heap}
use logs_interceptor_python.Sanitize.Clean.{IsClosed}
use logs_interceptor_python.Service.{ServiceConfig, Reading, LogService, create_log_entry, log}
use logs_interceptor_python.Service.Lifecycle.{destroy, circuit_state}
use logs_interceptor_python.Service.Lifecycle.Closes
use logs_interceptor_python.Service.Lifecycle.Closes.{sent_and_closed, IsDone, destroy-Closes}
use logs_interceptor_python.Service.Log.{Stored, log-Stored}

abbrev config : ServiceConfig
config = record {
  app_name = "shop";
  version = "1";
  environment = "test";
  labels = ("environment", "prod") ∷ [];
  enable_metrics = true;
  hostname = "host";
  pid = "7";
}

abbrev filter_config : ResolvedFilterConfig
filter_config = record {
  levels = "info" ∷ [];
  patterns = [];
  sampling_rate = 1000000;
  max_message_length = 100;
  sanitize = true;
  sensitive_patterns = [];
}

abbrev buffer_config : ResolvedBufferConfig
buffer_config = record {
  max_size = 100;
  flush_interval = 5000;
  max_age = 30000;
  auto_flush = true;
  max_memory_mb = 50;
}

abbrev reading : Reading
reading = record {
  async_context = [];
  milliseconds = 255;
  timestamp = "2024-01-01T00:00:00Z";
  dynamic = ("region", some "eu") ∷ ("bad", none) ∷ [];
  trace_id = none;
  span_id = none;
  address = 1;
  filtered_address = 2;
  now = 5;
  memory_usage = 0;
  cpu_usage = 0;
  dlq_dropped = 0;
}

abbrev service : LogService
service = record {
  destroyed = false;
  log_sequence = 0;
  last_resource_sample_at = 0;
  metrics = record {
    logs_processed = 0;
    logs_dropped = 0;
    logs_sanitized = 0;
    flush_count = 0;
    error_count = 0;
    last_flush_time = 0;
    buffer_size = 0;
    memory_usage = 0;
    cpu_usage = 0;
    dropped_by_backpressure = 0;
    dropped_by_dlq = 0;
  };
  buffer = empty buffer_config 0;
  heap = record { objects = λ a. other; next = 0 };
}

abbrev search : String → String → Bool
search pattern s = pattern == s

abbrev key_sensitive : String → Bool
key_sensitive key = key == "password"

abbrev detect : String → Bool
detect s = s == "a@b.io"

abbrev from_iso : String → Option ℕ
from_iso s = none

abbrev differs : LogEntryEntity × Heap → LogEntryEntity × Heap → Bool
differs a b = false

abbrev random : ℕ → ℕ × ℕ
random w = (w, w + 1)

heap-IsClosed : IsClosed service.heap
heap-IsClosed a less = tt

abbrev dynamic : Dict String String
dynamic = ("region", "eu") ∷ []

abbrev made : LogEntryEntity
made = create_log_entry config "info" "hello" (some (("user", str "u") ∷ [])) reading service

is_enabled : is_level_enabled filter_config "info" ≡ true
unfolding is_level_enabled has_level
is_enabled = refl

is_processed : (should_process filter_config search random made 0).0 ≡ true
unfolding should_process is_level_enabled has_level should_sample create_log_entry any_found
is_processed = refl

made_context : made.context ≡ some (("user", str "u") ∷ [])
unfolding create_log_entry update insert
made_context = refl

log-Stored_example :
    (s' : LogService) × (log config filter_config buffer_config search key_sensitive detect from_iso
        differs random "info" "hello"
        (some (("user", str "u") ∷ []))
        reading
        service
        0
      ≡ some (s', (should_process filter_config search random made 0).1))
    × Stored config filter_config buffer_config search key_sensitive detect from_iso differs reading
        made service s'
log-Stored_example =
    log-Stored config filter_config buffer_config search key_sensitive detect from_iso differs
      random "info" "hello" (some (("user", str "u") ∷ [])) reading service 0 refl heap-IsClosed
      (subst (IsClosedContext filter_config key_sensitive detect 0) (sym made_context) (tt, tt))
      refl is_enabled is_processed

-- A service with one entry, whose transport fails.
abbrev busy : LogService
busy = record service { buffer = record service.buffer { entries = made ∷ [] } }

abbrev failing : List LogEntryEntity → ℕ → Result (Unit {0}) × ℕ
failing entries w = (raise (runtime_error "down"), w + 1)

abbrev closing : ℕ → Result (Unit {0}) × ℕ
closing w = (ok tt, w + 10)

destroyed_once : (destroy config buffer_config failing closing reading busy 0).2 ≡ 11
unfolding destroy size Buffer.flush
destroyed_once = refl

destroy-Closes_example :
    let (res, s', w') = destroy config buffer_config failing closing reading busy 0 in
    Closes.IsClosed config buffer_config failing closing s'
    × ((res, w') ≡ sent_and_closed config buffer_config failing closing (made ∷ []) 0)
    × IsDone config buffer_config failing closing s'
destroy-Closes_example = destroy-Closes config buffer_config failing closing reading busy 0 refl

half_open_health :
    circuit_state (record {
      healthy = true;
      last_successful_send = none;
      consecutive_failures = 0;
      error_message = some "CircuitBreaker is HALF_OPEN";
    })
    ≡ half_open
unfolding circuit_state
half_open_health = refl
