-- ===== src/Settings/Resolve.antt =====
-- src/logs_interceptor/application/config_service.py: `ConfigService.resolve`, with the defaults. The
-- ints of the resolved configuration may still be negative.
use logs_interceptor_python.Base.{
  ℕ, String, Bool, true, false, Option, none, some, List, [], ◌∷◌, String_comparable, ◌==◌,
  if◌then◌else◌,
}
use logs_interceptor_python.Base.Dict.{Dict}
use logs_interceptor_python.Base.Text.{is_blank}
use logs_interceptor_python.Config.{ResolvedCircuitBreakerConfig}
use logs_interceptor_python.Domain.{LogLevel}
use logs_interceptor_python.Settings.Numbers.{ℤ, pos, natural, Float, one}
use logs_interceptor_python.Settings.Records.{
  CompressionSetting, TransportConfig, BufferConfig, FilterConfig, CircuitBreakerConfig,
  PerformanceConfig, DeadLetterQueueConfig, IntegrationsConfig, LogsInterceptorConfig, no_buffer,
  no_filter, no_breaker, no_performance, no_integrations,
}

pub record IntTransportConfig : Type 0 where
  pub url : String
  pub tenant_id : String
  pub auth_token : String
  pub timeout : ℤ
  pub max_retries : ℤ
  pub retry_delay : ℤ
  pub compression : String
  pub compression_level : ℤ
  pub compression_threshold : ℤ
  pub use_workers : Bool
  pub max_workers : Option ℤ
  pub worker_timeout : ℤ
  pub enable_connection_pooling : Bool
  pub max_sockets : ℤ

pub record IntBufferConfig : Type 0 where
  pub max_size : ℤ
  pub flush_interval : ℤ
  pub max_age : ℤ
  pub auto_flush : Bool
  pub max_memory_mb : ℤ

pub record IntFilterConfig : Type 0 where
  pub levels : List LogLevel
  pub patterns : List String
  pub sampling_rate : Float
  pub max_message_length : ℤ
  pub sanitize : Bool
  pub sensitive_patterns : List String

pub record IntCircuitBreakerConfig : Type 0 where
  pub enabled : Bool
  pub failure_threshold : ℤ
  pub reset_timeout : ℤ
  pub half_open_requests : ℤ

pub record IntPerformanceConfig : Type 0 where
  pub use_workers : Bool
  pub max_concurrent_flushes : ℤ
  pub compression_level : ℤ
  pub max_workers : Option ℤ
  pub worker_timeout : ℤ

pub record IntLogsInterceptorConfig : Type 0 where
  pub transport : IntTransportConfig
  pub app_name : String
  pub version : String
  pub environment : String
  pub labels : Dict String String
  pub dynamic_labels : Dict String ℕ
  pub buffer : IntBufferConfig
  pub filter : IntFilterConfig
  pub circuit_breaker : IntCircuitBreakerConfig
  pub integrations : IntegrationsConfig
  pub performance : IntPerformanceConfig
  pub dead_letter_queue : Option DeadLetterQueueConfig
  pub enable_metrics : Bool
  pub enable_health_check : Bool
  pub intercept_console : Bool
  pub preserve_original_console : Bool
  pub debug : Bool
  pub silent_errors : Bool

abbrev pub default_levels : List LogLevel
default_levels = "debug" ∷ "info" ∷ "warn" ∷ "error" ∷ "fatal" ∷ []

abbrev pub default_sensitive_patterns : List String
default_sensitive_patterns =
    "password" ∷ "token" ∷ "secret" ∷ "api[_-]?key" ∷ "authorization" ∷ "credit[_-]?card" ∷ "ssn"
    ∷ "cpf" ∷ []

-- `default if value is None else value`
abbrev pub or_default {ℓ} : {A : Type ℓ} → A → Option A → A
or_default default none = default
or_default default (some z) = z

-- `value or default`, of a text and of a list
abbrev pub or_text : String → Option String → String
or_text default none = default
or_text default (some s) = if is_blank s then default else s

abbrev pub or_list {ℓ} : {A : Type ℓ} → List A → Option (List A) → List A
or_list default none = default
or_list default (some []) = default
or_list default (some (x ∷ xs)) = x ∷ xs

unfoldable pub resolve_compression : Option CompressionSetting → String
resolve_compression none = "gzip"
resolve_compression (some (CompressionSetting.flag true)) = "gzip"
resolve_compression (some (CompressionSetting.flag false)) = "none"
resolve_compression (some (CompressionSetting.name s)) =
    if s == "none"
    then "none"
    else if s == "brotli"
    then "brotli"
    else if s == "snappy"
    then "snappy"
    else "gzip"

-- a field of `performance`, if there is that section
abbrev pub of_performance :
    {A : Type 0} → (PerformanceConfig → Option A) → Option PerformanceConfig → Option A
of_performance field none = none
of_performance field (some p) = field p

-- `transport` first, then `performance`
abbrev pub or_else {ℓ} : {A : Type ℓ} → Option A → Option A → Option A
or_else none o = o
or_else (some a) o = some a

unfoldable pub resolve_transport : TransportConfig → Option PerformanceConfig → IntTransportConfig
unfolding resolve_compression
resolve_transport t performance = record {
  url = t.url;
  tenant_id = t.tenant_id;
  auth_token = or_text "" t.auth_token;
  timeout = or_default (pos 10000) t.timeout;
  max_retries = or_default (pos 3) t.max_retries;
  retry_delay = or_default (pos 1000) t.retry_delay;
  compression = resolve_compression t.compression;
  compression_level =
      or_default (pos 6)
        (or_else t.compression_level (of_performance (λ p. p.compression_level) performance));
  compression_threshold = or_default (pos 1024) t.compression_threshold;
  use_workers =
      or_default true (or_else t.use_workers (of_performance (λ p. p.use_workers) performance));
  max_workers = or_else t.max_workers (of_performance (λ p. p.max_workers) performance);
  worker_timeout =
      or_default (pos 30000)
        (or_else t.worker_timeout (of_performance (λ p. p.worker_timeout) performance));
  enable_connection_pooling = or_default true t.enable_connection_pooling;
  max_sockets = or_default (pos 50) t.max_sockets;
}

unfoldable pub resolve_buffer : Option BufferConfig → IntBufferConfig
resolve_buffer buffer =
    let source = or_default no_buffer buffer in
    record {
      max_size = or_default (pos 100) source.max_size;
      flush_interval = or_default (pos 5000) source.flush_interval;
      max_age = or_default (pos 30000) source.max_age;
      auto_flush = or_default true source.auto_flush;
      max_memory_mb = or_default (pos 50) source.max_memory_mb;
    }

unfoldable pub resolve_filter : Option FilterConfig → IntFilterConfig
resolve_filter filter_cfg =
    let source = or_default no_filter filter_cfg in
    record {
      levels = or_list default_levels source.levels;
      patterns = or_list [] source.patterns;
      sampling_rate = or_default one source.sampling_rate;
      max_message_length = or_default (pos 8192) source.max_message_length;
      sanitize = or_default true source.sanitize;
      sensitive_patterns = or_list default_sensitive_patterns source.sensitive_patterns;
    }

unfoldable pub resolve_circuit_breaker : Option CircuitBreakerConfig → IntCircuitBreakerConfig
resolve_circuit_breaker circuit_breaker =
    let source = or_default no_breaker circuit_breaker in
    record {
      enabled = or_default true source.enabled;
      failure_threshold = or_default (pos 50) source.failure_threshold;
      reset_timeout = or_default (pos 30000) source.reset_timeout;
      half_open_requests = or_default (pos 3) source.half_open_requests;
    }

unfoldable pub resolve_performance : Option PerformanceConfig → IntPerformanceConfig
resolve_performance performance =
    let source = or_default no_performance performance in
    record {
      use_workers = or_default true source.use_workers;
      max_concurrent_flushes = or_default (pos 3) source.max_concurrent_flushes;
      compression_level = or_default (pos 6) source.compression_level;
      max_workers = source.max_workers;
      worker_timeout = or_default (pos 30000) source.worker_timeout;
    }

unfoldable pub resolve : LogsInterceptorConfig → IntLogsInterceptorConfig
unfolding resolve_transport resolve_buffer resolve_filter resolve_circuit_breaker
    resolve_performance
resolve c = record {
  transport = resolve_transport c.transport c.performance;
  app_name = c.app_name;
  version = or_text "1.0.0" c.version;
  environment = or_text "production" c.environment;
  labels = or_list [] c.labels;
  dynamic_labels = or_list [] c.dynamic_labels;
  buffer = resolve_buffer c.buffer;
  filter = resolve_filter c.filter;
  circuit_breaker = resolve_circuit_breaker c.circuit_breaker;
  integrations = or_default no_integrations c.integrations;
  performance = resolve_performance c.performance;
  dead_letter_queue = c.dead_letter_queue;
  enable_metrics = or_default true c.enable_metrics;
  enable_health_check = or_default true c.enable_health_check;
  intercept_console = or_default false c.intercept_console;
  preserve_original_console = or_default true c.preserve_original_console;
  debug = or_default false c.debug;
  silent_errors = or_default false c.silent_errors;
}

-- The resolved section as the circuit breaker reads it.
abbrev pub breaker_config : IntCircuitBreakerConfig → ResolvedCircuitBreakerConfig
breaker_config c = record {
  enabled = c.enabled;
  failure_threshold = natural c.failure_threshold;
  reset_timeout = natural c.reset_timeout;
  half_open_requests = natural c.half_open_requests;
}
