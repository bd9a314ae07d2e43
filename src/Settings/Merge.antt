-- ===== src/Settings/Merge.antt =====
-- src/logs_interceptor/utils.py: `merge_configs`, the caller's configuration over that of the
-- environment, and `_merge_dataclass` for each class that it is called with.
pub mod Accepted
pub mod Refused
use logs_interceptor_python.Base.{
  String, Option, none, some, String_comparable, [], ◌∷◌, if◌then◌else◌,
}
use logs_interceptor_python.Base.Dict.{Dict, update}
use logs_interceptor_python.Base.Text.{is_blank}
use logs_interceptor_python.Settings.Records.{
  TransportConfig, BufferConfig, FilterConfig, CircuitBreakerConfig, PerformanceConfig,
  DeadLetterQueueConfig, IntegrationsConfig, LogsInterceptorConfig,
}
use logs_interceptor_python.Settings.Resolve.{or_else, or_list}

-- `_merge_dataclass`, but for the merging of the fields of two objects
abbrev pub merge_optional : {A : Type 0} → (A → A → A) → Option A → Option A → Option A
merge_optional merge none user = user
merge_optional merge (some env) none = some env
merge_optional merge (some env) (some user) = some (merge env user)

-- `user_value if user_value is not None else env_value`, field by field. A text is never None.
unfoldable pub merge_transport : TransportConfig → TransportConfig → TransportConfig
merge_transport env user = record {
  url = user.url;
  tenant_id = user.tenant_id;
  auth_token = or_else user.auth_token env.auth_token;
  timeout = or_else user.timeout env.timeout;
  max_retries = or_else user.max_retries env.max_retries;
  retry_delay = or_else user.retry_delay env.retry_delay;
  compression = or_else user.compression env.compression;
  compression_level = or_else user.compression_level env.compression_level;
  compression_threshold = or_else user.compression_threshold env.compression_threshold;
  use_workers = or_else user.use_workers env.use_workers;
  max_workers = or_else user.max_workers env.max_workers;
  worker_timeout = or_else user.worker_timeout env.worker_timeout;
  enable_connection_pooling = or_else user.enable_connection_pooling env.enable_connection_pooling;
  max_sockets = or_else user.max_sockets env.max_sockets;
}

unfoldable pub merge_buffer : BufferConfig → BufferConfig → BufferConfig
merge_buffer env user = record {
  max_size = or_else user.max_size env.max_size;
  flush_interval = or_else user.flush_interval env.flush_interval;
  max_age = or_else user.max_age env.max_age;
  auto_flush = or_else user.auto_flush env.auto_flush;
  max_memory_mb = or_else user.max_memory_mb env.max_memory_mb;
}

unfoldable pub merge_filter : FilterConfig → FilterConfig → FilterConfig
merge_filter env user = record {
  levels = or_else user.levels env.levels;
  patterns = or_else user.patterns env.patterns;
  sampling_rate = or_else user.sampling_rate env.sampling_rate;
  max_message_length = or_else user.max_message_length env.max_message_length;
  sanitize = or_else user.sanitize env.sanitize;
  sensitive_patterns = or_else user.sensitive_patterns env.sensitive_patterns;
}

unfoldable pub merge_circuit_breaker :
    CircuitBreakerConfig → CircuitBreakerConfig → CircuitBreakerConfig
merge_circuit_breaker env user = record {
  enabled = or_else user.enabled env.enabled;
  failure_threshold = or_else user.failure_threshold env.failure_threshold;
  reset_timeout = or_else user.reset_timeout env.reset_timeout;
  half_open_requests = or_else user.half_open_requests env.half_open_requests;
}

unfoldable pub merge_integrations : IntegrationsConfig → IntegrationsConfig → IntegrationsConfig
merge_integrations env user = record {
  winston = or_else user.winston env.winston;
  morgan = or_else user.morgan env.morgan;
}

unfoldable pub merge_performance : PerformanceConfig → PerformanceConfig → PerformanceConfig
merge_performance env user = record {
  use_workers = or_else user.use_workers env.use_workers;
  max_concurrent_flushes = or_else user.max_concurrent_flushes env.max_concurrent_flushes;
  compression_level = or_else user.compression_level env.compression_level;
  max_workers = or_else user.max_workers env.max_workers;
  worker_timeout = or_else user.worker_timeout env.worker_timeout;
}

unfoldable pub merge_dead_letter_queue :
    DeadLetterQueueConfig → DeadLetterQueueConfig → DeadLetterQueueConfig
merge_dead_letter_queue env user = record {
  enabled = or_else user.enabled env.enabled;
  type = or_else user.type env.type;
  max_size = or_else user.max_size env.max_size;
  max_file_size_mb = or_else user.max_file_size_mb env.max_file_size_mb;
  max_retries = or_else user.max_retries env.max_retries;
  base_path = or_else user.base_path env.base_path;
}

-- `user or env`, of optional texts
abbrev pub first_text : Option String → Option String → Option String
first_text none env = env
first_text (some s) env = if is_blank s then env else some s

-- `d or None`
abbrev pub none_if_empty : {V : Type 0} → Dict String V → Option (Dict String V)
none_if_empty [] = none
none_if_empty (x ∷ d) = some (x ∷ d)

-- `{**(env or {}), **(user or {})} or None`
unfoldable pub merge_dicts :
    {V : Type 0} → Option (Dict String V) → Option (Dict String V) → Option (Dict String V)
merge_dicts env user = none_if_empty (update (or_list [] env) (or_list [] user))

unfoldable pub merge_configs : LogsInterceptorConfig → LogsInterceptorConfig → LogsInterceptorConfig
unfolding merge_transport merge_buffer merge_filter merge_circuit_breaker merge_integrations
    merge_performance merge_dead_letter_queue merge_dicts
merge_configs user env = record {
  transport = merge_transport env.transport user.transport;
  app_name = if is_blank user.app_name then env.app_name else user.app_name;
  version = first_text user.version env.version;
  environment = first_text user.environment env.environment;
  labels = merge_dicts env.labels user.labels;
  dynamic_labels = merge_dicts env.dynamic_labels user.dynamic_labels;
  buffer = merge_optional merge_buffer env.buffer user.buffer;
  filter = merge_optional merge_filter env.filter user.filter;
  circuit_breaker = merge_optional merge_circuit_breaker env.circuit_breaker user.circuit_breaker;
  integrations = merge_optional merge_integrations env.integrations user.integrations;
  performance = merge_optional merge_performance env.performance user.performance;
  dead_letter_queue =
      merge_optional merge_dead_letter_queue env.dead_letter_queue user.dead_letter_queue;
  enable_metrics = or_else user.enable_metrics env.enable_metrics;
  enable_health_check = or_else user.enable_health_check env.enable_health_check;
  intercept_console = or_else user.intercept_console env.intercept_console;
  preserve_original_console = or_else user.preserve_original_console env.preserve_original_console;
  debug = or_else user.debug env.debug;
  silent_errors = or_else user.silent_errors env.silent_errors;
}
