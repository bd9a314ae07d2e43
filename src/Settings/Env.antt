-- ===== src/Settings/Env.antt =====
-- src/logs_interceptor/utils.py: `load_config_from_env`. `environ` is `os.environ`, `cwd` the current
-- directory.
pub mod Ranges
pub mod Switch
use logs_interceptor_python.Base.{
  String, Bool, true, false, not, ◌&&◌, ◌||◌, Option, none, some, List, [], ◌∷◌, String_comparable,
  ◌==◌, if◌then◌else◌,
}
use logs_interceptor_python.Base.Dict.{Dict, lookup, insert}
use logs_interceptor_python.Base.Text.{is_blank, lower_text, split_on, remove_prefix}
use logs_interceptor_python.Domain.{LogLevel}
use logs_interceptor_python.Settings.Numbers.{ℤ, pos, Float, one, zero_float}
use logs_interceptor_python.Settings.Parse.{
  parse_bool, parse_int_range, parse_float_range, valid_levels,
}
use logs_interceptor_python.Settings.Records.{
  CompressionSetting, TransportConfig, BufferConfig, FilterConfig, CircuitBreakerConfig,
  PerformanceConfig, DeadLetterQueueConfig, LogsInterceptorConfig, no_filter, no_integrations,
  no_config,
}
use logs_interceptor_python.Settings.Resolve.{or_default, or_text}

unfoldable pub env_levels : Option String → List LogLevel
unfolding valid_levels split_on
env_levels value = valid_levels (split_on b',' (or_text "debug,info,warn,error,fatal" value))

-- `if key.startswith("LOGS_LABEL_") and value: ...`
abbrev pub label_named : Option String → String → Dict String String → Dict String String
label_named none value labels = labels
label_named (some label) value labels =
    if is_blank value then labels else insert (lower_text label) value labels

-- the loop over the variables
unfoldable pub env_labels : Dict String String → Dict String String → Dict String String
unfolding insert remove_prefix lower_text
env_labels [] labels = labels
env_labels (item ∷ items) labels =
    env_labels items (label_named (remove_prefix "LOGS_LABEL_" item.0) item.1 labels)

unfoldable pub env_compression : Option String → String
unfolding lower_text
env_compression value =
    let raw = lower_text (or_text "gzip" value) in
    if raw == "none" || raw == "gzip" || raw == "brotli" || raw == "snappy" then raw else "gzip"

unfoldable pub env_dlq_type : Option String → String
unfolding lower_text
env_dlq_type value =
    let raw = lower_text (or_text "memory" value) in
    if raw == "memory" || raw == "file" then raw else "memory"

-- the configuration of `LOGS_ENABLED=false`
abbrev pub disabled_config : LogsInterceptorConfig
disabled_config = record no_config { filter = some (record no_filter { levels = some [] }) }

module _ (to_float : String → Option Float) (cwd : String) (environ : Dict String String) where
  abbrev pub get : String → Option String
  get name = lookup name environ

  abbrev pub bool_of : String → Bool → Option Bool
  bool_of name default = some (parse_bool (get name) default)

  abbrev pub int_of : String → ℤ → ℤ → ℤ → Option ℤ
  int_of name default low high = some (parse_int_range (get name) default low high)

  unfoldable pub env_transport : TransportConfig
  unfolding env_compression
  env_transport = record {
    url = or_default "" (get "LOGS_URL");
    tenant_id = or_default "" (get "LOGS_TENANT");
    auth_token = get "LOGS_TOKEN";
    timeout = int_of "LOGS_TIMEOUT" (pos 10000) (pos 0) (pos 600000);
    max_retries = int_of "LOGS_MAX_RETRIES" (pos 3) (pos 0) (pos 20);
    retry_delay = int_of "LOGS_RETRY_DELAY" (pos 1000) (pos 0) (pos 120000);
    compression = some (CompressionSetting.name (env_compression (get "LOGS_COMPRESSION")));
    compression_level = int_of "LOGS_COMPRESSION_LEVEL" (pos 6) (pos 0) (pos 11);
    compression_threshold = int_of "LOGS_COMPRESSION_THRESHOLD" (pos 1024) (pos 0) (pos 2147483647);
    use_workers = bool_of "LOGS_USE_WORKERS" true;
    max_workers = int_of "LOGS_MAX_WORKERS" (pos 2) (pos 1) (pos 64);
    worker_timeout = int_of "LOGS_WORKER_TIMEOUT" (pos 30000) (pos 1000) (pos 300000);
    enable_connection_pooling = bool_of "LOGS_CONNECTION_POOLING" true;
    max_sockets = int_of "LOGS_MAX_SOCKETS" (pos 50) (pos 1) (pos 1024);
  }

  unfoldable pub env_buffer : BufferConfig
  env_buffer = record {
    max_size = int_of "LOGS_BUFFER_MAX_SIZE" (pos 100) (pos 1) (pos 1000000);
    flush_interval = int_of "LOGS_BUFFER_FLUSH_INTERVAL" (pos 5000) (pos 1) (pos 300000);
    max_age = int_of "LOGS_BUFFER_MAX_AGE" (pos 30000) (pos 100) (pos 86400000);
    auto_flush = bool_of "LOGS_BUFFER_AUTO_FLUSH" true;
    max_memory_mb = int_of "LOGS_BUFFER_MAX_MEMORY_MB" (pos 50) (pos 1) (pos 32768);
  }

  unfoldable pub env_filter : FilterConfig
  unfolding env_levels
  env_filter = record {
    levels = some (env_levels (get "LOGS_FILTER_LEVELS"));
    patterns = none;
    sampling_rate =
        some (parse_float_range to_float (get "LOGS_FILTER_SAMPLING_RATE") one zero_float one);
    max_message_length = int_of "LOGS_FILTER_MAX_MESSAGE_LENGTH" (pos 8192) (pos 64) (pos 1000000);
    sanitize = bool_of "LOGS_FILTER_SANITIZE" true;
    sensitive_patterns = none;
  }

  unfoldable pub env_circuit_breaker : CircuitBreakerConfig
  env_circuit_breaker = record {
    enabled = bool_of "LOGS_CIRCUIT_BREAKER_ENABLED" true;
    failure_threshold =
        int_of "LOGS_CIRCUIT_BREAKER_FAILURE_THRESHOLD" (pos 50) (pos 1) (pos 100000);
    reset_timeout =
        int_of "LOGS_CIRCUIT_BREAKER_RESET_TIMEOUT" (pos 30000) (pos 1000) (pos 3600000);
    half_open_requests = int_of "LOGS_CIRCUIT_BREAKER_HALF_OPEN_REQUESTS" (pos 3) (pos 1) (pos 100);
  }

  unfoldable pub env_dead_letter_queue : DeadLetterQueueConfig
  unfolding env_dlq_type
  env_dead_letter_queue = record {
    enabled = bool_of "LOGS_DLQ_ENABLED" true;
    type = some (env_dlq_type (get "LOGS_DLQ_TYPE"));
    max_size = int_of "LOGS_DLQ_MAX_SIZE" (pos 1000) (pos 1) (pos 1000000);
    max_file_size_mb = some (pos 10);
    max_retries = int_of "LOGS_DLQ_MAX_RETRIES" (pos 3) (pos 0) (pos 100);
    base_path = some (or_text cwd (get "LOGS_DLQ_BASE_PATH"));
  }

  unfoldable pub env_performance : PerformanceConfig
  env_performance = record {
    use_workers = bool_of "LOGS_USE_WORKERS" true;
    max_concurrent_flushes = int_of "LOGS_MAX_CONCURRENT_FLUSHES" (pos 3) (pos 1) (pos 256);
    compression_level = int_of "LOGS_COMPRESSION_LEVEL" (pos 6) (pos 0) (pos 11);
    max_workers = int_of "LOGS_MAX_WORKERS" (pos 2) (pos 1) (pos 64);
    worker_timeout = int_of "LOGS_WORKER_TIMEOUT" (pos 30000) (pos 1000) (pos 300000);
  }

  -- the configuration of the variables, before it is seen whether there is one
  unfoldable pub env_config : LogsInterceptorConfig
  unfolding env_transport env_buffer env_filter env_circuit_breaker env_dead_letter_queue
      env_performance env_labels
  env_config = record {
    transport = env_transport;
    app_name = or_default "" (get "LOGS_APP_NAME");
    version = some (or_default "1.0.0" (get "LOGS_APP_VERSION"));
    environment =
        some (or_text (or_text "production" (get "ENVIRONMENT")) (get "LOGS_ENVIRONMENT"));
    labels = some (env_labels environ []);
    dynamic_labels = none;
    buffer = some env_buffer;
    filter = some env_filter;
    circuit_breaker = some env_circuit_breaker;
    integrations = some no_integrations;
    performance = some env_performance;
    dead_letter_queue = some env_dead_letter_queue;
    enable_metrics = bool_of "LOGS_ENABLE_METRICS" true;
    enable_health_check = bool_of "LOGS_ENABLE_HEALTH_CHECK" true;
    intercept_console = bool_of "LOGS_INTERCEPT_CONSOLE" false;
    preserve_original_console = bool_of "LOGS_PRESERVE_ORIGINAL_CONSOLE" true;
    debug = bool_of "LOGS_DEBUG" false;
    silent_errors = bool_of "LOGS_SILENT_ERRORS" false;
  }

  unfoldable pub load_config_from_env : LogsInterceptorConfig
  unfolding env_config parse_bool
  load_config_from_env =
      if not (parse_bool (get "LOGS_ENABLED") true)
      then disabled_config
      else if is_blank env_config.transport.url
          && is_blank env_config.transport.tenant_id
          && is_blank env_config.app_name
      then no_config
      else env_config
