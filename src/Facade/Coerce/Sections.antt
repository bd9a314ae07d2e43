-- ===== src/Facade/Coerce/Sections.antt =====
-- src/logs_interceptor/__init__.py: `_coerce_config`, the dicts of settings.
use logs_interceptor_python.Base.{String, Option, some, String_comparable}
use logs_interceptor_python.Base.Dict.{Dict}
use logs_interceptor_python.Facade.Coerce.Readers.{
  Setting, text, pick, ◌>>=◌, as_int, as_bool, as_float, as_text, as_texts, as_compression, maybe,
  read,
}
use logs_interceptor_python.Settings.Records.{
  TransportConfig, BufferConfig, FilterConfig, CircuitBreakerConfig, PerformanceConfig,
  DeadLetterQueueConfig,
}

unfoldable pub coerce_transport : Dict String Setting → Option TransportConfig
coerce_transport raw = do
  url ← as_text (pick raw "url" "url" (text ""))
  tenant_id ← as_text (pick raw "tenant_id" "tenantId" (text ""))
  auth_token ← read (maybe as_text) raw "auth_token" "authToken"
  timeout ← read (maybe as_int) raw "timeout" "timeout"
  max_retries ← read (maybe as_int) raw "max_retries" "maxRetries"
  retry_delay ← read (maybe as_int) raw "retry_delay" "retryDelay"
  compression ← read (maybe as_compression) raw "compression" "compression"
  compression_level ← read (maybe as_int) raw "compression_level" "compressionLevel"
  compression_threshold ← read (maybe as_int) raw "compression_threshold" "compressionThreshold"
  use_workers ← read (maybe as_bool) raw "use_workers" "useWorkers"
  max_workers ← read (maybe as_int) raw "max_workers" "maxWorkers"
  worker_timeout ← read (maybe as_int) raw "worker_timeout" "workerTimeout"
  enable_connection_pooling ←
      read (maybe as_bool) raw "enable_connection_pooling" "enableConnectionPooling"
  max_sockets ← read (maybe as_int) raw "max_sockets" "maxSockets"
  some (record {
    url = url;
    tenant_id = tenant_id;
    auth_token = auth_token;
    timeout = timeout;
    max_retries = max_retries;
    retry_delay = retry_delay;
    compression = compression;
    compression_level = compression_level;
    compression_threshold = compression_threshold;
    use_workers = use_workers;
    max_workers = max_workers;
    worker_timeout = worker_timeout;
    enable_connection_pooling = enable_connection_pooling;
    max_sockets = max_sockets;
  })

unfoldable pub coerce_buffer : Dict String Setting → Option BufferConfig
coerce_buffer raw = do
  max_size ← read (maybe as_int) raw "max_size" "maxSize"
  flush_interval ← read (maybe as_int) raw "flush_interval" "flushInterval"
  max_age ← read (maybe as_int) raw "max_age" "maxAge"
  auto_flush ← read (maybe as_bool) raw "auto_flush" "autoFlush"
  max_memory_mb ← read (maybe as_int) raw "max_memory_mb" "maxMemoryMB"
  some (record {
    max_size = max_size;
    flush_interval = flush_interval;
    max_age = max_age;
    auto_flush = auto_flush;
    max_memory_mb = max_memory_mb;
  })

unfoldable pub coerce_filter : Dict String Setting → Option FilterConfig
coerce_filter raw = do
  levels ← read (maybe as_texts) raw "levels" "levels"
  patterns ← read (maybe as_texts) raw "patterns" "patterns"
  sampling_rate ← read (maybe as_float) raw "sampling_rate" "samplingRate"
  max_message_length ← read (maybe as_int) raw "max_message_length" "maxMessageLength"
  sanitize ← read (maybe as_bool) raw "sanitize" "sanitize"
  sensitive_patterns ← read (maybe as_texts) raw "sensitive_patterns" "sensitivePatterns"
  some (record {
    levels = levels;
    patterns = patterns;
    sampling_rate = sampling_rate;
    max_message_length = max_message_length;
    sanitize = sanitize;
    sensitive_patterns = sensitive_patterns;
  })

unfoldable pub coerce_circuit_breaker : Dict String Setting → Option CircuitBreakerConfig
coerce_circuit_breaker raw = do
  enabled ← read (maybe as_bool) raw "enabled" "enabled"
  failure_threshold ← read (maybe as_int) raw "failure_threshold" "failureThreshold"
  reset_timeout ← read (maybe as_int) raw "reset_timeout" "resetTimeout"
  half_open_requests ← read (maybe as_int) raw "half_open_requests" "halfOpenRequests"
  some (record {
    enabled = enabled;
    failure_threshold = failure_threshold;
    reset_timeout = reset_timeout;
    half_open_requests = half_open_requests;
  })

unfoldable pub coerce_performance : Dict String Setting → Option PerformanceConfig
coerce_performance raw = do
  use_workers ← read (maybe as_bool) raw "use_workers" "useWorkers"
  max_concurrent_flushes ← read (maybe as_int) raw "max_concurrent_flushes" "maxConcurrentFlushes"
  compression_level ← read (maybe as_int) raw "compression_level" "compressionLevel"
  max_workers ← read (maybe as_int) raw "max_workers" "maxWorkers"
  worker_timeout ← read (maybe as_int) raw "worker_timeout" "workerTimeout"
  some (record {
    use_workers = use_workers;
    max_concurrent_flushes = max_concurrent_flushes;
    compression_level = compression_level;
    max_workers = max_workers;
    worker_timeout = worker_timeout;
  })

unfoldable pub coerce_dead_letter_queue : Dict String Setting → Option DeadLetterQueueConfig
coerce_dead_letter_queue raw = do
  enabled ← read (maybe as_bool) raw "enabled" "enabled"
  type ← read (maybe as_text) raw "type" "type"
  max_size ← read (maybe as_int) raw "max_size" "maxSize"
  max_file_size_mb ← read (maybe as_int) raw "max_file_size_mb" "maxFileSizeMB"
  max_retries ← read (maybe as_int) raw "max_retries" "maxRetries"
  base_path ← read (maybe as_text) raw "base_path" "basePath"
  some (record {
    enabled = enabled;
    type = type;
    max_size = max_size;
    max_file_size_mb = max_file_size_mb;
    max_retries = max_retries;
    base_path = base_path;
  })
