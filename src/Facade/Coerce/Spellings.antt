-- ===== src/Facade/Coerce/Spellings.antt =====
-- The settings of a section written out as a dict, its keys in either spelling, are read back.
use logs_interceptor_python.Base.{
  ◌≡◌, refl, String, Bool, true, false, some, [], ◌∷◌, String_comparable,
}
use logs_interceptor_python.Base.Dict.{Dict, lookup}
use logs_interceptor_python.Facade.Coerce.Readers.{
  Setting, boolean, integer, real, text, texts, pick,
}
use logs_interceptor_python.Facade.Coerce.Sections.{
  coerce_transport, coerce_buffer, coerce_filter, coerce_circuit_breaker, coerce_performance,
  coerce_dead_letter_queue,
}
use logs_interceptor_python.Settings.Records.{
  TransportConfig, BufferConfig, FilterConfig, CircuitBreakerConfig, PerformanceConfig,
  DeadLetterQueueConfig,
}
use logs_interceptor_python.Facade.Coerce.Written.{
  written, compression_setting, maybe-int, maybe-bool, maybe-text, maybe-compression, maybe-texts,
  maybe-float,
}

-- A key, in the spelling of Python or in that of JavaScript.
abbrev pub spelled : Bool → String → String → String
spelled true snake camel = camel
spelled false snake camel = snake

abbrev pub transport_dict : Bool → TransportConfig → Dict String Setting
transport_dict js c =
    (spelled js "url" "url", text c.url)
    ∷ (spelled js "tenant_id" "tenantId", text c.tenant_id)
    ∷ (spelled js "auth_token" "authToken", written text c.auth_token)
    ∷ (spelled js "timeout" "timeout", written integer c.timeout)
    ∷ (spelled js "max_retries" "maxRetries", written integer c.max_retries)
    ∷ (spelled js "retry_delay" "retryDelay", written integer c.retry_delay)
    ∷ (spelled js "compression" "compression", written compression_setting c.compression)
    ∷ (spelled js "compression_level" "compressionLevel", written integer c.compression_level)
    ∷ (
      spelled js "compression_threshold" "compressionThreshold",
      written integer c.compression_threshold,
    )
    ∷ (spelled js "use_workers" "useWorkers", written boolean c.use_workers)
    ∷ (spelled js "max_workers" "maxWorkers", written integer c.max_workers)
    ∷ (spelled js "worker_timeout" "workerTimeout", written integer c.worker_timeout)
    ∷ (
      spelled js "enable_connection_pooling" "enableConnectionPooling",
      written boolean c.enable_connection_pooling,
    )
    ∷ (spelled js "max_sockets" "maxSockets", written integer c.max_sockets)
    ∷ []

pub coerce_transport-dict :
    (js : Bool) (c : TransportConfig) → coerce_transport (transport_dict js c) ≡ some c
unfolding coerce_transport pick lookup
coerce_transport-dict true c =
    rw
      (
        maybe-text c.auth_token,
        maybe-int c.timeout,
        maybe-int c.max_retries,
        maybe-int c.retry_delay,
        maybe-compression c.compression,
        maybe-int c.compression_level,
        maybe-int c.compression_threshold,
        maybe-bool c.use_workers,
        maybe-int c.max_workers,
        maybe-int c.worker_timeout,
        maybe-bool c.enable_connection_pooling,
        maybe-int c.max_sockets,
      )
      refl
coerce_transport-dict false c =
    rw
      (
        maybe-text c.auth_token,
        maybe-int c.timeout,
        maybe-int c.max_retries,
        maybe-int c.retry_delay,
        maybe-compression c.compression,
        maybe-int c.compression_level,
        maybe-int c.compression_threshold,
        maybe-bool c.use_workers,
        maybe-int c.max_workers,
        maybe-int c.worker_timeout,
        maybe-bool c.enable_connection_pooling,
        maybe-int c.max_sockets,
      )
      refl

abbrev pub buffer_dict : Bool → BufferConfig → Dict String Setting
buffer_dict js c =
    (spelled js "max_size" "maxSize", written integer c.max_size)
    ∷ (spelled js "flush_interval" "flushInterval", written integer c.flush_interval)
    ∷ (spelled js "max_age" "maxAge", written integer c.max_age)
    ∷ (spelled js "auto_flush" "autoFlush", written boolean c.auto_flush)
    ∷ (spelled js "max_memory_mb" "maxMemoryMB", written integer c.max_memory_mb)
    ∷ []

pub coerce_buffer-dict : (js : Bool) (c : BufferConfig) → coerce_buffer (buffer_dict js c) ≡ some c
unfolding coerce_buffer pick lookup
coerce_buffer-dict true c =
    rw
      (
        maybe-int c.max_size,
        maybe-int c.flush_interval,
        maybe-int c.max_age,
        maybe-bool c.auto_flush,
        maybe-int c.max_memory_mb,
      )
      refl
coerce_buffer-dict false c =
    rw
      (
        maybe-int c.max_size,
        maybe-int c.flush_interval,
        maybe-int c.max_age,
        maybe-bool c.auto_flush,
        maybe-int c.max_memory_mb,
      )
      refl

abbrev pub filter_dict : Bool → FilterConfig → Dict String Setting
filter_dict js c =
    (spelled js "levels" "levels", written texts c.levels)
    ∷ (spelled js "patterns" "patterns", written texts c.patterns)
    ∷ (spelled js "sampling_rate" "samplingRate", written real c.sampling_rate)
    ∷ (spelled js "max_message_length" "maxMessageLength", written integer c.max_message_length)
    ∷ (spelled js "sanitize" "sanitize", written boolean c.sanitize)
    ∷ (spelled js "sensitive_patterns" "sensitivePatterns", written texts c.sensitive_patterns)
    ∷ []

pub coerce_filter-dict : (js : Bool) (c : FilterConfig) → coerce_filter (filter_dict js c) ≡ some c
unfolding coerce_filter pick lookup
coerce_filter-dict true c =
    rw
      (
        maybe-texts c.levels,
        maybe-texts c.patterns,
        maybe-float c.sampling_rate,
        maybe-int c.max_message_length,
        maybe-bool c.sanitize,
        maybe-texts c.sensitive_patterns,
      )
      refl
coerce_filter-dict false c =
    rw
      (
        maybe-texts c.levels,
        maybe-texts c.patterns,
        maybe-float c.sampling_rate,
        maybe-int c.max_message_length,
        maybe-bool c.sanitize,
        maybe-texts c.sensitive_patterns,
      )
      refl

abbrev pub circuit_breaker_dict : Bool → CircuitBreakerConfig → Dict String Setting
circuit_breaker_dict js c =
    (spelled js "enabled" "enabled", written boolean c.enabled)
    ∷ (spelled js "failure_threshold" "failureThreshold", written integer c.failure_threshold)
    ∷ (spelled js "reset_timeout" "resetTimeout", written integer c.reset_timeout)
    ∷ (spelled js "half_open_requests" "halfOpenRequests", written integer c.half_open_requests)
    ∷ []

pub coerce_circuit_breaker-dict :
    (js : Bool) (c : CircuitBreakerConfig)
    → coerce_circuit_breaker (circuit_breaker_dict js c) ≡ some c
unfolding coerce_circuit_breaker pick lookup
coerce_circuit_breaker-dict true c =
    rw
      (
        maybe-bool c.enabled,
        maybe-int c.failure_threshold,
        maybe-int c.reset_timeout,
        maybe-int c.half_open_requests,
      )
      refl
coerce_circuit_breaker-dict false c =
    rw
      (
        maybe-bool c.enabled,
        maybe-int c.failure_threshold,
        maybe-int c.reset_timeout,
        maybe-int c.half_open_requests,
      )
      refl

abbrev pub performance_dict : Bool → PerformanceConfig → Dict String Setting
performance_dict js c =
    (spelled js "use_workers" "useWorkers", written boolean c.use_workers)
    ∷ (
      spelled js "max_concurrent_flushes" "maxConcurrentFlushes",
      written integer c.max_concurrent_flushes,
    )
    ∷ (spelled js "compression_level" "compressionLevel", written integer c.compression_level)
    ∷ (spelled js "max_workers" "maxWorkers", written integer c.max_workers)
    ∷ (spelled js "worker_timeout" "workerTimeout", written integer c.worker_timeout)
    ∷ []

pub coerce_performance-dict :
    (js : Bool) (c : PerformanceConfig) → coerce_performance (performance_dict js c) ≡ some c
unfolding coerce_performance pick lookup
coerce_performance-dict true c =
    rw
      (
        maybe-bool c.use_workers,
        maybe-int c.max_concurrent_flushes,
        maybe-int c.compression_level,
        maybe-int c.max_workers,
        maybe-int c.worker_timeout,
      )
      refl
coerce_performance-dict false c =
    rw
      (
        maybe-bool c.use_workers,
        maybe-int c.max_concurrent_flushes,
        maybe-int c.compression_level,
        maybe-int c.max_workers,
        maybe-int c.worker_timeout,
      )
      refl

abbrev pub dead_letter_queue_dict : Bool → DeadLetterQueueConfig → Dict String Setting
dead_letter_queue_dict js c =
    (spelled js "enabled" "enabled", written boolean c.enabled)
    ∷ (spelled js "type" "type", written text c.type)
    ∷ (spelled js "max_size" "maxSize", written integer c.max_size)
    ∷ (spelled js "max_file_size_mb" "maxFileSizeMB", written integer c.max_file_size_mb)
    ∷ (spelled js "max_retries" "maxRetries", written integer c.max_retries)
    ∷ (spelled js "base_path" "basePath", written text c.base_path)
    ∷ []

pub coerce_dead_letter_queue-dict :
    (js : Bool) (c : DeadLetterQueueConfig)
    → coerce_dead_letter_queue (dead_letter_queue_dict js c) ≡ some c
unfolding coerce_dead_letter_queue pick lookup
coerce_dead_letter_queue-dict true c =
    rw
      (
        maybe-bool c.enabled,
        maybe-text c.type,
        maybe-int c.max_size,
        maybe-int c.max_file_size_mb,
        maybe-int c.max_retries,
        maybe-text c.base_path,
      )
      refl
coerce_dead_letter_queue-dict false c =
    rw
      (
        maybe-bool c.enabled,
        maybe-text c.type,
        maybe-int c.max_size,
        maybe-int c.max_file_size_mb,
        maybe-int c.max_retries,
        maybe-text c.base_path,
      )
      refl
