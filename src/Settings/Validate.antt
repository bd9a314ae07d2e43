-- ===== src/Settings/Validate.antt =====
-- src/logs_interceptor/application/config_service.py: `ConfigService.validate`. `is_url` says that
-- `urlparse` finds a scheme and a host.
use logs_interceptor_python.Base.{
  String, Bool, not, ◌||◌, Option, none, some, List, [], ◌∷◌, ◌++◌, if◌then◌else◌,
}
use logs_interceptor_python.Base.Text.{is_blank, text_append}
use logs_interceptor_python.Settings.Numbers.{
  ℤ, Float, is_negative, is_positive, ltf, one, zero_float,
}
use logs_interceptor_python.Settings.Records.{
  BufferConfig, FilterConfig, CircuitBreakerConfig, PerformanceConfig, LogsInterceptorConfig,
}

abbrev pub error_if : Bool → String → List String
error_if b message = if b then message ∷ [] else []

unfoldable pub validate_non_negative : String → Option ℤ → List String
validate_non_negative field none = []
validate_non_negative field (some z) =
    error_if (is_negative z) (text_append field " must be greater than or equal to 0")

unfoldable pub validate_positive : String → Option ℤ → List String
validate_positive field none = []
validate_positive field (some z) =
    error_if (not (is_positive z)) (text_append field " must be greater than 0")

unfoldable pub validate_url : (String → Bool) → String → List String
validate_url is_url url =
    if is_blank url then [] else error_if (not (is_url url)) "Transport URL must be a valid URL"

unfoldable pub validate_buffer : Option BufferConfig → List String
unfolding validate_positive
validate_buffer none = []
validate_buffer (some b) =
    validate_positive "Buffer max size" b.max_size
    ++ validate_positive "Flush interval" b.flush_interval
    ++ validate_positive "Buffer max memory" b.max_memory_mb

unfoldable pub validate_rate : Option Float → List String
validate_rate none = []
validate_rate (some r) =
    error_if (ltf r zero_float || ltf one r) "Sampling rate must be between 0 and 1"

unfoldable pub validate_filter : Option FilterConfig → List String
unfolding validate_rate
validate_filter none = []
validate_filter (some f) = validate_rate f.sampling_rate

unfoldable pub validate_breaker : Option CircuitBreakerConfig → List String
unfolding validate_positive
validate_breaker none = []
validate_breaker (some c) =
    validate_positive "Circuit breaker failure threshold" c.failure_threshold
    ++ validate_positive "Circuit breaker reset timeout" c.reset_timeout
    ++ validate_positive "Circuit breaker half-open requests" c.half_open_requests

unfoldable pub validate_performance : Option PerformanceConfig → List String
unfolding validate_positive
validate_performance none = []
validate_performance (some p) = validate_positive "Max concurrent flushes" p.max_concurrent_flushes

unfoldable pub validate_level : Option ℤ → List String
validate_level none = []
validate_level (some z) =
    error_if (is_negative z) "Compression level must be greater than or equal to 0"

-- the texts that are required, and the URL
unfoldable pub validate_required : (String → Bool) → LogsInterceptorConfig → List String
unfolding validate_url
validate_required is_url c =
    error_if (is_blank c.transport.url) "Transport URL is required"
    ++ error_if (is_blank c.transport.tenant_id) "Tenant ID is required"
    ++ error_if (is_blank c.app_name) "App name is required"
    ++ validate_url is_url c.transport.url

-- the numbers
unfoldable pub validate_numbers : LogsInterceptorConfig → List String
unfolding validate_non_negative validate_buffer validate_filter validate_breaker
    validate_performance validate_level
validate_numbers c =
    validate_non_negative "Transport timeout" c.transport.timeout
    ++ validate_non_negative "Transport max retries" c.transport.max_retries
    ++ validate_non_negative "Transport retry delay" c.transport.retry_delay
    ++ validate_buffer c.buffer
    ++ validate_filter c.filter
    ++ validate_breaker c.circuit_breaker
    ++ validate_performance c.performance
    ++ validate_level c.transport.compression_level

unfoldable pub validate : (String → Bool) → LogsInterceptorConfig → List String
unfolding validate_required validate_numbers
validate is_url c = validate_required is_url c ++ validate_numbers c
