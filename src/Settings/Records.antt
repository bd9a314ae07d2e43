-- ===== src/Settings/Records.antt =====
-- src/logs_interceptor/config.py: the configuration as a caller or the environment gives it. A field
-- that is not given is `none`.
use logs_interceptor_python.Base.{ℕ, String, Bool, Option, none, List}
use logs_interceptor_python.Base.Dict.{Dict}
use logs_interceptor_python.Domain.{LogLevel}
use logs_interceptor_python.Settings.Numbers.{ℤ, Float}

-- `CompressionType | bool`
pub data CompressionSetting : Type 0 where
  flag : Bool → CompressionSetting
  name : String → CompressionSetting

pub record TransportConfig : Type 0 where
  pub url : String
  pub tenant_id : String
  pub auth_token : Option String
  pub timeout : Option ℤ
  pub max_retries : Option ℤ
  pub retry_delay : Option ℤ
  pub compression : Option CompressionSetting
  pub compression_level : Option ℤ
  pub compression_threshold : Option ℤ
  pub use_workers : Option Bool
  pub max_workers : Option ℤ
  pub worker_timeout : Option ℤ
  pub enable_connection_pooling : Option Bool
  pub max_sockets : Option ℤ

pub record BufferConfig : Type 0 where
  pub max_size : Option ℤ
  pub flush_interval : Option ℤ
  pub max_age : Option ℤ
  pub auto_flush : Option Bool
  pub max_memory_mb : Option ℤ

pub record FilterConfig : Type 0 where
  pub levels : Option (List LogLevel)
  pub patterns : Option (List String)
  pub sampling_rate : Option Float
  pub max_message_length : Option ℤ
  pub sanitize : Option Bool
  pub sensitive_patterns : Option (List String)

pub record CircuitBreakerConfig : Type 0 where
  pub enabled : Option Bool
  pub failure_threshold : Option ℤ
  pub reset_timeout : Option ℤ
  pub half_open_requests : Option ℤ

pub record PerformanceConfig : Type 0 where
  pub use_workers : Option Bool
  pub max_concurrent_flushes : Option ℤ
  pub compression_level : Option ℤ
  pub max_workers : Option ℤ
  pub worker_timeout : Option ℤ

pub record DeadLetterQueueConfig : Type 0 where
  pub enabled : Option Bool
  pub type : Option String
  pub max_size : Option ℤ
  pub max_file_size_mb : Option ℤ
  pub max_retries : Option ℤ
  pub base_path : Option String

-- `bool | WinstonIntegrationConfig`
pub data Winston : Type 0 where
  flag : Bool → Winston
  levels_of : Bool → Option (Dict String LogLevel) → Winston

-- `bool | MorganIntegrationConfig`
pub data Morgan : Type 0 where
  flag : Bool → Morgan
  format_of : Bool → Option String → Morgan

pub record IntegrationsConfig : Type 0 where
  pub winston : Option Winston
  pub morgan : Option Morgan

-- A dynamic label is the number of its provider.
pub record LogsInterceptorConfig : Type 0 where
  pub transport : TransportConfig
  pub app_name : String
  pub version : Option String
  pub environment : Option String
  pub labels : Option (Dict String String)
  pub dynamic_labels : Option (Dict String ℕ)
  pub buffer : Option BufferConfig
  pub filter : Option FilterConfig
  pub circuit_breaker : Option CircuitBreakerConfig
  pub integrations : Option IntegrationsConfig
  pub performance : Option PerformanceConfig
  pub dead_letter_queue : Option DeadLetterQueueConfig
  pub enable_metrics : Option Bool
  pub enable_health_check : Option Bool
  pub intercept_console : Option Bool
  pub preserve_original_console : Option Bool
  pub debug : Option Bool
  pub silent_errors : Option Bool

-- `TransportConfig()` and its kin
abbrev pub no_transport : TransportConfig
no_transport = record {
  url = "";
  tenant_id = "";
  auth_token = none;
  timeout = none;
  max_retries = none;
  retry_delay = none;
  compression = none;
  compression_level = none;
  compression_threshold = none;
  use_workers = none;
  max_workers = none;
  worker_timeout = none;
  enable_connection_pooling = none;
  max_sockets = none;
}

abbrev pub no_buffer : BufferConfig
no_buffer = record {
  max_size = none;
  flush_interval = none;
  max_age = none;
  auto_flush = none;
  max_memory_mb = none;
}

abbrev pub no_filter : FilterConfig
no_filter = record {
  levels = none;
  patterns = none;
  sampling_rate = none;
  max_message_length = none;
  sanitize = none;
  sensitive_patterns = none;
}

abbrev pub no_breaker : CircuitBreakerConfig
no_breaker = record {
  enabled = none;
  failure_threshold = none;
  reset_timeout = none;
  half_open_requests = none;
}

abbrev pub no_performance : PerformanceConfig
no_performance = record {
  use_workers = none;
  max_concurrent_flushes = none;
  compression_level = none;
  max_workers = none;
  worker_timeout = none;
}

abbrev pub no_integrations : IntegrationsConfig
no_integrations = record { winston = none; morgan = none }

abbrev pub no_config : LogsInterceptorConfig
no_config = record {
  transport = no_transport;
  app_name = "";
  version = none;
  environment = none;
  labels = none;
  dynamic_labels = none;
  buffer = none;
  filter = none;
  circuit_breaker = none;
  integrations = none;
  performance = none;
  dead_letter_queue = none;
  enable_metrics = none;
  enable_health_check = none;
  intercept_console = none;
  preserve_original_console = none;
  debug = none;
  silent_errors = none;
}
