-- ===== src/Config.antt =====
-- src/logs_interceptor/config.py: the resolved configuration records. Sizes, counts and
-- milliseconds are numbers; `ConfigService.validate` refuses the negative ones.
use logs_interceptor_python.Base.{ℕ, String, Bool, List}

pub record ResolvedBufferConfig : Type 0 where
  pub max_size : ℕ
  pub flush_interval : ℕ
  pub max_age : ℕ
  pub auto_flush : Bool
  pub max_memory_mb : ℕ

pub record ResolvedCircuitBreakerConfig : Type 0 where
  pub enabled : Bool
  pub failure_threshold : ℕ
  pub reset_timeout : ℕ
  pub half_open_requests : ℕ

-- `sampling_rate` in millionths
pub record ResolvedFilterConfig : Type 0 where
  pub levels : List String
  pub patterns : List String
  pub sampling_rate : ℕ
  pub max_message_length : ℕ
  pub sanitize : Bool
  pub sensitive_patterns : List String
