-- ===== src/Settings/Env/Ranges.antt =====
-- The numbers that are read from the environment lie in their ranges.
use logs_interceptor_python.Base.{
  ℕ, suc, append_empties, if-of_both, ◌≡◌, refl, String, String_comparable, false, Option, none,
  some, [], arith,
}
use logs_interceptor_python.Base.Dict.{Dict, lookup}
use logs_interceptor_python.Settings.Env.{
  env_buffer, env_circuit_breaker, env_config, disabled_config, load_config_from_env,
}
use logs_interceptor_python.Settings.Numbers.{ℤ, pos, negsuc, ltz, Float, one, zero_float}
use logs_interceptor_python.Settings.Parse.{parse_int_range, parse_float_range}
use logs_interceptor_python.Settings.Records.{LogsInterceptorConfig, no_config}
use logs_interceptor_python.Settings.Validate.{
  validate_non_negative, validate_positive, validate_rate, validate_level, validate_buffer,
  validate_breaker, validate_numbers,
}

parse_int_range-ge :
    (value : Option String) (default low high : ℤ)
    → ltz default low ≡ false
    → ltz (parse_int_range value default low high) low ≡ false
unfolding parse_int_range
parse_int_range-ge none default low high h = h
parse_int_range-ge (some value) default low high h = ground arith

accepts_non_negative :
    (field : String) (z : ℤ) (low : ℕ)
    → ltz z (pos low) ≡ false
    → validate_non_negative field (some z) ≡ []
unfolding validate_non_negative
accepts_non_negative field (pos n) low h = ground arith
accepts_non_negative field (negsuc n) low h = cc

accepts_positive :
    (field : String) (z : ℤ) (low : ℕ)
    → ltz z (pos (suc low)) ≡ false
    → validate_positive field (some z) ≡ []
unfolding validate_positive
accepts_positive field (pos n) low h = ground arith
accepts_positive field (negsuc n) low h = cc

non_negative_of_env :
    (field : String) (value : Option String) (default high : ℤ)
    → ltz default (pos 0) ≡ false
    → validate_non_negative field (some (parse_int_range value default (pos 0) high)) ≡ []
non_negative_of_env field value default high h =
    accepts_non_negative field (parse_int_range value default (pos 0) high) 0
      (parse_int_range-ge value default (pos 0) high h)

positive_of_env :
    (field : String) (value : Option String) (default high : ℤ) (low : ℕ)
    → ltz default (pos (suc low)) ≡ false
    → validate_positive field (some (parse_int_range value default (pos (suc low)) high)) ≡ []
positive_of_env field value default high low h =
    accepts_positive field (parse_int_range value default (pos (suc low)) high) low
      (parse_int_range-ge value default (pos (suc low)) high h)

rate_of_env :
    (to_float : String → Option Float) (value : Option String)
    → validate_rate (some (parse_float_range to_float value one zero_float one)) ≡ []
unfolding parse_float_range validate_rate
rate_of_env to_float none = refl
rate_of_env to_float (some value) = ground arith

level_accepts : (z : ℤ) → ltz z (pos 0) ≡ false → validate_level (some z) ≡ []
unfolding validate_level
level_accepts z h = rw h

level_of_env :
    (value : Option String) (default high : ℤ)
    → ltz default (pos 0) ≡ false
    → validate_level (some (parse_int_range value default (pos 0) high)) ≡ []
unfolding validate_level
level_of_env value default high h =
    level_accepts (parse_int_range value default (pos 0) high)
      (parse_int_range-ge value default (pos 0) high h)

numbers_of_nothing : validate_numbers no_config ≡ []
unfolding validate_numbers
numbers_of_nothing = refl

numbers_of_disabled : validate_numbers disabled_config ≡ []
unfolding validate_numbers
numbers_of_disabled = refl

module _ (to_float : String → Option Float) (cwd : String) (environ : Dict String String) where
  abbrev get : String → Option String
  get name = lookup name environ

  buffer_of_env : validate_buffer (some (env_buffer to_float cwd environ)) ≡ []
  unfolding validate_buffer env_buffer
  buffer_of_env =
      append_empties _ _
        (append_empties _ _
          (positive_of_env "Buffer max size" (get "LOGS_BUFFER_MAX_SIZE") (pos 100) (pos 1000000) 0
            refl)
          (positive_of_env "Flush interval" (get "LOGS_BUFFER_FLUSH_INTERVAL") (pos 5000)
            (pos 300000) 0 refl))
        (positive_of_env "Buffer max memory" (get "LOGS_BUFFER_MAX_MEMORY_MB") (pos 50) (pos 32768)
          0 refl)

  breaker_of_env : validate_breaker (some (env_circuit_breaker to_float cwd environ)) ≡ []
  unfolding validate_breaker env_circuit_breaker
  breaker_of_env =
      append_empties _ _
        (append_empties _ _
          (positive_of_env "Circuit breaker failure threshold"
            (get "LOGS_CIRCUIT_BREAKER_FAILURE_THRESHOLD") (pos 50) (pos 100000) 0 refl)
          (positive_of_env "Circuit breaker reset timeout"
            (get "LOGS_CIRCUIT_BREAKER_RESET_TIMEOUT") (pos 30000) (pos 3600000) 999 refl))
        (positive_of_env "Circuit breaker half-open requests"
          (get "LOGS_CIRCUIT_BREAKER_HALF_OPEN_REQUESTS") (pos 3) (pos 100) 0 refl)

  numbers_of_env : validate_numbers (env_config to_float cwd environ) ≡ []
  unfolding validate_numbers env_config
  numbers_of_env =
      append_empties _ _
        (append_empties _ _
          (append_empties _ _
            (append_empties _ _
              (append_empties _ _
                (append_empties _ _
                  (append_empties _ _
                    (non_negative_of_env "Transport timeout" (get "LOGS_TIMEOUT") (pos 10000)
                      (pos 600000) refl)
                    (non_negative_of_env "Transport max retries" (get "LOGS_MAX_RETRIES") (pos 3)
                      (pos 20) refl))
                  (non_negative_of_env "Transport retry delay" (get "LOGS_RETRY_DELAY") (pos 1000)
                    (pos 120000) refl))
                buffer_of_env)
              (rate_of_env to_float (get "LOGS_FILTER_SAMPLING_RATE")))
            breaker_of_env)
          (positive_of_env "Max concurrent flushes" (get "LOGS_MAX_CONCURRENT_FLUSHES") (pos 3)
            (pos 256) 0 refl))
        (level_of_env (get "LOGS_COMPRESSION_LEVEL") (pos 6) (pos 11) refl)

  -- Whatever the environment holds, `validate` accepts the numbers read from it.
  pub load_config_from_env-InRange :
      validate_numbers (load_config_from_env to_float cwd environ) ≡ []
  unfolding load_config_from_env
  load_config_from_env-InRange =
      let accepted = λ (c : LogsInterceptorConfig). validate_numbers c ≡ [] in
      if-of_both accepted _ disabled_config _ numbers_of_disabled (
        if-of_both accepted _ no_config (env_config to_float cwd environ) numbers_of_nothing
          numbers_of_env)
