-- ===== src/Settings/Examples.antt =====
-- Configurations of a caller and of an environment, and the theorems at them.
use logs_interceptor_python.Base.{
  ◌≡◌, ◌≢◌, refl, String, String_comparable, Bool, true, false, Option, none, some, List, [], ◌∷◌,
  inl,
}
use logs_interceptor_python.Base.Dict.{Dict, lookup}
use logs_interceptor_python.Settings.Env.{env_levels, load_config_from_env}
use logs_interceptor_python.Settings.Env.Switch.{disabled_keeps_levels}
use logs_interceptor_python.Settings.Merge.{merge_configs}
use logs_interceptor_python.Settings.Merge.Accepted.{merge_configs-InRange}
use logs_interceptor_python.Settings.Merge.Refused.{merge_configs_loses_url}
use logs_interceptor_python.Settings.Numbers.{ℤ, pos, negsuc, Float, nan, millionths}
use logs_interceptor_python.Settings.Parse.{parse_bool, parse_int_range, parse_float_range, to_int}
use logs_interceptor_python.Settings.Records.{
  LogsInterceptorConfig, no_config, no_transport, no_filter, no_breaker, no_performance,
}
use logs_interceptor_python.Settings.Resolve.{default_levels, resolve}
use logs_interceptor_python.Settings.Validate.{validate, validate_numbers, validate_required}

abbrev is_url : String → Bool
is_url url = true

abbrev to_float : String → Option Float
to_float s = some nan

abbrev config : LogsInterceptorConfig
config = record no_config {
  transport = record no_transport {
    url = "http://loki";
    tenant_id = "t";
    max_retries = some (pos 0);
  };
  app_name = "shop";
  filter = some (record no_filter { sampling_rate = some (millionths (pos 500000)) });
  circuit_breaker = some (record no_breaker { failure_threshold = some (pos 2) });
  performance = some (record no_performance { max_concurrent_flushes = some (pos 1) });
}

no_errors : validate is_url config ≡ []
unfolding validate
no_errors = refl

abbrev environ : Dict String String
environ =
    ("LOGS_URL", "http://env")
    ∷ ("LOGS_LABEL_TEAM", "core")
    ∷ ("LOGS_TIMEOUT", " 1_500 ")
    ∷ ("LOGS_BUFFER_MAX_SIZE", "0")
    ∷ ("LOGS_FILTER_LEVELS", "info, WARN,loud")
    ∷ []

abbrev ints : List (Option ℤ)
ints = to_int "-12" ∷ to_int "+7" ∷ to_int "1__0" ∷ to_int "" ∷ []

read_ints : ints ≡ some (negsuc 11) ∷ some (pos 7) ∷ none ∷ none ∷ []
unfolding to_int
read_ints = refl

-- A number out of its range is the default, and a float that is not a number is kept.
out_of_range : parse_int_range (some "0") (pos 100) (pos 1) (pos 1000000) ≡ pos 100
unfolding parse_int_range to_int
out_of_range = refl

kept_nan :
    parse_float_range to_float
      (some "nan")
      (millionths (pos 1))
      (millionths (pos 0))
      (millionths (pos 1))
    ≡ nan
unfolding parse_float_range
kept_nan = refl

levels_read : env_levels (lookup "LOGS_FILTER_LEVELS" environ) ≡ "info" ∷ "warn" ∷ []
unfolding env_levels lookup
levels_read = refl

label_read : (load_config_from_env to_float "/" environ).labels ≡ some (("team", "core") ∷ [])
unfolding load_config_from_env lookup
label_read = refl

numbers_accepted : validate_numbers config ≡ []
unfolding validate_numbers
numbers_accepted = refl

merge_configs-InRange_example :
    let merged = merge_configs config (load_config_from_env to_float "/" environ) in
    validate is_url merged ≡ validate_required is_url merged
merge_configs-InRange_example =
    merge_configs-InRange to_float "/" environ is_url config numbers_accepted

-- A caller that only names its application.
abbrev named : LogsInterceptorConfig
named = record no_config { app_name = "shop" }

merge_configs_loses_url_example :
    validate is_url (merge_configs named (load_config_from_env to_float "/" environ)) ≢ []
merge_configs_loses_url_example =
    merge_configs_loses_url is_url named (load_config_from_env to_float "/" environ) (inl refl)

abbrev switched_off : Dict String String
switched_off = ("LOGS_ENABLED", " Off") ∷ []

is_off : parse_bool (lookup "LOGS_ENABLED" switched_off) true ≡ false
unfolding parse_bool lookup
is_off = refl

disabled_keeps_levels_example :
    let env = load_config_from_env to_float "/" switched_off in
    (validate is_url env
      ≡ "Transport URL is required" ∷ "Tenant ID is required" ∷ "App name is required" ∷ [])
    × ((resolve (merge_configs named env)).filter.levels ≡ default_levels)
disabled_keeps_levels_example =
    disabled_keeps_levels to_float "/" switched_off is_url named is_off refl
