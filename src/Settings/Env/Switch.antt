-- ===== src/Settings/Env/Switch.antt =====
-- What `LOGS_ENABLED` does to a configuration.
use logs_interceptor_python.Base.{
  ◌≡◌, refl, String, String_comparable, Bool, true, false, Option, none, some, List, [], ◌∷◌,
}
use logs_interceptor_python.Base.Dict.{Dict, lookup}
use logs_interceptor_python.Domain.{LogLevel}
use logs_interceptor_python.Settings.Env.{disabled_config, load_config_from_env}
use logs_interceptor_python.Settings.Merge.{merge_configs}
use logs_interceptor_python.Settings.Numbers.{Float}
use logs_interceptor_python.Settings.Parse.{parse_bool}
use logs_interceptor_python.Settings.Records.{FilterConfig, LogsInterceptorConfig}
use logs_interceptor_python.Settings.Resolve.{default_levels, resolve}
use logs_interceptor_python.Settings.Validate.{validate}

-- The levels that a caller chose.
abbrev pub chosen_levels : Option FilterConfig → Option (List LogLevel)
chosen_levels none = none
chosen_levels (some f) = f.levels

disabled_errors :
    (is_url : String → Bool)
    → validate is_url disabled_config
      ≡ "Transport URL is required" ∷ "Tenant ID is required" ∷ "App name is required" ∷ []
unfolding validate
disabled_errors is_url = refl

disabled_levels :
    (user : LogsInterceptorConfig) (f : Option FilterConfig)
    → user.filter ≡ f
    → chosen_levels f ≡ none
    → (resolve (merge_configs user disabled_config)).filter.levels ≡ default_levels
unfolding resolve merge_configs
disabled_levels user none e h = rw e
disabled_levels user (some f) e h = rw (e, h)

module _ (to_float : String → Option Float) (cwd : String) (environ : Dict String String) where
  load_disabled :
      parse_bool (lookup "LOGS_ENABLED" environ) true ≡ false
      → load_config_from_env to_float cwd environ ≡ disabled_config
  unfolding load_config_from_env
  load_disabled off = rw off

  -- If `LOGS_ENABLED` reads as false, the configuration of the environment alone is refused with
  -- the three errors for missing texts, and merged under a caller's configuration that chooses no
  -- levels it resolves to all five levels.
  pub disabled_keeps_levels :
      (is_url : String → Bool) (user : LogsInterceptorConfig)
      → parse_bool (lookup "LOGS_ENABLED" environ) true ≡ false
      → chosen_levels user.filter ≡ none
      → let env = load_config_from_env to_float cwd environ in
        (validate is_url env
          ≡ "Transport URL is required" ∷ "Tenant ID is required" ∷ "App name is required" ∷ [])
        × ((resolve (merge_configs user env)).filter.levels ≡ default_levels)
  disabled_keeps_levels is_url user off h =
      rw (load_disabled off) (disabled_errors is_url, disabled_levels user user.filter refl h)
