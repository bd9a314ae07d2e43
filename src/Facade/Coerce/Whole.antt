-- ===== src/Facade/Coerce/Whole.antt =====
-- src/logs_interceptor/__init__.py: `_coerce_config` of a whole configuration.
use logs_interceptor_python.Base.{String, Option, none, some, [], ◌∷◌, String_comparable}
use logs_interceptor_python.Base.Dict.{Dict}
use logs_interceptor_python.Facade.Coerce.Readers.{
  Setting, nothing, text, Entry, value, section, UserConfig, no_user, config_of, dict_of, pick,
  ◌>>=◌, as_bool, as_text, as_text_map, as_providers, maybe,
}
use logs_interceptor_python.Facade.Coerce.Sections.{
  coerce_transport, coerce_buffer, coerce_filter, coerce_circuit_breaker, coerce_performance,
  coerce_dead_letter_queue,
}
use logs_interceptor_python.Settings.Records.{
  IntegrationsConfig, LogsInterceptorConfig, no_integrations, no_config,
}

-- a dict of settings, `[]` if there is none
abbrev pub section_of : Entry → Option (Dict String Setting)
section_of (section d) = some d
section_of (value nothing) = some []
section_of (value v) = none

abbrev pub value_of : Entry → Option Setting
value_of (value v) = some v
value_of (section d) = none

-- `... if raw else None`
abbrev pub if_given :
    {A : Type 0} → (Dict String Setting → Option A) → Dict String Setting → Option (Option A)
if_given coerce [] = some none
if_given coerce (x ∷ d) = coerce (x ∷ d) >>= λ a. some (some a)

-- `IntegrationsConfig() if raw is not None else None`
abbrev pub integrations_of : Entry → Option IntegrationsConfig
integrations_of (value nothing) = none
integrations_of raw = some no_integrations

abbrev pub read_top :
    {A : Type 0} → (Setting → Option A) → Dict String Entry → String → String → Entry → Option A
read_top reader config snake camel default = value_of (pick config snake camel default) >>= reader

abbrev pub read_section :
    {A : Type 0} → (Dict String Setting → Option A) → Dict String Entry → String → String → Option A
read_section coerce config snake camel =
    section_of (pick config snake camel (value nothing)) >>= coerce

unfoldable pub coerce_dict : Dict String Entry → Option LogsInterceptorConfig
coerce_dict config = do
  transport ← read_section coerce_transport config "transport" "transport"
  app_name ← read_top as_text config "app_name" "appName" (value (text ""))
  version ← read_top (maybe as_text) config "version" "version" (value nothing)
  environment ← read_top (maybe as_text) config "environment" "environment" (value nothing)
  labels ← read_top (maybe as_text_map) config "labels" "labels" (value nothing)
  dynamic_labels ←
      read_top (maybe as_providers) config "dynamic_labels" "dynamicLabels" (value nothing)
  buffer ← read_section (if_given coerce_buffer) config "buffer" "buffer"
  filter ← read_section (if_given coerce_filter) config "filter" "filter"
  circuit_breaker ←
      read_section (if_given coerce_circuit_breaker) config "circuit_breaker" "circuitBreaker"
  performance ← read_section (if_given coerce_performance) config "performance" "performance"
  dead_letter_queue ←
      read_section (if_given coerce_dead_letter_queue) config "dead_letter_queue" "deadLetterQueue"
  enable_metrics ← read_top (maybe as_bool) config "enable_metrics" "enableMetrics" (value nothing)
  enable_health_check ←
      read_top (maybe as_bool) config "enable_health_check" "enableHealthCheck" (value nothing)
  intercept_console ←
      read_top (maybe as_bool) config "intercept_console" "interceptConsole" (value nothing)
  preserve_original_console ←
      read_top (maybe as_bool) config "preserve_original_console" "preserveOriginalConsole"
        (value nothing)
  debug ← read_top (maybe as_bool) config "debug" "debug" (value nothing)
  silent_errors ← read_top (maybe as_bool) config "silent_errors" "silentErrors" (value nothing)
  some (record {
    transport = transport;
    app_name = app_name;
    version = version;
    environment = environment;
    labels = labels;
    dynamic_labels = dynamic_labels;
    buffer = buffer;
    filter = filter;
    circuit_breaker = circuit_breaker;
    performance = performance;
    dead_letter_queue = dead_letter_queue;
    enable_metrics = enable_metrics;
    enable_health_check = enable_health_check;
    intercept_console = intercept_console;
    preserve_original_console = preserve_original_console;
    debug = debug;
    silent_errors = silent_errors;
    integrations = integrations_of (pick config "integrations" "integrations" (value nothing));
  })

unfoldable pub coerce_config : UserConfig → Option LogsInterceptorConfig
coerce_config no_user = some no_config
coerce_config (config_of config) = some config
coerce_config (dict_of config) = coerce_dict config
