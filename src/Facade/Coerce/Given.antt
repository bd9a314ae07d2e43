-- ===== src/Facade/Coerce/Given.antt =====
-- A whole configuration written out as a dict, its keys in either spelling, is read back.
use logs_interceptor_python.Base.{
  ◌≡◌, refl, ap, String, Bool, true, false, Option, none, some, [], ◌∷◌, String_comparable,
}
use logs_interceptor_python.Base.Dict.{Dict, lookup}
use logs_interceptor_python.Facade.Coerce.Readers.{
  Setting, nothing, boolean, text, text_map, provider_map, Entry, value, section, dict_of, pick,
  ◌>>=◌,
}
use logs_interceptor_python.Facade.Coerce.Sections.{
  coerce_buffer, coerce_filter, coerce_circuit_breaker, coerce_performance,
  coerce_dead_letter_queue,
}
use logs_interceptor_python.Facade.Coerce.Spellings.{
  spelled, transport_dict, coerce_transport-dict, buffer_dict, coerce_buffer-dict, filter_dict,
  coerce_filter-dict, circuit_breaker_dict, coerce_circuit_breaker-dict, performance_dict,
  coerce_performance-dict, dead_letter_queue_dict, coerce_dead_letter_queue-dict,
}
use logs_interceptor_python.Facade.Coerce.Written.{
  written, maybe-text, maybe-text_map, maybe-providers, maybe-bool,
}
use logs_interceptor_python.Facade.Coerce.Whole.{
  section_of, if_given, integrations_of, coerce_dict, coerce_config,
}
use logs_interceptor_python.Settings.Records.{
  BufferConfig, FilterConfig, CircuitBreakerConfig, PerformanceConfig, DeadLetterQueueConfig,
  IntegrationsConfig, LogsInterceptorConfig, no_integrations,
}

abbrev pub section_written : {A : Type 0} → (A → Dict String Setting) → Option A → Entry
section_written make none = value nothing
section_written make (some a) = section (make a)

-- The integrations, whatever settings the dict for them holds.
abbrev pub integrations_written : Dict String Setting → Option IntegrationsConfig → Entry
integrations_written contents none = value nothing
integrations_written contents (some i) = section contents

given-buffer :
    (js : Bool) (o : Option BufferConfig)
    → (section_of (section_written (buffer_dict js) o) >>= if_given coerce_buffer) ≡ some o
given-buffer js none = refl
given-buffer js (some c) = ap (λ x. x >>= λ a. some (some a)) (coerce_buffer-dict js c)

given-filter :
    (js : Bool) (o : Option FilterConfig)
    → (section_of (section_written (filter_dict js) o) >>= if_given coerce_filter) ≡ some o
given-filter js none = refl
given-filter js (some c) = ap (λ x. x >>= λ a. some (some a)) (coerce_filter-dict js c)

given-circuit_breaker :
    (js : Bool) (o : Option CircuitBreakerConfig)
    → (section_of (section_written (circuit_breaker_dict js) o) >>= if_given coerce_circuit_breaker)
      ≡ some o
given-circuit_breaker js none = refl
given-circuit_breaker js (some c) =
    ap (λ x. x >>= λ a. some (some a)) (coerce_circuit_breaker-dict js c)

given-performance :
    (js : Bool) (o : Option PerformanceConfig)
    → (section_of (section_written (performance_dict js) o) >>= if_given coerce_performance)
      ≡ some o
given-performance js none = refl
given-performance js (some c) = ap (λ x. x >>= λ a. some (some a)) (coerce_performance-dict js c)

given-dead_letter_queue :
    (js : Bool) (o : Option DeadLetterQueueConfig)
    → (section_of (section_written (dead_letter_queue_dict js) o)
        >>= if_given coerce_dead_letter_queue)
      ≡ some o
given-dead_letter_queue js none = refl
given-dead_letter_queue js (some c) =
    ap (λ x. x >>= λ a. some (some a)) (coerce_dead_letter_queue-dict js c)

-- Of the integrations only this is read.
abbrev pub presence : Option IntegrationsConfig → Option IntegrationsConfig
presence none = none
presence (some i) = some no_integrations

integrations_of-written :
    (contents : Dict String Setting) (o : Option IntegrationsConfig)
    → integrations_of (integrations_written contents o) ≡ presence o
integrations_of-written contents none = refl
integrations_of-written contents (some i) = refl

abbrev pub config_dict : Bool → Dict String Setting → LogsInterceptorConfig → Dict String Entry
config_dict js contents c =
    ("transport", section (transport_dict js c.transport))
    ∷ (spelled js "app_name" "appName", value (text c.app_name))
    ∷ (spelled js "version" "version", value (written text c.version))
    ∷ (spelled js "environment" "environment", value (written text c.environment))
    ∷ (spelled js "labels" "labels", value (written text_map c.labels))
    ∷ (spelled js "dynamic_labels" "dynamicLabels", value (written provider_map c.dynamic_labels))
    ∷ (spelled js "enable_metrics" "enableMetrics", value (written boolean c.enable_metrics))
    ∷ (
      spelled js "enable_health_check" "enableHealthCheck",
      value (written boolean c.enable_health_check),
    )
    ∷ (
      spelled js "intercept_console" "interceptConsole",
      value (written boolean c.intercept_console),
    )
    ∷ (
      spelled js "preserve_original_console" "preserveOriginalConsole",
      value (written boolean c.preserve_original_console),
    )
    ∷ (spelled js "debug" "debug", value (written boolean c.debug))
    ∷ (spelled js "silent_errors" "silentErrors", value (written boolean c.silent_errors))
    ∷ (spelled js "buffer" "buffer", section_written (buffer_dict js) c.buffer)
    ∷ (spelled js "filter" "filter", section_written (filter_dict js) c.filter)
    ∷ (
      spelled js "circuit_breaker" "circuitBreaker",
      section_written (circuit_breaker_dict js) c.circuit_breaker,
    )
    ∷ (spelled js "performance" "performance", section_written (performance_dict js) c.performance)
    ∷ (
      spelled js "dead_letter_queue" "deadLetterQueue",
      section_written (dead_letter_queue_dict js) c.dead_letter_queue,
    )
    ∷ ("integrations", integrations_written contents c.integrations)
    ∷ []

-- A configuration that is written out as a dict, all its keys in the spelling of Python or all in
-- that of JavaScript and None for what is not given, is read back as it was, but for the
-- integrations: if any are given, whatever the dict holds for them, the configuration has
-- integrations with nothing in them.
pub coerce_config-dict :
    (js : Bool) (contents : Dict String Setting) (c : LogsInterceptorConfig)
    → coerce_config (dict_of (config_dict js contents c))
      ≡ some (record c { integrations = presence c.integrations })
unfolding coerce_config coerce_dict pick lookup
coerce_config-dict true contents c =
    rw
      (
        coerce_transport-dict true c.transport,
        maybe-text c.version,
        maybe-text c.environment,
        maybe-text_map c.labels,
        maybe-providers c.dynamic_labels,
        maybe-bool c.enable_metrics,
        maybe-bool c.enable_health_check,
        maybe-bool c.intercept_console,
        maybe-bool c.preserve_original_console,
        maybe-bool c.debug,
        maybe-bool c.silent_errors,
        given-buffer true c.buffer,
        given-filter true c.filter,
        given-circuit_breaker true c.circuit_breaker,
        given-performance true c.performance,
        given-dead_letter_queue true c.dead_letter_queue,
        integrations_of-written contents c.integrations,
      )
      refl
coerce_config-dict false contents c =
    rw
      (
        coerce_transport-dict false c.transport,
        maybe-text c.version,
        maybe-text c.environment,
        maybe-text_map c.labels,
        maybe-providers c.dynamic_labels,
        maybe-bool c.enable_metrics,
        maybe-bool c.enable_health_check,
        maybe-bool c.intercept_console,
        maybe-bool c.preserve_original_console,
        maybe-bool c.debug,
        maybe-bool c.silent_errors,
        given-buffer false c.buffer,
        given-filter false c.filter,
        given-circuit_breaker false c.circuit_breaker,
        given-performance false c.performance,
        given-dead_letter_queue false c.dead_letter_queue,
        integrations_of-written contents c.integrations,
      )
      refl
