-- ===== src/Facade/Coerce/Examples.antt =====
-- A configuration with a buffer and integrations in the spelling of JavaScript, and the theorem at it.
use logs_interceptor_python.Base.{◌≡◌, refl, true, false, none, some, [], ◌∷◌, String_comparable}
use logs_interceptor_python.Base.Dict.{lookup}
use logs_interceptor_python.Facade.Coerce.Given.{config_dict, presence, coerce_config-dict}
use logs_interceptor_python.Facade.Coerce.Readers.{
  nothing, boolean, integer, text, value, section, dict_of, pick,
}
use logs_interceptor_python.Facade.Coerce.Sections.{coerce_transport, coerce_buffer}
use logs_interceptor_python.Facade.Coerce.Whole.{coerce_dict, coerce_config}
use logs_interceptor_python.Settings.Numbers.{pos}
use logs_interceptor_python.Settings.Records.{
  IntegrationsConfig, Winston, LogsInterceptorConfig, no_buffer, no_config,
}

abbrev integrations : IntegrationsConfig
integrations = record { winston = some (Winston.flag false); morgan = none }

abbrev config : LogsInterceptorConfig
config = record no_config {
  app_name = "shop";
  buffer = some (record no_buffer { max_size = some (pos 5) });
  integrations = some integrations;
}

-- The spelling of Python comes first, and None counts as given.
spellings :
    (coerce_buffer (("maxSize", integer (pos 2)) ∷ ("max_size", integer (pos 1)) ∷ [])
      ≡ some (record no_buffer { max_size = some (pos 1) }))
    × (coerce_buffer (("maxSize", integer (pos 2)) ∷ ("max_size", nothing) ∷ []) ≡ some no_buffer)
    × (coerce_buffer (("max_size", text "1") ∷ []) ≡ none)
unfolding coerce_buffer pick lookup
spellings = (refl, refl, refl)

empty_section :
    coerce_config (dict_of (("buffer", section []) ∷ ("appName", value (text "shop")) ∷ []))
    ≡ some (record no_config { app_name = "shop" })
unfolding coerce_config coerce_dict coerce_transport pick lookup
empty_section = refl

coerce_config-dict_example :
    coerce_config (dict_of (config_dict true (("winston", boolean false) ∷ []) config))
    ≡ some (record config { integrations = presence (some integrations) })
coerce_config-dict_example = coerce_config-dict true (("winston", boolean false) ∷ []) config
