-- ===== src/Facade/Examples.antt =====
-- A process whose logger is initialized and destroyed, and the theorems at it.
use logs_interceptor_python.Base.{
  ◌≡◌, refl, String, String_comparable, Bool, true, Option, none, some, [], ◌∷◌,
}
use logs_interceptor_python.Breaker.Invariant as Breaker
use logs_interceptor_python.Errors.{ok}
use logs_interceptor_python.Facade.{World, init, destroy, get_logger}
use logs_interceptor_python.Facade.Init.{init-Started}
use logs_interceptor_python.Facade.Tidy.{
  here, next, inits, destroys, settled, OneLive, HasNoBridge, Reach-IsTidy,
}
use logs_interceptor_python.Interceptor.{Function, Handler, Process, has_bridge}
use logs_interceptor_python.Interceptor.Restore.{SameHooks}
use logs_interceptor_python.Settings.Env.{load_config_from_env}
use logs_interceptor_python.Settings.Merge.{merge_configs}
use logs_interceptor_python.Settings.Numbers.{Float}
use logs_interceptor_python.Settings.Records.{LogsInterceptorConfig, no_config, no_transport}
use logs_interceptor_python.Settings.Resolve.{breaker_config, resolve}
use logs_interceptor_python.Settings.Valid.{IsPositiveBuffer, IsPositiveInt}
use logs_interceptor_python.Settings.Validate.{validate, validate_numbers, validate_required}

abbrev process : Process
process = record {
  print = Function.other 0;
  excepthook = Function.other 1;
  handlers = Handler.other 2 ∷ [];
  level = 30;
}

abbrev before : World
before = record { process = process; runtime = none; created = 0; live = [] }

abbrev is_url : String → Bool
is_url url = true

abbrev to_float : String → Option Float
to_float s = none

abbrev user : LogsInterceptorConfig
user = record no_config {
  transport = record no_transport { url = "http://loki"; tenant_id = "t" };
  app_name = "shop";
  intercept_console = some true;
}

abbrev started : World
started = (init is_url no_config none (some user) before).1

abbrev ended : World
ended = (destroy none started).1

has_logger : get_logger started ≡ ok 0
unfolding get_logger init validate merge_configs resolve
has_logger = refl

no_bridge : HasNoBridge process
unfolding has_bridge
no_bridge n = refl

Reach-IsTidy_example :
    SameHooks (settled ended.runtime ended.process) process × OneLive ended.runtime ended.live
Reach-IsTidy_example =
    Reach-IsTidy process no_bridge
      (next (next here (inits is_url no_config none (some user) before)) (destroys none started))

numbers : validate_numbers user ≡ []
unfolding validate_numbers
numbers = refl

texts : validate_required is_url (merge_configs user (load_config_from_env to_float "/" [])) ≡ []
unfolding validate_required merge_configs
texts = refl

init-Started_example :
    let env = load_config_from_env to_float "/" [] in
    let merged = merge_configs user env in
    let (r, w') = init is_url env none (some user) before in
    (r ≡ ok 0)
    × (get_logger w' ≡ ok 0)
    × (w'.live ≡ 0 ∷ [])
    × Breaker.IsPositive (breaker_config (resolve merged).circuit_breaker)
    × IsPositiveBuffer merged.buffer
    × IsPositiveInt (resolve merged).performance.max_concurrent_flushes
init-Started_example = init-Started to_float "/" [] is_url user before refl numbers texts
