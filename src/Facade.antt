-- ===== src/Facade.antt =====
-- src/logs_interceptor/__init__.py: the one logger of a process, and its life cycle. What the
-- constructors of the components and `LogService.destroy` raise, if anything, is an argument.
pub mod Coerce
pub mod Proxy
pub mod Tidy
pub mod Init
mod Examples
use logs_interceptor_python.Base.{
  ℕ, suc, String, Bool, true, false, not, ◌||◌, Option, none, some, List, [], ◌∷◌, ◌++◌, ◌==◌,
  ℕ_comparable, String_comparable, if◌then◌else◌,
}
use logs_interceptor_python.Base.Dict.{Dict, lookup}
use logs_interceptor_python.Base.Text.{is_blank, text_append}
use logs_interceptor_python.Errors.{Exception, Result, ok, raise, runtime_error}
use logs_interceptor_python.Factory.{Runtime, create, restore_runtime}
use logs_interceptor_python.Interceptor.{Process}
use logs_interceptor_python.Settings.Merge.{merge_configs}
use logs_interceptor_python.Settings.Parse.{parse_bool}
use logs_interceptor_python.Settings.Records.{LogsInterceptorConfig}
use logs_interceptor_python.Settings.Resolve.{IntLogsInterceptorConfig, resolve}
use logs_interceptor_python.Settings.Validate.{validate}

-- `created` counts the loggers made; `live` are those of them that were not destroyed.
pub record World : Type 0 where
  pub process : Process
  pub runtime : Option Runtime
  pub created : ℕ
  pub live : List ℕ

unfoldable pub without : ℕ → List ℕ → List ℕ
without n [] = []
without n (m ∷ ms) = let rest = without n ms in if m == n then rest else m ∷ rest

-- `"\n".join(errors)` behind its heading
unfoldable pub join_errors : String → List String → String
join_errors text [] = text
join_errors text (e ∷ es) = join_errors (text_append text (text_append "\n" e)) es

-- The logger of a runtime is destroyed: its wrapped `destroy` restores the interceptor and then
-- marks it, whatever the last flush raises.
unfoldable pub destroy_logger : Runtime → Process → List ℕ → Runtime × Process × List ℕ
unfolding restore_runtime without
destroy_logger r p live = let (r', p') = restore_runtime r p in (r', p', without r.logger live)

-- The runtime that `init` replaces: its interceptor is restored and its logger destroyed.
abbrev pub retire : Option Runtime → World → World
retire none w = w
retire (some r) w =
    let (r', p') = restore_runtime r w.process in
    let (r'', p'', live) = destroy_logger r' p' w.live in
    record w { process = p''; runtime = some r''; live = live }

abbrev pub installed : ℕ → Runtime × Process → World → World
installed id (r, p) w = record w {
  process = p;
  runtime = some r;
  created = suc id;
  live = id ∷ w.live;
}

-- `LogsInterceptorFactory.create` and what follows it; `fault` is what the constructors raise.
abbrev pub start : Option Exception → IntLogsInterceptorConfig → World → Result ℕ × World
start (some e) resolved w = (raise e, w)
start none resolved w = (ok w.created, installed w.created (create w.created resolved w.process) w)

abbrev pub merged_config :
    LogsInterceptorConfig → Option LogsInterceptorConfig → LogsInterceptorConfig
merged_config env none = env
merged_config env (some user) = merge_configs user env

abbrev pub replace_runtime :
    Option Exception → LogsInterceptorConfig → List String → World → Result ℕ × World
replace_runtime fault merged [] w = start fault (resolve merged) (retire w.runtime w)
replace_runtime fault merged (e ∷ es) w =
    (raise (runtime_error (join_errors "Configuration errors:" (e ∷ es))), w)

-- `init(user_config)`; `env` is what `load_config_from_env` returns.
unfoldable pub init :
    (String → Bool)
    → LogsInterceptorConfig
    → Option Exception
    → Option LogsInterceptorConfig
    → World
    → Result ℕ × World
unfolding destroy_logger join_errors create
init is_url env fault user w =
    let merged = merged_config env user in replace_runtime fault merged (validate is_url merged) w

abbrev pub result_of : Option Exception → Result (Unit {0})
result_of none = ok tt
result_of (some e) = raise e

abbrev pub destroy_runtime : Option Exception → Option Runtime → World → Result (Unit {0}) × World
destroy_runtime fault none w = (ok tt, w)
destroy_runtime fault (some r) w =
    let (r', p') = restore_runtime r w.process in
    let (r'', p'', live) = destroy_logger r' p' w.live in
    (result_of fault, record w { process = p''; runtime = none; live = live })

-- `destroy()`; `fault` is what the logger's `destroy` raises.
unfoldable pub destroy : Option Exception → World → Result (Unit {0}) × World
unfolding destroy_logger
destroy fault w = destroy_runtime fault w.runtime w

-- `get_logger()`
abbrev pub logger_of : Option Runtime → Result ℕ
logger_of none = raise (runtime_error "LogsInterceptor not initialized. Call init() first.")
logger_of (some r) = ok r.logger

unfoldable pub get_logger : World → Result ℕ
get_logger w = logger_of w.runtime

unfoldable pub is_initialized : World → Bool
is_initialized w = elim w.runtime [ none ↦ false | some r ↦ true ]

-- `get_logger().destroy()`: the runtime stays, with its logger destroyed.
abbrev pub close_runtime : Option Runtime → World → World
close_runtime none w = w
close_runtime (some r) w =
    let (r', p', live) = destroy_logger r w.process w.live in
    record w { process = p'; runtime = some r'; live = live }

unfoldable pub close_logger : World → World
unfolding destroy_logger
close_logger w = close_runtime w.runtime w

-- `_auto_init_if_enabled()`; `none` if nothing was tried. An exception is only reported.
unfoldable pub auto_init :
    (String → Bool) → Dict String String → LogsInterceptorConfig → Option Exception → World → World
unfolding init
auto_init is_url environ env fault w =
    if not (parse_bool (lookup "LOGS_AUTO_INIT" environ) false)
    then w
    else if is_blank env.transport.url || is_blank env.transport.tenant_id || is_blank env.app_name
    then w
    else (init is_url env fault (some env) w).1
