-- ===== src/Integrations/Handlers.antt =====
-- src/logs_interceptor/integrations: logging_handler.py, loguru.py and structlog.py.
use logs_interceptor_python.Base.{
  ℕ, String, Option, none, some, [], ◌∷◌, leb, ◌==◌, String_comparable, if◌then◌else◌,
}
use logs_interceptor_python.Base.Dict.{Dict, lookup, erase, update}
use logs_interceptor_python.Base.Text.{contains, lower_text}
use logs_interceptor_python.Domain.{LogLevel, Value, number, str}
use logs_interceptor_python.Errors.{Result, ok, raise, runtime_error}
use logs_interceptor_python.Interceptor.{LogRecord}
use logs_interceptor_python.Levels.{valid_log_levels}

abbrev pub Log : Type 0 → Type 0
Log W = LogLevel → String → Dict String Value → W → Result (Unit {0}) × W

-- `LoggingHandler._map_level`
unfoldable pub map_level : ℕ → LogLevel
map_level level_no =
    if leb 50 level_no
    then "fatal"
    else if leb 40 level_no
    then "error"
    else if leb 30 level_no
    then "warn"
    else if leb 20 level_no
    then "info"
    else "debug"

abbrev pub exception_context : Option String → Dict String Value
exception_context none = []
exception_context (some traceback) = ("exception", str traceback) ∷ []

abbrev pub record_context : LogRecord → Dict String Value
record_context r =
    ("source", str "python-logging")
    ∷ ("logger_name", str r.name)
    ∷ ("module", str r.module_name)
    ∷ ("function", str r.function_name)
    ∷ ("line", number r.line)
    ∷ exception_context r.exc_info

-- `LoggingHandler.emit`: every error is passed over.
unfoldable pub emit : {W : Type 0} → Log W → LogRecord → W → W
unfolding map_level
emit log r w = elim r.message [
  | raise e ↦ w
  | ok message ↦ (log (map_level r.levelno) message (record_context r) w).1
]

-- What `record.get("level", {})` is: a dict with a name or without one, or the object of `loguru`,
-- which has no `get`.
pub data LoguruLevel : Type 0 where
  level_dict : Option String → LoguruLevel
  level_object : String → LoguruLevel

-- `message` is its text; a key that is missing is None.
pub record LoguruRecord : Type 0 where
  pub level : LoguruLevel
  pub message : String
  pub module_name : Value
  pub function_name : Value
  pub line : Value
  pub extra : Value

abbrev pub known_or_info : String → LogLevel
known_or_info level = if contains level valid_log_levels then level else "info"

unfoldable pub loguru_level : String → LogLevel
unfolding contains
loguru_level name =
    let lowered = lower_text name in
    let level = if lowered == "warning" then "warn" else lowered in
    known_or_info (if level == "critical" then "fatal" else level)

abbrev pub name_or_info : Option String → String
name_or_info none = "INFO"
name_or_info (some name) = name

-- `LoguruSink.__call__` of a message with a record or of a text alone
unfoldable pub sink :
    {W : Type 0} → Log W → Option LoguruRecord → String → W → Result (Unit {0}) × W
unfolding loguru_level
sink log none text w = log "info" text (("source", str "loguru") ∷ []) w
sink log (some r) text w = elim r.level [
  | level_object name ↦ (raise (runtime_error "'RecordLevel' object has no attribute 'get'"), w)
  | level_dict name ↦
      log (loguru_level (name_or_info name)) r.message
        (("source", str "loguru")
          ∷ ("module", r.module_name)
          ∷ ("function", r.function_name)
          ∷ ("line", r.line)
          ∷ ("extra", r.extra)
          ∷ [])
        w
]

unfoldable pub structlog_level : String → LogLevel
unfolding contains
structlog_level method_name = known_or_info (lower_text method_name)

abbrev pub event_text : (Value → String) → Option Value → String → String
event_text text_of none method_name = method_name
event_text text_of (some event) method_name = text_of event

abbrev pub returning : {W A : Type 0} → A → Result (Unit {0}) × W → Result A × W
returning a (ok u, w) = (ok a, w)
returning a (raise e, w) = (raise e, w)

-- `StructlogProcessor.__call__`; `text_of` is `str`.
unfoldable pub process :
    {W : Type 0}
    → (Value → String)
    → Log W
    → String
    → Dict String Value
    → W
    → Result (Dict String Value) × W
unfolding structlog_level
process text_of log method_name event_dict w = returning event_dict (
    log (structlog_level method_name) (event_text text_of (lookup "event" event_dict) method_name)
      (update (("source", str "structlog") ∷ []) (erase "event" event_dict)) w)
