-- ===== src/Interceptor.antt =====
-- src/logs_interceptor/infrastructure/interceptors/runtime_interceptor.py: the hooks of a Python
-- process and their interception. An interceptor is known by a number, and so are its functions and
-- its handler; any other function or handler is an `other`.
pub mod Restore
pub mod Levels
mod Examples
use logs_interceptor_python.Base.{
  ℕ, String, Bool, true, false, not, ◌||◌, Option, none, some, List, [], ◌∷◌, ◌++◌, ltb, leb, ◌==◌,
  ℕ_comparable, min, if◌then◌else◌,
}
use logs_interceptor_python.Base.Dict.{Dict}
use logs_interceptor_python.Base.Text.{text_append}
use logs_interceptor_python.Domain.{LogLevel, Value, null, number, str}
use logs_interceptor_python.Errors.{Exception, Result, ok, raise}

-- `builtins.print` or `sys.excepthook`
pub data Function : Type 0 where
  other : ℕ → Function
  intercepted : ℕ → Function

pub data Handler : Type 0 where
  other : ℕ → Handler
  bridge : ℕ → Handler

-- What an interceptor changes: two functions, and the handlers and the level of the root logger.
pub record Process : Type 0 where
  pub print : Function
  pub excepthook : Function
  pub handlers : List Handler
  pub level : ℕ

pub record RuntimeInterceptor : Type 0 where
  pub id : ℕ
  pub preserve_original : Bool
  pub enabled : Bool
  pub original_print : Function
  pub original_excepthook : Function
  pub original_handlers : List Handler

-- `RuntimeInterceptor(logger, preserve_original)`
unfoldable pub new : ℕ → Bool → Process → RuntimeInterceptor
new id preserve_original p = record {
  id = id;
  preserve_original = preserve_original;
  enabled = false;
  original_print = p.print;
  original_excepthook = p.excepthook;
  original_handlers = [];
}

abbrev pub is_bridge : ℕ → Handler → Bool
is_bridge id (Handler.other n) = false
is_bridge id (bridge n) = n == id

unfoldable pub has_bridge : ℕ → List Handler → Bool
has_bridge id [] = false
has_bridge id (h ∷ hs) = is_bridge id h || has_bridge id hs

-- `logger.addHandler(self._bridge_handler)`
unfoldable pub add_handler : ℕ → List Handler → List Handler
unfolding has_bridge
add_handler id hs = if has_bridge id hs then hs else hs ++ bridge id ∷ []

-- `logger.removeHandler(self._bridge_handler)`
unfoldable pub remove_handler : ℕ → List Handler → List Handler
remove_handler id [] = []
remove_handler id (h ∷ hs) = if is_bridge id h then hs else h ∷ remove_handler id hs

-- `min(level, logging.DEBUG) or logging.DEBUG`
abbrev pub lowered_level : ℕ → ℕ
lowered_level level = let least = min level 10 in if least == 0 then 10 else least

unfoldable pub patch_logging : RuntimeInterceptor → Process → RuntimeInterceptor × Process
unfolding add_handler
patch_logging i p =
    let kept = if i.preserve_original then p.handlers else [] in
    (
      record i {
        original_handlers = if i.preserve_original then i.original_handlers else p.handlers;
      },
      record p { handlers = add_handler i.id kept; level = lowered_level p.level },
    )

unfoldable pub enable : RuntimeInterceptor → Process → RuntimeInterceptor × Process
unfolding patch_logging
enable i p =
    if i.enabled
    then (i, p)
    else patch_logging (record i { enabled = true })
        (record p { print = intercepted i.id; excepthook = intercepted i.id })

unfoldable pub restore : RuntimeInterceptor → Process → RuntimeInterceptor × Process
unfolding remove_handler
restore i p = if not i.enabled then (i, p) else (
  record i { enabled = false },
  record p {
    print = i.original_print;
    excepthook = i.original_excepthook;
    handlers =
        if not i.preserve_original then i.original_handlers else remove_handler i.id p.handlers;
  },
)

-- `_map_level`, with the numbers of `logging`
unfoldable pub map_level : ℕ → LogLevel
map_level level_no =
    if leb 50 level_no
    then "fatal"
    else if leb 40 level_no
    then "error"
    else if leb 30 level_no
    then "warn"
    else if leb 20 level_no
    then "info"
    else "debug"

-- A `logging.LogRecord`: `message` is what `getMessage` returns or raises, `exc_info` the text of
-- its traceback.
pub record LogRecord : Type 0 where
  pub levelno : ℕ
  pub message : Result String
  pub name : String
  pub module_name : String
  pub function_name : String
  pub line : ℕ
  pub exc_info : Option String

abbrev pub record_context : LogRecord → Dict String Value
record_context r =
    ("source", str "logging")
    ∷ ("logger_name", str r.name)
    ∷ ("module", str r.module_name)
    ∷ ("function", str r.function_name)
    ∷ ("line", number r.line)
    ∷ []

abbrev pub exception_context : Option String → Dict String Value
exception_context none = []
exception_context (some text) = ("exc_info", str text) ∷ []

-- Calls of the logger may raise; `W` is the state behind it.
module _ {W : Type 0} where
  abbrev pub emit_message :
      (LogLevel → String → Dict String Value → W → Result (Unit {0}) × W)
      → LogRecord
      → Result String
      → W
      → W
  emit_message log r (ok message) w =
      (log (map_level r.levelno) message (record_context r ++ exception_context r.exc_info) w).1
  emit_message log r (raise e) w = w

  -- `_BridgeLoggingHandler.emit`
  unfoldable pub emit :
      (LogLevel → String → Dict String Value → W → Result (Unit {0}) × W) → LogRecord → W → W
  emit log r w = emit_message log r r.message w

  -- what follows the call of the logger in both functions
  abbrev pub then_original : Bool → (W → Result (Unit {0}) × W) → W → Result (Unit {0}) × W
  then_original preserve_original original w = if preserve_original then original w else (ok tt, w)

-- `" ".join(texts)`
unfoldable pub join : List String → String
join [] = ""
join (t ∷ []) = t
join (t ∷ u ∷ ts) = text_append t (text_append " " (join (u ∷ ts)))

module _ {W : Type 0} (info : String → Dict String Value → W → Result (Unit {0}) × W) where
  -- `intercepted_print`: an argument is its text, or what `safe_stringify` makes of it.
  unfoldable pub intercepted_print :
      Bool → (W → Result (Unit {0}) × W) → List String → W → Result (Unit {0}) × W
  unfolding join
  intercepted_print preserve_original original arguments w =
      then_original preserve_original original
        (info (join arguments) (("source", str "print") ∷ []) w).1

abbrev pub traceback_value : Option String → Value
traceback_value none = null
traceback_value (some text) = str text

-- An uncaught exception: the name of its type, its text, and that of its traceback.
pub record Uncaught : Type 0 where
  pub exception_type : String
  pub message : String
  pub traceback : Option String

module _ {W : Type 0} (fatal : String → Dict String Value → W → Result (Unit {0}) × W)
    (flush : W → Result (Unit {0}) × W) where
  -- `self._logger.flush()`, if the call before it has not raised
  abbrev pub flush_after : Result (Unit {0}) × W → W
  flush_after (ok u, w) = (flush w).1
  flush_after (raise e, w) = w

  unfoldable pub intercepted_excepthook :
      Bool → (W → Result (Unit {0}) × W) → Uncaught → W → Result (Unit {0}) × W
  intercepted_excepthook preserve_original original e w = then_original preserve_original original (
      flush_after (
        fatal (text_append "Uncaught exception: " e.message)
          (("source", str "sys.excepthook")
            ∷ ("exception_type", str e.exception_type)
            ∷ ("traceback", traceback_value e.traceback)
            ∷ [])
          w))
