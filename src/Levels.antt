-- ===== src/Levels.antt =====
-- src/logs_interceptor/domain/value_objects.py: the levels of log entries and their order.
pub mod Order
mod Examples
use logs_interceptor_python.Base.{
  ℕ, String, Bool, Option, none, some, List, [], ◌∷◌, leb, String_comparable, if◌then◌else◌,
}
use logs_interceptor_python.Base.Dict.{Dict, lookup}
use logs_interceptor_python.Base.Text.{contains, lower_text, strip, text_append}
use logs_interceptor_python.Domain.{LogLevel}
use logs_interceptor_python.Errors.{Exception, Result, ok, raise, runtime_error}

abbrev pub valid_log_levels : List LogLevel
valid_log_levels = "debug" ∷ "info" ∷ "warn" ∷ "error" ∷ "fatal" ∷ []

abbrev pub level_priority : Dict LogLevel ℕ
level_priority = ("debug", 0) ∷ ("info", 1) ∷ ("warn", 2) ∷ ("error", 3) ∷ ("fatal", 4) ∷ []

pub record LogLevelVo : Type 0 where
  pub value : LogLevel

unfoldable pub is_valid : String → Bool
unfolding contains
is_valid level = contains level valid_log_levels

-- `LogLevelVo(value)`, which `__post_init__` checks
unfoldable pub new : String → Result LogLevelVo
unfolding is_valid
new value =
    if is_valid value
    then ok (record { value = value })
    else raise (runtime_error (text_append "Invalid log level: " value))

unfoldable pub from_string : String → Result LogLevelVo
unfolding new is_valid lower_text strip
from_string level =
    let normalized = strip (lower_text level) in
    if is_valid normalized
    then new normalized
    else raise (runtime_error (text_append "Invalid log level: " level))

-- `LEVEL_PRIORITY[self.value]`, `none` where it is a KeyError
unfoldable pub priority : LogLevelVo → Option ℕ
unfolding lookup
priority l = lookup l.value level_priority

-- `compare_to(other) >= 0`, on the two priorities
abbrev pub at_least : Option ℕ → Option ℕ → Option Bool
at_least none o = none
at_least (some p) none = none
at_least (some p) (some q) = some (leb q p)

unfoldable pub is_greater_than_or_equal : LogLevelVo → LogLevelVo → Option Bool
unfolding priority
is_greater_than_or_equal l other = at_least (priority l) (priority other)
