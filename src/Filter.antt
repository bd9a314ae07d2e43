-- ===== src/Filter.antt =====
-- src/logs_interceptor/infrastructure/filter/log_filter.py: `LogFilter`, with `should_sample` and
-- the calls of `sanitize_data` and `detect_sensitive_data` of utils.py. The tests of regular
-- expressions are parameters, and `W` is the world that `random.random` reads, in millionths.
pub mod Safe
mod Examples
use logs_interceptor_python.Base.{
  ℕ, ◌+◌, String, Bool, true, false, ◌&&◌, ◌||◌, Option, none, some, List, [], ◌∷◌, is_empty, ltb,
  leb, ◌==◌, String_comparable, if◌then◌else◌,
}
use logs_interceptor_python.Base.Dict.{Dict}
use logs_interceptor_python.Base.Text.{len, prefix, text_append}
use logs_interceptor_python.Config.{ResolvedFilterConfig}
use logs_interceptor_python.Domain.{LogLevel, Value, LogEntryEntity}
use logs_interceptor_python.Sanitize.{
  Object, dict, Heap, Pass, Outcome, allocate, redacted, sanitize_data,
}

abbrev one_million : ℕ
one_million = 1000000

-- `should_sample`, which draws a number only for a rate between 0 and 1
unfoldable pub should_sample : {W : Type 0} → (W → ℕ × W) → ℕ → W → Bool × W
should_sample random rate w =
    if leb one_million rate
    then (true, w)
    else if leb rate 0
    then (false, w)
    else (let (drawn, w') = random w in (ltb drawn rate, w'))

unfoldable pub has_level : LogLevel → List LogLevel → Bool
has_level level [] = false
has_level level (l ∷ levels) = level == l || has_level level levels

module _ (config : ResolvedFilterConfig) where
  unfoldable pub is_level_enabled : LogLevel → Bool
  unfolding has_level
  is_level_enabled level = has_level level config.levels

  module _ (search : String → String → Bool) where
    -- `any(pattern.search(message) for pattern in patterns)`
    unfoldable pub any_found : List String → String → Bool
    any_found [] message = false
    any_found (pattern ∷ patterns) message = search pattern message || any_found patterns message

    unfoldable pub should_process : {W : Type 0} → (W → ℕ × W) → LogEntryEntity → W → Bool × W
    unfolding is_level_enabled any_found should_sample
    should_process random entry w =
        if is_level_enabled entry.level
        then (if is_empty config.patterns || any_found config.patterns entry.message
            then should_sample random config.sampling_rate w
            else (false, w))
        else (false, w)

  -- the message cut to its limit
  unfoldable pub truncate : String → String
  truncate message =
      if ltb config.max_message_length (len message)
      then text_append (prefix config.max_message_length message) "...[truncated]"
      else message

  module _ (key_sensitive detect : String → Bool) where
    unfoldable pub filter_message : String → String
    unfolding truncate
    filter_message message =
        let cut = truncate message in if config.sanitize && detect cut then redacted else cut

    abbrev pub sanitized : Outcome (Dict String Value) → Option (Option (Dict String Value) × Heap)
    sanitized none = none
    sanitized (some (d, p)) = some (some d, p.heap)

    -- The context is an object of its own: it is placed in the heap, where `sanitize_data` may meet
    -- it again. The fuel is the number of objects and one more.
    abbrev pub filter_context :
        Option (Dict String Value) → Heap → Option (Option (Dict String Value) × Heap)
    filter_context none h = some (none, h)
    filter_context (some d) h =
        if config.sanitize
        then (let (a, h') = allocate (dict d) h in
            sanitized (
              sanitize_data key_sensitive detect (h'.next + 1) a (record { seen = []; heap = h' })))
        else some (some d, h)

    -- the new entry, with a context
    unfoldable pub rebuild :
        ℕ
        → LogEntryEntity
        → Option (Option (Dict String Value) × Heap)
        → Option (LogEntryEntity × Heap)
    unfolding filter_message
    rebuild address entry none = none
    rebuild address entry (some (context, h)) =
        let message = filter_message entry.message in
        some (record entry { address = address; message = message; context = context }, h)

    -- `filter`, which makes a new entry at an address; `none` if the fuel is used up
    unfoldable pub filter : ℕ → LogEntryEntity → Heap → Option (LogEntryEntity × Heap)
    unfolding rebuild
    filter address entry h = rebuild address entry (filter_context entry.context h)
