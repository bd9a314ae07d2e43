-- ===== src/Domain.antt =====
-- src/logs_interceptor/domain: a log entry and its level.
use logs_interceptor_python.Base.{ℕ, String, Bool, Option, none, some, [], ◌∷◌, if◌then◌else◌}
use logs_interceptor_python.Base.Text.{is_blank}
use logs_interceptor_python.Base.Dict.{Dict}

-- `types.LogLevel`: a literal type, which Python does not enforce.
abbrev pub LogLevel : Type 0
LogLevel = String

-- What a context or metadata dict may hold. A list, a dict or another object is a reference to it.
pub data Value : Type 0 where
  null : Value
  boolean : Bool → Value
  number : ℕ → Value
  str : String → Value
  ref : ℕ → Value

-- `entities.LogEntryEntity`; `address` is what `id(entry)` returns.
pub record LogEntryEntity : Type 0 where
  pub address : ℕ
  pub id : String
  pub timestamp : String
  pub level : LogLevel
  pub message : String
  pub context : Option (Dict String Value)
  pub trace_id : Option String
  pub span_id : Option String
  pub request_id : Option String
  pub labels : Option (Dict String String)
  pub metadata : Option (Dict String Value)

-- The dict that `to_dict` returns: an optional key that is missing is `none`.
pub record LogEntry : Type 0 where
  pub id : String
  pub timestamp : String
  pub level : LogLevel
  pub message : String
  pub context : Option (Dict String Value)
  pub trace_id : Option String
  pub span_id : Option String
  pub request_id : Option String
  pub labels : Option (Dict String String)
  pub metadata : Option (Dict String Value)

-- `if self.trace_id:` and its kin: an empty text or dict is left out.
abbrev pub if_text : Option String → Option String
if_text none = none
if_text (some s) = if is_blank s then none else some s

abbrev pub if_dict : {V : Type 0} → Option (Dict String V) → Option (Dict String V)
if_dict none = none
if_dict (some []) = none
if_dict (some (x ∷ d)) = some (x ∷ d)

unfoldable pub to_dict : LogEntryEntity → LogEntry
to_dict e = record {
  id = e.id;
  timestamp = e.timestamp;
  level = e.level;
  message = e.message;
  context = e.context;
  trace_id = if_text e.trace_id;
  span_id = if_text e.span_id;
  request_id = if_text e.request_id;
  labels = if_dict e.labels;
  metadata = if_dict e.metadata;
}
