-- ===== src/Service.antt =====
-- src/logs_interceptor/application/log_service.py: `LogService.log`, with `_create_log_entry` and
-- `_update_metrics`. What a call reads from outside is in a `Reading`; `W` is what `random` reads.
pub mod Labels
pub mod Log
pub mod Lifecycle
mod Examples
use logs_interceptor_python.Base.{
  ℕ, zero, suc, ◌+◌, ◌-◌, String, Bool, true, false, not, ◌&&◌, ◌||◌, Option, none, some, List, [],
  ◌∷◌, is_empty, length, ltb, ◌==◌, String_comparable, if◌then◌else◌,
}
use logs_interceptor_python.Base.Dict.{Dict, lookup, insert, update}
use logs_interceptor_python.Base.Text.{is_blank, hex, text_append, len}
use logs_interceptor_python.Buffer.{MemoryBuffer, add}
use logs_interceptor_python.Config.{ResolvedBufferConfig, ResolvedFilterConfig}
use logs_interceptor_python.Domain.{LogLevel, Value, number, LogEntryEntity}
use logs_interceptor_python.Filter.{is_level_enabled, should_process, filter}
use logs_interceptor_python.Sanitize.{Heap}

-- What a span context holds for an id: an int, or another value as a text.
pub data SpanId : Type 0 where
  int : ℕ → SpanId
  text : String → SpanId

-- The keys of `config` that are read here, and what `__init__` found out.
pub record ServiceConfig : Type 0 where
  pub app_name : String
  pub version : String
  pub environment : String
  pub labels : Dict String String
  pub enable_metrics : Bool
  pub hostname : String
  pub pid : String

-- `dynamic` are the results of the providers as texts, `none` where one raised.
pub record Reading : Type 0 where
  pub async_context : Dict String Value
  pub milliseconds : ℕ
  pub timestamp : String
  pub dynamic : List (String × Option String)
  pub trace_id : Option SpanId
  pub span_id : Option SpanId
  pub address : ℕ
  pub filtered_address : ℕ
  pub now : ℕ
  pub memory_usage : ℕ
  pub cpu_usage : ℕ
  pub dlq_dropped : ℕ

pub record LoggerMetrics : Type 0 where
  pub logs_processed : ℕ
  pub logs_dropped : ℕ
  pub logs_sanitized : ℕ
  pub flush_count : ℕ
  pub error_count : ℕ
  pub last_flush_time : ℕ
  pub buffer_size : ℕ
  pub memory_usage : ℕ
  pub cpu_usage : ℕ
  pub dropped_by_backpressure : ℕ
  pub dropped_by_dlq : ℕ

pub record LogService : Type 0 where
  pub destroyed : Bool
  pub log_sequence : ℕ
  pub last_resource_sample_at : ℕ
  pub metrics : LoggerMetrics
  pub buffer : MemoryBuffer
  pub heap : Heap

-- the loop over the providers
unfoldable pub dynamic_labels :
    List (String × Option String) → Dict String String → Dict String String
dynamic_labels [] d = d
dynamic_labels ((key, none) ∷ providers) d = dynamic_labels providers d
dynamic_labels ((key, some value) ∷ providers) d =
    dynamic_labels providers
      (if not (is_blank value) && not (value == "undefined") then insert key value d else d)

-- `f"{...:0<width>x}"`
unfoldable pub zeros : ℕ → String → String
zeros zero s = s
zeros (suc n) s = text_append "0" (zeros n s)

abbrev pub padded_hex : ℕ → ℕ → String
padded_hex width n = let digits = hex n in zeros (width - len digits) digits

abbrev pub span_text : ℕ → Option SpanId → Option String
span_text width none = none
span_text width (some (int n)) = some (padded_hex width n)
span_text width (some (text s)) = some s

-- `if not trace_id: trace_id = dynamic_labels.get("trace_id")`
abbrev pub or_label : Option String → Option String → Option String
or_label none label = label
or_label (some s) label = if is_blank s then label else some s

abbrev pub or_none : Dict String Value → Option (Dict String Value)
or_none [] = none
or_none (x ∷ d) = some (x ∷ d)

abbrev pub or_empty : Option (Dict String Value) → Dict String Value
or_empty none = []
or_empty (some d) = d

module _ (config : ServiceConfig) where
  abbrev pub base_labels : LogLevel → Dict String String
  base_labels level =
      ("app", config.app_name)
      ∷ ("version", config.version)
      ∷ ("environment", config.environment)
      ∷ ("level", level)
      ∷ ("hostname", config.hostname)
      ∷ ("pid", config.pid)
      ∷ []

  unfoldable pub all_labels : LogLevel → Dict String String → Dict String String
  all_labels level dynamic = update (update (base_labels level) config.labels) dynamic

  -- the entry, without the count of the sequence
  unfoldable pub create_log_entry :
      LogLevel → String → Option (Dict String Value) → Reading → LogService → LogEntryEntity
  unfolding dynamic_labels all_labels zeros
  create_log_entry level message context r s =
      let dynamic = dynamic_labels r.dynamic [] in
      record {
        address = r.address;
        id = text_append (hex r.milliseconds) (text_append "-" (hex s.log_sequence));
        timestamp = r.timestamp;
        level = level;
        message = message;
        context = or_none (update r.async_context (or_empty context));
        trace_id = or_label (span_text 32 r.trace_id) (lookup "trace_id" dynamic);
        span_id = or_label (span_text 16 r.span_id) (lookup "span_id" dynamic);
        request_id = lookup "request_id" dynamic;
        labels = some (all_labels level dynamic);
        metadata = some (
            ("memory_usage", number s.metrics.memory_usage)
            ∷ ("cpu_usage", number s.metrics.cpu_usage)
            ∷ []);
      }

  -- `_update_metrics`; the interval of the samples is one second
  unfoldable pub update_metrics : Bool → Reading → LogService → LogService
  update_metrics force r s =
      if not config.enable_metrics
      then s
      else if not force && ltb r.now (s.last_resource_sample_at + 1000000)
      then record s { metrics = record s.metrics { buffer_size = length s.buffer.entries } }
      else record s {
        last_resource_sample_at = r.now;
        metrics = record s.metrics {
          memory_usage = r.memory_usage;
          cpu_usage = r.cpu_usage;
          buffer_size = length s.buffer.entries;
          dropped_by_backpressure = s.buffer.dropped_entries;
          dropped_by_dlq = r.dlq_dropped;
        };
      }

  abbrev pub drop_log : LogService → LogService
  drop_log s = record s { metrics = record s.metrics { logs_dropped = s.metrics.logs_dropped + 1 } }

  -- `context_differs` is `!=` on the two contexts, each with the heap that it lies in.
  module _ (filter_config : ResolvedFilterConfig) (buffer_config : ResolvedBufferConfig)
      (search : String → String → Bool) (key_sensitive detect : String → Bool)
      (from_iso : String → Option ℕ)
      (context_differs : LogEntryEntity × Heap → LogEntryEntity × Heap → Bool) where
    -- `log` from the filtered entry on
    unfoldable pub store_entry :
        Reading → LogEntryEntity → LogEntryEntity × Heap → LogService → LogService
    unfolding update_metrics
    store_entry r entry (filtered, h) s =
        let differs =
          not (filtered.message == entry.message)
          || context_differs (filtered, h) (entry, s.heap) in
        let sanitized =
          if differs then s.metrics.logs_sanitized + 1 else s.metrics.logs_sanitized in
        update_metrics false r (record s {
          heap = h;
          buffer = add buffer_config from_iso r.now filtered s.buffer;
          metrics = record s.metrics {
            logs_sanitized = sanitized;
            logs_processed = s.metrics.logs_processed + 1;
          };
        })

    abbrev pub store_filtered :
        {W : Type 0}
        → Reading
        → LogEntryEntity
        → Option (LogEntryEntity × Heap)
        → LogService
        → W
        → Option (LogService × W)
    store_filtered r entry none s w = none
    store_filtered r entry (some f) s w = some (store_entry r entry f s, w)

    -- `none` if the fuel of `sanitize_data` is used up
    unfoldable pub log :
        {W : Type 0}
        → (W → ℕ × W)
        → LogLevel
        → String
        → Option (Dict String Value)
        → Reading
        → LogService
        → W
        → Option (LogService × W)
    log random level message context r s w =
        if s.destroyed
        then some (drop_log s, w)
        else if is_level_enabled filter_config level
        then (let entry = create_log_entry level message context r s in
            let s1 = record s { log_sequence = s.log_sequence + 1 } in
            let (processed, w1) = should_process filter_config search random entry w in
            if processed
            then store_filtered r entry
                (filter filter_config key_sensitive detect r.filtered_address entry s.heap) s1 w1
            else some (drop_log s1, w1))
        else some (s, w)
