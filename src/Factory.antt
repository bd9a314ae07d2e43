-- ===== src/Factory.antt =====
-- src/logs_interceptor/presentation/factory.py and infrastructure/transport/transport_factory.py: what
-- is built from a resolved configuration. A logger is known by its number, which is also that of its
-- interceptor.
use logs_interceptor_python.Base.{
  ℕ, zero, suc, String, Bool, true, Option, none, some, [], ◌∷◌, String_comparable, ◌==◌,
  if◌then◌else◌,
}
use logs_interceptor_python.Base.Dict.{Dict, update}
use logs_interceptor_python.Base.Text.{contains, lower_text, strip}
use logs_interceptor_python.Errors.{Result, ok, raise, runtime_error}
use logs_interceptor_python.Interceptor.{Process, RuntimeInterceptor, new, enable, restore}
use logs_interceptor_python.Settings.Numbers.{ℤ, pos, negsuc}
use logs_interceptor_python.Settings.Records.{DeadLetterQueueConfig}
use logs_interceptor_python.Settings.Resolve.{
  or_default, or_text, IntTransportConfig, IntLogsInterceptorConfig,
}

-- `value or default`, of an int
abbrev pub or_int : ℤ → Option ℤ → ℤ
or_int default none = default
or_int default (some (pos zero)) = default
or_int default (some (pos (suc n))) = pos (suc n)
or_int default (some (negsuc n)) = negsuc n

-- The dead letter queue, with the arguments of its constructor.
pub data QueueChoice : Type 0 where
  absent : QueueChoice
  memory : ℤ → QueueChoice
  file : Option String → ℤ → ℤ → ℤ → QueueChoice

unfoldable pub make_queue : DeadLetterQueueConfig → QueueChoice
make_queue c =
    if or_text "memory" c.type == "file"
    then file c.base_path (or_int (pos 1000) c.max_size) (or_int (pos 3) c.max_retries)
        (or_int (pos 10) c.max_file_size_mb)
    else memory (or_int (pos 1000) c.max_size)

unfoldable pub choose_queue : Option DeadLetterQueueConfig → QueueChoice
unfolding make_queue
choose_queue none = absent
choose_queue (some c) = if or_default true c.enabled then make_queue c else absent

pub data TransportChoice : Type 0 where
  loki_json loki_protobuf : TransportChoice

-- `LokiProtobufTransport.__init__` up to the client: the variable that enables it, and whether the
-- module `snappy` was found
unfoldable pub init_protobuf : Option String → Bool → Result (Unit {0})
init_protobuf experimental snappy =
    if contains (lower_text (strip (or_text "" experimental))) ("1" ∷ "true" ∷ "yes" ∷ "on" ∷ [])
    then (if snappy
        then ok tt
        else raise (runtime_error "python-snappy is required for compression='snappy'"))
    else raise
        (runtime_error "Set LOGS_ENABLE_EXPERIMENTAL_PROTOBUF=true to enable LokiProtobufTransport")

abbrev pub protobuf_or_json : Result (Unit {0}) → TransportChoice
protobuf_or_json (ok u) = loki_protobuf
protobuf_or_json (raise e) = loki_json

-- `TransportFactory.create`, the transport that is wrapped
unfoldable pub choose_transport : Option String → Bool → IntTransportConfig → TransportChoice
unfolding init_protobuf contains
choose_transport experimental snappy c =
    if c.compression == "snappy"
    then protobuf_or_json (init_protobuf experimental snappy)
    else loki_json

-- The function of a dynamic label.
pub data Provider : Type 0 where
  request_id trace_id span_id : Provider
  configured : ℕ → Provider

abbrev pub configured_labels : Dict String ℕ → Dict String Provider
configured_labels [] = []
configured_labels (x ∷ d) = (x.0, configured x.1) ∷ configured_labels d

-- `otel` says that the module `opentelemetry` was found.
unfoldable pub dynamic_providers : Bool → Dict String ℕ → Dict String Provider
unfolding update
dynamic_providers otel labels =
    update
      (("request_id", request_id)
        ∷ (if otel then ("trace_id", trace_id) ∷ ("span_id", span_id) ∷ [] else []))
      (configured_labels labels)

-- `RuntimeBundle`, and `_RuntimeState` of __init__.py
pub record Runtime : Type 0 where
  pub logger : ℕ
  pub interceptor : Option RuntimeInterceptor

abbrev pub bundle : ℕ → RuntimeInterceptor × Process → Runtime × Process
bundle id (i, p) = (record { logger = id; interceptor = some i }, p)

-- `LogsInterceptorFactory.create`, from the logger on
unfoldable pub create : ℕ → IntLogsInterceptorConfig → Process → Runtime × Process
create id config p =
    if config.intercept_console
    then bundle id (enable (new id config.preserve_original_console p) p)
    else (record { logger = id; interceptor = none }, p)

abbrev pub restored : Runtime → RuntimeInterceptor × Process → Runtime × Process
restored r (i, p) = (record r { interceptor = some i }, p)

abbrev pub restore_optional : Runtime → Option RuntimeInterceptor → Process → Runtime × Process
restore_optional r none p = (r, p)
restore_optional r (some i) p = restored r (restore i p)

-- `if runtime.runtime_interceptor is not None: runtime.runtime_interceptor.restore()`
unfoldable pub restore_runtime : Runtime → Process → Runtime × Process
restore_runtime r p = restore_optional r r.interceptor p
