-- ===== src/Loki.antt =====
-- src/logs_interceptor/infrastructure/transport/loki_json_transport.py: `LokiJsonTransport`, without
-- its averages. Bytes are a list of numbers; JSON, the compressor, the HTTP client and
-- `datetime.fromisoformat` are parameters, and `W` is the world that a request works on.
mod Payload
pub mod Sorted
pub mod Groups
pub mod Sends
pub mod Protobuf
mod Examples
unfoldable pub use Payload.*
use logs_interceptor_python.Base.{
  ℕ, suc, ◌+◌, ◌*◌, String, Bool, true, false, ◌&&◌, ◌||◌, Option, none, some, List, [], ◌∷◌, ◌++◌,
  map, length, leb, ◌==◌, ℕ_comparable, String_comparable, if◌then◌else◌,
}
use logs_interceptor_python.Base.Dict.{Dict, lookup, insert, update}
use logs_interceptor_python.Base.Text.{
  is_blank, codes, decimal, is_before, replace_char, text_append,
}
use logs_interceptor_python.Domain.{LogEntryEntity}
use logs_interceptor_python.Errors.{Exception, Result, ok, raise}
use logs_interceptor_python.Interfaces.{TransportHealth}

abbrev pub Bytes : Type 0
Bytes = List ℕ

pub record Response : Type 0 where
  pub status_code : ℕ
  pub text : String

-- `get_name() != "none"`, `compress`, which may raise, and `get_content_encoding`
pub record Compressor : Type 0 where
  pub compresses : Bool
  pub compress : Bytes → Result Bytes
  pub content_encoding : Option String

pub record LokiConfig : Type 0 where
  pub tenant_id : String
  pub auth_token : String
  pub compression_threshold : ℕ
  pub extra_headers : Dict String String

pub record LokiMetrics : Type 0 where
  pub total_sends : ℕ
  pub successful_sends : ℕ
  pub failed_sends : ℕ
  pub total_bytes_sent : ℕ
  pub total_bytes_compressed : ℕ

pub record LokiJsonTransport : Type 0 where
  pub health : TransportHealth
  pub metrics : LokiMetrics

-- `RetryableTransportError(...)` of a response
unfoldable pub response_error : Response → Exception
response_error response = record {
  message =
      text_append "Loki responded with "
        (text_append (decimal response.status_code) (text_append ": " response.text));
  retryable = some (response.status_code == 429 || leb 500 response.status_code);
  status_code = some response.status_code;
}

-- What a send counts of a batch that was taken: the bytes of the body, and those before
-- compression.
pub record Sent : Type 0 where
  pub body_size : ℕ
  pub raw_size : ℕ

abbrev pub with_encoding : Option String → Dict String String → Dict String String
with_encoding none headers = headers
with_encoding (some e) headers = if is_blank e then headers else insert "Content-Encoding" e headers

module _ (config : LokiConfig) (compressor : Compressor) where
  unfoldable pub headers_for : Bool → Dict String String
  headers_for was_compressed =
      let fixed : Dict String String =
        ("Content-Type", "application/json")
        ∷ ("X-Scope-OrgID", config.tenant_id)
        ∷ ("User-Agent", "elven-logs-interceptor-python/0.1.2")
        ∷ [] in
      let headers = update fixed config.extra_headers in
      let authorized =
        if is_blank config.auth_token
        then headers
        else insert "Authorization" (text_append "Bearer " config.auth_token) headers in
      if was_compressed then with_encoding compressor.content_encoding authorized else authorized

  unfoldable pub compresses : Bytes → Bool
  compresses raw = compressor.compresses && leb config.compression_threshold (length raw)

  module _ {W : Type 0} (post : Dict String String → Bytes → W → Result Response × W) where
    abbrev pub judge_response : Bytes → Bytes → Result Response → Result Sent
    judge_response raw body (raise e) = raise e
    judge_response raw body (ok response) =
        if leb 300 response.status_code
        then raise (response_error response)
        else ok (record { body_size = length body; raw_size = length raw })

    abbrev pub post_body : Bool → Bytes → Result Bytes → W → Result Sent × W
    post_body was_compressed raw (raise e) w = (raise e, w)
    post_body was_compressed raw (ok body) w =
        let (response, w') = post (headers_for was_compressed) body w in
        (judge_response raw body response, w')

    -- the `try` block up to the status; `dumped` is what `_dumps(payload)` gives
    unfoldable pub post_raw : Result Bytes → W → Result Sent × W
    post_raw (raise e) w = (raise e, w)
    post_raw (ok raw) w =
        let compressing = compresses raw in
        post_body compressing raw (if compressing then compressor.compress raw else ok raw) w

-- The clock is read for a success.
unfoldable pub record_success : ℕ → Sent → LokiJsonTransport → LokiJsonTransport
record_success now sent t = record {
  health = record {
    healthy = true;
    last_successful_send = some now;
    consecutive_failures = 0;
    error_message = none;
  };
  metrics = record t.metrics {
    successful_sends = t.metrics.successful_sends + 1;
    total_bytes_sent = t.metrics.total_bytes_sent + sent.body_size;
    total_bytes_compressed = t.metrics.total_bytes_compressed + sent.raw_size;
  };
}

unfoldable pub record_failure : Exception → LokiJsonTransport → LokiJsonTransport
record_failure error t = record {
  health = record {
    healthy = false;
    last_successful_send = none;
    consecutive_failures = t.health.consecutive_failures + 1;
    error_message = some error.message;
  };
  metrics = record t.metrics { failed_sends = t.metrics.failed_sends + 1 };
}

unfoldable pub settle : ℕ → Result Sent → LokiJsonTransport → Result (Unit {0}) × LokiJsonTransport
unfolding record_success record_failure
settle now (ok sent) t = (ok tt, record_success now sent t)
settle now (raise e) t = (raise e, record_failure e t)

-- `dumped` is the payload of a batch.
unfoldable pub send :
    {W : Type 0}
    → LokiConfig
    → Compressor
    → (Dict String String → Bytes → W → Result Response × W)
    → (List LogEntryEntity → Result Bytes)
    → ℕ
    → List LogEntryEntity
    → LokiJsonTransport
    → W
    → Result (Unit {0}) × LokiJsonTransport × W
send config compressor post dumped now [] t w = (ok tt, t, w)
send config compressor post dumped now (x ∷ xs) t w =
    let t1 = record t { metrics = record t.metrics { total_sends = t.metrics.total_sends + 1 } } in
    let (r, w') = post_raw config compressor post (dumped (x ∷ xs)) w in
    let (r', t') = settle now r t1 in (r', t', w')
