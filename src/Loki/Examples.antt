-- ===== src/Loki/Examples.antt =====
-- A batch of three entries in two streams, and the theorems at it.
use logs_interceptor_python.Settings.Numbers.{ℤ}
use logs_interceptor_python.Base.{
  ℕ, suc, ◌≡◌, refl, String, true, false, none, some, Option, List, [], ◌∷◌, map, ℕ_comparable,
  String_comparable,
}
use logs_interceptor_python.Base.Dict.{Dict, lookup}
use logs_interceptor_python.Domain.{LogEntryEntity}
use logs_interceptor_python.Errors.{Result, ok, raise}
use logs_interceptor_python.Loki.{
  Bytes, Response, Compressor, LokiConfig, LokiJsonTransport, compresses, streams_of,
  format_for_loki, send, response_error, settle, post_raw,
}
use logs_interceptor_python.Loki.Protobuf
use logs_interceptor_python.Loki.Protobuf.{format_payload}
use logs_interceptor_python.Loki.Protobuf.Streams
use logs_interceptor_python.Loki.Groups.{AllStreams, labels_with, format_for_loki-groups}

abbrev entry : String → LogEntryEntity
entry label = record {
  address = 1;
  id = "id";
  timestamp = "2024-01-01T00:00:00Z";
  level = "info";
  message = "hello";
  context = none;
  trace_id = none;
  span_id = none;
  request_id = none;
  labels = some (("app", label) ∷ []);
  metadata = none;
}

abbrev key_of : Dict String String → String
key_of [] = "{}"
key_of (x ∷ d) = x.1

abbrev line_of : LogEntryEntity → Result String
line_of e = ok e.message

abbrev from_iso : String → Option (ℤ × ℕ)
from_iso s = none

abbrev clock : LogEntryEntity → ℕ
clock e = 5

abbrev batch : List LogEntryEntity
batch = entry "a" ∷ entry "b" ∷ entry "a" ∷ []

format_for_loki-groups_example :
    let keys = streams_of key_of line_of from_iso clock batch [] in
    AllStreams key_of line_of from_iso clock batch keys
      (format_for_loki key_of line_of from_iso clock batch)
    × ((key : String) → lookup key keys ≡ labels_with key_of line_of from_iso clock key batch none)
format_for_loki-groups_example = format_for_loki-groups key_of line_of from_iso clock batch

abbrev config : LokiConfig
config = record {
  tenant_id = "t";
  auth_token = "";
  compression_threshold = 100;
  extra_headers = [];
}

abbrev compressor : Compressor
compressor = record { compresses = true; compress = λ b. ok b; content_encoding = some "gzip" }

abbrev busy : Response
busy = record { status_code = 503; text = "busy" }

abbrev post : Dict String String → Bytes → ℕ → Result Response × ℕ
post headers body w = (ok busy, suc w)

abbrev dumped : List LogEntryEntity → Result Bytes
dumped entries = ok (1 ∷ 2 ∷ [])

abbrev idle : LokiJsonTransport
idle = record {
  health = record {
    healthy = true;
    last_successful_send = none;
    consecutive_failures = 0;
    error_message = none;
  };
  metrics = record {
    total_sends = 0;
    successful_sends = 0;
    failed_sends = 0;
    total_bytes_sent = 0;
    total_bytes_compressed = 0;
  };
}

-- A payload under the threshold is not compressed, and the answer is counted as a failure.
refused :
    (compresses config compressor (1 ∷ 2 ∷ []) ≡ false)
    × ((send config compressor post dumped 9 batch idle 0).0 ≡ raise (response_error busy))
    × ((send config compressor post dumped 9 batch idle 0).1.metrics.failed_sends ≡ 1)
    × ((Protobuf.send config compressor.compress post dumped 9 batch idle 0).0
        ≡ raise (response_error busy))
    × ((Protobuf.send config compressor.compress post dumped 9 [] idle 0) ≡ (ok tt, idle, 0))
unfolding compresses send Protobuf.send settle post_raw
refused = (refl, refl, refl, refl, refl)

abbrev labels : String → Dict String String
labels key = ("app", key) ∷ []

format_payload-streams_example :
    format_payload key_of line_of batch
    ≡ map
        (Streams.stream_for key_of line_of batch)
        (streams_of key_of line_of from_iso clock batch [])
format_payload-streams_example =
    Streams.format_payload-streams key_of line_of from_iso clock labels batch
      (refl, (refl, (refl, tt)))
