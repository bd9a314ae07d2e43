-- ===== src/Loki/Protobuf.antt =====
-- src/logs_interceptor/infrastructure/transport/loki_protobuf_transport.py: `LokiProtobufTransport`,
-- without its averages. The state and what follows an answer are those of `LokiJsonTransport`, whose
-- methods the class repeats; `snappy` and JSON are parameters.
pub mod Streams
use logs_interceptor_python.Base.{
  ℕ, ◌+◌, String, Bool, true, false, Option, none, some, List, [], ◌∷◌, map, String_comparable,
  if◌then◌else◌,
}
use logs_interceptor_python.Base.Dict.{Dict, lookup, insert, update}
use logs_interceptor_python.Base.Text.{is_blank, text_append}
use logs_interceptor_python.Domain.{LogEntryEntity}
use logs_interceptor_python.Errors.{Result, ok, raise}
use logs_interceptor_python.Loki.{
  StreamValue, Stream, Bytes, Response, LokiConfig, LokiJsonTransport, Sent, or_no_labels,
  or_no_values, append_value, line_text, judge_response, settle,
}

-- `streams[key] = labels`, if the key is new
unfoldable pub keep_first :
    String
    → Dict String String
    → Dict String (Dict String String)
    → Dict String (Dict String String)
unfolding lookup insert
keep_first key labels streams = elim (lookup key streams) [
  | none ↦ insert key labels streams
  | some old ↦ streams
]

abbrev pub to_stream : Dict String (List StreamValue) → String × Dict String String → Stream
to_stream values (key, labels) = record {
  stream = labels;
  values = or_no_values (lookup key values);
}

module _ (key_of : Dict String String → String) (line_of : LogEntryEntity → Result String) where
  abbrev pub entry_key : LogEntryEntity → String
  entry_key e = key_of (or_no_labels e.labels)

  abbrev pub entry_value : LogEntryEntity → StreamValue
  entry_value e = (e.timestamp, line_text (line_of e))

  -- `streams` and `values` after the loop
  unfoldable pub streams_of :
      List LogEntryEntity → Dict String (Dict String String) → Dict String (Dict String String)
  unfolding keep_first
  streams_of [] streams = streams
  streams_of (e ∷ es) streams =
      streams_of es (keep_first (entry_key e) (or_no_labels e.labels) streams)

  unfoldable pub values_of :
      List LogEntryEntity → Dict String (List StreamValue) → Dict String (List StreamValue)
  unfolding append_value
  values_of [] values = values
  values_of (e ∷ es) values = values_of es (append_value (entry_key e) (entry_value e) values)

  unfoldable pub format_payload : List LogEntryEntity → List Stream
  unfolding values_of streams_of
  format_payload entries = map (to_stream (values_of entries [])) (streams_of entries [])

module _ (config : LokiConfig) (compressor : Bytes → Result Bytes) where
  unfoldable pub headers : Dict String String
  headers =
      let fixed : Dict String String =
        ("Content-Type", "application/x-protobuf")
        ∷ ("Content-Encoding", "snappy")
        ∷ ("X-Scope-OrgID", config.tenant_id)
        ∷ ("User-Agent", "elven-logs-interceptor-python/0.1.2")
        ∷ [] in
      let extended = update fixed config.extra_headers in
      if is_blank config.auth_token
      then extended
      else insert "Authorization" (text_append "Bearer " config.auth_token) extended

  module _ {W : Type 0} (post : Dict String String → Bytes → W → Result Response × W) where
    abbrev pub post_compressed : Bytes → Result Bytes → W → Result Sent × W
    post_compressed raw (raise e) w = (raise e, w)
    post_compressed raw (ok compressed) w =
        let (response, w') = post headers compressed w in
        (
          judge_response config
              (record {
                compresses = true;
                compress = compressor;
                content_encoding = some "snappy";
              })
              post raw compressed response,
          w',
        )

    unfoldable pub post_raw : Result Bytes → W → Result Sent × W
    post_raw (raise e) w = (raise e, w)
    post_raw (ok raw) w = post_compressed raw (compressor raw) w

    -- `dumped` is the payload of a batch.
    unfoldable pub send :
        (List LogEntryEntity → Result Bytes)
        → ℕ
        → List LogEntryEntity
        → LokiJsonTransport
        → W
        → Result (Unit {0}) × LokiJsonTransport × W
    unfolding post_raw settle
    send dumped now [] t w = (ok tt, t, w)
    send dumped now (x ∷ xs) t w =
        let t1 = record t {
          metrics = record t.metrics { total_sends = t.metrics.total_sends + 1 };
        } in
        let (r, w') = post_raw (dumped (x ∷ xs)) w in let (r', t') = settle now r t1 in (r', t', w')
