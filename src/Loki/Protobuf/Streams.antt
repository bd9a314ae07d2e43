-- ===== src/Loki/Protobuf/Streams.antt =====
-- The streams of the two transports of a batch.
use mathlib.Core.List.{append-nil}
use logs_interceptor_python.Settings.Numbers.{ℤ}
use logs_interceptor_python.Base.{
  ℕ, String, ◌≡◌, refl, sym, ◌∙◌, ap, Bool, true, false, Option, none, some, List, [], ◌∷◌, ◌++◌,
  map, ◌==◌, String_comparable, if◌then◌else◌, arith,
}
use logs_interceptor_python.Base.Dict.{Dict, lookup, insert, lookup-insert}
use logs_interceptor_python.Domain.{LogEntryEntity}
use logs_interceptor_python.Errors.{Result}
use logs_interceptor_python.Loki
use logs_interceptor_python.Loki.{StreamValue, Stream, or_no_labels, or_no_values, append_value}
use logs_interceptor_python.Loki.Groups.{append_value-lookup, append_if}
use logs_interceptor_python.Loki.Protobuf.{
  keep_first, to_stream, entry_key, entry_value, streams_of, values_of, format_payload,
}

-- The value that is there already is put in again.
insert-same :
    (k : String) (v : Dict String String) (d : Dict String (Dict String String))
    → lookup k d ≡ some v
    → insert k v d ≡ d
unfolding insert lookup
insert-same k v [] h = cc
insert-same k v (x ∷ d) h = ground (arith, insert-same k v d)

-- The labels of an entry are those of its key.
module _ (key_of : Dict String String → String) (line_of : LogEntryEntity → Result String)
    (from_iso : String → Option (ℤ × ℕ)) (now_ns : LogEntryEntity → ℕ)
    (labels : String → Dict String String) where
  abbrev pub AreLabelled : List LogEntryEntity → Type 0
  AreLabelled [] = Unit
  AreLabelled (e ∷ es) =
      (or_no_labels e.labels ≡ labels (key_of (or_no_labels e.labels))) × AreLabelled es

  -- A dict of streams holds the labels of its keys.
  abbrev Holds : Dict String (Dict String String) → Type 0
  Holds d = (k : String) (v : Dict String String) → lookup k d ≡ some v → v ≡ labels k

  keep_first-insert :
      (k : String) (d : Dict String (Dict String String))
      → Holds d
      → keep_first k (labels k) d ≡ insert k (labels k) d
  unfolding keep_first
  keep_first-insert k d holds = kept (lookup k d) refl
    where
      kept :
          (o : Option (Dict String String))
          → lookup k d ≡ o
          → (elim o [ none ↦ insert k (labels k) d | some old ↦ d ]) ≡ insert k (labels k) d
      kept none e = refl
      kept (some old) e = sym (insert-same k (labels k) d (e ∙ ap some (holds k old e)))

  insert-Holds :
      (k : String) (d : Dict String (Dict String String)) → Holds d → Holds (insert k (labels k) d)
  insert-Holds k d holds j v found =
      at_key (k == j) refl (sym (lookup-insert k j (labels k) d) ∙ found)
    where
      at_key :
          (b : Bool)
          → (k == j) ≡ b
          → (if b then some (labels k) else lookup j d) ≡ some v
          → v ≡ labels j
      at_key true e h = let same = (String_comparable.equals_iff k j).0 e in cc
      at_key false e h = holds j v h

  streams_of-streams_of :
      (es : List LogEntryEntity) (d : Dict String (Dict String String))
      → AreLabelled es
      → Holds d
      → streams_of key_of line_of es d ≡ Loki.streams_of key_of line_of from_iso now_ns es d
  unfolding streams_of Loki.streams_of
  streams_of-streams_of [] d labelled holds = refl
  streams_of-streams_of (e ∷ es) d labelled holds =
      let k = entry_key key_of line_of e in
      ap (λ l. streams_of key_of line_of es (keep_first k l d)) labelled.0
      ∙ ap (streams_of key_of line_of es) (keep_first-insert k d holds)
      ∙ streams_of-streams_of es (insert k (labels k) d) labelled.1 (insert-Holds k d holds)
      ∙ ap (λ l. Loki.streams_of key_of line_of from_iso now_ns es (insert k l d)) (sym labelled.0)

-- The values of the entries with a key, in the order of the batch.
module _ (key_of : Dict String String → String) (line_of : LogEntryEntity → Result String) where
  unfoldable pub values_with : String → List LogEntryEntity → List StreamValue
  values_with key [] = []
  values_with key (e ∷ es) =
      let rest = values_with key es in
      if entry_key key_of line_of e == key then entry_value key_of line_of e ∷ rest else rest

  values_of-values_with :
      (key : String) (es : List LogEntryEntity) (values : Dict String (List StreamValue))
      → or_no_values (lookup key (values_of key_of line_of es values))
        ≡ or_no_values (lookup key values) ++ values_with key es
  unfolding values_of values_with
  values_of-values_with key [] values = sym (append-nil (or_no_values (lookup key values)))
  values_of-values_with key (e ∷ es) values =
      let k = entry_key key_of line_of e in
      let v = entry_value key_of line_of e in
      values_of-values_with key es (append_value k v values)
      ∙ ap (λ l. l ++ values_with key es) (append_value-lookup k key v values)
      ∙ append_if (k == key) (or_no_values (lookup key values)) v (values_with key es)

  abbrev pub stream_for : List LogEntryEntity → String × Dict String String → Stream
  stream_for entries (key, labels) = record { stream = labels; values = values_with key entries }

  to_stream-stream_for :
      (entries : List LogEntryEntity) (streams : Dict String (Dict String String))
      → map (to_stream (values_of key_of line_of entries [])) streams
        ≡ map (stream_for entries) streams
  unfolding lookup
  to_stream-stream_for entries [] = refl
  to_stream-stream_for entries ((key, labels) ∷ rest) = λ i.
      record { stream = labels; values = values_of-values_with key entries [] i }
      ∷ to_stream-stream_for entries rest i

-- If the labels of each entry of a batch are those of its key, the payload of the protobuf
-- transport has the streams that the JSON transport makes of the batch, with their labels and in
-- their order; the values of a stream are those of just the entries with its key, in the order of
-- the batch.
pub format_payload-streams :
    (key_of : Dict String String → String) (line_of : LogEntryEntity → Result String)
    (from_iso : String → Option (ℤ × ℕ)) (now_ns : LogEntryEntity → ℕ)
    (labels : String → Dict String String) (entries : List LogEntryEntity)
    → AreLabelled key_of line_of from_iso now_ns labels entries
    → format_payload key_of line_of entries
      ≡ map
          (stream_for key_of line_of entries)
          (Loki.streams_of key_of line_of from_iso now_ns entries [])
unfolding format_payload lookup
format_payload-streams key_of line_of from_iso now_ns labels entries labelled =
    to_stream-stream_for key_of line_of entries (streams_of key_of line_of entries [])
    ∙ ap (map (stream_for key_of line_of entries)) (
        streams_of-streams_of key_of line_of from_iso now_ns labels entries [] labelled
          (λ k v found. cc))
