-- ===== src/Loki/Groups.antt =====
-- How `_format_for_loki` groups the entries of a batch into streams.
use mathlib.Core.Path.{subst}
use mathlib.Core.List.{append_assoc, append-nil}
use logs_interceptor_python.Settings.Numbers.{ℤ}
use logs_interceptor_python.Base.{
  ℕ, String, ◌≡◌, refl, sym, ◌∙◌, ap, Bool, true, false, Option, none, some, List, [], ◌∷◌, ◌++◌,
  map, ◌==◌, String_comparable, if◌then◌else◌,
}
use logs_interceptor_python.Base.Dict.{Dict, lookup, insert, lookup-insert}
use logs_interceptor_python.Domain.{LogEntryEntity}
use logs_interceptor_python.Errors.{Result}
use logs_interceptor_python.Loki.Sorted.{
  IsSorted, lines_at, sort_values-IsSorted, lines_at-sort_values,
}
use logs_interceptor_python.Loki.{
  StreamValue, or_no_labels, or_no_values, entry_key, entry_value, append_value, values_of,
  streams_of, Stream, sort_values, to_stream, format_for_loki,
}

pub append_value-lookup :
    (k key : String) (v : StreamValue) (vm : Dict String (List StreamValue))
    → or_no_values (lookup key (append_value k v vm))
      ≡ (if k == key then or_no_values (lookup key vm) ++ v ∷ [] else or_no_values (lookup key vm))
unfolding append_value
append_value-lookup k key v vm =
    ap or_no_values (lookup-insert k key (or_no_values (lookup k vm) ++ v ∷ []) vm)
    ∙ pick (k == key) refl
  where
    pick :
        (b : Bool)
        → (k == key) ≡ b
        → or_no_values (if b then some (or_no_values (lookup k vm) ++ v ∷ []) else lookup key vm)
          ≡ (if b then or_no_values (lookup key vm) ++ v ∷ [] else or_no_values (lookup key vm))
    pick true e =
        ap (λ j. or_no_values (lookup j vm) ++ v ∷ []) ((String_comparable.equals_iff k key).0 e)
    pick false e = refl

pub append_if :
    (b : Bool) (w : List StreamValue) (v : StreamValue) (rest : List StreamValue)
    → (if b then w ++ v ∷ [] else w) ++ rest ≡ w ++ (if b then v ∷ rest else rest)
append_if true w v rest = append_assoc w (v ∷ []) rest
append_if false w v rest = refl

module _ (key_of : Dict String String → String) (line_of : LogEntryEntity → Result String)
    (from_iso : String → Option (ℤ × ℕ)) (now_ns : LogEntryEntity → ℕ) where
  -- The values of the entries with a key, in their order.
  unfoldable pub values_with : String → List LogEntryEntity → List StreamValue
  values_with key [] = []
  values_with key (e ∷ es) =
      let rest = values_with key es in
      if entry_key key_of line_of from_iso now_ns e == key
      then entry_value key_of line_of from_iso now_ns e ∷ rest
      else rest

  values_of-values_with :
      (key : String) (es : List LogEntryEntity) (vm : Dict String (List StreamValue))
      → or_no_values (lookup key (values_of key_of line_of from_iso now_ns es vm))
        ≡ or_no_values (lookup key vm) ++ values_with key es
  unfolding values_of values_with
  values_of-values_with key [] vm = sym (append-nil (or_no_values (lookup key vm)))
  values_of-values_with key (e ∷ es) vm =
      let k = entry_key key_of line_of from_iso now_ns e in
      let v = entry_value key_of line_of from_iso now_ns e in
      values_of-values_with key es (append_value k v vm)
      ∙ ap (λ l. l ++ values_with key es) (append_value-lookup k key v vm)
      ∙ append_if (k == key) (or_no_values (lookup key vm)) v (values_with key es)

  -- The labels of the last entry with a key, if there is one.
  unfoldable pub labels_with :
      String → List LogEntryEntity → Option (Dict String String) → Option (Dict String String)
  labels_with key [] o = o
  labels_with key (e ∷ es) o = labels_with key es (
      if entry_key key_of line_of from_iso now_ns e == key then some (or_no_labels e.labels) else o)

  streams_of-labels_with :
      (key : String) (es : List LogEntryEntity) (streams : Dict String (Dict String String))
      → lookup key (streams_of key_of line_of from_iso now_ns es streams)
        ≡ labels_with key es (lookup key streams)
  unfolding streams_of labels_with
  streams_of-labels_with key [] streams = refl
  streams_of-labels_with key (e ∷ es) streams =
      let k = entry_key key_of line_of from_iso now_ns e in
      streams_of-labels_with key es (insert k (or_no_labels e.labels) streams)
      ∙ ap (labels_with key es) (lookup-insert k key (or_no_labels e.labels) streams)

  -- The stream of a key: its labels, and the values of the entries with the key, sorted.
  abbrev pub stream_for : List LogEntryEntity → String × Dict String String → Stream
  stream_for entries (key, labels) = record {
    stream = labels;
    values = sort_values (values_with key entries);
  }

  to_stream-stream_for :
      (entries : List LogEntryEntity) (streams : Dict String (Dict String String))
      → map (to_stream (values_of key_of line_of from_iso now_ns entries [])) streams
        ≡ map (stream_for entries) streams
  unfolding lookup
  to_stream-stream_for entries [] = refl
  to_stream-stream_for entries ((key, labels) ∷ rest) = λ i.
      record { stream = labels; values = sort_values (values_of-values_with key entries [] i) }
      ∷ to_stream-stream_for entries rest i

  -- The stream of a key and its labels: its values do not fall in time, and those of each
  -- timestamp are the lines of the entries with the key and the timestamp, in the order of the batch.
  pub record IsStream (entries : List LogEntryEntity) (key : String) (labels : Dict String String)
      (s : Stream) : Type 0 where
    pub labelled : s.stream ≡ labels
    pub sorted : IsSorted s.values
    pub lines : (t : String) → lines_at t s.values ≡ lines_at t (values_with key entries)

  abbrev pub AllStreams :
      List LogEntryEntity → Dict String (Dict String String) → List Stream → Type 0
  AllStreams entries [] [] = Unit
  AllStreams entries [] (s ∷ streams) = ⊥
  AllStreams entries (x ∷ d) [] = ⊥
  AllStreams entries (x ∷ d) (s ∷ streams) =
      IsStream entries x.0 x.1 s × AllStreams entries d streams

  stream_for-AllStreams :
      (entries : List LogEntryEntity) (d : Dict String (Dict String String))
      → AllStreams entries d (map (stream_for entries) d)
  stream_for-AllStreams entries [] = tt
  stream_for-AllStreams entries (x ∷ d) = (
    record {
      labelled = refl;
      sorted = sort_values-IsSorted (values_with x.0 entries);
      lines = λ t. lines_at-sort_values t (values_with x.0 entries);
    },
    stream_for-AllStreams entries d,
  )

  -- The payload of a batch has one stream for each key in the dict of streams, in its order, with
  -- the labels of the key, which are those of the last entry with the key. The texts of the
  -- timestamps of its values do not fall, and for each timestamp the lines with it are those of
  -- just the entries with the key and the timestamp, in the order of the batch.
  pub format_for_loki-groups :
      (entries : List LogEntryEntity)
      → let keys = streams_of key_of line_of from_iso now_ns entries [] in
        AllStreams entries keys (format_for_loki key_of line_of from_iso now_ns entries)
        × ((key : String) → lookup key keys ≡ labels_with key entries none)
  unfolding format_for_loki lookup
  format_for_loki-groups entries =
      let keys = streams_of key_of line_of from_iso now_ns entries [] in
      (
        subst (AllStreams entries keys) (sym (to_stream-stream_for entries keys))
            (stream_for-AllStreams entries keys),
        λ key. streams_of-labels_with key entries [],
      )
