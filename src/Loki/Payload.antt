-- ===== src/Loki/Payload.antt =====
-- src/logs_interceptor/infrastructure/transport/loki_json_transport.py: `_format_for_loki`,
-- `_timestamp_to_ns` and the payload of a batch.
use logs_interceptor_python.Base.{
  ℕ, ◌+◌, ◌-◌, ◌*◌, ltb, String, Option, none, some, List, [], ◌∷◌, ◌++◌, map, ℕ_comparable,
  String_comparable, if◌then◌else◌,
}
use logs_interceptor_python.Base.Dict.{Dict, lookup, insert}
use logs_interceptor_python.Base.Text.{codes, decimal, is_before, replace_char, text_append}
use logs_interceptor_python.Domain.{LogEntryEntity}
use logs_interceptor_python.Settings.Numbers.{ℤ, pos, negsuc}
use logs_interceptor_python.Errors.{Exception, Result, ok, raise}

-- a timestamp and a line
abbrev pub StreamValue : Type 0
StreamValue = String × String

pub record Stream : Type 0 where
  pub stream : Dict String String
  pub values : List StreamValue

abbrev pub or_no_labels : Option (Dict String String) → Dict String String
or_no_labels none = []
or_no_labels (some d) = d

abbrev pub or_no_values : Option (List StreamValue) → List StreamValue
or_no_values none = []
or_no_values (some vs) = vs

-- `values.sort(key=lambda item: item[0])`, which is stable
unfoldable pub insert_value : StreamValue → List StreamValue → List StreamValue
insert_value v [] = v ∷ []
insert_value v (u ∷ us) =
    let rest = insert_value v us in
    if is_before (codes v.0) (codes u.0) then v ∷ u ∷ us else u ∷ rest

unfoldable pub sort_values : List StreamValue → List StreamValue
unfolding insert_value
sort_values [] = []
sort_values (v ∷ vs) = insert_value v (sort_values vs)

-- `seconds * 1_000_000_000 + microsecond * 1000`
abbrev pub nanoseconds : ℤ → ℕ → ℤ
nanoseconds (pos seconds) microsecond = pos (seconds * 1000000000 + microsecond * 1000)
nanoseconds (negsuc n) microsecond =
    let before = (n + 1) * 1000000000 in
    if ltb (microsecond * 1000) before
    then negsuc (before - microsecond * 1000 - 1)
    else pos (microsecond * 1000 - before)

-- `_timestamp_to_ns`; `from_iso` gives `int(timestamp())` and the microseconds, `none` where it
-- raises, and `now_ns` is the clock, which is read if it does.
unfoldable pub timestamp_to_ns : (String → Option (ℤ × ℕ)) → ℕ → String → ℤ
timestamp_to_ns from_iso now_ns iso_timestamp =
    elim (from_iso (replace_char b'Z' "+00:00" iso_timestamp)) [
      | none ↦ pos now_ns
      | some (seconds, microsecond) ↦ nanoseconds seconds microsecond
    ]

-- `str` of an int
abbrev pub int_text : ℤ → String
int_text (pos n) = decimal n
int_text (negsuc n) = text_append "-" (decimal (n + 1))

-- `values_map[key].append(...)`
unfoldable pub append_value :
    String → StreamValue → Dict String (List StreamValue) → Dict String (List StreamValue)
append_value key v values_map =
    insert key (or_no_values (lookup key values_map) ++ v ∷ []) values_map

abbrev pub to_stream : Dict String (List StreamValue) → String × Dict String String → Stream
to_stream values_map (key, labels) = record {
  stream = labels;
  values = sort_values (or_no_values (lookup key values_map));
}

-- The text of a line; a line that raises ends the loop, so that its text is never read.
abbrev pub line_text : Result String → String
line_text (ok s) = s
line_text (raise e) = ""

-- `now_ns e` is what the clock shows when the entry is formatted.
module _ (key_of : Dict String String → String) (line_of : LogEntryEntity → Result String)
    (from_iso : String → Option (ℤ × ℕ)) (now_ns : LogEntryEntity → ℕ) where
  abbrev pub entry_key : LogEntryEntity → String
  entry_key e = key_of (or_no_labels e.labels)

  unfoldable pub entry_value : LogEntryEntity → StreamValue
  unfolding timestamp_to_ns
  entry_value e =
      (int_text (timestamp_to_ns from_iso (now_ns e) e.timestamp), line_text (line_of e))

  -- `values_map` and `streams` after the loop
  unfoldable pub values_of :
      List LogEntryEntity → Dict String (List StreamValue) → Dict String (List StreamValue)
  unfolding append_value entry_value
  values_of [] values_map = values_map
  values_of (e ∷ es) values_map =
      values_of es (append_value (entry_key e) (entry_value e) values_map)

  unfoldable pub streams_of :
      List LogEntryEntity → Dict String (Dict String String) → Dict String (Dict String String)
  streams_of [] streams = streams
  streams_of (e ∷ es) streams = streams_of es (insert (entry_key e) (or_no_labels e.labels) streams)

  unfoldable pub format_for_loki : List LogEntryEntity → List Stream
  unfolding values_of streams_of sort_values
  format_for_loki entries = map (to_stream (values_of entries [])) (streams_of entries [])

  abbrev pub raise_first : Result String → Option Exception → Option Exception
  raise_first (ok s) rest = rest
  raise_first (raise e) rest = some e

  -- the error of the first line that raises
  unfoldable pub first_error : List LogEntryEntity → Option Exception
  first_error [] = none
  first_error (e ∷ es) = let rest = first_error es in raise_first (line_of e) rest

  -- `_dumps(_format_for_loki(entries))`
  unfoldable pub payload : (List Stream → Result (List ℕ)) → List LogEntryEntity → Result (List ℕ)
  unfolding format_for_loki first_error
  payload dumps entries = elim (first_error entries) [
    | some e ↦ raise e
    | none ↦ dumps (format_for_loki entries)
  ]
