-- ===== src/Dlq/File.antt =====
-- src/logs_interceptor/infrastructure/dlq/file_dlq.py: `FileDeadLetterQueue`. `encode` is
-- `json.dumps` of an item, which may raise. `decode` is `json.loads` of a line with the
-- conversions after it, `none` where one of them raises or the entry is no dict.
pub mod Lines
pub mod Persist
pub mod Reload
use logs_interceptor_python.Base.{
  ℕ, zero, suc, ◌+◌, ◌-◌, ◌*◌, ◌/◌, max, String, Bool, true, false, not, ◌&&◌, ◌||◌, Option, none,
  some, List, [], ◌∷◌, ◌++◌, map, length, take, last_n, is_empty, ltb, leb, ◌==◌, ℕ_comparable,
  if◌then◌else◌,
}
use logs_interceptor_python.Dlq.{DlqEntry, Added, Queue, index_error, make_item, push_all}
use logs_interceptor_python.Dlq.Codec.{Text, content, utf8_len, is_encodable, split_lines}
use logs_interceptor_python.Dlq.Memory.{Stats}
use logs_interceptor_python.Domain.{LogEntryEntity, LogEntry, to_dict}
use logs_interceptor_python.Errors.{Exception, Result, ok, raise}

-- `max_size`, `max_file_size_mb` and `max_retries`
pub record Limits : Type 0 where
  pub max_size : ℕ
  pub max_file_size_mb : ℕ
  pub max_retries : ℕ

-- `file` is the content of the file, `none` if there is none.
pub record FileDeadLetterQueue : Type 0 where
  pub queue : List DlqEntry
  pub dropped_entries : ℕ
  pub file : Option Text

-- What one line of the file holds.
pub record Item : Type 0 where
  pub entry : LogEntry
  pub reason : String
  pub timestamp : ℕ
  pub retry_count : ℕ

unfoldable pub to_item : DlqEntry → Item
to_item x = record {
  entry = to_dict x.entry;
  reason = x.reason;
  timestamp = x.timestamp;
  retry_count = x.retry_count;
}

-- `_DLQEntry(entry=LogEntryEntity(...), ...)`; the new object's address is given.
abbrev pub from_item : ℕ → Item → DlqEntry
from_item address i = record {
  entry = record {
    address = address;
    id = i.entry.id;
    timestamp = i.entry.timestamp;
    level = i.entry.level;
    message = i.entry.message;
    context = i.entry.context;
    trace_id = i.entry.trace_id;
    span_id = i.entry.span_id;
    request_id = i.entry.request_id;
    labels = i.entry.labels;
    metadata = i.entry.metadata;
  };
  reason = i.reason;
  timestamp = i.timestamp;
  retry_count = i.retry_count;
}

abbrev pub unicode_encode_error : Exception
unicode_encode_error = record {
  message = "'utf-8' codec can't encode: surrogates not allowed";
  retryable = none;
  status_code = none;
}

abbrev pub os_error : Exception
os_error = record { message = "cannot write the file"; retryable = none; status_code = none }

-- The characters that `str.strip` removes.
abbrev pub is_space : ℕ → Bool
is_space c =
    (leb 9 c && leb c 13)
    || (leb 28 c && leb c 32)
    || c == 0x85
    || c == 0xa0
    || c == 0x1680
    || (leb 0x2000 c && leb c 0x200a)
    || c == 0x2028
    || c == 0x2029
    || c == 0x202f
    || c == 0x205f
    || c == 0x3000

-- `not line.strip()`
unfoldable pub is_blank_line : Text → Bool
is_blank_line [] = true
is_blank_line (c ∷ cs) = is_space c && is_blank_line cs

unfoldable pub size : FileDeadLetterQueue → ℕ
size d = length d.queue

-- `flush` keeps the queue, and says so.
unfoldable pub flush : FileDeadLetterQueue → ℕ × FileDeadLetterQueue
flush d = (0, d)

-- `removable` is false where the file cannot be removed.
unfoldable pub clear : Bool → FileDeadLetterQueue → FileDeadLetterQueue
clear removable d = record d { queue = []; file = if removable then none else d.file }

unfoldable pub get_entries : ℕ → FileDeadLetterQueue → List DlqEntry
get_entries limit d = take limit d.queue

unfoldable pub get_stats : FileDeadLetterQueue → Stats
get_stats d = record { size = length d.queue; dropped = d.dropped_entries }

-- the newer half of the queue, or its one item
abbrev pub halve : FileDeadLetterQueue → FileDeadLetterQueue
halve d =
    let half = max 1 (length d.queue / 2) in
    record d {
      queue = last_n half d.queue;
      dropped_entries = d.dropped_entries + (length d.queue - half);
    }

abbrev pub max_bytes : Limits → ℕ
max_bytes limits = limits.max_file_size_mb * 1024 * 1024

-- `self._file_path.write_text(content)`; `writable` is false where it raises.
abbrev pub write : Bool → Text → FileDeadLetterQueue → Result (Unit {0}) × FileDeadLetterQueue
write writable text d =
    if writable then (ok tt, record d { file = some text }) else (raise os_error, d)

abbrev pub working : FileDeadLetterQueue → Queue
working d = record { queue = d.queue; dropped_entries = d.dropped_entries; dropped = 0 }

-- `_persist_queue_to_disk` raised in `add_batch`, or the dict is returned
abbrev pub returning :
    Added
    → Option (Result (Unit {0}) × FileDeadLetterQueue)
    → Option (Result Added × FileDeadLetterQueue)
returning a none = none
returning a (some (ok _, d)) = some (ok a, d)
returning a (some (raise e, d)) = some (raise e, d)

module _ (encode : Item → Result Text) where
  abbrev pub cons_line : Text → Result (List Text) → Result (List Text)
  cons_line l (raise e) = raise e
  cons_line l (ok ls) = ok (l ∷ ls)

  -- the lines of `_persist_queue_to_disk`; the first item that cannot be dumped raises
  unfoldable pub encode_all : List DlqEntry → Result (List Text)
  encode_all [] = ok []
  encode_all (x ∷ xs) =
      let rest = encode_all xs in
      elim (encode (to_item x)) [ raise e ↦ raise e | ok l ↦ cons_line l rest ]

  module _ (limits : Limits) where
    -- `_persist_queue_to_disk`, which calls itself: on fuel, `none` when that is used up.
    unfoldable pub persist :
        ℕ → Bool → FileDeadLetterQueue → Option (Result (Unit {0}) × FileDeadLetterQueue)
    unfolding encode_all
    persist zero writable d = none
    persist (suc fuel) writable d =
        let again = persist fuel writable (halve d) in
        elim (encode_all d.queue) [
          | raise e ↦ some (raise e, d)
          | ok lines ↦
              if not (is_encodable (content lines))
              then some (raise unicode_encode_error, d)
              else if ltb (max_bytes limits) (utf8_len (content lines)) && not (is_empty d.queue)
              then again
              else some (write writable (content lines) d)
        ]

    unfoldable pub add_batch :
        ℕ
        → Bool
        → ℕ
        → List LogEntryEntity
        → String
        → FileDeadLetterQueue
        → Option (Result Added × FileDeadLetterQueue)
    add_batch fuel writable timestamp [] reason d = some (ok (record { added = 0; dropped = 0 }), d)
    add_batch fuel writable timestamp (x ∷ xs) reason d =
        let entries = x ∷ xs in
        let (ended, q) =
          push_all limits.max_size (map (make_item timestamp reason) entries) (working d) in
        let d' = record d { queue = q.queue; dropped_entries = q.dropped_entries } in
        let saved = persist fuel writable d' in
        if ended
        then returning (record { added = length entries; dropped = q.dropped }) saved
        else some (raise index_error, d')

    unfoldable pub add :
        ℕ
        → Bool
        → ℕ
        → LogEntryEntity
        → String
        → FileDeadLetterQueue
        → Option (Result Added × FileDeadLetterQueue)
    add fuel writable timestamp entry reason d =
        add_batch fuel writable timestamp (entry ∷ []) reason d

module _ (decode : Text → Option Item) (limits : Limits) where
  -- the item of a line, unless it is skipped
  abbrev pub keep_item : Option Item → Option Item
  keep_item none = none
  keep_item (some i) = if ltb limits.max_retries i.retry_count then none else some i

  unfoldable pub parse_line : Text → Option Item
  unfolding is_blank_line
  parse_line line = if is_blank_line line then none else keep_item (decode line)

  -- the loop of `load_from_disk`; the objects it makes get the addresses from `next` on
  unfoldable pub load_lines : ℕ → List Text → List DlqEntry
  unfolding parse_line
  load_lines next [] = []
  load_lines next (line ∷ lines) = elim (parse_line line) [
    | none ↦ load_lines next lines
    | some i ↦ from_item next i ∷ load_lines (next + 1) lines
  ]

  -- `loaded[-self._max_size:]`, which for a size of 0 is the whole list
  abbrev pub newest : List DlqEntry → List DlqEntry
  newest loaded = if limits.max_size == 0 then loaded else last_n limits.max_size loaded

  abbrev pub load_text : ℕ → Text → FileDeadLetterQueue → ℕ × FileDeadLetterQueue
  load_text next text d =
      let loaded = load_lines next (split_lines text) in
      let d' = record d {
        dropped_entries = d.dropped_entries + (length loaded - limits.max_size);
        queue = newest loaded;
      } in
      (length d'.queue, d')

  -- `readable` is false where reading the file raises an `OSError`.
  unfoldable pub load_from_disk : ℕ → Bool → FileDeadLetterQueue → ℕ × FileDeadLetterQueue
  unfolding load_lines split_lines
  load_from_disk next readable d = elim d.file [
    | none ↦ (0, d)
    | some text ↦ if readable then load_text next text d else (0, d)
  ]

  -- `__init__`, with the file found in the directory
  unfoldable pub new : ℕ → Bool → Option Text → FileDeadLetterQueue
  new next readable file =
      (load_from_disk next readable (record { queue = []; dropped_entries = 0; file = file })).1
