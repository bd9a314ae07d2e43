-- ===== src/Dlq/Examples.antt =====
-- Small dead letter queues, and each theorem at one of them.
use logs_interceptor_python.Base.{
  ℕ, ◌+◌, ◌≤◌, ◌≡◌, ◌≢◌, refl, true, none, some, Option, List, [], ◌∷◌, ◌++◌, map, length, last_n,
  if◌then◌else◌, ◌==◌, ℕ_comparable, arith,
}
use logs_interceptor_python.Base.Text.{codes, is_blank}
use logs_interceptor_python.Dlq.{DlqEntry, make_item}
use logs_interceptor_python.Dlq.Codec.{Text, utf8_len, is_encodable, is_boundary}
use logs_interceptor_python.Dlq.File.{
  Limits, FileDeadLetterQueue, Item, to_item, add_batch, persist, new, is_blank_line,
}
use logs_interceptor_python.Dlq.File.Lines.{HasLine, AllHaveLines}
use logs_interceptor_python.Dlq.File.Persist.{Saved, persist_saves, persist_never_ends}
use logs_interceptor_python.Dlq.File.Reload.{Reads, persist-restores}
use logs_interceptor_python.Dlq.Memory
use logs_interceptor_python.Dlq.Memory.{MemoryDeadLetterQueue, IsBounded, add_batch-window}
use logs_interceptor_python.Domain.{LogEntryEntity, to_dict}
use logs_interceptor_python.Errors.{Exception, Result, ok, raise, runtime_error}

abbrev entry : ℕ → LogEntryEntity
entry n = record {
  address = n;
  id = "id";
  timestamp = "2024-01-01T00:00:00Z";
  level = "info";
  message = "hello";
  context = none;
  trace_id = none;
  span_id = none;
  request_id = none;
  labels = none;
  metadata = none;
}

abbrev item : ℕ → DlqEntry
item n = make_item 7 "retry" (entry n)

-- A queue of two items that holds one.
abbrev held : MemoryDeadLetterQueue
held = record { queue = item 1 ∷ []; max_size = 2; dropped_entries = 0 }

add_batch-window_example :
    let (r, d') = Memory.add_batch 7 (entry 2 ∷ entry 3 ∷ []) "retry" held in
    (r ≡ ok (record { added = 2; dropped = 1 }))
    × (d'.queue ≡ last_n 2 (item 1 ∷ item 2 ∷ item 3 ∷ []))
    × (d'.dropped_entries ≡ 1)
    × IsBounded d'
add_batch-window_example =
    add_batch-window 7 (entry 2 ∷ entry 3 ∷ []) "retry" held
      (record { room = omega arith; bounded = omega arith })

abbrev no_reason : Exception
no_reason = runtime_error "Circular reference detected"

-- A codec of messages: an item without a reason cannot be dumped.
abbrev encode : Item → Result Text
encode i = if is_blank i.reason then raise no_reason else ok (codes i.entry.message)

abbrev decode : Text → Option Item
decode l = if length l == 5 then some (to_item (item 0)) else none

abbrev limits : ℕ → Limits
limits mb = record { max_size = 2; max_file_size_mb = mb; max_retries = 3 }

abbrev roomy : Limits
roomy = record { max_size = 4; max_file_size_mb = 1; max_retries = 3 }

abbrev holding : List DlqEntry → FileDeadLetterQueue
holding q = record { queue = q; dropped_entries = 0; file = none }

abbrev two : FileDeadLetterQueue
two = holding (item 1 ∷ item 2 ∷ [])

not_empty : codes "hello" ≢ []
not_empty e = cc

item_line : (n : ℕ) → encode (to_item (item n)) ≡ ok (codes "hello")
unfolding to_item to_dict
item_line n = refl

plain_line : is_encodable (codes "hello") ≡ true
unfolding is_encodable
plain_line = refl

has_line : (n : ℕ) → HasLine encode (item n)
has_line n = (codes "hello", item_line n, not_empty, plain_line)

small : utf8_len (codes "hello") + 1 ≤ 1048576
unfolding utf8_len
small = omega arith

abbrev lines_of_two : AllHaveLines encode (item 1 ∷ item 2 ∷ [])
lines_of_two = (has_line 1, (has_line 2, tt))

persist_saves_example :
    (d' : FileDeadLetterQueue) × (persist encode (limits 1) 2 true two ≡ some (ok tt, d'))
    × Saved encode (limits 1) two d'
persist_saves_example =
    persist_saves encode (limits 1) (item 1 ∷ []) (item 2) (codes "hello") two refl lines_of_two
      (item_line 2) small

persist_never_ends_example : persist encode (limits 0) 9 true two ≡ none
persist_never_ends_example =
    persist_never_ends encode (limits 0) 9 true (item 1 ∷ []) (item 2) (codes "hello") two refl
      lines_of_two (item_line 2) (omega arith)

abbrev bad : DlqEntry
bad = make_item 7 "" (entry 1)

-- A queue of one item that can be dumped and one that cannot.
abbrev poisoned : FileDeadLetterQueue
poisoned = holding (item 1 ∷ bad ∷ [])

abbrev read : (n : ℕ) → Reads encode decode (limits 1) (item n)
unfolding to_item to_dict is_blank_line is_boundary
read n = record {
  line = codes "hello";
  encoded = refl;
  decoded = refl;
  plain = plain_line;
  visible = refl;
  single = (refl, (refl, (refl, (refl, (refl, tt)))));
  retries = omega arith;
}

persist-restores_example :
    (d' : FileDeadLetterQueue) × (persist encode (limits 1) 2 true two ≡ some (ok tt, d'))
    × ((older : List DlqEntry) × (two.queue ≡ older ++ d'.queue))
    × (map to_item (new decode (limits 1) 0 true d'.file).queue ≡ map to_item d'.queue)
persist-restores_example =
    persist-restores encode decode (limits 1) 0 (item 1 ∷ []) (item 2) (codes "hello") two refl
      (read 1, (read 2, tt)) (item_line 2) small (omega arith)
