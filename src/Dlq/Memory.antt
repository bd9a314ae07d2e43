-- ===== src/Dlq/Memory.antt =====
-- src/logs_interceptor/infrastructure/dlq/memory_dlq.py: `MemoryDeadLetterQueue`.
use logs_interceptor_python.Base.{
  length-map, ℕ, ◌+◌, ◌-◌, ◌≤◌, ◌<◌, ◌≡◌, ◌≢◌, refl, ap, String, List, [], ◌∷◌, ◌++◌, map, length,
  take, last_n, length-last_n, if◌then◌else◌, arith,
}
use logs_interceptor_python.Dlq.{DlqEntry, Added, Queue, index_error, make_item, push_all}
use logs_interceptor_python.Dlq.Window.{push_all-Windowed}
use logs_interceptor_python.Domain.{LogEntryEntity}
use logs_interceptor_python.Errors.{Result, ok, raise}

pub record MemoryDeadLetterQueue : Type 0 where
  pub queue : List DlqEntry
  pub max_size : ℕ
  pub dropped_entries : ℕ

pub record Stats : Type 0 where
  pub size : ℕ
  pub dropped : ℕ

abbrev pub new : ℕ → MemoryDeadLetterQueue
new max_size = record { queue = []; max_size = max_size; dropped_entries = 0 }

abbrev working : MemoryDeadLetterQueue → Queue
working d = record { queue = d.queue; dropped_entries = d.dropped_entries; dropped = 0 }

-- `timestamp` is the reading of the clock. A raise leaves what the loop has done.
unfoldable pub add_batch :
    ℕ → List LogEntryEntity → String → MemoryDeadLetterQueue → Result Added × MemoryDeadLetterQueue
add_batch timestamp entries reason d =
    let (ended, q) = push_all d.max_size (map (make_item timestamp reason) entries) (working d) in
    let d' = record d { queue = q.queue; dropped_entries = q.dropped_entries } in
    (
      if ended
          then ok (record { added = length entries; dropped = q.dropped })
          else raise index_error,
      d',
    )

unfoldable pub add :
    ℕ → LogEntryEntity → String → MemoryDeadLetterQueue → Result Added × MemoryDeadLetterQueue
unfolding add_batch
add timestamp entry reason d = add_batch timestamp (entry ∷ []) reason d

unfoldable pub flush : MemoryDeadLetterQueue → ℕ × MemoryDeadLetterQueue
flush d = (length d.queue, record d { queue = [] })

unfoldable pub clear : MemoryDeadLetterQueue → MemoryDeadLetterQueue
clear d = record d { queue = [] }

unfoldable pub size : MemoryDeadLetterQueue → ℕ
size d = length d.queue

unfoldable pub get_entries : ℕ → MemoryDeadLetterQueue → List DlqEntry
get_entries limit d = take limit d.queue

unfoldable pub get_stats : MemoryDeadLetterQueue → Stats
get_stats d = record { size = length d.queue; dropped = d.dropped_entries }

pub record IsBounded (d : MemoryDeadLetterQueue) : Type 0 where
  pub room : 0 < d.max_size
  pub bounded : length d.queue ≤ d.max_size

-- A batch never raises on a queue within its positive size: the queue then holds the newest
-- `max_size` of what it held and the batch, still within its size, and the entries that left are
-- counted both in the result and in the total.
pub add_batch-window :
    (timestamp : ℕ) (entries : List LogEntryEntity) (reason : String) (d : MemoryDeadLetterQueue)
    → IsBounded d
    → let (r, d') = add_batch timestamp entries reason d in
      let excess = length d.queue + length entries - d.max_size in
      (r ≡ ok (record { added = length entries; dropped = excess }))
      × (d'.queue ≡ last_n d.max_size (d.queue ++ map (make_item timestamp reason) entries))
      × (d'.dropped_entries ≡ d.dropped_entries + excess)
      × IsBounded d'
unfolding add_batch
add_batch-window timestamp entries reason d h =
    let items = map (make_item timestamp reason) entries in
    let (ran, (window, total, local)) =
      push_all-Windowed d.max_size items (working d) h.room h.bounded in
    let many : length items ≡ length entries = length-map (make_item timestamp reason) entries in
    (
      ground (arith, ran, local, many),
      window,
      omega (arith, total, many),
      record {
        room = h.room;
        bounded = omega (arith, ap length window, length-last_n d.max_size (d.queue ++ items));
      },
    )

-- A queue of size 0 cannot take anything: `pop(0)` raises on the empty list, and the queue stays.
pub add_batch_no_room :
    (timestamp : ℕ) (entries : List LogEntryEntity) (reason : String) (d : MemoryDeadLetterQueue)
    → d.max_size ≡ 0
    → d.queue ≡ []
    → entries ≢ []
    → add_batch timestamp entries reason d ≡ (raise index_error, d)
unfolding add_batch push_all
add_batch_no_room timestamp [] reason d none_held e some_entry = absurd (some_entry refl)
add_batch_no_room timestamp (x ∷ entries) reason d none_held e some_entry = ground arith
