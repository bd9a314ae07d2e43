-- ===== src/Dlq.antt =====
-- src/logs_interceptor/infrastructure/dlq: the dead letter queues. `MemoryDeadLetterQueue` and
-- `FileDeadLetterQueue` run the same loop over a batch, which stands here; each class is a child.
pub mod Window
pub mod Memory
pub mod File
pub mod Codec
mod Examples
use mathlib.Core.Option
use logs_interceptor_python.Base.{
  ℕ, ◌+◌, String, Bool, true, false, Option, none, some, List, [], ◌∷◌, ◌++◌, length, map, leb,
  if◌then◌else◌,
}
use logs_interceptor_python.Domain.{LogEntryEntity}
use logs_interceptor_python.Errors.{Exception}

-- `_DLQEntry`
pub record DlqEntry : Type 0 where
  pub entry : LogEntryEntity
  pub reason : String
  pub timestamp : ℕ
  pub retry_count : ℕ

-- the dict that `add_batch` returns
pub record Added : Type 0 where
  pub added : ℕ
  pub dropped : ℕ

-- The attributes that the loop works on, and its local `dropped`.
pub record Queue : Type 0 where
  pub queue : List DlqEntry
  pub dropped_entries : ℕ
  pub dropped : ℕ

abbrev pub index_error : Exception
index_error = record { message = "pop from empty list"; retryable = none; status_code = none }

-- `self._queue.append(...)`
abbrev pub append_item : DlqEntry → Queue → Queue
append_item item q = record q { queue = q.queue ++ item ∷ [] }

-- `self._queue.pop(0)` and the counts; `none` is an IndexError
abbrev pub pop_first : List DlqEntry → Queue → Option Queue
pop_first [] q = none
pop_first (x ∷ rest) q =
    some
      (record q { queue = rest; dropped_entries = q.dropped_entries + 1; dropped = q.dropped + 1 })

abbrev pub make_item : ℕ → String → LogEntryEntity → DlqEntry
make_item timestamp reason entry = record {
  entry = entry;
  reason = reason;
  timestamp = timestamp;
  retry_count = 0;
}

-- one round of the loop of `add_batch`
unfoldable pub push_one : ℕ → DlqEntry → Queue → Option Queue
push_one max_size item q =
    if leb max_size (length q.queue)
    then Option.map (append_item item) (pop_first q.queue q)
    else some (append_item item q)

-- the loop of `add_batch`: whether it ended, and the queue there or where it raised
unfoldable pub push_all : ℕ → List DlqEntry → Queue → Bool × Queue
unfolding push_one
push_all max_size [] q = (true, q)
push_all max_size (item ∷ items) q = elim (push_one max_size item q) [
  | none ↦ (false, q)
  | some q' ↦ push_all max_size items q'
]
