-- ===== src/Memory.antt =====
-- src/logs_interceptor/infrastructure/memory/memory_tracker.py: `MemoryTracker`, the estimated
-- size of the entries that a buffer holds. The dict is keyed by `id(entry)`.
pub mod Exact
pub mod Splits
use logs_interceptor_python.Base.{
  ℕ, ◌+◌, ◌-◌, ◌*◌, String, Bool, true, false, Option, none, some, List, [], ◌∷◌, length, is_empty,
  ℕ_comparable, if◌then◌else◌,
}
use logs_interceptor_python.Base.Dict.{Dict, lookup, insert, erase}
use logs_interceptor_python.Base.Text.{len}
use logs_interceptor_python.Domain.{LogEntryEntity}

pub record MemoryTracker : Type 0 where
  pub total_size : ℕ
  pub entry_sizes : Dict ℕ ℕ
  pub entry_count : ℕ

-- `MemoryTracker.__init__`, and what `reset` leaves
abbrev pub new : MemoryTracker
new = record { total_size = 0; entry_sizes = []; entry_count = 0 }

unfoldable pub reset : MemoryTracker → MemoryTracker
reset t = record t { total_size = 0; entry_sizes = []; entry_count = 0 }

optional_size : Option String → ℕ
optional_size none = 0
optional_size (some s) = len s * 2

context_size : {V : Type 0} → Option (Dict String V) → ℕ
context_size none = 0
context_size (some d) = length d * 20 + length d * 50

labels_size : Dict String String → ℕ
labels_size [] = 0
labels_size ((key, value) ∷ d) = len key * 2 + len value * 2 + labels_size d

optional_labels_size : Option (Dict String String) → ℕ
unfolding labels_size
optional_labels_size none = 0
optional_labels_size (some d) = labels_size d

metadata_size : {V : Type 0} → Option (Dict String V) → ℕ
metadata_size none = 0
metadata_size (some d) = if is_empty d then 0 else 50

-- `_estimate_size`; an empty text or dict adds nothing, so the tests for truth need no branch
unfoldable pub estimate_size : LogEntryEntity → ℕ
unfolding optional_size context_size optional_labels_size metadata_size len
estimate_size e =
    len e.id * 2
    + len e.timestamp * 2
    + len e.level * 2
    + len e.message * 2
    + optional_size e.trace_id
    + optional_size e.span_id
    + optional_size e.request_id
    + context_size e.context
    + optional_labels_size e.labels
    + metadata_size e.metadata
    + 200

unfoldable pub add_entry : LogEntryEntity → MemoryTracker → MemoryTracker
add_entry entry t =
    let size = estimate_size entry in
    record t {
      entry_sizes = insert entry.address size t.entry_sizes;
      total_size = t.total_size + size;
      entry_count = t.entry_count + 1;
    }

-- `remove_entry` on what the dict holds for the entry
abbrev forget_size : LogEntryEntity → MemoryTracker → Option ℕ → MemoryTracker
forget_size entry t none = t
forget_size entry t (some size) = record t {
  entry_sizes = erase entry.address t.entry_sizes;
  total_size = t.total_size - size;
  entry_count = t.entry_count - 1;
}

unfoldable pub remove_entry : LogEntryEntity → MemoryTracker → MemoryTracker
remove_entry entry t = forget_size entry t (lookup entry.address t.entry_sizes)

unfoldable pub remove_entries : List LogEntryEntity → MemoryTracker → MemoryTracker
unfolding remove_entry
remove_entries [] t = t
remove_entries (entry ∷ entries) t = remove_entries entries (remove_entry entry t)

-- `get_total_size_mb() > mb`: both divisions are by powers of two
abbrev pub mb : ℕ
mb = 1024 * 1024
