-- ===== src/Buffer.antt =====
-- src/logs_interceptor/infrastructure/buffer/memory_buffer.py: `MemoryBuffer`. Clock readings are
-- whole microseconds. What reaches the outside is in `timers`: the timers started, newest first.
pub mod Invariant
pub mod Keeps
pub mod Ledger
pub mod Window
pub mod Pressure
mod Examples
use logs_interceptor_python.Base.{
  ℕ, ◌+◌, ◌-◌, ◌*◌, ◌/◌, max, String, Bool, true, false, not, ◌&&◌, ◌||◌, Option, none, some, List,
  [], ◌∷◌, ◌++◌, length, is_empty, take, drop, ltb, leb, ◌==◌, ℕ_comparable, if◌then◌else◌,
}
use logs_interceptor_python.Base.Text.{replace_char}
use logs_interceptor_python.Config.{ResolvedBufferConfig}
use logs_interceptor_python.Domain.{LogEntryEntity}
use logs_interceptor_python.Memory
use logs_interceptor_python.Memory.{MemoryTracker, mb, add_entry, remove_entries}

-- A `threading.Timer` that has been started: the flush timer with its delay, or a flush at once.
pub data Timer : Type 0 where
  after_ms : ℕ → Timer
  at_once : Timer

-- `flush_timer` and `flush_callback` say whether the attribute is set.
pub record MemoryBuffer : Type 0 where
  pub entries : List LogEntryEntity
  pub last_flush_time : ℕ
  pub flush_timer : Bool
  pub memory_tracker : MemoryTracker
  pub flush_callback : Bool
  pub dropped_entries : ℕ
  pub destroyed : Bool
  pub timers : List Timer

pub record Metrics : Type 0 where
  pub size : ℕ
  pub max_size : ℕ
  pub oldest_entry : Option ℕ
  pub newest_entry : Option ℕ
  pub memory_bytes : ℕ
  pub dropped : ℕ

unfoldable pub set_flush_callback : MemoryBuffer → MemoryBuffer
set_flush_callback b = record b { flush_callback = true }

-- `self._flush_timer.cancel()`, if there is one
unfoldable pub cancel_timer : MemoryBuffer → MemoryBuffer
cancel_timer b = record b { flush_timer = false }

unfoldable pub drop_oldest : ℕ → MemoryBuffer → MemoryBuffer
drop_oldest count b = if count == 0 || is_empty b.entries then b else record b {
  entries = drop count b.entries;
  memory_tracker = remove_entries (take count b.entries) b.memory_tracker;
  dropped_entries = b.dropped_entries + length (take count b.entries);
}

unfoldable pub peek : MemoryBuffer → List LogEntryEntity
peek b = b.entries

unfoldable pub size : MemoryBuffer → ℕ
size b = length b.entries

unfoldable pub clear : MemoryBuffer → MemoryBuffer
unfolding cancel_timer
clear b =
    cancel_timer
      (record b { memory_tracker = remove_entries b.entries b.memory_tracker; entries = [] })

unfoldable pub destroy : MemoryBuffer → MemoryBuffer
unfolding clear
destroy b =
    let c = clear (cancel_timer (record b { destroyed = true })) in
    record c { memory_tracker = Memory.reset c.memory_tracker; flush_callback = false }

-- `_on_timer`: the buffer, and whether the callback is called, with the lock held
unfoldable pub on_timer : MemoryBuffer → MemoryBuffer × Bool
on_timer b =
    let c = record b { flush_timer = false } in
    if c.destroyed then (c, false) else (c, c.flush_callback && not (is_empty c.entries))

unfoldable pub trigger_immediate_flush : MemoryBuffer → MemoryBuffer
trigger_immediate_flush b =
    if b.destroyed || not b.flush_callback then b else record b { timers = at_once ∷ b.timers }

abbrev last_entry : LogEntryEntity → List LogEntryEntity → LogEntryEntity
last_entry e [] = e
last_entry e (f ∷ es) = last_entry f es

-- `from_iso` is `datetime.fromisoformat(text).timestamp()`, `none` where it raises.
unfoldable pub to_timestamp : (String → Option ℕ) → Option String → Option ℕ
to_timestamp from_iso none = none
to_timestamp from_iso (some value) = from_iso (replace_char b'Z' "+00:00" value)

module _ (config : ResolvedBufferConfig) where
  -- `MemoryBuffer.__init__` before the first timer is scheduled
  abbrev pub empty : ℕ → MemoryBuffer
  empty now = record {
    entries = [];
    last_flush_time = now;
    flush_timer = false;
    memory_tracker = Memory.new;
    flush_callback = false;
    dropped_entries = 0;
    destroyed = false;
    timers = [];
  }

  unfoldable pub schedule_flush : MemoryBuffer → MemoryBuffer
  schedule_flush b =
      if b.destroyed || b.flush_timer
      then b
      else record b { flush_timer = true; timers = after_ms config.flush_interval ∷ b.timers }

  unfoldable pub new : ℕ → MemoryBuffer
  unfolding schedule_flush
  new now = if config.auto_flush then schedule_flush (empty now) else empty now

  unfoldable pub is_full : MemoryBuffer → Bool
  is_full b = leb config.max_size (length b.entries)

  -- A positive `flush_interval` has elapsed when that many milliseconds have.
  unfoldable pub should_flush : ℕ → MemoryBuffer → Bool
  should_flush now b =
      leb config.max_size (length b.entries)
      || (config.auto_flush && leb (b.last_flush_time + config.flush_interval * 1000) now)

  unfoldable pub flush : ℕ → MemoryBuffer → List LogEntryEntity × MemoryBuffer
  unfolding cancel_timer schedule_flush
  flush now b =
      let c = cancel_timer b in
      let flushed = c.entries in
      let d = record c {
        memory_tracker = remove_entries flushed c.memory_tracker;
        entries = [];
        last_flush_time = now;
      } in
      (flushed, if config.auto_flush && not d.destroyed then schedule_flush d else d)

  unfoldable pub enforce_max_size : MemoryBuffer → MemoryBuffer
  unfolding drop_oldest
  enforce_max_size b =
      if leb (length b.entries) config.max_size
      then b
      else drop_oldest (length b.entries - config.max_size) b

  -- the last two statements of `add`
  unfoldable pub start_timers : MemoryBuffer → MemoryBuffer
  unfolding schedule_flush trigger_immediate_flush
  start_timers c =
      let d = if config.auto_flush then schedule_flush c else c in
      if leb config.max_size (length d.entries) && config.auto_flush
      then trigger_immediate_flush d
      else d

  -- `get_total_size_mb() > max_memory_mb`
  abbrev pub is_over : MemoryTracker → Bool
  is_over t = ltb (config.max_memory_mb * mb) t.total_size

  -- `ts is None or (now - ts) < max_age_s`
  abbrev pub is_young : ℕ → Option ℕ → Bool
  is_young now none = true
  is_young now (some ts) = ltb now (ts + config.max_age * 1000)

  module _ (from_iso : String → Option ℕ) where
    -- the loop of `_remove_old_entries`: the entries kept, and those removed
    unfoldable pub split_old : ℕ → List LogEntryEntity → List LogEntryEntity × List LogEntryEntity
    unfolding to_timestamp
    split_old now [] = ([], [])
    split_old now (e ∷ es) =
        let (kept, removed) = split_old now es in
        if is_young now (to_timestamp from_iso (some e.timestamp))
        then (e ∷ kept, removed)
        else (kept, e ∷ removed)

    unfoldable pub remove_aged : ℕ → MemoryBuffer → MemoryBuffer
    unfolding split_old
    remove_aged now b =
        let (kept, removed) = split_old now b.entries in
        let c = record b { entries = kept } in
        if is_empty removed then c else record c {
          memory_tracker = remove_entries removed c.memory_tracker;
          dropped_entries = c.dropped_entries + length removed;
        }

    unfoldable pub remove_old_entries : ℕ → MemoryBuffer → MemoryBuffer
    unfolding remove_aged drop_oldest
    remove_old_entries now b =
        let c = remove_aged now b in
        if is_over c.memory_tracker && not (is_empty c.entries)
        then drop_oldest (max 1 (length c.entries / 10)) c
        else c

    -- the entry appended and counted, and both limits enforced
    unfoldable pub store : ℕ → LogEntryEntity → MemoryBuffer → MemoryBuffer
    store now entry b =
        let c = enforce_max_size (record b {
          entries = b.entries ++ entry ∷ [];
          memory_tracker = add_entry entry b.memory_tracker;
        }) in
        if is_over c.memory_tracker then enforce_max_size (remove_old_entries now c) else c

    unfoldable pub add : ℕ → LogEntryEntity → MemoryBuffer → MemoryBuffer
    add now entry b = if b.destroyed then b else start_timers (store now entry b)

    unfoldable pub get_metrics : MemoryBuffer → Metrics
    unfolding to_timestamp
    get_metrics b = record {
      size = length b.entries;
      max_size = config.max_size;
      oldest_entry = elim b.entries [
        | [] ↦ none
        | e ∷ es ↦ to_timestamp from_iso (some e.timestamp)
      ];
      newest_entry = elim b.entries [
        | [] ↦ none
        | e ∷ es ↦ to_timestamp from_iso (some (last_entry e es).timestamp)
      ];
      memory_bytes = b.memory_tracker.total_size;
      dropped = b.dropped_entries;
    }
