-- ===== src/Buffer/Examples.antt =====
-- Runs of a small `MemoryBuffer`, and each theorem at one of them.
use logs_interceptor_python.Base.{
  ℕ, ◌+◌, ◌-◌, ◌≡◌, refl, String, true, false, none, Option, [], ◌∷◌, ◌++◌, length, last_n, arith,
}
use logs_interceptor_python.Base.Dict.{insert, lookup, erase}
use logs_interceptor_python.Buffer.{
  MemoryBuffer, at_once, after_ms, flush, enforce_max_size, is_over, add, new, set_flush_callback,
  start_timers, store,
}
use logs_interceptor_python.Buffer.Invariant.{IsSound}
use logs_interceptor_python.Buffer.Keeps.{appended}
use logs_interceptor_python.Buffer.Ledger.{
  opened, accept, Run, starts, adds, registers, Run-IsSound, Balances, Run-Balances,
}
use logs_interceptor_python.Buffer.Window.{add-window}
use logs_interceptor_python.Config.{ResolvedBufferConfig}
use logs_interceptor_python.Domain.{LogEntryEntity}
use logs_interceptor_python.Memory.{estimate_size, add_entry, remove_entries}
use logs_interceptor_python.Memory.Exact.{IsFreshIn}

abbrev config : ResolvedBufferConfig
config = record {
  max_size = 2;
  flush_interval = 5000;
  max_age = 30000;
  auto_flush = true;
  max_memory_mb = 1;
}

-- No timestamp can be read.
abbrev from_iso : String → Option ℕ
from_iso s = none

abbrev entry : ℕ → LogEntryEntity
entry n = record {
  address = n;
  id = "id";
  timestamp = "2024-01-01T00:00:00Z";
  level = "info";
  message = "hello";
  context = none;
  trace_id = none;
  span_id = none;
  request_id = none;
  labels = none;
  metadata = none;
}

-- A live buffer with a callback.
abbrev fresh : MemoryBuffer
fresh = set_flush_callback (new config 0)

abbrev one : MemoryBuffer
one = add config from_iso 1 (entry 1) fresh

run : Run config from_iso one (accept false (entry 1) opened)
unfolding set_flush_callback new
run = adds 1 (entry 1) (registers (starts 0)) tt

Run-IsSound_example : IsSound config one
Run-IsSound_example = Run-IsSound config from_iso run

Run-Balances_example : Balances config from_iso one (accept false (entry 1) opened)
Run-Balances_example = Run-Balances config from_iso run

size_of_entry : estimate_size (entry 1) ≡ 262
unfolding estimate_size
size_of_entry = refl

fresh_total : fresh.memory_tracker.total_size ≡ 0
unfolding set_flush_callback new
fresh_total = refl

fresh_alive : fresh.destroyed ≡ false
unfolding set_flush_callback new
fresh_alive = refl

add-window_example :
    (one.entries ≡ last_n 2 (fresh.entries ++ entry 1 ∷ []))
    × (one.dropped_entries ≡ fresh.dropped_entries + (length fresh.entries + 1 - 2))
add-window_example =
    add-window config from_iso 1 (entry 1) fresh fresh_alive
      (omega (arith, size_of_entry, fresh_total))

-- With no memory allowed, every entry is too much.
abbrev tight : ResolvedBufferConfig
tight = record config { max_memory_mb = 0 }

abbrev bare : MemoryBuffer
bare = new tight 0

bare_alive : bare.destroyed ≡ false
unfolding new
bare_alive = refl

bare_fresh : IsFreshIn 1 bare.entries
unfolding new
bare_fresh = tt

bare_over : is_over tight (enforce_max_size tight (appended (entry 1) bare)).memory_tracker ≡ true
unfolding new enforce_max_size add_entry insert estimate_size
bare_over = refl

-- Three entries with room for two, and a flush.
three :
    let b = add config from_iso 3 (entry 3) (add config from_iso 2 (entry 2) one) in
    ((flush config 4 b).0 ≡ entry 2 ∷ entry 3 ∷ [])
    × (b.dropped_entries ≡ 1)
    × (b.timers ≡ at_once ∷ at_once ∷ after_ms 5000 ∷ [])
unfolding add store start_timers enforce_max_size add_entry remove_entries insert lookup erase
    estimate_size flush new set_flush_callback
three = (refl, refl, refl)
