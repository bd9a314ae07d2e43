-- ===== src/TimerFlush/Examples.antt =====
-- The timer of a buffer with one entry, and each theorem at it.
use logs_interceptor_python.Base.{ℕ, refl, String, true, none, Option, [], ◌∷◌, arith}
use logs_interceptor_python.Buffer.{MemoryBuffer, empty}
use logs_interceptor_python.Config.{ResolvedBufferConfig}
use logs_interceptor_python.Domain.{LogEntryEntity}
use logs_interceptor_python.TimerFlush.{Threads, at_deadline, Step, Steps}
use logs_interceptor_python.TimerFlush.Deadlock.{IsDeadlocked, timer_flush-deadlocks}

abbrev config : ResolvedBufferConfig
config = record {
  max_size = 100;
  flush_interval = 5000;
  max_age = 30000;
  auto_flush = true;
  max_memory_mb = 50;
}

abbrev from_iso : String → Option ℕ
from_iso s = none

abbrev entry : LogEntryEntity
entry = record {
  address = 1;
  id = "id";
  timestamp = "2024-01-01T00:00:00Z";
  level = "info";
  message = "hello";
  context = none;
  trace_id = none;
  span_id = none;
  request_id = none;
  labels = none;
  metadata = none;
}

abbrev one : MemoryBuffer
one = record (empty config 0) { entries = entry ∷ []; flush_callback = true; flush_timer = true }

timer_flush-deadlocks_example :
    (s : Threads) × Steps true config from_iso (at_deadline one) s
    × IsDeadlocked config from_iso s
    × ((s' : Threads) → ¬ Step true config from_iso s s')
timer_flush-deadlocks_example = timer_flush-deadlocks config from_iso 7 one refl refl (omega arith)
