-- ===== src/Interfaces.antt =====
-- src/logs_interceptor/domain/interfaces.py, types.py: what the components ask of each other. A
-- method takes the state of the object behind it and returns the new one.
use mathlib.Core.List.{map}
use logs_interceptor_python.Base.{ℕ, ◌+◌, ◌≡◌, String, Bool, Option, List, ◌++◌, length, last_n}
use logs_interceptor_python.Dlq.{DlqEntry, Added, make_item}
use logs_interceptor_python.Domain.{LogEntryEntity}
use logs_interceptor_python.Errors.{Result, ok}

-- The clock in whole microseconds, `time.sleep` in milliseconds, and `random.randint(0, 250)`.
pub record Host (W : Type 0) : Type 0 where
  pub time : W → ℕ × W
  pub sleep : ℕ → W → W
  pub randint : W → ℕ × W

pub record TransportHealth : Type 0 where
  pub healthy : Bool
  pub last_successful_send : Option ℕ
  pub consecutive_failures : ℕ
  pub error_message : Option String

-- The keys of `TransportMetrics` that are counted here.
pub record TransportMetrics : Type 0 where
  pub total_sends : ℕ
  pub successful_sends : ℕ
  pub failed_sends : ℕ
  pub avg_latency : ℕ
  pub retry_attempts : ℕ
  pub retried_requests : ℕ
  pub dlq_dropped_entries : ℕ

pub record ILogTransport (W : Type 0) : Type 0 where
  pub send : List LogEntryEntity → W → Result (Unit {0}) × W
  pub is_available : W → Bool × W
  pub get_health : W → TransportHealth × W
  pub get_metrics : W → Option TransportMetrics × W
  pub destroy : W → W

-- A queue, and what it promises while it is ready: a batch is taken, the queue then holds the
-- newest of what it held and the batch, and the result counts those that left.
pub record IDeadLetterQueue (Q : Type 0) : Type 1 where
  pub add_batch : ℕ → List LogEntryEntity → String → Q → Result Added × Q
  pub held : Q → List DlqEntry
  pub IsReady : Q → Type 0
  pub takes :
      (timestamp : ℕ) (entries : List LogEntryEntity) (reason : String) (q : Q)
      → IsReady q
      → let (r, q') = add_batch timestamp entries reason q in
        let items = held q ++ map (make_item timestamp reason) entries in
        ((a : Added) × (r ≡ ok a) × (length (held q') + a.dropped ≡ length items))
        × (held q' ≡ last_n (length (held q')) items)
        × IsReady q'
