-- ===== src/TimerFlush.antt =====
-- src/logs_interceptor/infrastructure/buffer/memory_buffer.py and application/log_service.py: a
-- flush by the timer. The timer's thread runs `_on_timer`, which holds the buffer's lock while it
-- calls `LogService.flush`; a worker runs `_send_flush_batch`; other threads call `add`.
pub mod Deadlock
mod Examples
use logs_interceptor_python.Base.{
  ℕ, ◌≡◌, String, Bool, true, false, Option, none, some, if◌then◌else◌,
}
use logs_interceptor_python.Buffer.{MemoryBuffer, add, flush, on_timer}
use logs_interceptor_python.Config.{ResolvedBufferConfig}
use logs_interceptor_python.Domain.{LogEntryEntity}

-- Where the timer's thread is: before `_on_timer`; in the callback with the lock held; at
-- `task.event.wait()`; in `_wait_for_queue_idle`; past `_on_timer`.
pub data TimerAt : Type 0 where
  due in_callback waiting idling over : TimerAt

-- Where the worker is: not started; in `transport.send`; after a successful send, at
-- `_update_metrics`; at `task.event.set()`; at its last block; ended.
pub data WorkerAt : Type 0 where
  unborn sending measuring signalling leaving gone : WorkerAt

-- `locked` says that the timer's thread holds the buffer's lock. The others hold it only inside a
-- single step.
pub record Threads : Type 0 where
  pub buffer : MemoryBuffer
  pub locked : Bool
  pub timer : TimerAt
  pub worker : WorkerAt
  pub event : Bool

abbrev pub at_deadline : MemoryBuffer → Threads
at_deadline b = record { buffer = b; locked = false; timer = due; worker = unborn; event = false }

-- `_on_timer` up to the call of the callback, or all of it
unfoldable pub fire : Threads → Threads
fire s =
    let (b, calls) = on_timer s.buffer in
    record s { buffer = b; locked = calls; timer = if calls then in_callback else over }

module _ (enable_metrics : Bool) (config : ResolvedBufferConfig)
    (from_iso : String → Option ℕ) where
  -- `LogService.flush` on a buffer that is not empty, up to the event: the worker starts.
  unfoldable pub call_back : ℕ → Threads → Threads
  call_back now s = record s {
    buffer = (flush config now s.buffer).1;
    worker = sending;
    timer = waiting;
  }

  -- `transport.send` has returned; `_update_metrics` returns at once without metrics.
  unfoldable pub sent : Threads → Threads
  sent s = record s { worker = if enable_metrics then measuring else signalling }

  -- One step of some thread. A thread that needs the lock waits until it is free.
  pub data Step (s : Threads) : Threads → Type 0 where
    fires : s.timer ≡ due → s.locked ≡ false → Step s (fire s)
    calls_back : (now : ℕ) → s.timer ≡ in_callback → Step s (call_back now s)
    succeeds : s.worker ≡ sending → Step s (sent s)
    fails : s.worker ≡ sending → Step s (record s { worker = signalling })
    measures : s.worker ≡ measuring → s.locked ≡ false → Step s (record s { worker = signalling })
    signals : s.worker ≡ signalling → Step s (record s { worker = leaving; event = true })
    leaves : s.worker ≡ leaving → Step s (record s { worker = gone })
    wakes : s.timer ≡ waiting → s.event ≡ true → Step s (record s { timer = idling })
    unlocks :
        s.timer ≡ idling → s.worker ≡ gone → Step s (record s { timer = over; locked = false })
    adds :
        (now : ℕ) (entry : LogEntryEntity)
        → s.locked ≡ false
        → Step s (record s { buffer = add config from_iso now entry s.buffer })

  pub data Steps : Threads → Threads → Type 0 where
    stay : {s : Threads} → Steps s s
    step : {s s' s'' : Threads} → Step s s' → Steps s' s'' → Steps s s''
