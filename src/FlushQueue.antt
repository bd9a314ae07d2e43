-- ===== src/FlushQueue.antt =====
-- src/logs_interceptor/application/log_service.py: the flush queue of `LogService`, its worker
-- threads and the callers that wait for them. Threads meet under `_queue_lock`: what one does there
-- is one function. A worker is in `sending` until it sets the event of its task, and in `leaving`
-- from there to the block that ends it.
pub mod Invariant
pub mod Drains
pub mod Order
mod Examples
use logs_interceptor_python.Base.{
  ℕ, ◌+◌, ◌-◌, ◌<◌, ◌≡◌, Bool, true, false, ◌&&◌, Option, none, some, List, [], ◌∷◌, ◌++◌, length,
  is_empty, max, ltb, ◌==◌, ℕ_comparable, if◌then◌else◌,
}
use logs_interceptor_python.Domain.{LogEntryEntity}
use logs_interceptor_python.Errors.{Exception}

-- `_FlushTask`; `id` tells two objects apart.
pub record FlushTask : Type 0 where
  pub id : ℕ
  pub entries : List LogEntryEntity

-- `buffer_locked` says that another thread holds the lock of the buffer; `finished` are the tasks
-- whose event is set, with their `error`, in that order.
pub record FlushQueue : Type 0 where
  pub flush_queue : List FlushTask
  pub in_flight_flushes : ℕ
  pub sending : List FlushTask
  pub leaving : List FlushTask
  pub buffer_locked : Bool
  pub finished : List (FlushTask × Option Exception)

abbrev pub new : FlushQueue
new = record {
  flush_queue = [];
  in_flight_flushes = 0;
  sending = [];
  leaving = [];
  buffer_locked = false;
  finished = [];
}

-- `max(1, int(config.get("max_concurrent_flushes", 1)))`
abbrev pub concurrent_flushes : ℕ → ℕ
concurrent_flushes configured = max 1 configured

-- The worker of `task` has sent its batch or failed, and sets the event; `before` and `after` are
-- the other workers that are sending.
unfoldable pub set_event :
    List FlushTask → FlushTask → List FlushTask → Option Exception → FlushQueue → FlushQueue
set_event before task after error s = record s {
  sending = before ++ after;
  leaving = s.leaving ++ task ∷ [];
  finished = s.finished ++ (task, error) ∷ [];
}

-- the condition that ends `_wait_for_queue_idle`
unfoldable pub is_idle : FlushQueue → Bool
is_idle s = s.in_flight_flushes == 0 && is_empty s.flush_queue

-- After its batch is sent, `_update_metrics` takes the lock of the buffer, unless `enable_metrics`
-- is false: whether the worker waits for another thread.
unfoldable pub waits_for_buffer : Bool → Option Exception → FlushQueue → Bool
waits_for_buffer enable_metrics (some e) s = false
waits_for_buffer enable_metrics none s = enable_metrics && s.buffer_locked

module _ (max_concurrent_flushes : ℕ) where
  -- The loop of `_process_flush_queue_locked`, by recursion on the queue: what is left of it, the
  -- flushes in flight and the tasks whose threads it starts.
  unfoldable pub start_flushes : List FlushTask → ℕ → List FlushTask × ℕ × List FlushTask
  start_flushes [] in_flight = ([], in_flight, [])
  start_flushes (task ∷ tasks) in_flight =
      let (left, n, started) = start_flushes tasks (in_flight + 1) in
      if ltb in_flight max_concurrent_flushes
      then (left, n, task ∷ started)
      else (task ∷ tasks, in_flight, [])

  unfoldable pub process_flush_queue : FlushQueue → FlushQueue
  process_flush_queue s =
      let (left, n, started) = start_flushes s.flush_queue s.in_flight_flushes in
      record s { flush_queue = left; in_flight_flushes = n; sending = s.sending ++ started }

  -- the block of `_enqueue_flush`
  unfoldable pub enqueue_flush : FlushTask → FlushQueue → FlushQueue
  enqueue_flush task s = process_flush_queue (record s { flush_queue = s.flush_queue ++ task ∷ [] })

  -- the last block of `_send_flush_batch`
  unfoldable pub end_flush : List FlushTask → List FlushTask → FlushQueue → FlushQueue
  end_flush before after s =
      process_flush_queue
        (record s { leaving = before ++ after; in_flight_flushes = s.in_flight_flushes - 1 })

  module _ (enable_metrics : Bool) where
    -- A worker's steps.
    pub data Works (s : FlushQueue) : FlushQueue → Type 0 where
      sets :
          (before : List FlushTask) (task : FlushTask) (after : List FlushTask)
          (error : Option Exception)
          → s.sending ≡ before ++ task ∷ after
          → waits_for_buffer enable_metrics error s ≡ false
          → Works s (set_event before task after error s)
      ends :
          (before : List FlushTask) (task : FlushTask) (after : List FlushTask)
          → s.leaving ≡ before ++ task ∷ after
          → Works s (end_flush before after s)

    -- The states that any interleaving of callers, workers and threads that take the lock of the
    -- buffer and release it can reach, with the tasks that were enqueued so far.
    pub data Reach : FlushQueue → List FlushTask → Type 0 where
      start : Reach new []
      enqueues :
          {s : FlushQueue} {accepted : List FlushTask} (task : FlushTask)
          → Reach s accepted
          → Reach (enqueue_flush task s) (accepted ++ task ∷ [])
      works :
          {s s' : FlushQueue} {accepted : List FlushTask}
          → Reach s accepted
          → Works s s'
          → Reach s' accepted
      locks :
          {s : FlushQueue} {accepted : List FlushTask} (locked : Bool)
          → Reach s accepted
          → Reach (record s { buffer_locked = locked }) accepted
