-- ===== src/Workers.antt =====
-- src/logs_interceptor/infrastructure/workers/worker_pool.py: `WorkerPool` with the tasks of its
-- executor, which is Python's `ThreadPoolExecutor`. A task is a number.
pub mod Queue
mod Examples
use logs_interceptor_python.Base.{
  ℕ, ◌+◌, ◌-◌, Bool, true, false, List, [], ◌∷◌, ◌++◌, if◌then◌else◌,
}
use logs_interceptor_python.Errors.{Result, ok, raise, runtime_error}

pub record WorkerPool : Type 0 where
  pub total_tasks : ℕ
  pub completed_tasks : ℕ
  pub failed_tasks : ℕ

-- What `submit` has queued, what the workers run, and whether `shutdown` was called.
pub record Executor : Type 0 where
  pub waiting : List ℕ
  pub running : List ℕ
  pub is_shut : Bool

pub record Pool : Type 0 where
  pub counts : WorkerPool
  pub executor : Executor

pub record WorkerMetrics : Type 0 where
  pub active_workers : ℕ
  pub queue_length : ℕ
  pub total_tasks : ℕ
  pub completed_tasks : ℕ
  pub failed_tasks : ℕ

abbrev pub new : Pool
new = record {
  counts = record { total_tasks = 0; completed_tasks = 0; failed_tasks = 0 };
  executor = record { waiting = []; running = []; is_shut = false };
}

-- The task is counted before it is submitted, which raises after a shutdown.
unfoldable pub execute : ℕ → Pool → Result (Unit {0}) × Pool
execute task p =
    let counts = record p.counts { total_tasks = p.counts.total_tasks + 1 } in
    if p.executor.is_shut
    then (
      raise (runtime_error "cannot schedule new futures after shutdown"),
      record p { counts = counts },
    )
    else (
      ok tt,
      record {
        counts = counts;
        executor = record p.executor { waiting = p.executor.waiting ++ task ∷ [] };
      },
    )

-- How a future ended.
pub data Outcome : Type 0 where
  returned raised cancelled : Outcome

-- `_done_callback`: `exception()` raises for a future that was cancelled, and the error is logged.
unfoldable pub done_callback : Outcome → WorkerPool → WorkerPool
done_callback returned c = record c { completed_tasks = c.completed_tasks + 1 }
done_callback raised c = record c { failed_tasks = c.failed_tasks + 1 }
done_callback cancelled c = c

-- a worker that takes the first task in the queue
unfoldable pub begin : Pool → Pool
begin p = elim p.executor.waiting [
  | [] ↦ p
  | t ∷ ts ↦ record p {
    executor = record p.executor { waiting = ts; running = t ∷ p.executor.running };
  }
]

unfoldable pub cancel_all : List ℕ → WorkerPool → WorkerPool
unfolding done_callback
cancel_all [] c = c
cancel_all (t ∷ ts) c = cancel_all ts (done_callback cancelled c)

-- `destroy`, up to the wait for the tasks that run
unfoldable pub destroy : Pool → Pool
unfolding cancel_all
destroy p = record {
  counts = cancel_all p.executor.waiting p.counts;
  executor = record p.executor { waiting = []; is_shut = true };
}

-- `max(0, ...)` is the subtraction of ℕ.
unfoldable pub get_metrics : WorkerPool → WorkerMetrics
get_metrics c = record {
  active_workers = 0;
  queue_length = c.total_tasks - c.completed_tasks - c.failed_tasks;
  total_tasks = c.total_tasks;
  completed_tasks = c.completed_tasks;
  failed_tasks = c.failed_tasks;
}
