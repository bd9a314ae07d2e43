-- ===== src/Workers/Queue.antt =====
-- What the metrics of a pool count, whatever it ran.
use logs_interceptor_python.Base.{
  ℕ, ◌+◌, ◌≡◌, refl, List, [], ◌∷◌, ◌++◌, length, length-append, ap, arith, if◌then◌else◌,
}
use logs_interceptor_python.Workers.{
  WorkerPool, Pool, new, execute, Outcome, returned, raised, done_callback, begin, cancel_all,
  destroy, get_metrics,
}

-- The tasks that a call gives up: `execute` after a shutdown one, and `destroy` those that wait.
abbrev pub lost_by_execute : Pool → ℕ
lost_by_execute p = if p.executor.is_shut then 1 else 0

-- A task that runs ends in one of two ways.
abbrev pub finish : Outcome → List ℕ → Pool → Pool
finish outcome rest p = record {
  counts = done_callback outcome p.counts;
  executor = record p.executor { running = rest };
}

-- The pools that calls and workers lead to, with the number of the tasks given up.
pub data Reach : ℕ → Pool → Type 0 where
  start : Reach 0 new
  executes :
      (task lost : ℕ) (p : Pool)
      → Reach lost p
      → Reach (lost + lost_by_execute p) (execute task p).1
  begins : (lost : ℕ) (p : Pool) → Reach lost p → Reach lost (begin p)
  returns :
      (lost : ℕ) (p : Pool) (before after : List ℕ) (task : ℕ)
      → p.executor.running ≡ before ++ task ∷ after
      → Reach lost p
      → Reach lost (finish returned (before ++ after) p)
  raises :
      (lost : ℕ) (p : Pool) (before after : List ℕ) (task : ℕ)
      → p.executor.running ≡ before ++ task ∷ after
      → Reach lost p
      → Reach lost (finish raised (before ++ after) p)
  destroys :
      (lost : ℕ) (p : Pool) → Reach lost p → Reach (lost + length p.executor.waiting) (destroy p)

-- Every task counted is done, or waits or runs, or was given up.
abbrev Balances : ℕ → Pool → Type 0
Balances lost p =
    p.counts.total_tasks
    ≡ p.counts.completed_tasks
      + p.counts.failed_tasks
      + (length p.executor.waiting + length p.executor.running)
      + lost

cancel_all-counts : (ts : List ℕ) (c : WorkerPool) → cancel_all ts c ≡ c
unfolding cancel_all done_callback
cancel_all-counts [] c = refl
cancel_all-counts (t ∷ ts) c = cancel_all-counts ts c

execute-Balances :
    (task lost : ℕ) (p : Pool)
    → Balances lost p
    → Balances (lost + lost_by_execute p) (execute task p).1
unfolding execute
execute-Balances task lost p h = ground (arith, length-append p.executor.waiting (task ∷ []))

begin-Balances : (lost : ℕ) (p : Pool) → Balances lost p → Balances lost (begin p)
unfolding begin
begin-Balances lost p h = ground arith

length-removed :
    (before after : List ℕ) (task : ℕ) (l : List ℕ)
    → l ≡ before ++ task ∷ after
    → length l ≡ length (before ++ after) + 1
length-removed before after task l e =
    omega (arith, ap length e, length-append before (task ∷ after), length-append before after)

finish_returned :
    (lost : ℕ) (p : Pool) (before after : List ℕ) (task : ℕ)
    → p.executor.running ≡ before ++ task ∷ after
    → Balances lost p
    → Balances lost (finish returned (before ++ after) p)
unfolding done_callback
finish_returned lost p before after task e h =
    omega (arith, h, length-removed before after task p.executor.running e)

finish_raised :
    (lost : ℕ) (p : Pool) (before after : List ℕ) (task : ℕ)
    → p.executor.running ≡ before ++ task ∷ after
    → Balances lost p
    → Balances lost (finish raised (before ++ after) p)
unfolding done_callback
finish_raised lost p before after task e h =
    omega (arith, h, length-removed before after task p.executor.running e)

destroy-Balances :
    (lost : ℕ) (p : Pool)
    → Balances lost p
    → Balances (lost + length p.executor.waiting) (destroy p)
unfolding destroy
destroy-Balances lost p h = rw (cancel_all-counts p.executor.waiting p.counts) (omega (arith, h))

Reach-Balances : (lost : ℕ) (p : Pool) → Reach lost p → Balances lost p
Reach-Balances _ _ start = refl
Reach-Balances _ _ (executes task lost p r) = execute-Balances task lost p (Reach-Balances lost p r)
Reach-Balances _ _ (begins lost p r) = begin-Balances lost p (Reach-Balances lost p r)
Reach-Balances _ _ (returns lost p before after task e r) =
    finish_returned lost p before after task e (Reach-Balances lost p r)
Reach-Balances _ _ (raises lost p before after task e r) =
    finish_raised lost p before after task e (Reach-Balances lost p r)
Reach-Balances _ _ (destroys lost p r) = destroy-Balances lost p (Reach-Balances lost p r)

-- Whatever calls a pool got and however its tasks went, its metrics add up: the tasks are those
-- that completed, those that failed and the queue length, and the queue length counts the tasks
-- that wait, those that run, those that a `destroy` cancelled and those that `execute` refused
-- after one.
pub Reach-queue_length :
    (lost : ℕ) (p : Pool)
    → Reach lost p
    → let m = get_metrics p.counts in
      (m.total_tasks ≡ m.completed_tasks + m.failed_tasks + m.queue_length)
      × (m.queue_length ≡ length p.executor.waiting + length p.executor.running + lost)
unfolding get_metrics
Reach-queue_length lost p r =
    let h = Reach-Balances lost p r in (omega (arith, h), omega (arith, h))
