-- ===== src/FlushQueue/Examples.antt =====
-- Two tasks of a flush queue, and each theorem at a run of them.
use mathlib.Core.List.{Perm}
use logs_interceptor_python.Base.{
  ℕ, ◌≡◌, refl, true, false, Option, none, some, List, [], ◌∷◌, ◌++◌, ◌==◌, ℕ_comparable,
  if◌then◌else◌, arith,
}
use logs_interceptor_python.Errors.{Exception, runtime_error}
use logs_interceptor_python.FlushQueue.{
  FlushTask, FlushQueue, new, enqueue_flush, set_event, process_flush_queue, start_flushes, is_idle,
  waits_for_buffer, Reach, start, enqueues, works, sets,
}
use logs_interceptor_python.FlushQueue.Drains.{Runs, pending, outcomes, Reach-drains}
use logs_interceptor_python.FlushQueue.Invariant.{IsSound, Reach-IsSound}
use logs_interceptor_python.FlushQueue.Order.{finished_tasks, all_tasks, Reach-serial}

abbrev task : ℕ → FlushTask
task n = record { id = n; entries = [] }

-- One worker sends the first task, the second waits.
abbrev two : FlushQueue
two = enqueue_flush 1 (task 2) (enqueue_flush 1 (task 1) new)

reached : Reach 1 true two (task 1 ∷ task 2 ∷ [])
reached = enqueues (task 2) (enqueues (task 1) start)

-- The first task is finished, its worker has not left.
abbrev sent : FlushQueue
sent = set_event [] (task 1) [] none two

sends_first : two.sending ≡ task 1 ∷ []
unfolding enqueue_flush process_flush_queue start_flushes
sends_first = refl

not_locked : waits_for_buffer true none two ≡ false
unfolding enqueue_flush process_flush_queue waits_for_buffer
not_locked = refl

reached_sent : Reach 1 true sent (task 1 ∷ task 2 ∷ [])
reached_sent = works reached (sets [] (task 1) [] none sends_first not_locked)

Reach-IsSound_example : IsSound 1 sent
Reach-IsSound_example = Reach-IsSound 1 reached_sent

Reach-serial_example : all_tasks sent ≡ task 1 ∷ task 2 ∷ []
Reach-serial_example = Reach-serial reached_sent

-- The second task cannot be sent.
abbrev outcome : FlushTask → Option Exception
outcome t = if t.id == 2 then some (runtime_error "down") else none

Reach-drains_example :
    (s' : FlushQueue) × Runs 1 true (pending sent) sent s'
    × (is_idle s' ≡ true)
    × Perm (finished_tasks s') (task 1 ∷ task 2 ∷ [])
    × ((tasks : List FlushTask) × (s'.finished ≡ sent.finished ++ outcomes 1 true outcome tasks))
unfolding set_event waits_for_buffer
Reach-drains_example = Reach-drains 1 true outcome (omega arith) reached_sent not_locked
