-- ===== src/FlushQueue/Order.antt =====
-- Where the tasks of the flush queue are: each in one place, and in order when one flush runs at a
-- time.
use mathlib.Core.List.{append_assoc, Perm}
use mathlib.Core.List.Perm
use mathlib.Core.List.{perm_middle}
use mathlib.Core.Path.{subst}
use logs_interceptor_python.Base.{
  ℕ, ◌≤◌, ◌≡◌, refl, sym, ◌∙◌, ap, Bool, Option, List, [], ◌∷◌, ◌++◌, map, length, arith,
}
use logs_interceptor_python.Errors.{Exception}
use logs_interceptor_python.FlushQueue.{
  FlushTask, FlushQueue, start_flushes, process_flush_queue, enqueue_flush, set_event, end_flush,
  Works, sets, ends, Reach, start, enqueues, works, locks,
}
use logs_interceptor_python.FlushQueue.Invariant.{
  start_flushes-Started, Reach-IsSound, length-middle,
}

abbrev pub finished_tasks : FlushQueue → List FlushTask
finished_tasks s = map (λ x. x.0) s.finished

-- The tasks finished, then those being sent, then those that wait.
abbrev pub all_tasks : FlushQueue → List FlushTask
all_tasks s = finished_tasks s ++ (s.sending ++ s.flush_queue)

finished-snoc :
    (f : List (FlushTask × Option Exception)) (task : FlushTask) (error : Option Exception)
    (rest : List FlushTask)
    → map (λ x. x.0) (f ++ (task, error) ∷ []) ++ rest ≡ map (λ x. x.0) f ++ task ∷ rest
finished-snoc [] task error rest = refl
finished-snoc (x ∷ f) task error rest = ap (◌∷◌ x.0) (finished-snoc f task error rest)

module _ (limit : ℕ) where
  process_flush_queue-all_tasks :
      (s : FlushQueue)
      → s.in_flight_flushes ≤ limit
      → all_tasks (process_flush_queue limit s) ≡ all_tasks s
  unfolding process_flush_queue
  process_flush_queue-all_tasks s within =
      let r = start_flushes-Started limit s.flush_queue s.in_flight_flushes within in
      let (left, _, started) = start_flushes limit s.flush_queue s.in_flight_flushes in
      ap (◌++◌ (finished_tasks s))
        (append_assoc s.sending started left ∙ ap (◌++◌ s.sending) (sym r.split))

  enqueue_flush-all_tasks :
      (task : FlushTask) (s : FlushQueue)
      → s.in_flight_flushes ≤ limit
      → all_tasks (enqueue_flush limit task s) ≡ all_tasks s ++ task ∷ []
  unfolding enqueue_flush
  enqueue_flush-all_tasks task s within =
      process_flush_queue-all_tasks (record s { flush_queue = s.flush_queue ++ task ∷ [] }) within
      ∙ ap (◌++◌ (finished_tasks s)) (sym (append_assoc s.sending s.flush_queue (task ∷ [])))
      ∙ sym (append_assoc (finished_tasks s) (s.sending ++ s.flush_queue) (task ∷ []))

  end_flush-all_tasks :
      (before after : List FlushTask) (s : FlushQueue)
      → s.in_flight_flushes ≤ limit
      → all_tasks (end_flush limit before after s) ≡ all_tasks s
  unfolding end_flush
  end_flush-all_tasks before after s within =
      process_flush_queue-all_tasks _ (omega (arith, within))

  Works-Perm :
      {enable_metrics : Bool} {s s' : FlushQueue}
      → Works limit enable_metrics s s'
      → s.in_flight_flushes ≤ limit
      → Perm (all_tasks s') (all_tasks s)
  unfolding set_event
  Works-Perm {s} (sets before task after error e free) within =
      rw (finished-snoc s.finished task error ((before ++ after) ++ s.flush_queue), e)
        (Perm.append_left (finished_tasks s)
          (Perm.append_right s.flush_queue (Perm.symm (perm_middle before after))))
  Works-Perm {s} (ends before task after e) within =
      subst (λ l. Perm l (all_tasks s)) (sym (end_flush-all_tasks before after s within))
        (Perm.refl (all_tasks s))

  -- In every state that callers and workers reach, the tasks finished, being sent and waiting are
  -- together the tasks enqueued, each once.
  pub Reach-Perm :
      {enable_metrics : Bool} {s : FlushQueue} {accepted : List FlushTask}
      → Reach limit enable_metrics s accepted
      → Perm (all_tasks s) accepted
  Reach-Perm start = Perm.refl []
  Reach-Perm (enqueues {s} {accepted} task r) =
      subst (λ l. Perm l (accepted ++ task ∷ []))
        (sym (enqueue_flush-all_tasks task s (Reach-IsSound limit r).within))
        (Perm.append_right (task ∷ []) (Reach-Perm r))
  Reach-Perm (locks locked r) = Reach-Perm r
  Reach-Perm (works r w) = Perm.trans (Works-Perm w (Reach-IsSound limit r).within) (Reach-Perm r)

only_one :
    {A : Type 0} (l xs : List A) (x : A) (ys : List A)
    → l ≡ xs ++ x ∷ ys
    → length l ≤ 1
    → (xs ≡ []) × (ys ≡ [])
only_one l [] x [] e h = (refl, refl)
only_one l [] x (y ∷ ys) e h = absurd (omega (arith, ap length e, h))
only_one l (z ∷ xs) x ys e h =
    absurd (omega (arith, ap length e, h, length-middle l (z ∷ xs) x ys e))

set_event-all_tasks :
    (before after : List FlushTask) (task : FlushTask) (error : Option Exception) (s : FlushQueue)
    → s.sending ≡ before ++ task ∷ after
    → length s.sending ≤ 1
    → all_tasks (set_event before task after error s) ≡ all_tasks s
unfolding set_event
set_event-all_tasks before after task error s e h =
    let (no_before, no_after) = only_one s.sending before task after e h in
    rw
      (
        finished-snoc s.finished task error ((before ++ after) ++ s.flush_queue),
        e,
        no_before,
        no_after,
      )
      refl

-- With one flush at a time, the tasks finished, then the one being sent, then those that wait are
-- the tasks enqueued, in the order in which they were enqueued.
pub Reach-serial :
    {enable_metrics : Bool} {s : FlushQueue} {accepted : List FlushTask}
    → Reach 1 enable_metrics s accepted
    → all_tasks s ≡ accepted
Reach-serial start = refl
Reach-serial (enqueues {s} task r) =
    enqueue_flush-all_tasks 1 task s (Reach-IsSound 1 r).within
    ∙ ap (λ l. l ++ task ∷ []) (Reach-serial r)
Reach-serial (works {s} r (sets before task after error e free)) =
    let h = Reach-IsSound 1 r in
    set_event-all_tasks before after task error s e (omega (arith, h.flights, h.within))
    ∙ Reach-serial r
Reach-serial (works {s} r (ends before task after e)) =
    end_flush-all_tasks 1 before after s (Reach-IsSound 1 r).within ∙ Reach-serial r
Reach-serial (locks locked r) = Reach-serial r
