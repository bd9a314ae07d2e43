-- ===== src/FlushQueue/Drains.antt =====
-- The flush queue drains: `_wait_for_queue_idle` comes to its end.
use mathlib.Core.List.{Perm, append-nil, append_assoc}
use mathlib.Core.Path.{subst}
use logs_interceptor_python.Base.{
  ℕ, zero, suc, ◌+◌, ◌-◌, ◌*◌, ◌<◌, ◌≤◌, ◌≡◌, refl, sym, ◌∙◌, ap, Bool, true, false, ◌&&◌, Option,
  none, some, List, [], ◌∷◌, ◌++◌, map, length, length-append, ℕ_comparable, arith,
}
use logs_interceptor_python.Errors.{Exception}
use logs_interceptor_python.FlushQueue.{
  FlushTask, FlushQueue, start_flushes, process_flush_queue, set_event, end_flush, is_idle,
  waits_for_buffer, Works, sets, ends, Reach, works,
}
use logs_interceptor_python.FlushQueue.Invariant.{
  start_flushes-Started, IsSound, Reach-IsSound, length-middle,
}
use logs_interceptor_python.FlushQueue.Order.{finished_tasks, all_tasks, Reach-Perm}

-- What the workers still have to do: two steps for each task that is not finished, and one for each
-- worker that is leaving.
abbrev pub pending : FlushQueue → ℕ
pending s = 2 * (length s.flush_queue + length s.sending) + length s.leaving

no_tasks : {A : Type 0} (l : List A) → length l ≡ 0 → l ≡ []
no_tasks [] h = refl
no_tasks (x ∷ l) h = absurd (omega (arith, h))

map-append : {A B : Type 0} (f : A → B) (xs ys : List A) → map f (xs ++ ys) ≡ map f xs ++ map f ys
map-append f [] ys = refl
map-append f (x ∷ xs) ys = ap (◌∷◌ (f x)) (map-append f xs ys)

module _ (limit : ℕ) where
  process_flush_queue-pending :
      (s : FlushQueue)
      → s.in_flight_flushes ≤ limit
      → pending (process_flush_queue limit s) ≡ pending s
  unfolding process_flush_queue
  process_flush_queue-pending s within =
      let r = start_flushes-Started limit s.flush_queue s.in_flight_flushes within in
      let (left, _, started) = start_flushes limit s.flush_queue s.in_flight_flushes in
      omega (arith, ap length r.split, length-append started left, length-append s.sending started)

  idle :
      (s : FlushQueue)
      → IsSound limit s
      → pending s ≡ 0
      → (is_idle s ≡ true) × (all_tasks s ≡ finished_tasks s)
  unfolding is_idle
  idle s h none_left =
      let queue = no_tasks s.flush_queue (omega (arith, none_left)) in
      let sending = no_tasks s.sending (omega (arith, none_left)) in
      let quiet : s.in_flight_flushes ≡ 0 = omega (arith, h.flights, none_left) in
      (rw (quiet, queue) refl, rw (sending, queue) (append-nil (finished_tasks s)))

  module _ (enable_metrics : Bool) where
    -- `n` steps of the workers, while no caller enqueues a task and no thread takes the lock
    pub data Runs : ℕ → FlushQueue → FlushQueue → Type 0 where
      done : {s : FlushQueue} → Runs 0 s s
      next :
          {n : ℕ} {s s' s'' : FlushQueue}
          → Works limit enable_metrics s s'
          → Runs n s' s''
          → Runs (suc n) s s''

    Works-pending :
        {s s' : FlushQueue}
        → Works limit enable_metrics s s'
        → IsSound limit s
        → pending s' + 1 ≡ pending s
    unfolding set_event end_flush
    Works-pending {s} (sets before task after error e free) h =
        omega
          (arith, length-middle s.sending before task after e, length-append s.leaving (task ∷ []))
    Works-pending {s} (ends before task after e) h = omega (
      arith,
      process_flush_queue-pending
          (record s { leaving = before ++ after; in_flight_flushes = s.in_flight_flushes - 1 })
          (omega (arith, h.within)),
      length-middle s.leaving before task after e,
    )

    -- Every step of a worker from a state that is reached lowers by one what is left to do, two
    -- for each task not finished and one for each worker that is leaving.
    pub Runs-pending :
        {n : ℕ} {s s' : FlushQueue} {accepted : List FlushTask}
        → Reach limit enable_metrics s accepted
        → Runs n s s'
        → n + pending s' ≡ pending s
    Runs-pending r done = omega arith
    Runs-pending r (next w more) =
        omega (arith, Works-pending w (Reach-IsSound limit r), Runs-pending (works r w) more)

    module _ (outcome : FlushTask → Option Exception) where
      -- What the tasks end with.
      abbrev pub outcomes : List FlushTask → List (FlushTask × Option Exception)
      outcomes tasks = map (λ t. (t, outcome t)) tasks

      -- No worker waits for the lock of the buffer.
      abbrev pub IsFree : FlushQueue → Type 0
      IsFree s = (enable_metrics && s.buffer_locked) ≡ false

      free_worker :
          (s : FlushQueue) (error : Option Exception)
          → IsFree s
          → waits_for_buffer enable_metrics error s ≡ false
      unfolding waits_for_buffer
      free_worker s none free = free
      free_worker s (some e) free = refl

      -- Some worker can step as long as there is anything to do, and then no worker waits, and the
      -- tasks that end do so with their outcome.
      some_step :
          (s : FlushQueue)
          → 0 < limit
          → IsSound limit s
          → IsFree s
          → 0 < pending s
          → (s' : FlushQueue) × Works limit enable_metrics s s'
            × IsFree s'
            × ((tasks : List FlushTask) × (s'.finished ≡ s.finished ++ outcomes tasks))
      unfolding set_event end_flush process_flush_queue
      some_step s positive h free more = step s.sending s.leaving refl refl
        where
          step :
              (sending leaving : List FlushTask)
              → s.sending ≡ sending
              → s.leaving ≡ leaving
              → (s' : FlushQueue) × Works limit enable_metrics s s'
                × IsFree s'
                × ((tasks : List FlushTask) × (s'.finished ≡ s.finished ++ outcomes tasks))
          step (task ∷ rest) leaving e f = (
            _,
            sets [] task rest (outcome task) e (free_worker s (outcome task) free),
            free,
            (task ∷ [], refl),
          )
          step [] (task ∷ rest) e f =
              (_, ends [] task rest f, free, ([], sym (append-nil s.finished)))
          step [] [] e f =
              absurd (omega (arith, h.flights, h.busy, ap length e, ap length f, more, positive))

      -- With a positive limit, from every state that callers, workers and threads with the lock of
      -- the buffer reach and in which metrics are disabled or no thread holds that lock, whatever
      -- the tasks come to there is a run of worker steps in which those that end come to just
      -- that, two steps for each task not finished and one for each worker that is leaving, to a
      -- state where `_wait_for_queue_idle` returns, and the tasks finished there are those
      -- enqueued, each once.
      pub Reach-drains :
          {s : FlushQueue} {accepted : List FlushTask}
          → 0 < limit
          → Reach limit enable_metrics s accepted
          → IsFree s
          → (s' : FlushQueue) × Runs (pending s) s s'
            × (is_idle s' ≡ true)
            × Perm (finished_tasks s') accepted
            × ((tasks : List FlushTask) × (s'.finished ≡ s.finished ++ outcomes tasks))
      Reach-drains {s} positive r free = drain (pending s) r free refl
        where
          drain :
              (n : ℕ) {s : FlushQueue} {accepted : List FlushTask}
              → Reach limit enable_metrics s accepted
              → IsFree s
              → pending s ≡ n
              → (s' : FlushQueue) × Runs n s s'
                × (is_idle s' ≡ true)
                × Perm (finished_tasks s') accepted
                × ((tasks : List FlushTask) × (s'.finished ≡ s.finished ++ outcomes tasks))
          drain zero {s} {accepted} r free e =
              let (quiet, same) = idle s (Reach-IsSound limit r) e in
              (
                s,
                done,
                quiet,
                subst (λ l. Perm l accepted) same (Reach-Perm limit r),
                ([], sym (append-nil s.finished)),
              )
          drain (suc n) {s} r free e =
              let h = Reach-IsSound limit r in
              let (t, w, free', (first, ended)) = some_step s positive h free (omega (arith, e)) in
              let (s', runs, quiet, kept, (rest, ended')) =
                drain n (works r w) free' (omega (arith, e, Works-pending w h)) in
              (
                s',
                next w runs,
                quiet,
                kept,
                (
                  first ++ rest,
                  ended'
                      ∙ ap (λ l. l ++ outcomes rest) ended
                      ∙ append_assoc s.finished (outcomes first) (outcomes rest)
                      ∙ ap (◌++◌ s.finished) (sym (map-append (λ t. (t, outcome t)) first rest)),
                ),
              )
