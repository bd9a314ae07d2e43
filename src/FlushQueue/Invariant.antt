-- ===== src/FlushQueue/Invariant.antt =====
-- The flush queue at any moment: how many flushes are in flight, and that no task is forgotten.
use logs_interceptor_python.Base.{
  ℕ, ◌+◌, ◌<◌, ◌≤◌, ◌≡◌, refl, ap, Bool, List, [], ◌∷◌, ◌++◌, length, length-append, ltb, ltb→lt,
  ltb→ge, Bool-cases, inl, inr, arith,
}
use logs_interceptor_python.FlushQueue.{
  FlushTask, FlushQueue, start_flushes, process_flush_queue, enqueue_flush, set_event, end_flush,
  Works, sets, ends, Reach, start, enqueues, works, locks,
}

-- What `start_flushes` does with a queue.
pub record Started (limit : ℕ) (queue : List FlushTask) (n : ℕ)
    (r : List FlushTask × ℕ × List FlushTask) : Type 0 where
  pub split : queue ≡ r.2 ++ r.0
  pub count : r.1 ≡ n + length r.2
  pub within : r.1 ≤ limit
  pub busy : 0 < length r.0 → r.1 ≡ limit

pub start_flushes-Started :
    (limit : ℕ) (queue : List FlushTask) (n : ℕ)
    → n ≤ limit
    → Started limit queue n (start_flushes limit queue n)
unfolding start_flushes
start_flushes-Started limit [] n h = record {
  split = refl;
  count = omega arith;
  within = h;
  busy = λ k. absurd (omega (arith, k));
}
start_flushes-Started limit (task ∷ tasks) n h = elim (Bool-cases (ltb n limit)) [
  | inl room ↦
      let r = start_flushes-Started limit tasks (n + 1) (omega (arith, ltb→lt _ _ room)) in
      rw room (record {
        split = ap (◌∷◌ task) r.split;
        count = omega (arith, r.count);
        within = r.within;
        busy = r.busy;
      })
  | inr full ↦ rw full (record {
    split = refl;
    count = omega arith;
    within = h;
    busy = λ k. omega (arith, h, ltb→ge _ _ full);
  })
]

pub length-middle :
    {A : Type 0} (l : List A) (xs : List A) (x : A) (ys : List A)
    → l ≡ xs ++ x ∷ ys
    → length l ≡ length (xs ++ ys) + 1
length-middle l xs x ys e =
    omega (arith, ap length e, length-append xs (x ∷ ys), length-append xs ys)

module _ (limit : ℕ) where
  -- The flushes in flight are the workers, no more than allowed, and all of those allowed while a
  -- task waits.
  pub record IsSound (s : FlushQueue) : Type 0 where
    pub flights : s.in_flight_flushes ≡ length s.sending + length s.leaving
    pub within : s.in_flight_flushes ≤ limit
    pub busy : 0 < length s.flush_queue → s.in_flight_flushes ≡ limit

  process_flush_queue-IsSound :
      (s : FlushQueue)
      → s.in_flight_flushes ≡ length s.sending + length s.leaving
      → s.in_flight_flushes ≤ limit
      → IsSound (process_flush_queue limit s)
  unfolding process_flush_queue
  process_flush_queue-IsSound s flights within =
      let r = start_flushes-Started limit s.flush_queue s.in_flight_flushes within in
      let (_, _, started) = start_flushes limit s.flush_queue s.in_flight_flushes in
      record {
        flights = omega (arith, flights, r.count, length-append s.sending started);
        within = r.within;
        busy = r.busy;
      }

  Works-IsSound :
      {enable_metrics : Bool} {s s' : FlushQueue}
      → Works limit enable_metrics s s'
      → IsSound s
      → IsSound s'
  unfolding set_event end_flush
  Works-IsSound {s} (sets before task after error e free) h = record {
    flights = omega (
      arith,
      h.flights,
      length-middle s.sending before task after e,
      length-append s.leaving (task ∷ []),
    );
    within = h.within;
    busy = h.busy;
  }
  Works-IsSound {s} (ends before task after e) h =
      process_flush_queue-IsSound _
        (omega (arith, h.flights, length-middle s.leaving before task after e))
        (omega (arith, h.within))

  -- In every state that callers, workers and threads with the lock of the buffer reach, the
  -- flushes in flight are the workers there are, no more than `max_concurrent_flushes`, and just
  -- as many as that while a task waits.
  pub Reach-IsSound :
      {enable_metrics : Bool} {s : FlushQueue} {accepted : List FlushTask}
      → Reach limit enable_metrics s accepted
      → IsSound s
  unfolding enqueue_flush
  Reach-IsSound start = record {
    flights = refl;
    within = omega arith;
    busy = λ h. absurd (omega (arith, h));
  }
  Reach-IsSound (enqueues task r) =
      let h = Reach-IsSound r in process_flush_queue-IsSound _ h.flights h.within
  Reach-IsSound (works r w) = Works-IsSound w (Reach-IsSound r)
  Reach-IsSound (locks locked r) =
      let h = Reach-IsSound r in record { flights = h.flights; within = h.within; busy = h.busy }
