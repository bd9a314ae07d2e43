-- ===== src/TimerFlush/Deadlock.antt =====
-- What becomes of a flush by the timer.
use mathlib.Core.Path.{subst}
use logs_interceptor_python.Base.{
  ℕ, ◌<◌, ◌≡◌, refl, sym, String, Bool, true, false, ◌&&◌, Option, length, arith,
}
use logs_interceptor_python.Buffer.{MemoryBuffer, on_timer}
use logs_interceptor_python.Config.{ResolvedBufferConfig}
use logs_interceptor_python.TimerFlush.{
  in_callback, waiting, idling, over, unborn, sending, measuring, signalling, leaving, gone,
  Threads, at_deadline, fire, call_back, sent, Step, fires, calls_back, succeeds, fails, measures,
  signals, leaves, wakes, unlocks, adds, Steps, stay, step,
}

module _ (config : ResolvedBufferConfig) (from_iso : String → Option ℕ) where
  -- The timer's thread waits for the event with the lock held, the worker for the lock.
  pub record IsDeadlocked (s : Threads) : Type 0 where
    pub timer : s.timer ≡ waiting
    pub worker : s.worker ≡ measuring
    pub locked : s.locked ≡ true
    pub event : s.event ≡ false

  no-Step :
      (enable_metrics : Bool) {s s' : Threads}
      → IsDeadlocked s
      → ¬ Step enable_metrics config from_iso s s'
  no-Step m h (fires a b) = cc (a, h.timer)
  no-Step m h (calls_back now a) = cc (a, h.timer)
  no-Step m h (succeeds a) = cc (a, h.worker)
  no-Step m h (fails a) = cc (a, h.worker)
  no-Step m h (measures a b) = cc (b, h.locked)
  no-Step m h (signals a) = cc (a, h.worker)
  no-Step m h (leaves a) = cc (a, h.worker)
  no-Step m h (wakes a b) = cc (b, h.event)
  no-Step m h (unlocks a b) = cc (a, h.timer)
  no-Step m h (adds now entry a) = cc (a, h.locked)

  fire_lem :
      (b : MemoryBuffer)
      → b.destroyed ≡ false
      → b.flush_callback ≡ true
      → 0 < length b.entries
      → ((fire (at_deadline b)).timer ≡ in_callback) × ((fire (at_deadline b)).locked ≡ true)
  unfolding fire on_timer
  fire_lem b dead callback some_entry = ground arith

  fire-rest :
      (b : MemoryBuffer)
      → ((fire (at_deadline b)).worker ≡ unborn) × ((fire (at_deadline b)).event ≡ false)
  unfolding fire
  fire-rest b = (refl, refl)

  -- With metrics enabled, the timer of a live buffer that holds entries and has a callback can
  -- reach, by a successful send, a state in which the timer's thread waits for the event with the
  -- buffer's lock held and the worker for that lock, and no thread has a step from there, `add`
  -- included.
  pub timer_flush-deadlocks :
      (now : ℕ) (b : MemoryBuffer)
      → b.destroyed ≡ false
      → b.flush_callback ≡ true
      → 0 < length b.entries
      → (s : Threads) × Steps true config from_iso (at_deadline b) s
        × IsDeadlocked s
        × ((s' : Threads) → ¬ Step true config from_iso s s')
  unfolding sent call_back
  timer_flush-deadlocks now b dead callback some_entry =
      let (calls, locks) = fire_lem b dead callback some_entry in
      let s1 = fire (at_deadline b) in
      let s2 = call_back true config from_iso now s1 in
      let stuck : IsDeadlocked (sent true config from_iso s2) = record {
        timer = refl;
        worker = refl;
        locked = locks;
        event = (fire-rest b).1;
      } in
      (
        sent true config from_iso s2,
        step (fires refl refl) (step (calls_back now calls) (step (succeeds refl) stay)),
        stuck,
        λ s'. no-Step true stuck,
      )

  -- Steps from the event on, with the lock still held.
  finishes :
      (m : Bool) (s : Threads)
      → s.timer ≡ waiting
      → s.worker ≡ signalling
      → (s' : Threads) × Steps m config from_iso s s' × (s'.timer ≡ over) × (s'.locked ≡ false)
  finishes m s timer worker =
      let s1 = record s { worker = leaving; event = true } in
      let s2 = record s1 { worker = gone } in
      let s3 = record s2 { timer = idling } in
      (
        record s3 { timer = over; locked = false },
        step (signals worker)
            (step (leaves refl) (step (wakes timer refl) (step (unlocks refl refl) stay))),
        refl,
        refl,
      )

  -- The state once the send has ended, well or not.
  abbrev pub send_ended : Bool → Bool → Threads → Threads
  send_ended m true s = sent m config from_iso s
  send_ended m false s = record s { worker = signalling }

  ended :
      (m good : Bool) (s : Threads)
      → m && good ≡ false
      → send_ended m good s ≡ record s { worker = signalling }
  unfolding sent
  ended m false s h = refl
  ended false true s h = refl
  ended true true s h = cc

  after_send :
      (m good : Bool) {s s' : Threads}
      → s.worker ≡ sending
      → Steps m config from_iso (send_ended m good s) s'
      → Steps m config from_iso s s'
  after_send m true w more = step (succeeds w) more
  after_send m false w more = step (fails w) more

  -- If metrics are disabled or the send fails, the timer of a live buffer that holds entries and
  -- has a callback reaches the end of the send, and from there the threads have a run in which the
  -- timer's thread returns and the lock is free.
  pub timer_flush-ends :
      (m good : Bool) (now : ℕ) (b : MemoryBuffer)
      → b.destroyed ≡ false
      → b.flush_callback ≡ true
      → 0 < length b.entries
      → m && good ≡ false
      → let s = call_back m config from_iso now (fire (at_deadline b)) in
        (s' : Threads) × Steps m config from_iso (at_deadline b) (send_ended m good s)
        × Steps m config from_iso (send_ended m good s) s'
        × (s'.timer ≡ over)
        × (s'.locked ≡ false)
  unfolding call_back
  timer_flush-ends m good now b dead callback some_entry h =
      let (calls, _) = fire_lem b dead callback some_entry in
      let s = call_back m config from_iso now (fire (at_deadline b)) in
      let (s', runs, past, free) = finishes m (record s { worker = signalling }) refl refl in
      (
        s',
        step (fires refl refl) (step (calls_back now calls) (after_send m good refl stay)),
        subst (λ u. Steps m config from_iso u s') (sym (ended m good s h)) runs,
        past,
        free,
      )
