-- ===== src/Buffer/Window.antt =====
-- What one `add` of `MemoryBuffer` does to the entries: below the memory limit, above it, and
-- which timers it starts.
use logs_interceptor_python.Base.{
  ℕ, ◌+◌, ◌-◌, ◌*◌, ◌≤◌, ◌≡◌, refl, ◌∙◌, ap, String, false, not, ◌&&◌, ◌||◌, Option, List, [], ◌∷◌,
  ◌++◌, length, length-append, last_n, take, leb, ge→ltb, if◌then◌else◌, length-last_n, arith,
  ℕ_comparable,
}
use logs_interceptor_python.Buffer.{
  MemoryBuffer, at_once, after_ms, enforce_max_size, is_over, start_timers, store, add,
}
use logs_interceptor_python.Buffer.Invariant.{enforce_max_size-Loses}
use logs_interceptor_python.Buffer.Keeps.{appended, store-Loses, start_timers_lem, add_alive}
use logs_interceptor_python.Config.{ResolvedBufferConfig}
use logs_interceptor_python.Domain.{LogEntryEntity}
use logs_interceptor_python.Memory.{
  MemoryTracker, mb, estimate_size, add_entry, remove_entry, remove_entries,
}

remove_entries-le :
    (r : List LogEntryEntity) (t : MemoryTracker) → (remove_entries r t).total_size ≤ t.total_size
unfolding remove_entries
remove_entries-le [] t = omega arith
remove_entries-le (e ∷ r) t = omega (arith, remove_entries-le r (remove_entry e t), remove_entry-le)
  where
    remove_entry-le : (remove_entry e t).total_size ≤ t.total_size
    remove_entry-le = ground arith

add_entry-total :
    (e : LogEntryEntity) (t : MemoryTracker)
    → (add_entry e t).total_size ≡ t.total_size + estimate_size e
unfolding add_entry
add_entry-total e t = refl

module _ (config : ResolvedBufferConfig) (from_iso : String → Option ℕ) where
  enforce_max_size-last_n :
      (b : MemoryBuffer) → (enforce_max_size config b).entries ≡ last_n config.max_size b.entries
  unfolding enforce_max_size last_n
  enforce_max_size-last_n b = ground (arith)

  enforce_max_size-le :
      (b : MemoryBuffer)
      → (enforce_max_size config b).memory_tracker.total_size ≤ b.memory_tracker.total_size
  unfolding enforce_max_size
  enforce_max_size-le b = ground (
    arith,
    remove_entries-le (take (length b.entries - config.max_size) b.entries) b.memory_tracker,
  )

  store_below :
      (now : ℕ) (e : LogEntryEntity) (b : MemoryBuffer)
      → b.memory_tracker.total_size + estimate_size e ≤ config.max_memory_mb * mb
      → store config from_iso now e b ≡ enforce_max_size config (appended e b)
  unfolding store
  store_below now e b fits =
      let c = enforce_max_size config (appended e b) in
      let below : is_over config c.memory_tracker ≡ false =
        ge→ltb _ _
          (omega (arith, enforce_max_size-le (appended e b), add_entry-total e b.memory_tracker)) in
      rw below

  -- As long as the new entry fits in the memory limit, a live buffer holds the newest `max_size`
  -- entries after an `add`, and counts each one that left as dropped.
  pub add-window :
      (now : ℕ) (e : LogEntryEntity) (b : MemoryBuffer)
      → b.destroyed ≡ false
      → b.memory_tracker.total_size + estimate_size e ≤ config.max_memory_mb * mb
      → let c = add config from_iso now e b in
        (c.entries ≡ last_n config.max_size (b.entries ++ e ∷ []))
        × (c.dropped_entries ≡ b.dropped_entries + (length b.entries + 1 - config.max_size))
  add-window now e b alive fits =
      let c = enforce_max_size config (appended e b) in
      let (es, _, dropped, _, _, _) = start_timers_lem config c in
      let kept : c.entries ≡ last_n config.max_size (b.entries ++ e ∷ []) =
        enforce_max_size-last_n (appended e b) in
      rw (add_alive config from_iso now e b alive, store_below now e b fits)
        (
          es ∙ kept,
          omega (
            arith,
            dropped,
            (enforce_max_size-Loses config (appended e b)).conserved,
            ap length kept,
            length-last_n config.max_size (b.entries ++ e ∷ []),
            length-append b.entries (e ∷ []),
          ),
        )

  start_timers-timers :
      (b c : MemoryBuffer)
      → c.destroyed ≡ false
      → c.flush_timer ≡ b.flush_timer
      → c.flush_callback ≡ b.flush_callback
      → c.timers ≡ b.timers
      → let d = start_timers config c in
        let running = b.flush_timer || not config.auto_flush in
        let scheduled = if running then b.timers else after_ms config.flush_interval ∷ b.timers in
        (d.flush_timer ≡ b.flush_timer || config.auto_flush)
        × (d.timers ≡ (
            if config.auto_flush && b.flush_callback && leb config.max_size (length d.entries)
            then at_once ∷ scheduled
            else scheduled))
  unfolding start_timers
  start_timers-timers b c dead timer callback timers = ground arith

  -- The timers that an `add` starts on a live buffer: the flush timer if automatic flushing is on
  -- and none runs, and then, if the buffer is full and has a callback, a flush at once.
  pub add-timers :
      (now : ℕ) (e : LogEntryEntity) (b : MemoryBuffer)
      → b.destroyed ≡ false
      → let c = add config from_iso now e b in
        let running = b.flush_timer || not config.auto_flush in
        let scheduled = if running then b.timers else after_ms config.flush_interval ∷ b.timers in
        (c.flush_timer ≡ b.flush_timer || config.auto_flush)
        × (c.timers ≡ (
            if config.auto_flush && b.flush_callback && leb config.max_size (length c.entries)
            then at_once ∷ scheduled
            else scheduled))
  add-timers now e b alive =
      let l = store-Loses config from_iso now e b in
      rw (add_alive config from_iso now e b alive) (
        start_timers-timers b (store config from_iso now e b) (l.destroyed ∙ alive) l.timer
          l.callback l.timers)
