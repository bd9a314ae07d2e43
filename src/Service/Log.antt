-- ===== src/Service/Log.antt =====
-- What a call of `log` stores and counts.
use mathlib.Core.Path.{subst}
use logs_interceptor_python.Base.{
  ℕ, ◌+◌, ◌≡◌, refl, sym, ◌∙◌, ap, String, Bool, true, false, Option, some, String_comparable,
  if◌then◌else◌, arith,
}
use logs_interceptor_python.Base.Dict.{Dict}
use logs_interceptor_python.Buffer.{add}
use logs_interceptor_python.Config.{ResolvedBufferConfig, ResolvedFilterConfig}
use logs_interceptor_python.Domain.{LogLevel, Value, LogEntryEntity}
use logs_interceptor_python.Filter.{is_level_enabled, should_process}
use logs_interceptor_python.Filter.Safe.{IsSafeText, IsSafeContext, IsClosedContext, filter-IsSafe}
use logs_interceptor_python.Sanitize.{Heap}
use logs_interceptor_python.Sanitize.Clean.{IsClosed}
use logs_interceptor_python.Service.{
  ServiceConfig, Reading, LogService, create_log_entry, update_metrics, store_entry, store_filtered,
  log,
}

choose :
    {A : Type 0} (x y z v : A) (a b c : Bool)
    → a ≡ false
    → b ≡ true
    → c ≡ true
    → (if a then x else if b then (if c then y else z) else v) ≡ y
choose x y z v false true true ha hb hc = refl
choose x y z v true b c ha hb hc = cc
choose x y z v false false c ha hb hc = cc
choose x y z v false true false ha hb hc = cc

module _ (config : ServiceConfig) where
  -- What `_update_metrics` leaves alone.
  pub record SameLogs (s s' : LogService) : Type 0 where
    pub buffer : s'.buffer ≡ s.buffer
    pub heap : s'.heap ≡ s.heap
    pub sequence : s'.log_sequence ≡ s.log_sequence
    pub processed : s'.metrics.logs_processed ≡ s.metrics.logs_processed
    pub dropped : s'.metrics.logs_dropped ≡ s.metrics.logs_dropped

  update_metrics-SameLogs :
      (force : Bool) (r : Reading) (s : LogService) → SameLogs s (update_metrics config force r s)
  unfolding update_metrics
  update_metrics-SameLogs force r s = record {
    buffer = ground arith;
    heap = ground arith;
    sequence = ground arith;
    processed = ground arith;
    dropped = ground arith;
  }

  module _ (filter_config : ResolvedFilterConfig) (buffer_config : ResolvedBufferConfig)
      (search : String → String → Bool) (key_sensitive detect : String → Bool)
      (from_iso : String → Option ℕ)
      (context_differs : LogEntryEntity × Heap → LogEntryEntity × Heap → Bool) where
    -- The entry `e` was filtered to `e'` and stored.
    pub record Stored (r : Reading) (e : LogEntryEntity) (s s' : LogService) : Type 0 where
      pub filtered : LogEntryEntity
      pub message : IsSafeText filter_config key_sensitive detect filtered.message
      pub context :
          IsSafeContext filter_config key_sensitive detect s.heap e.context filtered.context s'.heap
      pub others :
          record filtered { address = e.address; message = e.message; context = e.context } ≡ e
      pub buffer : s'.buffer ≡ add buffer_config from_iso r.now filtered s.buffer
      pub sequence : s'.log_sequence ≡ s.log_sequence + 1
      pub processed : s'.metrics.logs_processed ≡ s.metrics.logs_processed + 1
      pub dropped : s'.metrics.logs_dropped ≡ s.metrics.logs_dropped

    store_entry_lem :
        (r : Reading) (e f : LogEntryEntity) (h : Heap) (s : LogService)
        → let s' =
            store_entry config filter_config buffer_config search key_sensitive detect from_iso
              context_differs r e
              (f, h)
              s in
          (s'.buffer ≡ add buffer_config from_iso r.now f s.buffer)
          × (s'.heap ≡ h)
          × (s'.log_sequence ≡ s.log_sequence)
          × (s'.metrics.logs_processed ≡ s.metrics.logs_processed + 1)
          × (s'.metrics.logs_dropped ≡ s.metrics.logs_dropped)
    unfolding store_entry
    store_entry_lem r e f h s =
        let same = update_metrics-SameLogs false r _ in
        (same.buffer, same.heap, same.sequence, same.processed, same.dropped)

    -- A call of `log` on a live service, with sanitizing on, a level that is enabled, an entry
    -- that is to be processed and a context whose references lead into the heap, returns: a
    -- filtered entry is added to the buffer, whose message is the mark or not sensitive, at most
    -- 14 characters over its limit, and whose context is clean, while its other fields are those
    -- of the entry made; one more log is counted as processed and none as dropped, and the
    -- sequence goes on by one.
    pub log-Stored :
        {W : Type 0} (random : W → ℕ × W) (level : LogLevel) (message : String)
        (context : Option (Dict String Value)) (r : Reading) (s : LogService) (w : W)
        → filter_config.sanitize ≡ true
        → IsClosed s.heap
        → let e = create_log_entry config level message context r s in
          let (processed, w') = should_process filter_config search random e w in
          IsClosedContext filter_config key_sensitive detect s.heap.next e.context
          → s.destroyed ≡ false
          → is_level_enabled filter_config level ≡ true
          → processed ≡ true
          → (s' : LogService) × (log config filter_config buffer_config search key_sensitive detect
                from_iso context_differs random level message context r s w
              ≡ some (s', w'))
            × Stored r e s s'
    unfolding log
    log-Stored random level message context r s w on closed fields live enabled processed =
        let e = create_log_entry config level message context r s in
        let (f, h, ran, safe, safe_context, others) =
          filter-IsSafe filter_config key_sensitive detect r.filtered_address e s.heap on closed
            fields in
        let s1 = record s { log_sequence = s.log_sequence + 1 } in
        let s' =
          store_entry config filter_config buffer_config search key_sensitive detect from_iso
            context_differs r e (f, h) s1 in
        let (buffer, heap, sequence, counted, kept) = store_entry_lem r e f h s1 in
        let w' = (should_process filter_config search random e w).1 in
        (
          s',
          choose _ _ _ _ _ _ _ live enabled processed
              ∙ (ap
                  (λ o.
                    store_filtered config filter_config buffer_config search key_sensitive detect
                      from_iso context_differs r e o s1 w')
                  ran),
          record {
            filtered = f;
            message = safe;
            context =
                subst (IsSafeContext filter_config key_sensitive detect s.heap e.context f.context)
                  (sym heap) safe_context;
            others = others;
            buffer = buffer;
            sequence = sequence;
            processed = counted;
            dropped = kept;
          },
        )
