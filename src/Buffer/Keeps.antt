-- ===== src/Buffer/Keeps.antt =====
-- Every call of `MemoryBuffer` keeps the buffer sound.
use logs_interceptor_python.Base.{
  ℕ, ◌≤◌, ◌≡◌, ◌≢◌, sym, ◌∙◌, ap, String, false, Option, List, [], ◌∷◌, ◌++◌, length, Bool-cases,
  inl, inr, arith, ℕ_comparable, if◌then◌else◌,
}
use logs_interceptor_python.Buffer.{
  MemoryBuffer, set_flush_callback, clear, destroy, on_timer, new, start_timers, flush,
  enforce_max_size, is_over, remove_old_entries, store, add,
}
use logs_interceptor_python.Buffer.Invariant.{
  IsTracked, IsSound, Loses, Loses-trans, enforce_max_size-Loses, enforce_max_size-bounded,
  remove_old_entries-Loses,
}
use logs_interceptor_python.Config.{ResolvedBufferConfig}
use logs_interceptor_python.Domain.{LogEntryEntity}
use logs_interceptor_python.Memory.{add_entry, remove_entries}
use logs_interceptor_python.Memory.Exact.{
  Tracks, IsFreshIn, AreDistinct, new-Tracks, reset-Tracks, add_entry-Tracks,
}
use logs_interceptor_python.Memory.Splits.{Splits, lose, done, remove_entries-Tracks}

IsFreshIn-snoc :
    (a : ℕ) (e : LogEntryEntity) (es : List LogEntryEntity)
    → IsFreshIn a es
    → e.address ≢ a
    → IsFreshIn a (es ++ e ∷ [])
IsFreshIn-snoc a e [] h ne = (ne, tt)
IsFreshIn-snoc a e (x ∷ es) h ne = (h.0, IsFreshIn-snoc a e es h.1 ne)

AreDistinct-snoc :
    (e : LogEntryEntity) (es : List LogEntryEntity)
    → IsFreshIn e.address es
    → AreDistinct es
    → AreDistinct (es ++ e ∷ [])
AreDistinct-snoc e [] f d = (tt, tt)
AreDistinct-snoc e (x ∷ es) f d =
    (IsFreshIn-snoc x.address e es d.0 (λ p. f.0 (sym p)), AreDistinct-snoc e es f.1 d.1)

-- the buffer after the first two statements of `add`
abbrev pub appended : LogEntryEntity → MemoryBuffer → MemoryBuffer
appended entry b = record b {
  entries = b.entries ++ entry ∷ [];
  memory_tracker = add_entry entry b.memory_tracker;
}

pub appended-IsTracked :
    (e : LogEntryEntity) (b : MemoryBuffer)
    → IsFreshIn e.address b.entries
    → IsTracked b
    → IsTracked (appended e b)
appended-IsTracked e b f h = record {
  exact = add_entry-Tracks e b.memory_tracker b.entries f h.exact;
  distinct = AreDistinct-snoc e b.entries f h.distinct;
}

-- Everything removed at once.
emptied-Tracks :
    (b : MemoryBuffer) → IsTracked b → Tracks (remove_entries b.entries b.memory_tracker) []
emptied-Tracks b h = remove_entries-Tracks b.memory_tracker h.distinct (all_lost b.entries) h.exact
  where
    all_lost : (es : List LogEntryEntity) → Splits es [] es
    all_lost [] = done
    all_lost (e ∷ es) = lose e (all_lost es)

pub new-IsSound : (config : ResolvedBufferConfig) (now : ℕ) → IsSound config (new config now)
unfolding new
new-IsSound config now = record {
  tracked = record { exact = ground (arith, new-Tracks); distinct = ground arith };
  bounded = ground arith;
  quiet = ground arith;
}

pub set_flush_callback-IsSound :
    (config : ResolvedBufferConfig) (b : MemoryBuffer)
    → IsSound config b
    → IsSound config (set_flush_callback b)
unfolding set_flush_callback
set_flush_callback-IsSound config b h = record {
  tracked = record { exact = h.tracked.exact; distinct = h.tracked.distinct };
  bounded = h.bounded;
  quiet = ground (arith, h.quiet);
}

module _ (config : ResolvedBufferConfig) where
  -- Starting timers touches nothing else.
  pub start_timers_lem :
      (c : MemoryBuffer)
      → let d = start_timers config c in
        (d.entries ≡ c.entries)
        × (d.memory_tracker ≡ c.memory_tracker)
        × (d.dropped_entries ≡ c.dropped_entries)
        × (d.destroyed ≡ c.destroyed)
        × (d.flush_callback ≡ c.flush_callback)
        × (d.last_flush_time ≡ c.last_flush_time)
  unfolding start_timers
  start_timers_lem c = ground arith

  start_timers-IsSound :
      (c : MemoryBuffer)
      → IsTracked c
      → length c.entries ≤ config.max_size
      → c.destroyed ≡ false
      → IsSound config (start_timers config c)
  start_timers-IsSound c t bounded alive =
      let (es, tracker, _, dead, _, _) = start_timers_lem c in
      record {
        tracked = record { exact = rw (es, tracker) t.exact; distinct = rw es t.distinct };
        bounded = rw es bounded;
        quiet = rw (dead, alive) tt;
      }

  pub flush-IsSound :
      (now : ℕ) (b : MemoryBuffer) → IsSound config b → IsSound config (flush config now b).1
  unfolding flush
  flush-IsSound now b h = record {
    tracked = record {
      exact = ground (arith, emptied-Tracks b h.tracked);
      distinct = ground arith;
    };
    bounded = ground arith;
    quiet = ground (arith, h.quiet);
  }

  pub clear-IsSound : (b : MemoryBuffer) → IsSound config b → IsSound config (clear b)
  unfolding clear
  clear-IsSound b h = record {
    tracked = record { exact = emptied-Tracks b h.tracked; distinct = tt };
    bounded = omega arith;
    quiet = ground (arith, h.quiet);
  }

  pub destroy-IsSound : (b : MemoryBuffer) → IsSound config (destroy b)
  unfolding destroy
  destroy-IsSound b = record {
    tracked = record { exact = reset-Tracks _; distinct = tt };
    bounded = omega arith;
    quiet = ground arith;
  }

  pub on_timer-IsSound : (b : MemoryBuffer) → IsSound config b → IsSound config (on_timer b).0
  unfolding on_timer
  on_timer-IsSound b h = record {
    tracked = record {
      exact = ground (arith, h.tracked.exact);
      distinct = ground (arith, h.tracked.distinct);
    };
    bounded = ground (arith, h.bounded);
    quiet = ground (arith, h.quiet);
  }

  module _ (from_iso : String → Option ℕ) where
    pub store-Loses :
        (now : ℕ) (e : LogEntryEntity) (b : MemoryBuffer)
        → Loses (appended e b) (store config from_iso now e b)
    unfolding store
    store-Loses now e b =
        let c = enforce_max_size config (appended e b) in
        let first = enforce_max_size-Loses config (appended e b) in
        elim (Bool-cases (is_over config c.memory_tracker)) [
          | inl over ↦
              let d = remove_old_entries config from_iso now c in
              rw over (
                Loses-trans first (
                  Loses-trans (remove_old_entries-Loses config from_iso now c)
                    (enforce_max_size-Loses config d)))
          | inr fits ↦ rw fits first
        ]

    pub store-bounded :
        (now : ℕ) (e : LogEntryEntity) (b : MemoryBuffer)
        → length (store config from_iso now e b).entries ≤ config.max_size
    unfolding store
    store-bounded now e b =
        let c = enforce_max_size config (appended e b) in
        ground (
          arith,
          enforce_max_size-bounded config (appended e b),
          enforce_max_size-bounded config (remove_old_entries config from_iso now c),
        )

    pub add_alive :
        (now : ℕ) (e : LogEntryEntity) (b : MemoryBuffer)
        → b.destroyed ≡ false
        → add config from_iso now e b ≡ start_timers config (store config from_iso now e b)
    unfolding add
    add_alive now e b alive =
        ap (λ dead. if dead then b else start_timers config (store config from_iso now e b)) alive

    -- An entry that is a new object leaves the buffer sound.
    pub add-IsSound :
        (now : ℕ) (e : LogEntryEntity) (b : MemoryBuffer)
        → IsFreshIn e.address b.entries
        → IsSound config b
        → IsSound config (add config from_iso now e b)
    unfolding add
    add-IsSound now e b f h = elim (Bool-cases b.destroyed) [
      | inl dead ↦ simp dead h
      | inr alive ↦
          let c = store config from_iso now e b in
          let l = store-Loses now e b in
          let t = l.tracked (appended-IsTracked e b f h.tracked) in
          simp alive (start_timers-IsSound c t (store-bounded now e b) (l.destroyed ∙ alive))
    ]
