-- ===== src/Buffer/Ledger.antt =====
-- Any run of calls on a `MemoryBuffer`, beside an account of the entries that went through it.
use mathlib.Core.List.Sublist
use mathlib.Core.List.{Sublist, append_assoc, append-nil, nil-sublist}
use logs_interceptor_python.Base.{
  ℕ, ◌+◌, ◌≡◌, refl, ap, String, Bool, Option, List, [], ◌∷◌, ◌++◌, length, length-append,
  Bool-cases, inl, inr, if◌then◌else◌, arith,
}
use logs_interceptor_python.Buffer.{
  MemoryBuffer, set_flush_callback, clear, destroy, on_timer, new, flush, start_timers, store, add,
}
use logs_interceptor_python.Buffer.Invariant.{IsSound, Loses}
use logs_interceptor_python.Buffer.Keeps.{
  appended, store-Loses, start_timers_lem, new-IsSound, set_flush_callback-IsSound, add-IsSound,
  flush-IsSound, clear-IsSound, destroy-IsSound, on_timer-IsSound,
}
use logs_interceptor_python.Config.{ResolvedBufferConfig}
use logs_interceptor_python.Domain.{LogEntryEntity}
use logs_interceptor_python.Memory.Exact.{IsFreshIn}

-- The entries added while the buffer lived, those that `flush` returned, both in order, and the
-- number discarded by `clear` and `destroy`.
pub record Account : Type 0 where
  pub accepted : List LogEntryEntity
  pub flushed : List LogEntryEntity
  pub cleared : ℕ

abbrev pub opened : Account
opened = record { accepted = []; flushed = []; cleared = 0 }

abbrev pub accept : Bool → LogEntryEntity → Account → Account
accept destroyed e a = if destroyed then a else record a { accepted = a.accepted ++ e ∷ [] }

module _ (config : ResolvedBufferConfig) (from_iso : String → Option ℕ) where
  -- A new buffer and any calls after it; what is added is a new object.
  pub data Run : MemoryBuffer → Account → Type 0 where
    starts : (now : ℕ) → Run (new config now) opened
    adds :
        {b : MemoryBuffer} {a : Account} (now : ℕ) (e : LogEntryEntity)
        → Run b a
        → IsFreshIn e.address b.entries
        → Run (add config from_iso now e b) (accept b.destroyed e a)
    flushes :
        {b : MemoryBuffer} {a : Account} (now : ℕ)
        → Run b a
        → Run (flush config now b).1 (record a { flushed = a.flushed ++ (flush config now b).0 })
    clears :
        {b : MemoryBuffer} {a : Account}
        → Run b a
        → Run (clear b) (record a { cleared = a.cleared + length b.entries })
    destroys :
        {b : MemoryBuffer} {a : Account}
        → Run b a
        → Run (destroy b) (record a { cleared = a.cleared + length b.entries })
    fires : {b : MemoryBuffer} {a : Account} → Run b a → Run (on_timer b).0 a
    registers : {b : MemoryBuffer} {a : Account} → Run b a → Run (set_flush_callback b) a

  -- In every run of calls that adds new objects only, the buffer stays sound: never more entries
  -- than `max_size`, and the memory tracker exact for just the entries held.
  pub Run-IsSound : {b : MemoryBuffer} {a : Account} → Run b a → IsSound config b
  Run-IsSound (starts now) = new-IsSound config now
  Run-IsSound (adds {b} now e r f) = add-IsSound config from_iso now e b f (Run-IsSound r)
  Run-IsSound (flushes {b} now r) = flush-IsSound config now b (Run-IsSound r)
  Run-IsSound (clears {b} r) = clear-IsSound config b (Run-IsSound r)
  Run-IsSound (destroys {b} r) = destroy-IsSound config b
  Run-IsSound (fires {b} r) = on_timer-IsSound config b (Run-IsSound r)
  Run-IsSound (registers {b} r) = set_flush_callback-IsSound config b (Run-IsSound r)

  -- No entry is lost without being counted, none is duplicated or made up, and none overtakes.
  pub record Balances (b : MemoryBuffer) (a : Account) : Type 0 where
    pub conserved :
        length a.accepted ≡ length a.flushed + a.cleared + b.dropped_entries + length b.entries
    pub ordered : Sublist (a.flushed ++ b.entries) a.accepted

  Balances-same :
      (b c : MemoryBuffer) (a : Account)
      → c.entries ≡ b.entries
      → c.dropped_entries ≡ b.dropped_entries
      → Balances b a
      → Balances c a
  Balances-same b c a es dropped h = record {
    conserved = omega (arith, h.conserved, dropped, ap length es);
    ordered = rw es h.ordered;
  }

  Balances-emptied :
      (b c : MemoryBuffer) (a : Account)
      → c.entries ≡ []
      → c.dropped_entries ≡ b.dropped_entries
      → Balances b a
      → Balances c (record a { cleared = a.cleared + length b.entries })
  Balances-emptied b c a es dropped h = record {
    conserved = omega (arith, h.conserved, dropped, ap length es);
    ordered =
        rw es (
          Sublist.trans (Sublist.append (Sublist.refl a.flushed) (nil-sublist b.entries))
            h.ordered);
  }

  Balances-added :
      (now : ℕ) (e : LogEntryEntity) (b c : MemoryBuffer) (a : Account)
      → Loses (appended e b) c
      → Balances b a
      → Balances c (record a { accepted = a.accepted ++ e ∷ [] })
  Balances-added now e b c a l h = record {
    conserved = omega (
      arith,
      h.conserved,
      l.conserved,
      length-append a.accepted (e ∷ []),
      length-append b.entries (e ∷ []),
    );
    ordered =
        Sublist.trans (Sublist.append (Sublist.refl a.flushed) l.kept)
          (rw (← append_assoc) (Sublist.append h.ordered (Sublist.refl (e ∷ []))));
  }

  Balances-new : (now : ℕ) → Balances (new config now) opened
  unfolding new
  Balances-new now = record {
    conserved = ground arith;
    ordered =
        let none_yet : (new config now).entries ≡ [] = ground arith in
        rw none_yet (Sublist.refl []);
  }

  Balances-add :
      (now : ℕ) (e : LogEntryEntity) (b : MemoryBuffer) (a : Account)
      → Balances b a
      → Balances (add config from_iso now e b) (accept b.destroyed e a)
  unfolding add
  Balances-add now e b a h = elim (Bool-cases b.destroyed) [
    | inl dead ↦ simp dead h
    | inr alive ↦
        let c = store config from_iso now e b in
        let (es, _, dropped, _, _, _) = start_timers_lem config c in
        simp alive (
          Balances-same c (start_timers config c) (record a { accepted = a.accepted ++ e ∷ [] }) es
            dropped (Balances-added now e b c a (store-Loses config from_iso now e b) h))
  ]

  Balances-flush :
      (now : ℕ) (b : MemoryBuffer) (a : Account)
      → Balances b a
      → Balances (flush config now b).1 (record a { flushed = a.flushed ++ (flush config now b).0 })
  unfolding flush
  Balances-flush now b a h =
      let none_left : (flush config now b).1.entries ≡ [] = ground arith in
      record {
        conserved = omega (
          arith,
          h.conserved,
          length-append a.flushed b.entries,
          ap length none_left,
          let same : (flush config now b).1.dropped_entries ≡ b.dropped_entries = ground arith in
              same,
        );
        ordered = rw (none_left, append-nil) h.ordered;
      }

  -- In every run of calls that adds new objects only, the entries accepted are as many as those
  -- flushed, cleared, counted as dropped and still held together, and the entries flushed followed
  -- by those still held are some of the accepted ones in the order of their addition.
  pub Run-Balances : {b : MemoryBuffer} {a : Account} → Run b a → Balances b a
  unfolding clear destroy on_timer set_flush_callback
  Run-Balances (starts now) = Balances-new now
  Run-Balances (adds {b} {a} now e r f) = Balances-add now e b a (Run-Balances r)
  Run-Balances (flushes {b} {a} now r) = Balances-flush now b a (Run-Balances r)
  Run-Balances (clears {b} {a} r) = Balances-emptied b (clear b) a refl refl (Run-Balances r)
  Run-Balances (destroys {b} {a} r) = Balances-emptied b (destroy b) a refl refl (Run-Balances r)
  Run-Balances (fires {b} {a} r) =
      Balances-same b (on_timer b).0 a (ground arith) (ground arith) (Run-Balances r)
  Run-Balances (registers {b} {a} r) =
      Balances-same b (set_flush_callback b) a refl refl (Run-Balances r)
