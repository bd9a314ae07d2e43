-- ===== src/Buffer/Invariant.antt =====
-- What holds of a `MemoryBuffer` between two calls, and how its parts keep it.
use mathlib.Core.List.Sublist
use mathlib.Core.List.{Sublist}
use logs_interceptor_python.Base.{
  ℕ, ◌+◌, ◌-◌, ◌/◌, ◌≤◌, max, ◌≡◌, refl, String, Bool, true, false, not, ◌&&◌, Option, some, List,
  [], ◌∷◌, length, is_empty, leb, Bool-cases, inl, inr, length-drop, arith, ◌∙◌, ◌==◌, ◌||◌,
  ℕ_comparable,
}
use logs_interceptor_python.Buffer.{
  MemoryBuffer, drop_oldest, enforce_max_size, is_over, to_timestamp, is_young, split_old,
  remove_aged, remove_old_entries,
}
use logs_interceptor_python.Config.{ResolvedBufferConfig}
use logs_interceptor_python.Domain.{LogEntryEntity}
use logs_interceptor_python.Memory.{remove_entries}
use logs_interceptor_python.Memory.Exact.{Tracks, AreDistinct}
use logs_interceptor_python.Memory.Splits.{
  Splits, keep, lose, done, drop-Splits, Splits-length, Splits-sublist, AreDistinct-Splits,
  remove_entries-Tracks,
}

-- The tracker is exact for the entries, which are different objects.
pub record IsTracked (b : MemoryBuffer) : Type 0 where
  pub exact : Tracks b.memory_tracker b.entries
  pub distinct : AreDistinct b.entries

-- A destroyed buffer holds nothing and has no flush timer.
abbrev pub IsQuietIf : Bool → MemoryBuffer → Type 0
IsQuietIf true b = (b.entries ≡ []) × (b.flush_timer ≡ false)
IsQuietIf false b = Unit {0}

pub record IsSound (config : ResolvedBufferConfig) (b : MemoryBuffer) : Type 0 where
  pub tracked : IsTracked b
  pub bounded : length b.entries ≤ config.max_size
  pub quiet : IsQuietIf b.destroyed b

-- What an operation does that only takes entries away: those that go are counted as dropped, the
-- others stay in order, the tracker stays exact, and nothing else of the buffer is touched.
pub record Loses (b c : MemoryBuffer) : Type 0 where
  pub kept : Sublist c.entries b.entries
  pub shorter : length c.entries ≤ length b.entries
  pub conserved : c.dropped_entries + length c.entries ≡ b.dropped_entries + length b.entries
  pub tracked : IsTracked b → IsTracked c
  pub destroyed : c.destroyed ≡ b.destroyed
  pub timer : c.flush_timer ≡ b.flush_timer
  pub callback : c.flush_callback ≡ b.flush_callback
  pub timers : c.timers ≡ b.timers

pub Loses-none : (b : MemoryBuffer) → Loses b b
Loses-none b = record {
  kept = Sublist.refl b.entries;
  shorter = omega arith;
  conserved = refl;
  tracked = λ h. h;
  destroyed = refl;
  timer = refl;
  callback = refl;
  timers = refl;
}

pub Loses-trans : {b c d : MemoryBuffer} → Loses b c → Loses c d → Loses b d
Loses-trans k l = record {
  kept = Sublist.trans l.kept k.kept;
  shorter = omega (arith, k.shorter, l.shorter);
  conserved = l.conserved ∙ k.conserved;
  tracked = λ h. l.tracked (k.tracked h);
  destroyed = l.destroyed ∙ k.destroyed;
  timer = l.timer ∙ k.timer;
  callback = l.callback ∙ k.callback;
  timers = l.timers ∙ k.timers;
}

-- The entries of `r` leave, and those of `k` stay.
abbrev pub without : MemoryBuffer → List LogEntryEntity → List LogEntryEntity → MemoryBuffer
without b k r = record b {
  entries = k;
  memory_tracker = remove_entries r b.memory_tracker;
  dropped_entries = b.dropped_entries + length r;
}

pub Splits-Loses :
    (b : MemoryBuffer) {k r : List LogEntryEntity} → Splits b.entries k r → Loses b (without b k r)
Splits-Loses b s = record {
  kept = Splits-sublist s;
  shorter = omega (arith, Splits-length s);
  conserved = omega (arith, Splits-length s);
  tracked = λ h. record {
    exact = remove_entries-Tracks b.memory_tracker h.distinct s h.exact;
    distinct = AreDistinct-Splits s h.distinct;
  };
  destroyed = refl;
  timer = refl;
  callback = refl;
  timers = refl;
}

pub drop_oldest-Loses : (n : ℕ) (b : MemoryBuffer) → Loses b (drop_oldest n b)
unfolding drop_oldest
drop_oldest-Loses n b = elim (Bool-cases (n == 0 || is_empty b.entries)) [
  | inl nothing ↦ rw nothing (Loses-none b)
  | inr some_go ↦ rw some_go (Splits-Loses b (drop-Splits n b.entries))
]

module _ (config : ResolvedBufferConfig) where
  pub enforce_max_size-Loses : (b : MemoryBuffer) → Loses b (enforce_max_size config b)
  unfolding enforce_max_size
  enforce_max_size-Loses b = elim (Bool-cases (leb (length b.entries) config.max_size)) [
    | inl fits ↦ rw fits (Loses-none b)
    | inr over ↦ rw over (drop_oldest-Loses (length b.entries - config.max_size) b)
  ]

  -- The size limit is met, whatever the buffer held.
  pub enforce_max_size-bounded :
      (b : MemoryBuffer) → length (enforce_max_size config b).entries ≤ config.max_size
  unfolding enforce_max_size
  enforce_max_size-bounded b =
      ground (arith, length-drop (length b.entries - config.max_size) b.entries)

  module _ (from_iso : String → Option ℕ) (now : ℕ) where
    pub split_old-Splits :
        (es : List LogEntryEntity)
        → Splits es (split_old config from_iso now es).0 (split_old config from_iso now es).1
    unfolding split_old
    split_old-Splits [] = done
    split_old-Splits (e ∷ es) =
        elim (Bool-cases (is_young config now (to_timestamp from_iso (some e.timestamp)))) [
          | inl young ↦ rw young (keep e (split_old-Splits es))
          | inr old ↦ rw old (lose e (split_old-Splits es))
        ]

    -- With nobody to remove, the branch that removes changes nothing either.
    pub remove_aged-without :
        (b : MemoryBuffer) {k r : List LogEntryEntity}
        → split_old config from_iso now b.entries ≡ (k, r)
        → remove_aged config from_iso now b ≡ without b k r
    unfolding remove_aged remove_entries
    remove_aged-without b {k} {r} e = ground arith

    pub remove_aged-Loses : (b : MemoryBuffer) → Loses b (remove_aged config from_iso now b)
    remove_aged-Loses b =
        rw (remove_aged-without b refl) (Splits-Loses b (split_old-Splits b.entries))

    pub remove_old_entries-Loses :
        (b : MemoryBuffer) → Loses b (remove_old_entries config from_iso now b)
    unfolding remove_old_entries
    remove_old_entries-Loses b =
        let c = remove_aged config from_iso now b in
        elim (Bool-cases (is_over config c.memory_tracker && not (is_empty c.entries))) [
          | inl over ↦ rw over (
              Loses-trans (remove_aged-Loses b)
                (drop_oldest-Loses (max 1 (length c.entries / 10)) c))
          | inr fits ↦ rw fits (remove_aged-Loses b)
        ]
