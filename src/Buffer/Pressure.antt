-- ===== src/Buffer/Pressure.antt =====
-- `MemoryBuffer` above its memory limit: an `add` always makes room.
use logs_interceptor_python.Base.{
  ℕ, ◌+◌, ◌/◌, ◌<◌, max, ◌≡◌, refl, ap, String, true, false, not, ◌&&◌, Option, List, [], ◌∷◌,
  length, is_empty, ℕ_comparable, if◌then◌else◌, length-drop, arith, tests,
}
use logs_interceptor_python.Buffer.{
  MemoryBuffer, drop_oldest, enforce_max_size, is_over, split_old, remove_old_entries, store, add,
}
use logs_interceptor_python.Buffer.Invariant.{
  IsTracked, IsSound, without, enforce_max_size-Loses, drop_oldest-Loses, split_old-Splits,
  remove_aged-without,
}
use logs_interceptor_python.Buffer.Keeps.{appended, appended-IsTracked, start_timers_lem, add_alive}
use logs_interceptor_python.Config.{ResolvedBufferConfig}
use logs_interceptor_python.Domain.{LogEntryEntity}
use logs_interceptor_python.Memory.{MemoryTracker, remove_entries}
use logs_interceptor_python.Memory.Exact.{IsFreshIn, Tracks}
use logs_interceptor_python.Memory.Splits.{Splits-length}

-- Dropping some of the oldest of a buffer that holds any makes it shorter.
drop_oldest_shrinks :
    (n : ℕ) (b : MemoryBuffer)
    → 0 < n
    → 0 < length b.entries
    → length (drop_oldest n b).entries < length b.entries
unfolding drop_oldest
drop_oldest_shrinks n b some_n held = ground (arith, length-drop n b.entries)

module _ (config : ResolvedBufferConfig) (from_iso : String → Option ℕ) (now : ℕ) where
  trim : MemoryBuffer → MemoryBuffer
  trim c =
      if is_over config c.memory_tracker && not (is_empty c.entries)
      then drop_oldest (max 1 (length c.entries / 10)) c
      else c

  shrinks_by :
      (c : MemoryBuffer) (k r : List LogEntryEntity)
      → length k + length r ≡ length c.entries
      → is_over config c.memory_tracker ≡ true
      → 0 < length c.entries
      → length (trim (without c k r)).entries < length c.entries
  unfolding trim remove_entries
  shrinks_by c k [] sum over held =
      ground (arith, drop_oldest_shrinks (max 1 (length k / 10)) (without c k []))
  shrinks_by c k (x ∷ r) sum over held =
      ground (arith, (drop_oldest-Loses (max 1 (length k / 10)) (without c k (x ∷ r))).shorter)

  remove_old_entries_shrinks :
      (c : MemoryBuffer)
      → is_over config c.memory_tracker ≡ true
      → 0 < length c.entries
      → length (remove_old_entries config from_iso now c).entries < length c.entries
  unfolding remove_old_entries trim
  remove_old_entries_shrinks c over held =
      let (k, r) = split_old config from_iso now c.entries in
      rw (remove_aged-without config from_iso now c {k = k} {r = r} refl) (
        shrinks_by c k r (Splits-length (split_old-Splits config from_iso now c.entries)) over held)

  -- A tracked buffer that is over its limit holds an entry.
  over-held :
      (c : MemoryBuffer)
      → IsTracked c
      → is_over config c.memory_tracker ≡ true
      → 0 < length c.entries
  over-held c h over = held_of c.entries c.memory_tracker h.exact over
    where
      held_of :
          (es : List LogEntryEntity) (t : MemoryTracker)
          → Tracks t es
          → is_over config t ≡ true
          → 0 < length es
      held_of [] t h over = absurd (omega (tests, h.total, over))
      held_of (e ∷ es) t h over = omega arith

  -- If the entries still take more than the memory limit once the size limit is enforced, an `add`
  -- of a new object to a live, sound buffer ends with fewer entries than that.
  pub add-makes_room :
      (e : LogEntryEntity) (b : MemoryBuffer)
      → b.destroyed ≡ false
      → IsFreshIn e.address b.entries
      → IsSound config b
      → let c = enforce_max_size config (appended e b) in
        is_over config c.memory_tracker ≡ true
        → length (add config from_iso now e b).entries < length c.entries
  unfolding store
  add-makes_room e b alive fresh h over =
      let c = enforce_max_size config (appended e b) in
      let t =
        (enforce_max_size-Loses config (appended e b)).tracked
          (appended-IsTracked e b fresh h.tracked) in
      let d = remove_old_entries config from_iso now c in
      let less = remove_old_entries_shrinks c over (over-held c t over) in
      let (es, _, _, _, _, _) = start_timers_lem config (enforce_max_size config d) in
      rw (add_alive config from_iso now e b alive, over)
        (omega (arith, ap length es, (enforce_max_size-Loses config d).shorter, less))
