-- ===== src/Interceptor/Restore.antt =====
-- Enabling an interceptor and restoring what it changed.
use logs_interceptor_python.Base.{
  ℕ, ◌≡◌, refl, ap, Bool, true, false, List, [], ◌∷◌, ◌++◌, arith, Bool-cases, inl, inr,
  ℕ_comparable, equal_numbers_iff,
}
use logs_interceptor_python.Interceptor.{
  Handler, Process, RuntimeInterceptor, new, is_bridge, bridge, has_bridge, add_handler,
  remove_handler, lowered_level, enable, restore,
}

-- The two processes differ in the level of the root logger at most.
pub record SameHooks (p q : Process) : Type 0 where
  pub print : p.print ≡ q.print
  pub excepthook : p.excepthook ≡ q.excepthook
  pub handlers : p.handlers ≡ q.handlers

remove_last :
    (id : ℕ) (hs : List Handler)
    → has_bridge id hs ≡ false
    → remove_handler id (hs ++ bridge id ∷ []) ≡ hs
unfolding has_bridge remove_handler
remove_last id [] h = rw ((equal_numbers_iff id id).1 refl)
remove_last id (x ∷ hs) h = elim (Bool-cases (is_bridge id x)) [
  | inl e ↦ cc
  | inr e ↦ rw e (ap (◌∷◌ x) (remove_last id hs (ground arith)))
]

-- A new interceptor of a process that does not hold its handler, enabled and then restored, leaves
-- the `print`, the `excepthook` and the handlers as they were, whether it preserves the original
-- ones or not, and the level of the root logger lowered.
pub enable-restores :
    (id : ℕ) (preserve_original : Bool) (p : Process)
    → has_bridge id p.handlers ≡ false
    → let (i, q) = enable (new id preserve_original p) p in
      SameHooks (restore i q).1 p × ((restore i q).1.level ≡ lowered_level p.level)
unfolding enable restore new add_handler
enable-restores id true p h = (
  record { print = refl; excepthook = refl; handlers = rw h (remove_last id p.handlers h) },
  refl,
)
enable-restores id false p h = (record { print = refl; excepthook = refl; handlers = refl }, refl)

pub restore_twice :
    (i : RuntimeInterceptor) (p : Process) → restore (restore i p).0 (restore i p).1 ≡ restore i p
unfolding restore
restore_twice i p = ground arith
