-- ===== src/Integrations/Names.antt =====
-- The levels that the integrations make of names and numbers.
use logs_interceptor_python.Base.{
  ◌≡◌, refl, String, true, ◌||◌, ◌==◌, String_comparable, if◌then◌else◌, Bool-cases, inl, inr,
}
use logs_interceptor_python.Base.Text.{contains, lower_text}
use logs_interceptor_python.Integrations.Handlers.{known_or_info, loguru_level, structlog_level}
use logs_interceptor_python.Levels.{valid_log_levels, is_valid}

equal_texts : (s t : String) → (s == t) ≡ true → s ≡ t
equal_texts s t = (String_comparable.equals_iff s t).0

is_valid-known_or_info : (level : String) → is_valid (known_or_info level) ≡ true
unfolding is_valid
is_valid-known_or_info level = elim (Bool-cases (contains level valid_log_levels)) [
  | inl known ↦ rw known known
  | inr unknown ↦ rw unknown refl
]

-- The level of `loguru` for a lowered name, and the one of `structlog` for two of them.
module _ (l : String) where
  abbrev translated : String
  translated = if l == "warning" then "warn" else l

  known_or_info-translated :
      known_or_info (if translated == "critical" then "fatal" else translated)
      ≡ (if l == "warning" then "warn" else if l == "critical" then "fatal" else known_or_info l)
  unfolding contains
  known_or_info-translated = elim (Bool-cases (l == "warning")) [
    | inl named ↦ rw named refl
    | inr unequal ↦ rw unequal (elim (Bool-cases (l == "critical")) [
      | inl named ↦ rw named refl
      | inr other ↦ rw other refl
    ])
  ]

  untranslated : (if l == "warning" || l == "critical" then known_or_info l else "info") ≡ "info"
  unfolding contains
  untranslated = elim (Bool-cases (l == "warning")) [
    | inl named ↦ rw (equal_texts l "warning" named) refl
    | inr unequal ↦ rw unequal (elim (Bool-cases (l == "critical")) [
      | inl named ↦ rw (equal_texts l "critical" named) refl
      | inr other ↦ rw other refl
    ])
  ]

-- For every name the levels that `LoguruSink` and `StructlogProcessor` log at are valid, and they
-- are the same but for a name that is "warning" or "critical" in lower case, for which the one
-- logs at "warn" or "fatal" and the other at "info".
pub loguru_level-structlog_level :
    (name : String)
    → let l = lower_text name in
      (loguru_level name ≡ (
        if l == "warning"
        then "warn"
        else if l == "critical"
        then "fatal"
        else structlog_level name))
      × ((if l == "warning" || l == "critical" then structlog_level name else "info") ≡ "info")
      × (is_valid (loguru_level name) ≡ true)
      × (is_valid (structlog_level name) ≡ true)
unfolding loguru_level structlog_level
loguru_level-structlog_level name = (
  known_or_info-translated (lower_text name),
  untranslated (lower_text name),
  is_valid-known_or_info (
      if translated (lower_text name) == "critical" then "fatal" else translated (lower_text name)),
  is_valid-known_or_info (lower_text name),
)
