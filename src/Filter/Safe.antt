-- ===== src/Filter/Safe.antt =====
-- `LogFilter.filter` with sanitizing on: what reaches the buffer.
use logs_interceptor_python.Base.{
  ℕ, ◌+◌, ◌<◌, ◌≤◌, ◌≡◌, refl, ap, ◌⊎◌, String, Bool, true, false, ◌&&◌, Option, none, some, List,
  [], ◌∷◌, ltb, ltb→ge, ◌==◌, ℕ_comparable, if◌then◌else◌, Bool-cases, inl, inr, arith,
}
use logs_interceptor_python.Base.Dict.{Dict}
use logs_interceptor_python.Base.Text.{len, prefix, len-append, len-prefix}
use logs_interceptor_python.Config.{ResolvedFilterConfig}
use logs_interceptor_python.Domain.{Value, null, boolean, number, str, ref, LogEntryEntity}
use logs_interceptor_python.Filter.{
  truncate, filter_message, sanitized, filter_context, rebuild, filter,
}
use logs_interceptor_python.Sanitize.{Object, dict, list, other, Heap, Pass, allocate, redacted}
use logs_interceptor_python.Sanitize.Clean.{
  IsClosedValue, AllClosed, AllClosedFields, IsClosedObject, IsClosed, AllCleanFields, IsPass,
  apart,
}
use logs_interceptor_python.Sanitize.Ends.{sanitize_data-IsClean}

IsClosedValue-more : (n : ℕ) (v : Value) → IsClosedValue n v → IsClosedValue (n + 1) v
IsClosedValue-more n (ref a) h = omega (arith, h)
IsClosedValue-more n null h = tt
IsClosedValue-more n (boolean b) h = tt
IsClosedValue-more n (number k) h = tt
IsClosedValue-more n (str s) h = tt

AllClosed-more : (n : ℕ) (vs : List Value) → AllClosed n vs → AllClosed (n + 1) vs
AllClosed-more n [] h = tt
AllClosed-more n (v ∷ vs) h = (IsClosedValue-more n v h.0, AllClosed-more n vs h.1)

AllClosedFields-more :
    (n : ℕ) (d : Dict String Value) → AllClosedFields n d → AllClosedFields (n + 1) d
AllClosedFields-more n [] h = tt
AllClosedFields-more n ((key, v) ∷ d) h = (IsClosedValue-more n v h.0, AllClosedFields-more n d h.1)

IsClosedObject-more : (n : ℕ) (o : Object) → IsClosedObject n o → IsClosedObject (n + 1) o
IsClosedObject-more n (dict d) h = AllClosedFields-more n d h
IsClosedObject-more n (list l) h = AllClosed-more n l h
IsClosedObject-more n other h = tt

-- the heap with the context in it
abbrev pub with_context : Dict String Value → Heap → Heap
with_context d h = (allocate (dict d) h).1

with_context-IsClosed :
    (d : Dict String Value) (h : Heap)
    → IsClosed h
    → AllClosedFields h.next d
    → IsClosed (with_context d h)
unfolding allocate
with_context-IsClosed d h closed fields a less = elim (Bool-cases (a == h.next)) [
  | inl e ↦ rw e (AllClosedFields-more h.next d fields)
  | inr e ↦
      rw e (
        IsClosedObject-more h.next (h.objects a) (closed a (omega (arith, less, apart a h.next e))))
]

with_context-next :
    (d : Dict String Value) (h : Heap) → (allocate (dict d) h).0 < (with_context d h).next
unfolding allocate
with_context-next d h = omega arith

mark_len : len "...[truncated]" ≡ 14
unfolding len
mark_len = refl

redacted-len : len redacted ≡ 10
unfolding len
redacted-len = refl

module _ (config : ResolvedFilterConfig) where
  truncate-len : (message : String) → len (truncate config message) ≤ config.max_message_length + 14
  unfolding truncate
  truncate-len message = elim (Bool-cases (ltb config.max_message_length (len message))) [
    | inl long ↦ rw long (
        omega (
          arith,
          len-append (prefix config.max_message_length message) "...[truncated]",
          len-prefix config.max_message_length message,
          mark_len,
        ))
    | inr short ↦ rw short (omega (arith, ltb→ge _ _ short))
  ]

  module _ (key_sensitive detect : String → Bool) where
    -- The message is passed on or the mark, and within its limit and the mark of a cut.
    abbrev pub IsSafeText : String → Type 0
    IsSafeText s = ((s ≡ redacted) ⊎ (detect s ≡ false)) × (len s ≤ config.max_message_length + 14)

    filter_message-IsSafeText :
        (message : String)
        → config.sanitize ≡ true
        → IsSafeText (filter_message config key_sensitive detect message)
    unfolding filter_message
    filter_message-IsSafeText message on =
        judged config.sanitize (detect (truncate config message)) on refl
      where
        judged :
            (a b : Bool)
            → a ≡ true
            → detect (truncate config message) ≡ b
            → IsSafeText (if a && b then redacted else truncate config message)
        judged true true on e = (inl refl, omega (arith, redacted-len))
        judged true false on e = (inr e, truncate-len message)
        judged false b on e = cc

    -- The context before, the context after, and the heap after.
    abbrev pub IsSafeContext :
        Heap → Option (Dict String Value) → Option (Dict String Value) → Heap → Type 0
    IsSafeContext h none c' h' = (c' ≡ none) × (h' ≡ h)
    IsSafeContext h (some d) c' h' =
        (d' : Dict String Value) × (p' : Pass) × (c' ≡ some d')
        × (h' ≡ p'.heap)
        × AllCleanFields key_sensitive detect (with_context d h) d'
        × IsPass key_sensitive detect (with_context d h) p'

    abbrev pub IsClosedContext : ℕ → Option (Dict String Value) → Type 0
    IsClosedContext n none = Unit {0}
    IsClosedContext n (some d) = AllClosedFields n d

    filter_context-IsSafe :
        (c : Option (Dict String Value)) (h : Heap)
        → config.sanitize ≡ true
        → IsClosed h
        → IsClosedContext h.next c
        → (c' : Option (Dict String Value)) × (h' : Heap) × (filter_context config key_sensitive
              detect c h
            ≡ some (c', h'))
          × IsSafeContext h c c' h'
    filter_context-IsSafe none h on closed fields = (none, h, refl, (refl, refl))
    filter_context-IsSafe (some d) h on closed fields =
        let (d', p', ran, clean, pass) =
          sanitize_data-IsClean key_sensitive detect (with_context d h)
            (with_context-IsClosed d h closed fields) (allocate (dict d) h).0
            (with_context-next d h) in
        (
          some d',
          p'.heap,
          rw on (ap (sanitized config key_sensitive detect) ran),
          (d', p', refl, refl, clean, pass),
        )

    -- With sanitizing on, `filter` of an entry whose context refers to objects of the heap
    -- returns: the message is the mark or holds no sensitive text, and is at most 14 characters
    -- over its limit; the context, if there is one, is clean, the objects made are clean, the old
    -- ones are as they were; and the rest of the entry is kept.
    pub filter-IsSafe :
        (address : ℕ) (entry : LogEntryEntity) (h : Heap)
        → config.sanitize ≡ true
        → IsClosed h
        → IsClosedContext h.next entry.context
        → (e' : LogEntryEntity) × (h' : Heap) × (filter config key_sensitive detect address entry h
            ≡ some (e', h'))
          × IsSafeText e'.message
          × IsSafeContext h entry.context e'.context h'
          × (record e' { address = entry.address; message = entry.message; context = entry.context }
              ≡ entry)
    unfolding filter rebuild
    filter-IsSafe address entry h on closed fields =
        let (c', h', ran, safe) = filter_context-IsSafe entry.context h on closed fields in
        (
          record entry {
            address = address;
            message = filter_message config key_sensitive detect entry.message;
            context = c';
          },
          h',
          ap (rebuild config key_sensitive detect address entry) ran,
          filter_message-IsSafeText entry.message on,
          safe,
          refl,
        )
