-- ===== src/Dlq/File/Persist.antt =====
-- `_persist_queue_to_disk`: when its recursion ends, when it never does, and what it leaves.
use mathlib.Core.List.{append_assoc}
use mathlib.Core.Path.{subst}
use logs_interceptor_python.Base.{
  ℕ, zero, suc, ◌+◌, ◌-◌, ◌/◌, ◌≤◌, ◌<◌, max, ◌≡◌, refl, sym, ◌∙◌, ap, Bool, true, none, some, List,
  [], ◌∷◌, ◌++◌, length, length-append, length-take, length-last_n, take, last_n, take-append-drop,
  drop_append_of_le, ltb, ltb→lt, ltb→ge, Bool-cases, inl, inr, arith,
}
use logs_interceptor_python.Dlq.{DlqEntry}
use logs_interceptor_python.Dlq.Codec.{Text, content, utf8_len, is_encodable, content-ended}
use logs_interceptor_python.Dlq.File.{
  Limits, FileDeadLetterQueue, Item, to_item, encode_all, halve, max_bytes, persist,
}
use logs_interceptor_python.Errors.{Result, ok}
use logs_interceptor_python.Dlq.File.Lines.{
  AllHaveLines, lines_of, encode_all-lines_of, lines_of-is_encodable, newest_fits, only_line,
  AllHaveLines-last_n,
}

last_n-snoc :
    {A : Type 0} (n : ℕ) (q : List A) (x : A)
    → n ≤ length q
    → last_n (n + 1) (q ++ x ∷ []) ≡ last_n n q ++ x ∷ []
unfolding last_n
last_n-snoc n q x h =
    ground (arith, length-append q (x ∷ []), drop_append_of_le (length q - n) q (x ∷ []))

module _ (encode : Item → Result Text) where
  module _ (limits : Limits) where
    -- What a successful save leaves: the newest of the queue, the others counted as dropped, and
    -- the file with a line for each item kept, within the size limit.
    pub record Saved (d d' : FileDeadLetterQueue) : Type 0 where
      pub older : List DlqEntry
      pub lines : List Text
      pub kept : d.queue ≡ older ++ d'.queue
      pub counted : d'.dropped_entries ≡ d.dropped_entries + length older
      pub dumped : encode_all encode d'.queue ≡ ok lines
      pub written : d'.file ≡ some (content lines)
      pub small : utf8_len (content lines) ≤ max_bytes limits

    module _ (x : DlqEntry) (l : Text) (line : encode (to_item x) ≡ ok l) where
      -- What is asked of the queue: every item can be dumped, and `x` is the newest.
      record EndsIn (q : List DlqEntry) (d : FileDeadLetterQueue) : Type 0 where
        queue : d.queue ≡ q ++ x ∷ []
        all : AllHaveLines encode (q ++ x ∷ [])

      dumps :
          (q : List DlqEntry) (d : FileDeadLetterQueue)
          → EndsIn q d
          → (lines : List Text) × (encode_all encode d.queue ≡ ok lines)
            × (utf8_len l + 1 ≤ utf8_len (content lines))
            × (q ≡ [] → utf8_len (content lines) ≡ utf8_len l + 1)
            × (is_encodable (content lines) ≡ true)
      dumps q d h =
          let lines = lines_of encode (q ++ x ∷ []) h.all in
          let (all, nonempty) = encode_all-lines_of encode (q ++ x ∷ []) h.all in
          let flat = content-ended lines nonempty in
          (
            lines,
            rw (h.queue) all,
            omega (arith, ap utf8_len flat, newest_fits encode q x h.all line),
            (λ e. ap utf8_len flat ∙ only_line encode q x h.all line e),
            ap is_encodable flat ∙ lines_of-is_encodable encode (q ++ x ∷ []) h.all,
          )

      halve-EndsIn :
          (q : List DlqEntry) (d : FileDeadLetterQueue)
          → EndsIn q d
          → EndsIn (last_n (max 1 (length d.queue / 2) - 1) q) (halve d)
      halve-EndsIn q d h =
          let half = max 1 (length d.queue / 2) in
          let size : length d.queue ≡ length q + 1 = ap length h.queue ∙ length-append q (x ∷ []) in
          let e : half ≡ half - 1 + 1 = omega arith in
          let same : last_n half d.queue ≡ last_n (half - 1) q ++ x ∷ [] =
            ap (λ k. last_n k d.queue) e
            ∙ ap (last_n (half - 1 + 1)) h.queue
            ∙ last_n-snoc (half - 1) q x (omega (arith, size)) in
          record {
            queue = same;
            all =
                subst (AllHaveLines encode) (sym (ap (last_n half) h.queue) ∙ same)
                  (AllHaveLines-last_n encode half (q ++ x ∷ []) h.all);
          }

      -- With a newest item that alone is too large, no amount of fuel is enough.
      persist_endless :
          (fuel : ℕ) (writable : Bool) (q : List DlqEntry) (d : FileDeadLetterQueue)
          → EndsIn q d
          → max_bytes limits < utf8_len l + 1
          → persist encode limits fuel writable d ≡ none
      unfolding persist
      persist_endless zero writable q d h large = refl
      persist_endless (suc fuel) writable q d h large =
          let (lines, dumped, size, _, encodable) = dumps q d h in
          let smaller = last_n (max 1 (length d.queue / 2) - 1) q in
          ground (
            arith,
            dumped,
            encodable,
            size,
            ap length h.queue,
            length-append q (x ∷ []),
            persist_endless fuel writable smaller (halve d) (halve-EndsIn q d h) large,
          )

      nonempty :
          (q : List DlqEntry) {n b : ℕ}
          → (q ≡ [] → n ≡ utf8_len l + 1)
          → utf8_len l + 1 ≤ b
          → b < n
          → 0 < length q
      nonempty [] alone fits large = absurd (omega (arith, alone refl))
      nonempty (y ∷ q) alone fits large = omega arith

      Saved-halved : (d d' : FileDeadLetterQueue) → Saved (halve d) d' → Saved d d'
      unfolding last_n
      Saved-halved d d' s =
          let n = length d.queue - max 1 (length d.queue / 2) in
          record {
            older = take n d.queue ++ s.older;
            lines = s.lines;
            kept =
                sym (take-append-drop n d.queue)
                ∙ ap (◌++◌ (take n d.queue)) s.kept
                ∙ sym (append_assoc (take n d.queue) s.older d'.queue);
            counted =
                omega
                  (arith, s.counted, length-append (take n d.queue) s.older, length-take n d.queue);
            dumped = s.dumped;
            written = s.written;
            small = s.small;
          }

      Saved-now :
          (d : FileDeadLetterQueue) (lines : List Text)
          → encode_all encode d.queue ≡ ok lines
          → utf8_len (content lines) ≤ max_bytes limits
          → Saved d (record d { file = some (content lines) })
      Saved-now d lines dumped small = record {
        older = [];
        lines = lines;
        kept = refl;
        counted = omega arith;
        dumped = dumped;
        written = refl;
        small = small;
      }

      -- With a newest item that fits, fuel for the items before it is enough.
      persist_ends :
          (fuel : ℕ) (q : List DlqEntry) (d : FileDeadLetterQueue)
          → EndsIn q d
          → utf8_len l + 1 ≤ max_bytes limits
          → length q < fuel
          → (d' : FileDeadLetterQueue) × (persist encode limits fuel true d ≡ some (ok tt, d'))
            × Saved d d'
      unfolding persist
      persist_ends zero q d h fits enough = absurd (omega arith)
      persist_ends (suc fuel) q d h fits enough =
          let (lines, dumped, size, alone, encodable) = dumps q d h in
          elim (Bool-cases (ltb (max_bytes limits) (utf8_len (content lines)))) [
            | inr small ↦ (
              record d { file = some (content lines) },
              ground (arith, dumped, encodable, small),
              Saved-now d lines dumped (ltb→ge _ _ small),
            )
            | inl large ↦
                let some_older = nonempty q alone fits (ltb→lt _ _ large) in
                let size : length d.queue ≡ length q + 1 =
                  ap length h.queue ∙ length-append q (x ∷ []) in
                let half = max 1 (length d.queue / 2) in
                let fewer : length (last_n (half - 1) q) < fuel =
                  omega (arith, length-last_n (half - 1) q, size, some_older, enough) in
                let (d', ran, saved) =
                  persist_ends fuel (last_n (half - 1) q) (halve d) (halve-EndsIn q d h) fits
                    fewer in
                (d', ground (arith, dumped, encodable, large, ran, size), Saved-halved d d' saved)
          ]

    -- If every item of the queue has a line that is not empty and has no lone surrogate, and the
    -- newest line alone fits in the file, saving a queue of `n` items ends within `n` calls of
    -- itself: it keeps the newest items, counts the others as dropped, and writes the lines of
    -- those kept, which are within the size limit.
    pub persist_saves :
        (q : List DlqEntry) (x : DlqEntry) (l : Text) (d : FileDeadLetterQueue)
        → d.queue ≡ q ++ x ∷ []
        → AllHaveLines encode (q ++ x ∷ [])
        → encode (to_item x) ≡ ok l
        → utf8_len l + 1 ≤ max_bytes limits
        → (d' : FileDeadLetterQueue) × (persist encode limits (length d.queue) true d
            ≡ some (ok tt, d'))
          × Saved d d'
    persist_saves q x l d queue all line fits =
        persist_ends x l line (length d.queue) q d (record { queue = queue; all = all }) fits
          (omega (arith, ap length queue, length-append q (x ∷ [])))

    -- If every item of the queue has a line that is not empty and has no lone surrogate, and the
    -- newest line alone is larger than the file may be, saving the queue ends after no number of
    -- calls of itself.
    pub persist_never_ends :
        (fuel : ℕ) (writable : Bool) (q : List DlqEntry) (x : DlqEntry) (l : Text)
        (d : FileDeadLetterQueue)
        → d.queue ≡ q ++ x ∷ []
        → AllHaveLines encode (q ++ x ∷ [])
        → encode (to_item x) ≡ ok l
        → max_bytes limits < utf8_len l + 1
        → persist encode limits fuel writable d ≡ none
    persist_never_ends fuel writable q x l d queue all line large =
        persist_endless x l line fuel writable q d (record { queue = queue; all = all }) large
