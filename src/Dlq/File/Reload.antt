-- ===== src/Dlq/File/Reload.antt =====
-- `_persist_queue_to_disk` and `load_from_disk`: what the next process finds in the queue.
use mathlib.Core.Path.{subst}
use logs_interceptor_python.Base.{
  ℕ, suc, ◌+◌, ◌≤◌, ◌≡◌, ◌≢◌, ◌==◌, ℕ_comparable, refl, sym, ◌∙◌, ap, true, false, Option, none,
  some, List, [], ◌∷◌, ◌++◌, map, String, length, length-append, last_n_of_length-le, ge→ltb,
  Bool-cases, inl, inr, arith,
}
use logs_interceptor_python.Base.Dict.{Dict}
use logs_interceptor_python.Base.Text.{is_blank}
use logs_interceptor_python.Dlq.{DlqEntry}
use logs_interceptor_python.Domain.{if_text, if_dict, to_dict}
use logs_interceptor_python.Errors.{Result, ok}
use logs_interceptor_python.Dlq.Codec.{
  is_encodable, Text, content, utf8_len, ended, AllNonempty, content-ended, AllHaveNoBoundary,
  HasNoBoundary, split_lines-ended,
}
use logs_interceptor_python.Dlq.File.{
  Limits, FileDeadLetterQueue, Item, to_item, from_item, encode_all, max_bytes, persist,
  is_blank_line, parse_line, new, load_lines, newest, load_from_disk,
}
use logs_interceptor_python.Dlq.File.Lines.{AllHaveLines}
use logs_interceptor_python.Dlq.File.Persist.{persist_saves}

if_text_twice : (t : Option String) → if_text (if_text t) ≡ if_text t
if_text_twice none = refl
if_text_twice (some s) = elim (Bool-cases (is_blank s)) [
  | inl e ↦ rw (e, is_blank) refl
  | inr e ↦ rw (e, is_blank) (rw (e, is_blank) refl)
]

if_dict_twice : {V : Type 0} (d : Option (Dict String V)) → if_dict (if_dict d) ≡ if_dict d
if_dict_twice none = refl
if_dict_twice (some []) = refl
if_dict_twice (some (x ∷ d)) = refl

-- An item read back gives the item written.
to_item-from_item : (next : ℕ) (x : DlqEntry) → to_item (from_item next (to_item x)) ≡ to_item x
unfolding to_item to_dict
to_item-from_item next x =
    rw
      (
        if_text_twice x.entry.trace_id,
        if_text_twice x.entry.span_id,
        if_text_twice x.entry.request_id,
        if_dict_twice x.entry.labels,
        if_dict_twice x.entry.metadata,
      )
      refl

ok_inj : {A : Type 0} {x y : A} → ok x ≡ ok y → x ≡ y
ok_inj e = cc

length-items : (xs : List DlqEntry) → length (map to_item xs) ≡ length xs
length-items [] = refl
length-items (x ∷ xs) = ap suc (length-items xs)

module _ (encode : Item → Result Text) (decode : Text → Option Item) (limits : Limits) where
  -- The item's line, which `decode` reads back and `load_from_disk` does not skip.
  pub record Reads (x : DlqEntry) : Type 0 where
    pub line : Text
    pub encoded : encode (to_item x) ≡ ok line
    pub decoded : decode line ≡ some (to_item x)
    pub plain : is_encodable line ≡ true
    pub visible : is_blank_line line ≡ false
    pub single : HasNoBoundary line
    pub retries : x.retry_count ≤ limits.max_retries

  abbrev pub AllRead : List DlqEntry → Type 0
  AllRead [] = Unit {0}
  AllRead (x ∷ xs) = Reads x × AllRead xs

  not_nil : (l : Text) → is_blank_line l ≡ false → l ≢ []
  unfolding is_blank_line
  not_nil [] h e = cc
  not_nil (c ∷ l) h e = cc

  AllRead-AllHaveLines : (xs : List DlqEntry) → AllRead xs → AllHaveLines encode xs
  AllRead-AllHaveLines [] h = tt
  AllRead-AllHaveLines (x ∷ xs) h = (
    (h.0.line, h.0.encoded, not_nil h.0.line h.0.visible, h.0.plain),
    AllRead-AllHaveLines xs h.1,
  )

  AllRead-tail : (older : List DlqEntry) (xs : List DlqEntry) → AllRead (older ++ xs) → AllRead xs
  AllRead-tail [] xs h = h
  AllRead-tail (x ∷ older) xs h = AllRead-tail older xs h.1

  parse_line-line :
      (x : DlqEntry) (h : Reads x) → parse_line decode limits h.line ≡ some (to_item x)
  unfolding parse_line to_item
  parse_line-line x h = rw (h.visible, h.decoded, is_blank_line, ge→ltb _ _ h.retries) refl

  -- What `AllRead` says of the lines.
  record Lines (xs : List DlqEntry) : Type 0 where
    lines : List Text
    encoded : encode_all encode xs ≡ ok lines
    nonempty : AllNonempty lines
    single : AllHaveNoBoundary lines
    loaded : (next : ℕ) → map to_item (load_lines decode limits next lines) ≡ map to_item xs

  lines_lem : (xs : List DlqEntry) → AllRead xs → Lines xs
  unfolding encode_all load_lines
  lines_lem [] h = record {
    lines = [];
    encoded = refl;
    nonempty = tt;
    single = tt;
    loaded = λ next. refl;
  }
  lines_lem (x ∷ xs) h =
      let r = lines_lem xs h.1 in
      record {
        lines = h.0.line ∷ r.lines;
        encoded = ground (arith, h.0.encoded, r.encoded);
        nonempty = (not_nil h.0.line h.0.visible, r.nonempty);
        single = (h.0.single, r.single);
        loaded = λ next. ground (
          arith,
          parse_line-line x h.0,
          ap (◌∷◌ (to_item (from_item next (to_item x)))) (r.loaded (next + 1)),
          ap (λ i. i ∷ map to_item xs) (to_item-from_item next x),
        );
      }

  newest_of_fits :
      (loaded xs : List DlqEntry)
      → map to_item loaded ≡ map to_item xs
      → length xs ≤ limits.max_size
      → newest decode limits loaded ≡ loaded
  newest_of_fits loaded xs same fits =
      let n : length loaded ≡ length xs =
        sym (length-items loaded) ∙ ap length same ∙ length-items xs in
      elim (Bool-cases (limits.max_size == 0)) [
        | inl e ↦ rw e refl
        | inr e ↦ rw e (last_n_of_length-le limits.max_size loaded (omega (arith, n, fits)))
      ]

  -- If the newest line fits in the file, the queue is within its size and each of its items has a
  -- line that is not blank, has no line boundary and no lone surrogate inside, reads back as the
  -- item and is not skipped for its retries, then saving the queue succeeds, keeps the newest of
  -- its items, and a queue opened on the file holds those items again.
  pub persist-restores :
      (next : ℕ) (q : List DlqEntry) (x : DlqEntry) (l : Text) (d : FileDeadLetterQueue)
      → d.queue ≡ q ++ x ∷ []
      → AllRead (q ++ x ∷ [])
      → encode (to_item x) ≡ ok l
      → utf8_len l + 1 ≤ max_bytes limits
      → length d.queue ≤ limits.max_size
      → (d' : FileDeadLetterQueue) × (persist encode limits (length d.queue) true d
          ≡ some (ok tt, d'))
        × ((older : List DlqEntry) × (d.queue ≡ older ++ d'.queue))
        × (map to_item (new decode limits next true d'.file).queue ≡ map to_item d'.queue)
  unfolding load_from_disk new
  persist-restores next q x l d queue all line fits small =
      let (d', ran, saved) =
        persist_saves encode limits q x l d queue (AllRead-AllHaveLines _ all) line fits in
      let tail = AllRead-tail saved.older d'.queue (subst AllRead (sym queue ∙ saved.kept) all) in
      let r = lines_lem d'.queue tail in
      let n : length d.queue ≡ length saved.older + length d'.queue =
        ap length saved.kept ∙ length-append saved.older d'.queue in
      let written : d'.file ≡ some (ended r.lines) =
        saved.written
        ∙ ap some (
            ap content (ok_inj (sym saved.dumped ∙ r.encoded))
            ∙ content-ended r.lines r.nonempty) in
      let loaded = load_lines decode limits next r.lines in
      let all_loaded = newest_of_fits loaded d'.queue (r.loaded next) (omega (arith, n, small)) in
      (
        d',
        ran,
        (saved.older, saved.kept),
        rw (written, split_lines-ended r.lines r.single)
            (ap (map to_item) all_loaded ∙ r.loaded next),
      )
