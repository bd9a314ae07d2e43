-- ===== src/Dlq/File/Lines.antt =====
-- The lines that `_persist_queue_to_disk` makes of the queue.
use logs_interceptor_python.Base.{
  ℕ, zero, suc, ◌+◌, ◌-◌, ◌≤◌, ◌≡◌, ◌≢◌, refl, ap, true, List, [], ◌∷◌, ◌++◌, length, drop, last_n,
  arith,
}
use logs_interceptor_python.Dlq.{DlqEntry}
use logs_interceptor_python.Dlq.Codec.{
  Text, utf8_len, ended, AllNonempty, utf8_len-append, is_encodable, is_encodable-line,
}
use logs_interceptor_python.Errors.{Exception, Result, ok, raise}
use logs_interceptor_python.Dlq.File.{Item, to_item, encode_all}

module _ (encode : Item → Result Text) where
  -- `json.dumps` gives a line for the item that can be written.
  abbrev pub HasLine : DlqEntry → Type 0
  HasLine x = (l : Text) × (encode (to_item x) ≡ ok l) × (l ≢ []) × (is_encodable l ≡ true)

  abbrev pub AllHaveLines : List DlqEntry → Type 0
  AllHaveLines [] = Unit {0}
  AllHaveLines (x ∷ xs) = HasLine x × AllHaveLines xs

  unfoldable pub lines_of : (xs : List DlqEntry) → AllHaveLines xs → List Text
  lines_of [] h = []
  lines_of (x ∷ xs) h = h.0.0 ∷ lines_of xs h.1

  pub encode_all-lines_of :
      (xs : List DlqEntry) (h : AllHaveLines xs)
      → (encode_all encode xs ≡ ok (lines_of xs h)) × AllNonempty (lines_of xs h)
  unfolding encode_all lines_of
  encode_all-lines_of [] h = (refl, tt)
  encode_all-lines_of (x ∷ xs) h =
      let (all, nonempty) = encode_all-lines_of xs h.1 in
      (ground (arith, h.0.1, all), (h.0.2, nonempty))

  pub lines_of-is_encodable :
      (xs : List DlqEntry) (h : AllHaveLines xs) → is_encodable (ended (lines_of xs h)) ≡ true
  unfolding lines_of ended is_encodable
  lines_of-is_encodable [] h = refl
  lines_of-is_encodable (x ∷ xs) h =
      is_encodable-line h.0.0 (ended (lines_of xs h.1)) h.0.3 (lines_of-is_encodable xs h.1)

  AllHaveLines-drop : (n : ℕ) (xs : List DlqEntry) → AllHaveLines xs → AllHaveLines (drop n xs)
  AllHaveLines-drop zero xs h = h
  AllHaveLines-drop (suc n) [] h = tt
  AllHaveLines-drop (suc n) (x ∷ xs) h = AllHaveLines-drop n xs h.1

  -- The newest item's line is part of the content.
  pub newest_fits :
      (q : List DlqEntry) (x : DlqEntry) (h : AllHaveLines (q ++ x ∷ [])) {l : Text}
      → encode (to_item x) ≡ ok l
      → utf8_len l + 1 ≤ utf8_len (ended (lines_of (q ++ x ∷ []) h))
  unfolding lines_of ended utf8_len
  newest_fits [] x h {l} e =
      let same : h.0.0 ≡ l = cc (h.0.1, e) in
      omega (arith, utf8_len-append h.0.0 (10 ∷ []), ap utf8_len same)
  newest_fits (y ∷ q) x h {l} e = omega (
    arith,
    newest_fits q x h.1 e,
    utf8_len-append h.0.0 (10 ∷ ended (lines_of (q ++ x ∷ []) h.1)),
  )

  pub only_line :
      (q : List DlqEntry) (x : DlqEntry) (h : AllHaveLines (q ++ x ∷ [])) {l : Text}
      → encode (to_item x) ≡ ok l
      → q ≡ []
      → utf8_len (ended (lines_of (q ++ x ∷ []) h)) ≡ utf8_len l + 1
  unfolding lines_of ended utf8_len
  only_line [] x h {l} e alone =
      let same : h.0.0 ≡ l = cc (h.0.1, e) in
      omega (arith, utf8_len-append h.0.0 (10 ∷ []), ap utf8_len same)
  only_line (y ∷ q) x h {l} e alone = cc

  pub AllHaveLines-last_n :
      (n : ℕ) (xs : List DlqEntry) → AllHaveLines xs → AllHaveLines (last_n n xs)
  unfolding last_n
  AllHaveLines-last_n n xs h = AllHaveLines-drop (length xs - n) xs h

  -- The first item that cannot be dumped decides what is raised.
  pub encode_all_poisoned :
      (older : List DlqEntry) (x : DlqEntry) (newer : List DlqEntry) (e : Exception)
      → AllHaveLines older
      → encode (to_item x) ≡ raise e
      → encode_all encode (older ++ x ∷ newer) ≡ raise e
  unfolding encode_all
  encode_all_poisoned [] x newer e h bad = rw bad refl
  encode_all_poisoned (y ∷ older) x newer e h bad =
      ground (arith, h.0.1, encode_all_poisoned older x newer e h.1 bad)
