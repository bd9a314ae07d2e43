-- ===== src/Dlq/Codec.antt =====
-- The text of the file of `FileDeadLetterQueue`, as code points: the lines joined and ended, read
-- back by `str.splitlines`, and measured in UTF-8.
use mathlib.Core.List.{append_assoc, append-nil}
use logs_interceptor_python.Base.{
  ℕ, ◌+◌, ◌≡◌, ◌≢◌, refl, sym, ◌∙◌, ap, Bool, true, false, not, ◌&&◌, ◌||◌, List, [], ◌∷◌, ◌++◌,
  ltb, leb, ◌==◌, ℕ_comparable, if◌then◌else◌, is_empty, arith,
}

abbrev pub Text : Type 0
Text = List ℕ

-- `"\n".join(lines)`
unfoldable pub join : List Text → Text
join [] = []
join (l ∷ []) = l
join (l ∷ m ∷ ls) = l ++ 10 ∷ join (m ∷ ls)

-- the content written: a final newline unless the text is empty
unfoldable pub content : List Text → Text
unfolding join
content ls = let c = join ls in if is_empty c then c else c ++ 10 ∷ []

-- `len(c.encode("utf-8"))` for one character
abbrev pub utf8_width : ℕ → ℕ
utf8_width c = if ltb c 0x80 then 1 else if ltb c 0x800 then 2 else if ltb c 0x10000 then 3 else 4

unfoldable pub utf8_len : Text → ℕ
utf8_len [] = 0
utf8_len (c ∷ cs) = utf8_width c + utf8_len cs

-- Whether `encode("utf-8")` takes the text: a lone surrogate makes it raise.
unfoldable pub is_encodable : Text → Bool
is_encodable [] = true
is_encodable (c ∷ cs) = not (leb 0xd800 c && leb c 0xdfff) && is_encodable cs

-- The line boundaries of `str.splitlines`.
unfoldable pub is_boundary : ℕ → Bool
is_boundary c =
    (leb 10 c && leb c 13) || (leb 28 c && leb c 30) || c == 0x85 || c == 0x2028 || c == 0x2029

-- `str.splitlines`; `cr` says that the last character was a carriage return, which a newline
-- right after it belongs to.
unfoldable pub split_from : Bool → Text → Text → List Text
unfolding is_boundary
split_from cr line [] = if is_empty line then [] else line ∷ []
split_from cr line (c ∷ cs) =
    let skips = cr && c == 10 in
    let ends = not skips && is_boundary c in
    let line' = if skips then line else if is_boundary c then [] else line ++ c ∷ [] in
    let rest = split_from (ends && c == 13) line' cs in if ends then line ∷ rest else rest

unfoldable pub split_lines : Text → List Text
unfolding split_from
split_lines = split_from false []

-- Every line ended by a newline.
unfoldable pub ended : List Text → Text
ended [] = []
ended (l ∷ ls) = l ++ 10 ∷ ended ls

abbrev pub AllNonempty : List Text → Type 0
AllNonempty [] = Unit {0}
AllNonempty (l ∷ ls) = (l ≢ []) × AllNonempty ls

join-ended : (l : Text) (ls : List Text) → join (l ∷ ls) ++ 10 ∷ [] ≡ ended (l ∷ ls)
unfolding join ended
join-ended l [] = refl
join-ended l (m ∷ ls) =
    append_assoc l (10 ∷ join (m ∷ ls)) (10 ∷ []) ∙ ap (λ t. l ++ 10 ∷ t) (join-ended m ls)

join-nonempty : (l : Text) (ls : List Text) → l ≢ [] → is_empty (join (l ∷ ls)) ≡ false
unfolding join
join-nonempty [] ls h = absurd (h refl)
join-nonempty (c ∷ l) [] h = refl
join-nonempty (c ∷ l) (m ∷ ls) h = refl

-- Of lines that are not empty, the content written is each line with a newline.
pub content-ended : (ls : List Text) → AllNonempty ls → content ls ≡ ended ls
unfolding content ended
content-ended [] h = refl
content-ended (l ∷ ls) h = rw (join-nonempty l ls h.0) (join-ended l ls)

pub utf8_len-append : (s t : Text) → utf8_len (s ++ t) ≡ utf8_len s + utf8_len t
unfolding utf8_len
utf8_len-append [] t = omega arith
utf8_len-append (c ∷ s) t = omega (arith, utf8_len-append s t)

is_encodable-append :
    (s t : Text) → is_encodable s ≡ true → is_encodable t ≡ true → is_encodable (s ++ t) ≡ true
unfolding is_encodable
is_encodable-append [] t h k = k
is_encodable-append (c ∷ s) t h k = ground (arith, h, is_encodable-append s t, k)

-- The newline is no surrogate.
pub is_encodable-line :
    (l rest : Text)
    → is_encodable l ≡ true
    → is_encodable rest ≡ true
    → is_encodable (l ++ 10 ∷ rest) ≡ true
unfolding is_encodable
is_encodable-line l rest h k = is_encodable-append l (10 ∷ rest) h k

-- A text that `splitlines` leaves in one piece.
abbrev pub HasNoBoundary : Text → Type 0
HasNoBoundary [] = Unit {0}
HasNoBoundary (c ∷ cs) = (is_boundary c ≡ false) × HasNoBoundary cs

split_from-line :
    (line l rest : Text)
    → HasNoBoundary l
    → split_from false line (l ++ 10 ∷ rest) ≡ (line ++ l) ∷ split_from false [] rest
unfolding split_from
split_from-line line [] rest h = ap (λ t. t ∷ split_from false [] rest) (sym (append-nil line))
split_from-line line (c ∷ l) rest h =
    rw (h.0, split_from)
      (split_from-line (line ++ c ∷ []) l rest h.1
        ∙ ap (λ t. t ∷ split_from false [] rest) (append_assoc line (c ∷ []) l))

abbrev pub AllHaveNoBoundary : List Text → Type 0
AllHaveNoBoundary [] = Unit {0}
AllHaveNoBoundary (l ∷ ls) = HasNoBoundary l × AllHaveNoBoundary ls

-- Lines without a boundary inside come back as they were written.
pub split_lines-ended : (ls : List Text) → AllHaveNoBoundary ls → split_lines (ended ls) ≡ ls
unfolding split_lines ended
split_lines-ended [] h = refl
split_lines-ended (l ∷ ls) h =
    split_from-line [] l (ended ls) h.0 ∙ ap (◌∷◌ l) (split_lines-ended ls h.1)
