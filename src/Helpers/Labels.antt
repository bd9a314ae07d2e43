-- ===== src/Helpers/Labels.antt =====
-- Labels written as `key=value,key=value` are read back.
use Prim.Native.Char.{Char, code}
use logs_interceptor_python.Base.{
  ℕ, ◌≡◌, refl, sym, ap, ◌∙◌, String, true, false, none, some, [], ◌∷◌, map, ◌==◌, ℕ_comparable,
  String_comparable, if-of_false, arith,
}
use logs_interceptor_python.Base.Dict.{Dict, insert, update}
use logs_interceptor_python.Base.Text.{is_blank, remove_prefix, split_on, strip}
use logs_interceptor_python.Helpers.{
  Loaded, labels_of, join_equals, put_label, put_labels, parse_labels,
}

-- `before + c + after`
abbrev pub joined : String → Char → String → String
joined String.[] c after = String.◌∷◌ c after
joined (String.◌∷◌ d before) c after = String.◌∷◌ d (joined before c after)

-- A text without a character.
abbrev pub Lacks : ℕ → String → Type 0
Lacks k String.[] = Unit
Lacks k (String.◌∷◌ c s) = ((code c == k) ≡ false) × Lacks k s

split_on-lacking : (k : ℕ) (s : String) → Lacks k s → split_on k s ≡ s ∷ []
unfolding split_on
split_on-lacking k String.[] h = refl
split_on-lacking k (String.◌∷◌ c s) h = rw (h.0, split_on-lacking k s h.1) refl

split_on-joined :
    (k : ℕ) (before after : String) (c : Char)
    → Lacks k before
    → (code c == k) ≡ true
    → split_on k (joined before c after) ≡ before ∷ split_on k after
unfolding split_on
split_on-joined k String.[] after c h e = rw e refl
split_on-joined k (String.◌∷◌ d before) after c h e =
    rw (h.0, split_on-joined k before after c h.1 e) refl

Lacks-joined :
    (k : ℕ) (before after : String) (c : Char)
    → Lacks k before
    → (code c == k) ≡ false
    → Lacks k after
    → Lacks k (joined before c after)
Lacks-joined k String.[] after c h e h' = (e, h')
Lacks-joined k (String.◌∷◌ d before) after c h e h' = (h.0, Lacks-joined k before after c h.1 e h')

-- A key or value that needs no escape: it has neither a comma nor an equals sign, and no space
-- around it.
pub record IsPlain (s : String) : Type 0 where
  pub no_comma : Lacks b',' s
  pub no_equals : Lacks b'=' s
  pub stripped : strip s ≡ s

abbrev pub ArePlain : Dict String String → Type 0
ArePlain [] = Unit
ArePlain (x ∷ d) = IsPlain x.0 × (is_blank x.0 ≡ false) × IsPlain x.1 × ArePlain d

abbrev pub pair_text : String × String → String
pair_text (key, value) = joined key "=" value

unfoldable pub labels_text : Dict String String → String
labels_text [] = ""
labels_text (x ∷ []) = pair_text x
labels_text (x ∷ y ∷ d) = joined (pair_text x) "," (labels_text (y ∷ d))

pairs_of :
    (x : String × String) (d : Dict String String)
    → ArePlain (x ∷ d)
    → split_on b',' (labels_text (x ∷ d)) ≡ map pair_text (x ∷ d)
unfolding labels_text
pairs_of x [] plain =
    split_on-lacking b',' (pair_text x)
      (Lacks-joined b',' x.0 x.1 "=" plain.0.no_comma refl plain.2.no_comma)
pairs_of x (y ∷ d) plain =
    split_on-joined b',' (pair_text x) (labels_text (y ∷ d)) ","
      (Lacks-joined b',' x.0 x.1 "=" plain.0.no_comma refl plain.2.no_comma) refl
    ∙ ap (λ l. pair_text x ∷ l) (pairs_of y d plain.3)

put_label-pair :
    (key value : String) (labels : Dict String String)
    → IsPlain key
    → is_blank key ≡ false
    → IsPlain value
    → put_label (split_on b'=' (joined key "=" value)) labels ≡ insert key value labels
unfolding join_equals
put_label-pair key value labels plain named plain' =
    ap (λ l. put_label l labels)
      (split_on-joined b'=' key value "=" plain.no_equals refl
        ∙ ap (λ l. key ∷ l) (split_on-lacking b'=' value plain'.no_equals))
    ∙ if-of_false (is_blank key) labels (insert (strip key) (strip value) labels) named
    ∙ ap (λ k. insert k (strip value) labels) plain.stripped
    ∙ ap (λ v. insert key v labels) plain'.stripped

put_labels-pairs :
    (d labels : Dict String String)
    → ArePlain d
    → put_labels (map pair_text d) labels ≡ update labels d
unfolding put_labels update
put_labels-pairs [] labels plain = refl
put_labels-pairs (x ∷ d) labels plain =
    ap (put_labels (map pair_text d)) (put_label-pair x.0 x.1 labels plain.0 plain.1 plain.2)
    ∙ put_labels-pairs d (insert x.0 x.1 labels) plain.3

no_brace :
    (before after : String) (c : Char)
    → is_blank before ≡ false
    → Lacks b'{' before
    → remove_prefix "{" (joined before c after) ≡ none
unfolding remove_prefix
no_brace String.[] after c named lacks = cc
no_brace (String.◌∷◌ d before) after c named lacks = let other = lacks.0 in ground arith

joined-joined :
    (a b s : String) (c d : Char) → joined (joined a c b) d s ≡ joined a c (joined b d s)
joined-joined String.[] b s c d = refl
joined-joined (String.◌∷◌ e a) b s c d = ap (String.◌∷◌ e) (joined-joined a b s c d)

is_blank-joined : (a s : String) (c : Char) → is_blank (joined a c s) ≡ false
is_blank-joined String.[] s c = refl
is_blank-joined (String.◌∷◌ d a) s c = refl

-- The text of labels starts with their first key.
labels_text-starts :
    (x : String × String) (d : Dict String String)
    → (after : String) × (labels_text (x ∷ d) ≡ joined x.0 "=" after)
unfolding labels_text
labels_text-starts x [] = (x.1, refl)
labels_text-starts x (y ∷ d) = (_, joined-joined x.0 x.1 (labels_text (y ∷ d)) "=" ",")

parse_labels-pairs :
    (loads : String → Loaded) (key after : String)
    → is_blank key ≡ false
    → Lacks b'{' key
    → let s = joined key "=" after in parse_labels loads s ≡ put_labels (split_on b',' s) []
unfolding parse_labels
parse_labels-pairs loads key after named lacks =
    let s = joined key "=" after in
    if-of_false (is_blank s) _ _ (is_blank-joined key after "=")
    ∙ ap (λ o. elim o [ some rest ↦ labels_of (loads s) | none ↦ put_labels (split_on b',' s) [] ])
        (no_brace key after "=" named lacks)

-- The first key has no brace, with which JSON starts.
abbrev pub NoBrace : Dict String String → Type 0
NoBrace [] = Unit
NoBrace (x ∷ d) = Lacks b'{' x.0

-- Plain labels with a first key that does not start like JSON are read back from their text, each
-- put into the dict in turn.
pub parse_labels-labels_text :
    (loads : String → Loaded) (d : Dict String String)
    → ArePlain d
    → NoBrace d
    → parse_labels loads (labels_text d) ≡ update [] d
unfolding parse_labels labels_text update
parse_labels-labels_text loads [] plain brace = refl
parse_labels-labels_text loads (x ∷ d) plain brace =
    let (after, e) = labels_text-starts x d in
    ap (parse_labels loads) e
    ∙ parse_labels-pairs loads x.0 after plain.1 brace
    ∙ ap (λ s. put_labels (split_on b',' s) []) (sym e)
    ∙ ap (λ l. put_labels l []) (pairs_of x d plain)
    ∙ put_labels-pairs (x ∷ d) [] plain
