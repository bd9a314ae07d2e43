-- ===== src/Helpers.antt =====
-- src/logs_interceptor/utils.py: `parse_labels`, `format_bytes`,
-- `extract_error_metadata` and `parse_stack_trace`. `json.loads`
-- and the formatting of a float are parameters, and a size is not negative.
pub mod Units
pub mod Labels
pub mod Sampling
mod Examples
use logs_interceptor_python.Base.{
  ℕ, zero, suc, ◌+◌, ◌^◌, String, Bool, true, false, not, ◌&&◌, Option, none, some, List, [], ◌∷◌,
  leb, ◌==◌, ℕ_comparable, String_comparable, if◌then◌else◌, take,
}
use logs_interceptor_python.Base.Dict.{Dict, lookup, insert}
use logs_interceptor_python.Base.Text.{is_blank, remove_prefix, split_on, strip, text_append}
use logs_interceptor_python.Domain.{Value, str}

-- `"=".join(parts)`
unfoldable pub join_equals : List String → String
join_equals [] = ""
join_equals (p ∷ []) = p
join_equals (p ∷ q ∷ parts) = text_append p (text_append "=" (join_equals (q ∷ parts)))

-- `key, *value_parts`
abbrev pub put_label : List String → Dict String String → Dict String String
put_label [] labels = labels
put_label (key ∷ []) labels = labels
put_label (key ∷ part ∷ parts) labels =
    if is_blank key then labels else insert (strip key) (strip (join_equals (part ∷ parts))) labels

unfoldable pub put_labels : List String → Dict String String → Dict String String
unfolding split_on strip join_equals insert
put_labels [] labels = labels
put_labels (pair ∷ pairs) labels = put_labels pairs (put_label (split_on b'=' pair) labels)

-- What `json.loads` gives of a text: a dict, each key and value as its `str`, something else, or an
-- error, which is a warning.
pub data Loaded : Type 0 where
  object : Dict String String → Loaded
  other : Loaded
  failed : Loaded

abbrev pub labels_of : Loaded → Dict String String
labels_of (object d) = d
labels_of other = []
labels_of failed = []

unfoldable pub parse_labels : (String → Loaded) → String → Dict String String
unfolding put_labels remove_prefix split_on
parse_labels loads labels_string =
    if is_blank labels_string then [] else elim (remove_prefix "{" labels_string) [
      | some rest ↦ labels_of (loads labels_string)
      | none ↦ put_labels (split_on b',' labels_string) []
    ]

-- `index` after the loop, from an index on, for at most so many rounds; `value` is the size over
-- `1024 ^ index`, which a division of a float by 1024 gives exactly.
unfoldable pub unit_index : ℕ → ℕ → ℕ → ℕ
unit_index zero size index = index
unit_index (suc rounds) size index =
    let next = unit_index rounds size (suc index) in
    if leb (1024 ^ suc index) size then next else index

abbrev pub unit_name : ℕ → String
unit_name zero = "Bytes"
unit_name (suc zero) = "KB"
unit_name (suc (suc zero)) = "MB"
unit_name (suc (suc (suc n))) = "GB"

-- `two_places n d` is the quotient with two places.
unfoldable pub format_bytes : (ℕ → ℕ → String) → ℕ → String
unfolding unit_index
format_bytes two_places size =
    let index = unit_index 3 size 0 in
    if size == 0
    then "0 Bytes"
    else text_append (two_places size (1024 ^ index)) (text_append " " (unit_name index))

-- `attribute` is what the error has under a name.
unfoldable pub error_attributes : (String → Option Value) → List String → Dict String Value
error_attributes attribute [] = []
error_attributes attribute (name ∷ names) = elim (attribute name) [
  | none ↦ error_attributes attribute names
  | some v ↦ (name, v) ∷ error_attributes attribute names
]

unfoldable pub extract_error_metadata :
    String → String → (String → Option Value) → Dict String Value
unfolding error_attributes
extract_error_metadata class_name message attribute =
    ("name", str class_name)
    ∷ ("message", str message)
    ∷ error_attributes attribute
        ("code" ∷ "status_code" ∷ "errno" ∷ "path" ∷ "address" ∷ "port" ∷ [])

-- `matched` is what the pattern finds in a line.
unfoldable pub frames_of : {F : Type 0} → (String → Option F) → List String → List F
frames_of matched [] = []
frames_of matched (line ∷ lines) = elim (matched line) [
  | none ↦ frames_of matched lines
  | some frame ↦ frame ∷ frames_of matched lines
]

-- `lines` are those of the text.
unfoldable pub parse_stack_trace : {F : Type 0} → (String → Option F) → List String → List F
unfolding frames_of
parse_stack_trace matched lines = take 10 (frames_of matched lines)
