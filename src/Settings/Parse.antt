-- ===== src/Settings/Parse.antt =====
-- src/logs_interceptor/utils.py: the readers of environment variables. `float` is Python's, and
-- `none` where it raises; `int` reads ASCII digits.
use logs_interceptor_python.Base.{
  ℕ, zero, suc, ◌+◌, ◌-◌, ◌*◌, String, Bool, true, false, ◌&&◌, ◌||◌, Option, none, some, List, [],
  ◌∷◌, leb, ℕ_comparable, String_comparable, ◌==◌, if◌then◌else◌,
}
use logs_interceptor_python.Base.Text.{codes, strip, lower_text, contains}
use logs_interceptor_python.Domain.{LogLevel}
use logs_interceptor_python.Levels.{is_valid}
use logs_interceptor_python.Settings.Numbers.{ℤ, pos, negsuc, ltz, Float, ltf}

unfoldable pub parse_bool : Option String → Bool → Bool
unfolding contains strip lower_text
parse_bool none default = default
parse_bool (some value) default =
    let normalized = lower_text (strip value) in
    if contains normalized ("1" ∷ "true" ∷ "yes" ∷ "on" ∷ [])
    then true
    else if contains normalized ("0" ∷ "false" ∷ "no" ∷ "off" ∷ [])
    then false
    else default

-- The digits of `int`, with single `_` between them; `n` is what was read, and the flag says that the
-- last character was a digit.
unfoldable pub digits_of : List ℕ → ℕ → Bool → Option ℕ
digits_of [] n false = none
digits_of [] n true = some n
digits_of (c ∷ cs) n after_digit =
    let is_digit = leb b'0' c && leb c b'9' in
    let rest = digits_of cs (if is_digit then n * 10 + (c - b'0') else n) is_digit in
    if is_digit || (c == b'_' && after_digit) then rest else none

abbrev pub positive_int : Option ℕ → Option ℤ
positive_int none = none
positive_int (some n) = some (pos n)

abbrev pub negative_int : Option ℕ → Option ℤ
negative_int none = none
negative_int (some zero) = some (pos 0)
negative_int (some (suc n)) = some (negsuc n)

abbrev pub signed : List ℕ → Option ℤ
signed [] = none
signed (c ∷ cs) =
    if c == b'-'
    then negative_int (digits_of cs 0 false)
    else positive_int (digits_of (if c == b'+' then cs else c ∷ cs) 0 false)

-- `int(s)`, `none` where it raises
unfoldable pub to_int : String → Option ℤ
unfolding digits_of strip
to_int s = signed (codes (strip s))

abbrev pub int_in_range : ℤ → ℤ → ℤ → Option ℤ → ℤ
int_in_range default low high none = default
int_in_range default low high (some parsed) =
    if ltz parsed low || ltz high parsed then default else parsed

unfoldable pub parse_int_range : Option String → ℤ → ℤ → ℤ → ℤ
unfolding to_int
parse_int_range none default min_value max_value = default
parse_int_range (some value) default min_value max_value =
    int_in_range default min_value max_value (to_int value)

abbrev pub float_in_range : Float → Float → Float → Option Float → Float
float_in_range default low high none = default
float_in_range default low high (some parsed) =
    if ltf parsed low || ltf high parsed then default else parsed

unfoldable pub parse_float_range :
    (String → Option Float) → Option String → Float → Float → Float → Float
parse_float_range to_float none default min_value max_value = default
parse_float_range to_float (some value) default min_value max_value =
    float_in_range default min_value max_value (to_float value)

-- the loop of `_env_levels`
unfoldable pub valid_levels : List String → List LogLevel
unfolding is_valid strip lower_text
valid_levels [] = []
valid_levels (item ∷ items) =
    let normalized = lower_text (strip item) in
    let levels = valid_levels items in if is_valid normalized then normalized ∷ levels else levels
