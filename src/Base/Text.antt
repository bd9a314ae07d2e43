-- ===== src/Base/Text.antt =====
-- Python strings. A text is the native `String`, a list of characters; where the program looks
-- inside a text, it is read as its code points. `lower` is that of ASCII.
use Prim.Native.Char.{Char, code}
use Prim.Native.Nat.{ℕ, zero, suc, ◌+◌, ◌-◌, ◌/◌, ◌%◌, ◌≤◌}
use mathlib.Core.Option.{Option, none, some}
use mathlib.Core.Path.{◌≡◌}
use text.Mathlib.TextLemmas.{nil-append, cons-append}
use native.Mathlib.Omega.{arith}
use Prim.Native.String.{String, ◌++◌}
use mathlib.Core.Bool.{Bool, true, false, ◌&&◌, ◌||◌}
use mathlib.Core.List.{List, [], ◌∷◌, map}
use logs_interceptor_python.Base.Tests.{ℕ_comparable, String_comparable, leb, ◌==◌, if◌then◌else◌}

-- `len(s)`, in characters
unfoldable pub len : String → ℕ
len String.[] = 0
len (String.◌∷◌ c s) = suc (len s)

-- `bool(s)`
abbrev pub is_blank : String → Bool
is_blank String.[] = true
is_blank (String.◌∷◌ c s) = false

abbrev pub codes : String → List ℕ
codes String.[] = []
codes (String.◌∷◌ c s) = code c ∷ codes s

abbrev pub lower_code : ℕ → ℕ
lower_code c = if leb b'A' c && leb c b'Z' then c + 32 else c

-- `s.lower()`
unfoldable pub lower : String → List ℕ
lower s = map lower_code (codes s)

unfoldable pub starts_with : List ℕ → List ℕ → Bool
starts_with [] s = true
starts_with (c ∷ p) [] = false
starts_with (c ∷ p) (d ∷ s) = c == d && starts_with p s

-- `p in s`
unfoldable pub is_in : List ℕ → List ℕ → Bool
unfolding starts_with
is_in p [] = starts_with p []
is_in p (d ∷ s) = starts_with p (d ∷ s) || is_in p s

-- `s.replace(c, t)` for one character `c`
unfoldable pub replace_char : ℕ → String → String → String
replace_char k t String.[] = String.[]
replace_char k t (String.◌∷◌ c s) =
    let rest = replace_char k t s in if code c == k then t ++ rest else String.◌∷◌ c rest

-- `s + t`
abbrev pub text_append : String → String → String
text_append s t = s ++ t

-- `s[:n]`
unfoldable pub prefix : ℕ → String → String
prefix n String.[] = String.[]
prefix zero (String.◌∷◌ c s) = String.[]
prefix (suc n) (String.◌∷◌ c s) = String.◌∷◌ c (prefix n s)

pub len-append : (s t : String) → len (s ++ t) ≡ len s + len t
unfolding len
len-append String.[] t = rw (nil-append t) (omega arith)
len-append (String.◌∷◌ c s) t = rw (cons-append c s t) (omega (arith, len-append s t))

pub len-prefix : (n : ℕ) (s : String) → len (prefix n s) ≤ n
unfolding len prefix
len-prefix n String.[] = omega arith
len-prefix zero (String.◌∷◌ c s) = omega arith
len-prefix (suc n) (String.◌∷◌ c s) = omega (arith, len-prefix n s)

unfoldable pub digit_at : ℕ → String → Char
digit_at n String.[] = "0"
digit_at zero (String.◌∷◌ c s) = c
digit_at (suc n) (String.◌∷◌ c s) = digit_at n s

-- The digits of a number in a base of at most 16, from the last one on; they are no more than `fuel`.
unfoldable pub digits_from : ℕ → ℕ → ℕ → String → String
unfolding digit_at
digits_from base zero n digits = digits
digits_from base (suc fuel) n digits =
    let more = String.◌∷◌ (digit_at (n % base) "0123456789abcdef") digits in
    let rest = digits_from base fuel (n / base) more in if leb base n then rest else more

-- `f"{n:x}"`: a number has no more digits than it counts, and one more.
unfoldable pub hex : ℕ → String
unfolding digits_from
hex n = digits_from 16 (n + 1) n String.[]

-- `str(n)`
unfoldable pub decimal : ℕ → String
unfolding digits_from
decimal n = digits_from 10 (n + 1) n String.[]

-- `s <= t`, by the code points
unfoldable pub is_before : List ℕ → List ℕ → Bool
is_before [] t = true
is_before (c ∷ s) [] = false
is_before (c ∷ s) (d ∷ t) = if c == d then is_before s t else leb c d

-- `str.isspace` of a character, in ASCII
abbrev pub is_space : Char → Bool
is_space c = (leb 9 (code c) && leb (code c) 13) || (leb 28 (code c) && leb (code c) 32)

unfoldable pub strip_left : String → String
strip_left String.[] = String.[]
strip_left (String.◌∷◌ c s) = let rest = strip_left s in if is_space c then rest else String.◌∷◌ c s

-- a character before a text that is stripped on the right
abbrev pub cons_stripped : Char → String → String
cons_stripped c String.[] = if is_space c then String.[] else String.◌∷◌ c String.[]
cons_stripped c (String.◌∷◌ d s) = String.◌∷◌ c (String.◌∷◌ d s)

unfoldable pub strip_right : String → String
strip_right String.[] = String.[]
strip_right (String.◌∷◌ c s) = cons_stripped c (strip_right s)

-- `s.strip()`
unfoldable pub strip : String → String
unfolding strip_left strip_right
strip s = strip_right (strip_left s)

-- `s.lower()` as a text
unfoldable pub lower_text : String → String
unfolding digit_at
lower_text String.[] = String.[]
lower_text (String.◌∷◌ c s) =
    String.◌∷◌
      (if leb b'A' (code c) && leb (code c) b'Z'
        then digit_at (code c - b'A') "abcdefghijklmnopqrstuvwxyz"
        else c)
      (lower_text s)

abbrev pub cons_first : Char → List String → List String
cons_first c [] = String.◌∷◌ c String.[] ∷ []
cons_first c (part ∷ parts) = String.◌∷◌ c part ∷ parts

-- `s.split(c)` for one character `c`
unfoldable pub split_on : ℕ → String → List String
split_on k String.[] = String.[] ∷ []
split_on k (String.◌∷◌ c s) =
    let parts = split_on k s in if code c == k then String.[] ∷ parts else cons_first c parts

-- `s[len(p):]` if `s` starts with `p`
unfoldable pub remove_prefix : String → String → Option String
remove_prefix String.[] s = some s
remove_prefix (String.◌∷◌ c p) String.[] = none
remove_prefix (String.◌∷◌ c p) (String.◌∷◌ d s) =
    let rest = remove_prefix p s in if code c == code d then rest else none

-- `x in xs`
unfoldable pub contains : String → List String → Bool
contains x [] = false
contains x (y ∷ ys) = y == x || contains x ys
