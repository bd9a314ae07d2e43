-- ===== src/Stringify.antt =====
-- src/logs_interceptor/utils.py: `_safe_convert` over a heap of objects, `safe_stringify`, and the
-- messages of the library itself.
pub mod Ends
mod Examples
use logs_interceptor_python.Base.{
  ℕ, zero, suc, String, Bool, true, false, not, ◌&&◌, ◌||◌, Option, none, some, List, [], ◌∷◌, ltb,
  ◌==◌, ℕ_comparable, String_comparable, if◌then◌else◌,
}
use logs_interceptor_python.Base.Dict.{Dict}
use logs_interceptor_python.Base.Text.{text_append}
use logs_interceptor_python.Domain.{Value, null, boolean, number, str, ref}
use logs_interceptor_python.Errors.{Exception, Result, ok, raise}

-- What lies at an address. A key of a dict is its `str`; a `wrapper` is a dataclass, with the dict
-- that `asdict` gives, or another object with its `__dict__`; anything else is its `str`. Each `str`,
-- `isoformat` and `asdict` may raise.
pub data Thing : Type 0 where
  failure : String → Result String → Value → Thing
  moment : Result String → Thing
  dictionary : List (Result String × Value) → Thing
  sequence : List Value → Thing
  wrapper : Result Value → Thing
  opaque : Result String → Thing

-- What is made of a value. The arguments of an exception are not converted.
mutual
  pub data Converted : Type 0 where
    plain : Value → Converted
    text : String → Converted
    error : String → String → Value → Converted
    array : Items → Converted
    object : Fields → Converted

  pub data Items : Type 0 where
    nil : Items
    cons : Converted → Items → Items

  pub data Fields : Type 0 where
    end : Fields
    field : String → Converted → Fields → Fields

-- `fields[k] = c`, on a dict that is being made
unfoldable pub put : String → Converted → Fields → Fields
put k c end = field k c end
put k c (field j d fs) = if j == k then field j c fs else field j d (put k c fs)

unfoldable pub is_seen : ℕ → List ℕ → Bool
is_seen a [] = false
is_seen a (b ∷ seen) = b == a || is_seen a seen

-- `none` if the fuel is used up; what is returned comes with the objects seen so far.
abbrev pub Answer : Type 0 → Type 0
Answer A = Option (Result (A × List ℕ))

abbrev pub returns : {A : Type 0} → A → List ℕ → Answer A
returns a seen = some (ok (a, seen))

abbrev pub then_answer : {A B : Type 0} → Answer A → (A → List ℕ → Answer B) → Answer B
then_answer none f = none
then_answer (some (raise e)) f = some (raise e)
then_answer (some (ok (a, seen))) f = f a seen

abbrev pub with_result : {A B : Type 0} → Result A → (A → Answer B) → Answer B
with_result (raise e) f = some (raise e)
with_result (ok a) f = f a

-- The loops, over the call for one value.
module _ (convert : Value → List ℕ → Answer Converted) where
  unfoldable pub convert_items : List Value → List ℕ → Answer Items
  convert_items [] seen = returns nil seen
  convert_items (v ∷ vs) seen =
      then_answer (convert v seen)
        λ c seen1. then_answer (convert_items vs seen1) λ cs seen2. returns (cons c cs) seen2

  unfoldable pub convert_fields : List (Result String × Value) → Fields → List ℕ → Answer Fields
  unfolding put
  convert_fields [] made seen = returns made seen
  convert_fields (x ∷ d) made seen =
      with_result x.0
        λ k. then_answer (convert x.1 seen) λ c seen1. convert_fields d (put k c made) seen1

  -- the conversion of an object that is not too deep; `nested` says that it was met before
  unfoldable pub convert_thing : ℕ → Bool → Thing → List ℕ → Answer Converted
  unfolding convert_items convert_fields
  convert_thing a met (failure name message args) seen =
      with_result message λ m. returns (error name m args) seen
  convert_thing a met (moment iso) seen = with_result iso λ t. returns (text t) seen
  convert_thing a true (dictionary d) seen = returns (text "[Circular Reference]") seen
  convert_thing a true (sequence vs) seen = returns (text "[Circular Reference]") seen
  convert_thing a true (wrapper v) seen = returns (text "[Circular Reference]") seen
  convert_thing a true (opaque s) seen = returns (text "[Circular Reference]") seen
  convert_thing a false (dictionary d) seen =
      then_answer (convert_fields d end (a ∷ seen)) λ fs seen1. returns (object fs) seen1
  convert_thing a false (sequence vs) seen =
      then_answer (convert_items vs (a ∷ seen)) λ cs seen1. returns (array cs) seen1
  convert_thing a false (wrapper v) seen = with_result v λ o. convert o (a ∷ seen)
  convert_thing a false (opaque s) seen = with_result s λ t. returns (text t) seen

abbrev pub text_or_error : Result String → String
text_or_error (ok s) = s
text_or_error (raise e) = text_append "[Unserializable: " (text_append e.message "]")

abbrev pub dumped : (Converted → Result String) → Result (Converted × List ℕ) → Result String
dumped dumps (raise e) = raise e
dumped dumps (ok (c, seen)) = dumps c

abbrev pub stringified : (Converted → Result String) → Answer Converted → Option String
stringified dumps none = none
stringified dumps (some r) = some (text_or_error (dumped dumps r))

module _ (heap : ℕ → Thing) (max_depth : ℕ) where
  -- `_safe_convert`; `none` if the fuel is used up
  unfoldable pub safe_convert : ℕ → ℕ → Value → List ℕ → Answer Converted
  unfolding convert_thing is_seen
  safe_convert zero depth v seen = none
  safe_convert (suc fuel) depth (ref a) seen =
      let deeper = safe_convert fuel (suc depth) in
      if ltb max_depth depth
      then returns (text "[Max Depth Reached]") seen
      else convert_thing deeper a (is_seen a seen) (heap a) seen
  safe_convert (suc fuel) depth null seen = returns (plain null) seen
  safe_convert (suc fuel) depth (boolean b) seen = returns (plain (boolean b)) seen
  safe_convert (suc fuel) depth (number n) seen = returns (plain (number n)) seen
  safe_convert (suc fuel) depth (str s) seen = returns (plain (str s)) seen

  -- `dumps` is that of `orjson` or `json`.
  unfoldable pub safe_stringify : (Converted → Result String) → Value → Option String
  safe_stringify dumps v = stringified dumps (safe_convert (suc (suc max_depth)) 0 v [])

pub data Stream : Type 0 where
  stdout stderr : Stream

abbrev pub with_context : String → Option String → String
with_context payload none = payload
with_context payload (some context) = text_append payload (text_append " " context)

-- `_internal_log`: what is written where, if anything is. `debug` and `silent` are
-- `is_debug_enabled()` and `is_silent_errors_enabled()`, `context` what `safe_stringify` makes of it.
unfoldable pub internal_log :
    Bool → Bool → String → String → Option String → Option (Stream × String)
internal_log debug silent level message context =
    let is_problem = level == "warn" || level == "error" in
    let payload = with_context (text_append "[logs-interceptor] " message) context in
    if level == "debug" && not debug
    then none
    else if is_problem && silent
    then none
    else some ((if is_problem then stderr else stdout), text_append payload "\n")
