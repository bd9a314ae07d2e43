-- ===== src/Facade/Coerce/Readers.antt =====
-- src/logs_interceptor/__init__.py: `_pick`, and the settings that a dict of the caller holds, of the
-- types that config.py annotates.
use logs_interceptor_python.Base.{ℕ, String, Bool, Option, none, some, List, String_comparable}
use logs_interceptor_python.Base.Dict.{Dict, lookup}
use logs_interceptor_python.Settings.Numbers.{ℤ, Float}
use logs_interceptor_python.Settings.Records.{CompressionSetting, LogsInterceptorConfig}

infixl 5 ◌>>=◌
-- A value of a dict; `nothing` is None.
pub data Setting : Type 0 where
  nothing : Setting
  boolean : Bool → Setting
  integer : ℤ → Setting
  real : Float → Setting
  text : String → Setting
  texts : List String → Setting
  text_map : Dict String String → Setting
  provider_map : Dict String ℕ → Setting

pub data Entry : Type 0 where
  value : Setting → Entry
  section : Dict String Setting → Entry

-- What `init` is given.
pub data UserConfig : Type 0 where
  no_user : UserConfig
  config_of : LogsInterceptorConfig → UserConfig
  dict_of : Dict String Entry → UserConfig

unfoldable pub pick : {V : Type 0} → Dict String V → String → String → V → V
unfolding lookup
pick config snake camel default = elim (lookup snake config) [
  | some v ↦ v
  | none ↦ elim (lookup camel config) [ some v ↦ v | none ↦ default ]
]

-- A chain of readings; `none` is a value of another type, which the program passes on unread.
abbrev pub ◌>>=◌ : {A B : Type 0} → Option A → (A → Option B) → Option B
none >>= f = none
some a >>= f = f a

abbrev pub as_int : Setting → Option ℤ
as_int (integer z) = some z
as_int v = none

abbrev pub as_bool : Setting → Option Bool
as_bool (boolean b) = some b
as_bool v = none

abbrev pub as_float : Setting → Option Float
as_float (real x) = some x
as_float v = none

abbrev pub as_text : Setting → Option String
as_text (text s) = some s
as_text v = none

abbrev pub as_texts : Setting → Option (List String)
as_texts (texts l) = some l
as_texts v = none

abbrev pub as_text_map : Setting → Option (Dict String String)
as_text_map (text_map d) = some d
as_text_map v = none

abbrev pub as_providers : Setting → Option (Dict String ℕ)
as_providers (provider_map d) = some d
as_providers v = none

abbrev pub as_compression : Setting → Option CompressionSetting
as_compression (boolean b) = some (CompressionSetting.flag b)
as_compression (text s) = some (CompressionSetting.name s)
as_compression v = none

abbrev pub maybe : {A : Type 0} → (Setting → Option A) → Setting → Option (Option A)
maybe reader nothing = some none
maybe reader v = reader v >>= λ a. some (some a)

abbrev pub read :
    {A : Type 0} → (Setting → Option A) → Dict String Setting → String → String → Option A
read reader config snake camel = reader (pick config snake camel nothing)
