-- ===== src/Facade/Coerce/Written.antt =====
-- A setting that may be left out, written and read.
use logs_interceptor_python.Base.{
  ℕ, ◌≡◌, refl, String, Bool, Option, none, some, List, String_comparable,
}
use logs_interceptor_python.Base.Dict.{Dict}
use logs_interceptor_python.Facade.Coerce.Readers.{
  Setting, nothing, boolean, integer, real, text, texts, text_map, provider_map, as_int, as_bool,
  as_float, as_text, as_texts, as_text_map, as_providers, as_compression, maybe,
}
use logs_interceptor_python.Settings.Numbers.{ℤ, Float}
use logs_interceptor_python.Settings.Records.{CompressionSetting}

abbrev pub written : {A : Type 0} → (A → Setting) → Option A → Setting
written make none = nothing
written make (some a) = make a

abbrev pub compression_setting : CompressionSetting → Setting
compression_setting (CompressionSetting.flag b) = boolean b
compression_setting (CompressionSetting.name s) = text s

pub maybe-int : (o : Option ℤ) → maybe as_int (written integer o) ≡ some o
maybe-int none = refl
maybe-int (some a) = refl

pub maybe-bool : (o : Option Bool) → maybe as_bool (written boolean o) ≡ some o
maybe-bool none = refl
maybe-bool (some a) = refl

pub maybe-text : (o : Option String) → maybe as_text (written text o) ≡ some o
maybe-text none = refl
maybe-text (some a) = refl

pub maybe-compression :
    (o : Option CompressionSetting) → maybe as_compression (written compression_setting o) ≡ some o
maybe-compression none = refl
maybe-compression (some (CompressionSetting.flag b)) = refl
maybe-compression (some (CompressionSetting.name s)) = refl

pub maybe-texts : (o : Option (List String)) → maybe as_texts (written texts o) ≡ some o
maybe-texts none = refl
maybe-texts (some a) = refl

pub maybe-float : (o : Option Float) → maybe as_float (written real o) ≡ some o
maybe-float none = refl
maybe-float (some a) = refl

pub maybe-text_map :
    (o : Option (Dict String String)) → maybe as_text_map (written text_map o) ≡ some o
maybe-text_map none = refl
maybe-text_map (some a) = refl

pub maybe-providers :
    (o : Option (Dict String ℕ)) → maybe as_providers (written provider_map o) ≡ some o
maybe-providers none = refl
maybe-providers (some a) = refl
