-- ===== src/Compression/Examples.antt =====
-- A library that marks what it makes, and the theorem with it.
use logs_interceptor_python.Base.{
  String_comparable, ◌≡◌, refl, sym, ap, true, Option, none, some, [], ◌∷◌,
}
use logs_interceptor_python.Base.Dict.{lookup, latest}
use logs_interceptor_python.Compression.{noop, gzip, brotli, create, of_transport}
use logs_interceptor_python.Compression.Decodes.{
  encoding_header, decode, Undoes, headers_for-decodes,
}
use logs_interceptor_python.Errors.{Result, ok, raise}
use logs_interceptor_python.Loki
use logs_interceptor_python.Loki.{Bytes, LokiConfig, headers_for}
use logs_interceptor_python.Settings.Numbers.{ℤ, pos}
use logs_interceptor_python.Settings.Records.{flag, name}

abbrev gzip_compress : ℤ → Bytes → Result Bytes
gzip_compress level raw = ok (31 ∷ raw)

abbrev gunzip : Bytes → Option Bytes
gunzip [] = none
gunzip (mark ∷ raw) = some raw

abbrev unbrotli : Bytes → Option Bytes
unbrotli body = none

abbrev gunzip_made : Result Bytes → Option Bytes
gunzip_made (ok body) = gunzip body
gunzip_made (raise e) = none

gzip-Undoes : Undoes gunzip gzip_compress
gzip-Undoes level raw body made = ap gunzip_made (sym made)

choices :
    (create none none ≡ gzip (pos 6))
    × (create (some (name "none")) none ≡ noop)
    × (create (some (name "brotli")) none ≡ brotli (pos 4))
    × (create (some (name "snappy")) (some (record { level = some (pos 9) })) ≡ gzip (pos 9))
unfolding create
choices = (refl, refl, refl, refl)

abbrev config : LokiConfig
config = record {
  tenant_id = "t";
  auth_token = "key";
  compression_threshold = 2;
  extra_headers = ("X-Team", "a") ∷ [];
}

abbrev compressor : Loki.Compressor
compressor = of_transport gzip_compress none (create (some (flag true)) none)

headers_for-decodes_example :
    decode gunzip unbrotli
      (lookup encoding_header
        (headers_for config compressor (Loki.compresses config compressor (1 ∷ 2 ∷ []))))
      (31 ∷ 1 ∷ 2 ∷ [])
    ≡ some (1 ∷ 2 ∷ [])
unfolding Loki.compresses of_transport create latest
headers_for-decodes_example =
    headers_for-decodes gzip_compress none gunzip unbrotli gzip-Undoes
      (λ library e level raw body made. cc) (some (flag true)) none config (1 ∷ 2 ∷ [])
      (31 ∷ 1 ∷ 2 ∷ []) refl refl
