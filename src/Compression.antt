-- ===== src/Compression.antt =====
-- src/logs_interceptor/infrastructure/compression: the compressors, their factory, and how
-- `LokiJsonTransport` uses them. The libraries `gzip` and `brotli` are parameters; `brotli` is
-- `none` if it is not installed.
pub mod Decodes
mod Examples
use logs_interceptor_python.Base.{
  String, Bool, true, false, not, Option, none, some, ◌==◌, String_comparable, if◌then◌else◌,
}
use logs_interceptor_python.Errors.{Result, ok, raise, runtime_error}
use logs_interceptor_python.Loki.{Bytes}
use logs_interceptor_python.Loki
use logs_interceptor_python.Settings.Numbers.{ℤ, pos}
use logs_interceptor_python.Settings.Records.{CompressionSetting, flag, name}

-- The thresholds of a `CompressorConfig` are not read.
pub record CompressorConfig : Type 0 where
  pub level : Option ℤ

pub data Compressor : Type 0 where
  noop : Compressor
  gzip brotli : ℤ → Compressor

abbrev pub level_or : ℤ → Option CompressorConfig → ℤ
level_or default none = default
level_or default (some config) = elim config.level [ none ↦ default | some level ↦ level ]

-- the constructors of the compressors
abbrev pub gzip_compressor : Option CompressorConfig → Compressor
gzip_compressor config = gzip (level_or (pos 6) config)

abbrev pub brotli_compressor : Option CompressorConfig → Compressor
brotli_compressor config = brotli (level_or (pos 4) config)

unfoldable pub create : Option CompressionSetting → Option CompressorConfig → Compressor
create none config = gzip_compressor config
create (some (flag false)) config = noop
create (some (flag true)) config = gzip_compressor config
create (some (name s)) config =
    if s == "none"
    then noop
    else if s == "gzip"
    then gzip_compressor config
    else if s == "brotli"
    then brotli_compressor config
    else gzip_compressor config

unfoldable pub get_name : Compressor → String
get_name noop = "none"
get_name (gzip level) = "gzip"
get_name (brotli level) = "brotli"

unfoldable pub get_content_encoding : Compressor → String
get_content_encoding noop = ""
get_content_encoding (gzip level) = "gzip"
get_content_encoding (brotli level) = "br"

module _ (gzip_compress : ℤ → Bytes → Result Bytes)
    (brotli_compress : Option (ℤ → Bytes → Result Bytes)) where
  unfoldable pub compress : Compressor → Bytes → Result Bytes
  compress noop raw = ok raw
  compress (gzip level) raw = gzip_compress level raw
  compress (brotli level) raw = elim brotli_compress [
    | none ↦ raise (runtime_error "brotli extra is not installed")
    | some library ↦ library level raw
  ]

  -- what the transport reads of its compressor
  unfoldable pub of_transport : Compressor → Loki.Compressor
  unfolding compress get_name get_content_encoding
  of_transport c = record {
    compresses = not (get_name c == "none");
    compress = compress c;
    content_encoding = some (get_content_encoding c);
  }
