-- ===== src/Compression/Decodes.antt =====
-- The receiver of a body that reads the header `Content-Encoding`.
use logs_interceptor_python.Base.{
  ◌≡◌, ◌∙◌, refl, ap, String, Bool, true, false, Option, none, some, [], ◌∷◌, ◌==◌,
  String_comparable, if◌then◌else◌, arith,
}
use logs_interceptor_python.Base.Dict.{
  Dict, lookup, insert, update, lookup-insert, lookup-update, latest,
}
use logs_interceptor_python.Base.Text.{is_blank}
use logs_interceptor_python.Domain.{if_text}
use logs_interceptor_python.Compression.{
  CompressorConfig, Compressor, noop, gzip, brotli, create, compress, get_name,
  get_content_encoding, of_transport,
}
use logs_interceptor_python.Errors.{Result, ok}
use logs_interceptor_python.Loki
use logs_interceptor_python.Loki.{Bytes, LokiConfig, headers_for}
use logs_interceptor_python.Settings.Numbers.{ℤ}
use logs_interceptor_python.Settings.Records.{CompressionSetting}

abbrev pub encoding_header : String
encoding_header = "Content-Encoding"

module _ (gunzip unbrotli : Bytes → Option Bytes) where
  -- what a receiver reads of a body
  unfoldable pub decode : Option String → Bytes → Option Bytes
  decode none body = some body
  decode (some encoding) body =
      if encoding == "gzip" then gunzip body else if encoding == "br" then unbrotli body else none

compresses-named :
    (config : LokiConfig) (c : Loki.Compressor) (raw : Bytes)
    → Loki.compresses config c raw ≡ true
    → c.compresses ≡ true
unfolding Loki.compresses
compresses-named config c raw h = ground arith

-- What a compressing library promises: what it makes is undone.
abbrev pub Undoes : (Bytes → Option Bytes) → (ℤ → Bytes → Result Bytes) → Type 0
Undoes undo make = (level : ℤ) (raw body : Bytes) → make level raw ≡ ok body → undo body ≡ some raw

-- the body that is sent
abbrev pub body_of : Loki.Compressor → LokiConfig → Bytes → Result Bytes
body_of c config raw = if Loki.compresses config c raw then c.compress raw else ok raw

lookup-authorized :
    (blank : Bool) (token : String) (d : Dict String String)
    → lookup encoding_header (if blank then d else insert "Authorization" token d)
      ≡ lookup encoding_header d
lookup-authorized true token d = refl
lookup-authorized false token d = lookup-insert "Authorization" encoding_header token d

lookup-insert_if :
    (blank : Bool) (e : String) (d : Dict String String)
    → lookup encoding_header d ≡ none
    → lookup encoding_header (if blank then d else insert encoding_header e d)
      ≡ (if blank then none else some e)
lookup-insert_if true e d h = h
lookup-insert_if false e d h = lookup-insert encoding_header encoding_header e d

lookup-with_encoding :
    (o : Option String) (d : Dict String String)
    → lookup encoding_header d ≡ none
    → lookup encoding_header (Loki.with_encoding o d) ≡ if_text o
lookup-with_encoding none d h = h
lookup-with_encoding (some e) d h = lookup-insert_if (is_blank e) e d h

lookup-fixed :
    (tenant : String) (extra : Dict String String)
    → latest encoding_header extra none ≡ none
    → lookup encoding_header (
        update
          (("Content-Type", "application/json")
            ∷ ("X-Scope-OrgID", tenant)
            ∷ ("User-Agent", "elven-logs-interceptor-python/0.1.2")
            ∷ [])
          extra)
      ≡ none
unfolding lookup
lookup-fixed tenant extra own = lookup-update encoding_header _ extra ∙ own

-- The header, if the headers of the caller do not set it.
lookup-headers_for :
    (config : LokiConfig) (c : Loki.Compressor) (compressed : Bool)
    → latest encoding_header config.extra_headers none ≡ none
    → lookup encoding_header (headers_for config c compressed)
      ≡ (if compressed then if_text c.content_encoding else none)
unfolding headers_for
lookup-headers_for config c true own = lookup-with_encoding c.content_encoding _ (
    lookup-authorized (is_blank config.auth_token) _ _
    ∙ lookup-fixed config.tenant_id config.extra_headers own)
lookup-headers_for config c false own =
    lookup-authorized (is_blank config.auth_token) _ _
    ∙ lookup-fixed config.tenant_id config.extra_headers own

module _ (gzip_compress : ℤ → Bytes → Result Bytes)
    (brotli_compress : Option (ℤ → Bytes → Result Bytes)) (gunzip unbrotli : Bytes → Option Bytes)
    (gzip_undoes : Undoes gunzip gzip_compress)
    (brotli_undoes : (library : ℤ → Bytes → Result Bytes)
      → brotli_compress ≡ some library
      → Undoes unbrotli library) where
  abbrev transport_of : Compressor → Loki.Compressor
  transport_of = of_transport gzip_compress brotli_compress

  -- without `brotli` nothing is made
  decode-brotli :
      (installed : Option (ℤ → Bytes → Result Bytes)) (level : ℤ) (raw body : Bytes)
      → ((library : ℤ → Bytes → Result Bytes) → installed ≡ some library → Undoes unbrotli library)
      → compress gzip_compress installed (brotli level) raw ≡ ok body
      → unbrotli body ≡ some raw
  unfolding compress
  decode-brotli none level raw body undoes made = cc
  decode-brotli (some library) level raw body undoes made = undoes library refl level raw body made

  decode-compress :
      (c : Compressor) (raw body : Bytes)
      → (transport_of c).compresses ≡ true
      → compress gzip_compress brotli_compress c raw ≡ ok body
      → decode gunzip unbrotli (if_text (some (get_content_encoding c))) body ≡ some raw
  unfolding of_transport get_name compress get_content_encoding decode
  decode-compress noop raw body h made = cc
  decode-compress (gzip level) raw body h made = gzip_undoes level raw body made
  decode-compress (brotli level) raw body h made =
      decode-brotli brotli_compress level raw body brotli_undoes made

  decode-body :
      (config : LokiConfig) (c : Compressor) (compressed : Bool) (raw body : Bytes)
      → latest encoding_header config.extra_headers none ≡ none
      → (compressed ≡ true → (transport_of c).compresses ≡ true)
      → (if compressed then (transport_of c).compress raw else ok raw) ≡ ok body
      → decode gunzip unbrotli
          (lookup encoding_header (headers_for config (transport_of c) compressed))
          body
        ≡ some raw
  unfolding of_transport decode
  decode-body config c true raw body own named made =
      ap (λ o. decode gunzip unbrotli o body) (lookup-headers_for config (transport_of c) true own)
      ∙ decode-compress c raw body (named refl) made
  decode-body config c false raw body own named made =
      ap (λ o. decode gunzip unbrotli o body) (lookup-headers_for config (transport_of c) false own)
      ∙ cc

  -- For a `gzip` and a `brotli` that can be undone and extra headers that do not set
  -- `Content-Encoding`: whatever compression is chosen, a receiver that undoes the encoding that
  -- the headers of a request name gets back the payload from the body that is made of it.
  pub headers_for-decodes :
      (setting : Option CompressionSetting) (level : Option CompressorConfig) (config : LokiConfig)
      (raw body : Bytes)
      → latest encoding_header config.extra_headers none ≡ none
      → body_of (transport_of (create setting level)) config raw ≡ ok body
      → let c = transport_of (create setting level) in
        decode gunzip unbrotli
          (lookup encoding_header (headers_for config c (Loki.compresses config c raw)))
          body
        ≡ some raw
  headers_for-decodes setting level config raw body own made =
      let c = create setting level in
      let compressing = Loki.compresses config (transport_of c) raw in
      decode-body config c compressing raw body own (compresses-named config (transport_of c) raw)
        made
