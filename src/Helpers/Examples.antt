-- ===== src/Helpers/Examples.antt =====
-- Labels, sizes, errors and samples.
use logs_interceptor_python.Base.{
  ℕ, ◌+◌, true, false, ◌≡◌, refl, String, none, some, [], ◌∷◌, ◌==◌, String_comparable,
  if◌then◌else◌,
}
use logs_interceptor_python.Base.Text.{remove_prefix, split_on, decimal}
use logs_interceptor_python.Domain.{number, str}
use logs_interceptor_python.Helpers.{
  Loaded, failed, put_labels, parse_labels, format_bytes, extract_error_metadata, parse_stack_trace,
}
use logs_interceptor_python.Helpers.Sampling.{should_sample_advanced}

abbrev loads : String → Loaded
loads s = failed

abbrev draw : ℕ → ℕ × ℕ
draw w = (w, w + 1)

abbrev half : String → ℕ
half key = 2147483647

parsed :
    (parse_labels loads "team = a, url=x=1,b,=c" ≡ ("team", "a") ∷ ("url", "x=1") ∷ [])
    × (parse_labels loads "{" ≡ [])
    × (parse_labels loads "" ≡ [])
unfolding parse_labels put_labels remove_prefix split_on
parsed = (refl, refl, refl)

formatted :
    (format_bytes (λ n d. decimal n) 0 ≡ "0 Bytes")
    × (format_bytes (λ n d. decimal d) 1048576 ≡ "1048576 MB")
unfolding format_bytes decimal
formatted = (refl, refl)

described :
    extract_error_metadata "OSError" "no" (λ a. if a == "errno" then some (number 2) else none)
    ≡ ("name", str "OSError") ∷ ("message", str "no") ∷ ("errno", number 2) ∷ []
unfolding extract_error_metadata
described = refl

framed :
    parse_stack_trace (λ line. if line == "" then none else some line) ("a" ∷ "" ∷ "b" ∷ [])
    ≡ "a" ∷ "b" ∷ []
unfolding parse_stack_trace
framed = refl

-- A key whose digest is half of the greatest is taken at a rate of 60 %, not at 40 %.
sampled :
    (should_sample_advanced draw half (λ rate. none) 600000 "deterministic" (some "a") 0
      ≡ (true, 0))
    × (should_sample_advanced draw half (λ rate. none) 400000 "deterministic" (some "a") 0
        ≡ (false, 0))
    × (should_sample_advanced draw half (λ rate. some 500) 400000 "adaptive" none 600
        ≡ (false, 601))
unfolding should_sample_advanced
sampled = (refl, refl, refl)
