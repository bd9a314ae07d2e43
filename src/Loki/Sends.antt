-- ===== src/Loki/Sends.antt =====
-- What `LokiJsonTransport.send` counts, and which refusals are worth a retry.
use logs_interceptor_python.Base.{
  ℕ, ◌+◌, ◌≤◌, ◌≡◌, ◌≢◌, refl, ◌∙◌, ap, String, true, false, ◌||◌, some, List, [], ◌∷◌, leb, ◌==◌,
  ℕ_comparable, if◌then◌else◌, arith,
}
use logs_interceptor_python.Base.Dict.{Dict}
use logs_interceptor_python.Domain.{LogEntryEntity}
use logs_interceptor_python.Errors.{Result, ok, raise}
use logs_interceptor_python.Loki.{
  Bytes, Response, Compressor, LokiConfig, LokiJsonTransport, Sent, response_error, headers_for,
  compresses, judge_response, post_body, post_raw, record_success, record_failure, settle, send,
}
use logs_interceptor_python.Resilient.{is_retryable_error}

-- How a send ended, and the transport before and after.
abbrev pub Counted : Result (Unit {0}) → LokiJsonTransport → LokiJsonTransport → Type 0
Counted (ok _) t t' =
    (t'.health.healthy ≡ true)
    × (t'.health.consecutive_failures ≡ 0)
    × (t'.metrics.successful_sends ≡ t.metrics.successful_sends + 1)
    × (t'.metrics.failed_sends ≡ t.metrics.failed_sends)
Counted (raise e) t t' =
    (t'.health.healthy ≡ false)
    × (t'.health.consecutive_failures ≡ t.health.consecutive_failures + 1)
    × (t'.health.error_message ≡ some e.message)
    × (t'.metrics.successful_sends ≡ t.metrics.successful_sends)
    × (t'.metrics.failed_sends ≡ t.metrics.failed_sends + 1)

settle-Counted :
    (now n : ℕ) (r : Result Sent) (t : LokiJsonTransport)
    → let (r', t') = settle now r (record t { metrics = record t.metrics { total_sends = n } }) in
      (t'.metrics.total_sends ≡ n) × Counted r' t t'
unfolding settle record_success record_failure
settle-Counted now n (ok sent) t = (refl, (refl, refl, refl, refl))
settle-Counted now n (raise e) t = (refl, (refl, refl, refl, refl, refl))

module _ {W : Type 0} (config : LokiConfig) (compressor : Compressor)
    (post : Dict String String → Bytes → W → Result Response × W)
    (dumped : List LogEntryEntity → Result Bytes) where
  -- A `send` of a batch that is not empty counts one more sending; if it returns, one more
  -- success, and the transport is healthy with no failure in a row, and if it raises, one more
  -- failure, in a row as well, and the transport is unhealthy with the text of the error.
  pub send-Counted :
      (now : ℕ) (entries : List LogEntryEntity) (t : LokiJsonTransport) (w : W)
      → entries ≢ []
      → let (r, t', _) = send config compressor post dumped now entries t w in
        (t'.metrics.total_sends ≡ t.metrics.total_sends + 1) × Counted r t t'
  unfolding send
  send-Counted now [] t w some_entry = absurd (some_entry refl)
  send-Counted now (x ∷ xs) t w some_entry =
      settle-Counted now (t.metrics.total_sends + 1)
        (post_raw config compressor post (dumped (x ∷ xs)) w).0 t

  refused :
      (raw body : Bytes) (response : Response)
      → 300 ≤ response.status_code
      → judge_response config compressor post raw body (ok response)
        ≡ raise (response_error response)
  refused raw body response h = ground arith

  post_raw-refused :
      (w : W) (raw : Bytes) (response : Response)
      → compresses config compressor raw ≡ false
      → (post (headers_for config compressor false) raw w).0 ≡ ok response
      → 300 ≤ response.status_code
      → (post_raw config compressor post (ok raw) w).0 ≡ raise (response_error response)
  unfolding post_raw
  post_raw-refused w raw response plain answer bad =
      ap
        (λ c.
          (post_body config compressor post c raw (if c then compressor.compress raw else ok raw)
            w).0)
        plain
      ∙ ap (judge_response config compressor post raw raw) answer
      ∙ refused raw raw response bad

  -- If the answer to a batch that is not empty and not compressed has a status of 300 or more,
  -- `send` raises an error with that status and the transport is unhealthy; `ResilientTransport`
  -- holds the error for worth a retry just when the status is 429 or at least 500.
  pub send_refused :
      (now : ℕ) (entries : List LogEntryEntity) (t : LokiJsonTransport) (w : W) (raw : Bytes)
      (response : Response)
      → entries ≢ []
      → dumped entries ≡ ok raw
      → compresses config compressor raw ≡ false
      → (post (headers_for config compressor false) raw w).0 ≡ ok response
      → 300 ≤ response.status_code
      → let (r, t', _) = send config compressor post dumped now entries t w in
        (r ≡ raise (response_error response))
        × (t'.health.healthy ≡ false)
        × (is_retryable_error (response_error response)
            ≡ (response.status_code == 429 || leb 500 response.status_code))
  unfolding send settle record_failure response_error is_retryable_error
  send_refused now [] t w raw response some_entry payload plain answer bad =
      absurd (some_entry refl)
  send_refused now (x ∷ xs) t w raw response some_entry payload plain answer bad =
      let n = t.metrics.total_sends + 1 in
      let t1 = record t { metrics = record t.metrics { total_sends = n } } in
      let ended : (post_raw config compressor post (dumped (x ∷ xs)) w).0
          ≡ raise (response_error response) =
        ap (λ d. (post_raw config compressor post d w).0) payload
        ∙ post_raw-refused w raw response plain answer bad in
      (
        ap (λ r. (settle now r t1).0) ended,
        ap (λ r. (settle now r t1).1.health.healthy) ended,
        refl,
      )
