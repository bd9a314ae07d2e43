-- ===== src/Resilient/Retry.antt =====
-- `_retry_operation`: which attempts are made, how the waits between them grow, what is counted.
use mathlib.Core.Path.{subst}
use logs_interceptor_python.Base.{
  ℕ, zero, suc, ◌+◌, ◌≤◌, ◌<◌, ◌≡◌, refl, sym, ◌∙◌, Bool, true, false, not, ◌&&◌, ltb,
  if◌then◌else◌, Bool-cases, inl, inr, arith,
}
use logs_interceptor_python.Errors.{Result, ok, raise}
use logs_interceptor_python.Interfaces.{Host, TransportMetrics}
use logs_interceptor_python.Resilient.{
  ResilientTransportConfig, Scene, is_retryable_error, pause, count_retry, judge, attempts,
  retry_operation,
}

-- A failure that is worth another attempt.
abbrev pub is_retryable : Result (Unit {0}) → Bool
is_retryable (ok _) = false
is_retryable (raise e) = is_retryable_error e

-- `k` retries: one more request among those that were retried, unless there was none.
abbrev pub counted : Bool → ℕ → TransportMetrics → TransportMetrics
counted before k m = record m {
  retried_requests = m.retried_requests + (if not before && ltb 0 k then 1 else 0);
  retry_attempts = m.retry_attempts + k;
}

stop :
    {A : Type 0} (r : Result (Unit {0})) (again : Result (Unit {0}) × A) (a : A)
    → is_retryable r ≡ false
    → judge r again a ≡ (r, a)
stop (ok x) again a h = refl
stop (raise e) again a h = rw h refl

go_on :
    {A : Type 0} (r : Result (Unit {0})) (again : Result (Unit {0}) × A) (a : A)
    → is_retryable r ≡ true
    → judge r again a ≡ again
go_on (ok x) again a h = cc
go_on (raise e) again a h = rw h refl

same_counts :
    (m m' : TransportMetrics) (r a : ℕ)
    → m ≡ record m' { retried_requests = m.retried_requests; retry_attempts = m.retry_attempts }
    → m.retried_requests ≡ r
    → m.retry_attempts ≡ a
    → m ≡ record m' { retried_requests = r; retry_attempts = a }
same_counts m m' r a e er ea = e ∙ λ i. record m' { retried_requests = er i; retry_attempts = ea i }

counted_none : (b : Bool) (m : TransportMetrics) → m ≡ counted b 0 m
counted_none true m = same_counts m m _ _ refl (omega arith) (omega arith)
counted_none false m = same_counts m m _ _ refl (omega arith) (omega arith)

counted_more :
    (b : Bool) (k : ℕ) (m : TransportMetrics)
    → counted true k (count_retry b m) ≡ counted b (suc k) m
counted_more true k m =
    same_counts (counted true k (count_retry true m)) m _ _ refl refl (omega arith)
counted_more false k m =
    same_counts (counted true k (count_retry false m)) m _ _ refl (ground arith) (omega arith)

module _ {W : Type 0} (host : Host W) (config : ResilientTransportConfig)
    (operation : W → Result (Unit {0}) × W) where
  -- The world before the `i`-th attempt that follows attempt number `attempt`.
  unfoldable pub world_at : ℕ → W → ℕ → W
  world_at attempt w zero = w
  world_at attempt w (suc i) = world_at (attempt + 1) (pause host config attempt (operation w).1) i

  failed_again :
      (attempt : ℕ) (w : W) (k : ℕ)
      → is_retryable (operation w).0 ≡ true
      → ((i : ℕ)
          → i < k
          → is_retryable
              (operation (world_at (attempt + 1) (pause host config attempt (operation w).1) i)).0
            ≡ true)
      → (i : ℕ) → i < suc k
      → is_retryable (operation (world_at attempt w i)).0 ≡ true
  unfolding world_at
  failed_again attempt w k first more zero less = first
  failed_again attempt w k first more (suc i) less = more i (omega (arith, less))

  -- The run from attempt number `attempt` on: it takes `k` retries, no more than are `left`.
  pub record Runs (left attempt : ℕ) (before : Bool) (s : Scene W) (k : ℕ)
      (out : Result (Unit {0}) × Scene W) : Type 0 where
    pub within : k ≤ left
    pub failed : (i : ℕ) → i < k → is_retryable (operation (world_at attempt s.world i)).0 ≡ true
    pub ended : k < left → is_retryable (operation (world_at attempt s.world k)).0 ≡ false
    pub result : out.0 ≡ (operation (world_at attempt s.world k)).0
    pub world : out.1.world ≡ (operation (world_at attempt s.world k)).1
    pub metrics : out.1.metrics ≡ counted before k s.metrics

  Runs-at_once :
      (left attempt : ℕ) (before : Bool) (s : Scene W)
      → (0 < left → is_retryable (operation s.world).0 ≡ false)
      → Runs left attempt before s 0
          ((operation s.world).0, record s { world = (operation s.world).1 })
  unfolding world_at
  Runs-at_once left attempt before s h = record {
    within = omega arith;
    failed = λ i less. absurd (omega (arith, less));
    ended = h;
    result = refl;
    world = refl;
    metrics = counted_none before s.metrics;
  }

  Runs-again :
      (left attempt : ℕ) (before : Bool) (s : Scene W) (k : ℕ) (out : Result (Unit {0}) × Scene W)
      → is_retryable (operation s.world).0 ≡ true
      → Runs left
          (attempt + 1)
          true
          (record {
            metrics = count_retry before s.metrics;
            world = pause host config attempt (operation s.world).1;
          })
          k
          out
      → Runs (suc left) attempt before s (suc k) out
  unfolding world_at
  Runs-again left attempt before s k out first more = record {
    within = omega (arith, more.within);
    failed = failed_again attempt s.world k first more.failed;
    ended = λ less. more.ended (omega (arith, less));
    result = more.result;
    world = more.world;
    metrics = more.metrics ∙ counted_more before k s.metrics;
  }

  attempts-Runs :
      (left attempt : ℕ) (before : Bool) (s : Scene W)
      → (k : ℕ) × Runs left attempt before s k
          (attempts host config operation left attempt before s)
  unfolding attempts world_at
  attempts-Runs zero attempt before s =
      (0, Runs-at_once zero attempt before s (λ h. absurd (omega (arith, h))))
  attempts-Runs (suc left) attempt before s =
      let next : Scene W = record {
        metrics = count_retry before s.metrics;
        world = pause host config attempt (operation s.world).1;
      } in
      let (k, more) = attempts-Runs left (attempt + 1) true next in
      elim (Bool-cases (is_retryable (operation s.world).0)) [
        | inl again ↦ (
          suc k,
          subst (Runs (suc left) attempt before s (suc k)) (sym (go_on _ _ _ again))
              (Runs-again left attempt before s k _ again more),
        )
        | inr stops ↦ (
          0,
          subst (Runs (suc left) attempt before s 0) (sym (stop _ _ _ stops))
              (Runs-at_once (suc left) attempt before s (λ _. stops)),
        )
      ]

  -- The retry loop takes some number `k` of retries, at most `max_retries`: the first `k` attempts
  -- fail with a retryable error, each followed by the pause for its number, and the attempt after
  -- them is the last, which is no such failure unless `max_retries` is reached; its result is the
  -- result, and the retries and the request are counted.
  pub retry_operation-Runs :
      (s : Scene W)
      → (k : ℕ) × Runs config.max_retries 0 false s k (retry_operation host config operation s)
  unfolding retry_operation
  retry_operation-Runs s = attempts-Runs config.max_retries 0 false s
