-- ===== src/Metrics/Percentiles.antt =====
-- The percentiles of the latencies.
use logs_interceptor_python.Base.{
  ℕ, ◌-◌, ◌≤◌, ◌<◌, ◌≡◌, refl, true, List, [], ◌∷◌, length, min, max, arith,
}
use logs_interceptor_python.Metrics.{
  Floats, MetricsCollector, LatencyMetrics, sorted, get_percentile, latency_metrics,
  get_latency_metrics,
}
use logs_interceptor_python.Metrics.Sorting.{
  Member, value_at-Member, IsOrdered, Ascending, sorted-Ascending, value_at-le, Member-sorted,
  length-sorted,
}

module _ (floats : Floats) (ordered : IsOrdered floats) where
  open floats use {Float, le, zero_float, scaled}

  -- In order, and each of them one of the values.
  pub record IsSpread (values : List Float) (r : LatencyMetrics Float) : Type 0 where
    pub least-p50 : le r.least r.p50 ≡ true
    pub p50-p95 : le r.p50 r.p95 ≡ true
    pub p95-p99 : le r.p95 r.p99 ≡ true
    pub p99-p999 : le r.p99 r.p999 ≡ true
    pub p999-greatest : le r.p999 r.greatest ≡ true
    pub has_least : Member r.least values
    pub has_p50 : Member r.p50 values
    pub has_p95 : Member r.p95 values
    pub has_p99 : Member r.p99 values
    pub has_p999 : Member r.p999 values
    pub has_greatest : Member r.greatest values

  -- the index of a percentile in `n` values
  abbrev place : ℕ → ℕ → ℕ
  place percentile n = min (max (scaled percentile n) 1) n - 1

  -- a percentile is less than a higher one, of the same values
  percentile-le :
      (y : Float) (ys : List Float) (p q : ℕ)
      → Ascending floats ordered (y ∷ ys)
      → p ≤ q
      → le (get_percentile floats (y ∷ ys) p) (get_percentile floats (y ∷ ys) q) ≡ true
  unfolding get_percentile
  percentile-le y ys p q a h =
      let n = length (y ∷ ys) in
      let mono = ordered.scaled_mono p q n h in
      value_at-le floats ordered zero_float (y ∷ ys) (place p n) (place q n) a (omega arith)
        (omega arith)

  percentile-Member :
      (y : Float) (ys : List Float) (p : ℕ) → Member (get_percentile floats (y ∷ ys) p) (y ∷ ys)
  unfolding get_percentile
  percentile-Member y ys p =
      value_at-Member zero_float (y ∷ ys) (place p (length (y ∷ ys))) (omega arith)

  metrics-IsSpread :
      (values : List Float)
      → 0 < length values
      → Ascending floats ordered values
      → IsSpread values (latency_metrics floats values)
  unfolding latency_metrics get_percentile
  metrics-IsSpread [] h a = absurd (omega arith)
  metrics-IsSpread (y ∷ ys) h a =
      let n = length (y ∷ ys) in
      record {
        least-p50 =
            value_at-le floats ordered zero_float (y ∷ ys) 0 (place 500 n) a (omega arith)
              (omega arith);
        p50-p95 = percentile-le y ys 500 950 a (omega arith);
        p95-p99 = percentile-le y ys 950 990 a (omega arith);
        p99-p999 = percentile-le y ys 990 999 a (omega arith);
        p999-greatest =
            value_at-le floats ordered zero_float (y ∷ ys) (place 999 n) (n - 1) a (omega arith)
              (omega arith);
        has_least = value_at-Member zero_float (y ∷ ys) 0 h;
        has_p50 = percentile-Member y ys 500;
        has_p95 = percentile-Member y ys 950;
        has_p99 = percentile-Member y ys 990;
        has_p999 = percentile-Member y ys 999;
        has_greatest = value_at-Member zero_float (y ∷ ys) (n - 1) (omega arith);
      }

  -- What is one of the sorted values is one of the values.
  unsorted-IsSpread :
      (values : List Float) (r : LatencyMetrics Float)
      → IsSpread (sorted floats values) r
      → IsSpread values r
  unsorted-IsSpread values r s = record {
    least-p50 = s.least-p50;
    p50-p95 = s.p50-p95;
    p95-p99 = s.p95-p99;
    p99-p999 = s.p99-p999;
    p999-greatest = s.p999-greatest;
    has_least = Member-sorted floats ordered r.least values s.has_least;
    has_p50 = Member-sorted floats ordered r.p50 values s.has_p50;
    has_p95 = Member-sorted floats ordered r.p95 values s.has_p95;
    has_p99 = Member-sorted floats ordered r.p99 values s.has_p99;
    has_p999 = Member-sorted floats ordered r.p999 values s.has_p999;
    has_greatest = Member-sorted floats ordered r.greatest values s.has_greatest;
  }

  latencies-IsSpread :
      (m : MetricsCollector Float) (l : List Float)
      → m.latencies ≡ l
      → 0 < length l
      → IsSpread l (get_latency_metrics floats m)
  unfolding get_latency_metrics
  latencies-IsSpread m [] e h = absurd (omega arith)
  latencies-IsSpread m (x ∷ xs) e h = rw e (
      unsorted-IsSpread (x ∷ xs) (latency_metrics floats (sorted floats (x ∷ xs))) (
        metrics-IsSpread (sorted floats (x ∷ xs))
          (omega (arith, length-sorted floats ordered (x ∷ xs)))
          (sorted-Ascending floats ordered (x ∷ xs))))

  -- With an order of the floats and a rounding that grows with the percentile, the latency metrics
  -- of a collector that has latencies are in order, from the least through the four percentiles to
  -- the greatest, and each of them is one of the latencies.
  pub get_latency_metrics-IsSpread :
      (m : MetricsCollector Float)
      → 0 < length m.latencies
      → IsSpread m.latencies (get_latency_metrics floats m)
  get_latency_metrics-IsSpread m h = latencies-IsSpread m m.latencies refl h
