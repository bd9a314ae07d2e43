-- ===== src/Metrics/Examples.antt =====
-- Collectors with numbers for floats, and the theorems at them.
use logs_interceptor_python.Base.{
  ℕ, ◌+◌, ◌-◌, ◌*◌, ◌/◌, ◌≤◌, ◌≡◌, refl, true, false, leb, List, [], ◌∷◌, length, arith,
}
use logs_interceptor_python.Metrics.{
  Floats, MetricsCollector, new, record_latency, record_compression, get_latency_metrics,
  get_throughput,
}
use logs_interceptor_python.Metrics.Percentiles.{IsSpread, get_latency_metrics-IsSpread}
use logs_interceptor_python.Metrics.Sorting.{IsOrdered}
use logs_interceptor_python.Metrics.Window.{record_latencies}

abbrev sum : List ℕ → ℕ
sum [] = 0
sum (x ∷ xs) = x + sum xs

abbrev numbers : Floats
numbers = record {
  Float = ℕ;
  le = leb;
  zero_float = 0;
  from_int = λ n. n;
  minus = λ a b. a - b;
  divide = λ a b. a / b;
  ratio = λ a b. 100 - 100 * a / b;
  mean = λ xs. sum xs / length xs;
  scaled = λ p n. p * n / 1000;
}

scaled_mono : (p q n : ℕ) → p ≤ q → p * n / 1000 ≤ q * n / 1000
scaled_mono p q n h = grind arith

leb_total : (x y : ℕ) → leb x y ≡ false → leb y x ≡ true
leb_total x y h = ground arith

leb_refl : (x : ℕ) → leb x x ≡ true
leb_refl x = ground arith

leb_trans : (x y z : ℕ) → leb x y ≡ true → leb y z ≡ true → leb x z ≡ true
leb_trans x y z h k = ground arith

numbers-IsOrdered : IsOrdered numbers
numbers-IsOrdered = record {
  total = leb_total;
  reflexive = leb_refl;
  transitive = leb_trans;
  scaled_mono = scaled_mono;
}

abbrev collector : MetricsCollector ℕ
collector = record {
  latencies = 30 ∷ 10 ∷ 20 ∷ [];
  compression_ratios = [];
  compression_times = [];
  operation_timestamps = 1 ∷ 2 ∷ 3 ∷ [];
  total_original_bytes = 0;
  total_compressed_bytes = 0;
}

median : (get_latency_metrics numbers collector).p50 ≡ 10
unfolding get_latency_metrics
median = refl

throughput : get_throughput numbers 62 60 collector ≡ 0
unfolding get_throughput
throughput = refl

newest : (record_latencies {F = ℕ} 2 ((5, 1) ∷ (6, 2) ∷ (7, 3) ∷ []) new).latencies ≡ 6 ∷ 7 ∷ []
unfolding record_latency new
newest = refl

compressed : (record_compression numbers 2 100 40 3 new).compression_ratios ≡ 60 ∷ []
unfolding record_compression new
compressed = refl

get_latency_metrics-IsSpread_example :
    IsSpread numbers numbers-IsOrdered collector.latencies (get_latency_metrics numbers collector)
get_latency_metrics-IsSpread_example =
    get_latency_metrics-IsSpread numbers numbers-IsOrdered collector (omega arith)
