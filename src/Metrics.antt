-- ===== src/Metrics.antt =====
-- src/logs_interceptor/infrastructure/metrics/metrics_collector.py. Floats are a type with the
-- operations that the collector uses, in `Floats`; times are floats too.
pub mod Window
pub mod Sorting
pub mod Percentiles
mod Examples
use logs_interceptor_python.Base.{
  ℕ, zero, suc, ◌+◌, ◌-◌, Bool, true, false, List, [], ◌∷◌, ◌++◌, length, drop, is_empty, ltb, min,
  max, if◌then◌else◌,
}

-- `scaled p n` is `int((p / 1000) * n)`, for `p` in thousandths.
pub record Floats : Type 1 where
  pub Float : Type 0
  pub le : Float → Float → Bool
  pub zero_float : Float
  pub from_int : ℕ → Float
  pub minus : Float → Float → Float
  pub divide : Float → Float → Float
  pub ratio : ℕ → ℕ → Float
  pub mean : List Float → Float
  pub scaled : ℕ → ℕ → ℕ

pub record MetricsCollector (F : Type 0) : Type 0 where
  pub latencies : List F
  pub compression_ratios : List F
  pub compression_times : List F
  pub operation_timestamps : List F
  pub total_original_bytes : ℕ
  pub total_compressed_bytes : ℕ

-- What `get_latency_metrics` returns.
pub record LatencyMetrics (F : Type 0) : Type 0 where
  pub p50 : F
  pub p95 : F
  pub p99 : F
  pub p999 : F
  pub least : F
  pub greatest : F
  pub avg : F
  pub count : F

-- What `get_compression_metrics` returns; the bytes saved are the difference of the two totals.
pub record CompressionMetrics (F : Type 0) : Type 0 where
  pub avg_ratio : F
  pub avg_time : F
  pub total_original_bytes : ℕ
  pub total_compressed_bytes : ℕ
  pub count : ℕ

module _ {F : Type 0} where
  unfoldable pub new : MetricsCollector F
  new = record {
    latencies = [];
    compression_ratios = [];
    compression_times = [];
    operation_timestamps = [];
    total_original_bytes = 0;
    total_compressed_bytes = 0;
  }

  -- `samples.append(sample)`, then `pop(0)` if there are too many
  unfoldable pub append_sample : ℕ → F → List F → List F
  append_sample max_samples sample samples =
      let more = samples ++ sample ∷ [] in
      if ltb max_samples (length more) then drop 1 more else more

  unfoldable pub record_latency : ℕ → F → F → MetricsCollector F → MetricsCollector F
  unfolding append_sample
  record_latency max_samples ms now m = record m {
    latencies = append_sample max_samples ms m.latencies;
    operation_timestamps = append_sample max_samples now m.operation_timestamps;
  }

  unfoldable pub reset : MetricsCollector F → MetricsCollector F
  reset m = record {
    latencies = [];
    compression_ratios = [];
    compression_times = [];
    operation_timestamps = [];
    total_original_bytes = 0;
    total_compressed_bytes = 0;
  }

  -- `values[i]`; there is one wherever it is asked for
  unfoldable pub value_at : F → List F → ℕ → F
  value_at default [] i = default
  value_at default (x ∷ xs) zero = x
  value_at default (x ∷ xs) (suc i) = value_at default xs i

module _ (floats : Floats) where
  open floats use {Float, le, zero_float, from_int, minus, divide, ratio, mean, scaled}

  unfoldable pub record_compression :
      ℕ → ℕ → ℕ → Float → MetricsCollector Float → MetricsCollector Float
  unfolding append_sample
  record_compression max_samples original_size compressed_size time_ms m = record m {
    total_original_bytes = m.total_original_bytes + original_size;
    total_compressed_bytes = m.total_compressed_bytes + compressed_size;
    compression_ratios =
        if ltb 0 original_size
        then append_sample max_samples (ratio compressed_size original_size) m.compression_ratios
        else m.compression_ratios;
    compression_times = append_sample max_samples time_ms m.compression_times;
  }

  -- `sorted`: a value goes before the first one that is not less.
  unfoldable pub insert_sorted : Float → List Float → List Float
  insert_sorted x [] = x ∷ []
  insert_sorted x (y ∷ ys) = if le x y then x ∷ y ∷ ys else y ∷ insert_sorted x ys

  unfoldable pub sorted : List Float → List Float
  unfolding insert_sorted
  sorted [] = []
  sorted (x ∷ xs) = insert_sorted x (sorted xs)

  unfoldable pub get_percentile : List Float → ℕ → Float
  unfolding value_at
  get_percentile sorted_values percentile =
      if is_empty sorted_values
      then zero_float
      else value_at zero_float sorted_values
          (min (max (scaled percentile (length sorted_values)) 1) (length sorted_values) - 1)

  abbrev pub no_latencies : LatencyMetrics Float
  no_latencies = record {
    p50 = zero_float;
    p95 = zero_float;
    p99 = zero_float;
    p999 = zero_float;
    least = zero_float;
    greatest = zero_float;
    avg = zero_float;
    count = zero_float;
  }

  -- the metrics of sorted latencies
  unfoldable pub latency_metrics : List Float → LatencyMetrics Float
  unfolding get_percentile
  latency_metrics values = record {
    p50 = get_percentile values 500;
    p95 = get_percentile values 950;
    p99 = get_percentile values 990;
    p999 = get_percentile values 999;
    least = value_at zero_float values 0;
    greatest = value_at zero_float values (length values - 1);
    avg = mean values;
    count = from_int (length values);
  }

  unfoldable pub get_latency_metrics : MetricsCollector Float → LatencyMetrics Float
  unfolding latency_metrics sorted
  get_latency_metrics m =
      if is_empty m.latencies then no_latencies else latency_metrics (sorted m.latencies)

  abbrev pub mean_or_zero : List Float → Float
  mean_or_zero values = if is_empty values then zero_float else mean values

  unfoldable pub get_compression_metrics : MetricsCollector Float → CompressionMetrics Float
  get_compression_metrics m = record {
    avg_ratio = mean_or_zero m.compression_ratios;
    avg_time = mean_or_zero m.compression_times;
    total_original_bytes = m.total_original_bytes;
    total_compressed_bytes = m.total_compressed_bytes;
    count = length m.compression_ratios;
  }

  unfoldable pub count_from : Float → List Float → ℕ
  count_from start [] = 0
  count_from start (t ∷ ts) = (if le start t then 1 else 0) + count_from start ts

  -- `now` is the time, `window_seconds` a natural number.
  unfoldable pub get_throughput : Float → ℕ → MetricsCollector Float → Float
  unfolding count_from
  get_throughput now window_seconds m =
      if is_empty m.operation_timestamps
      then zero_float
      else if ltb 0 window_seconds
      then divide
          (from_int (count_from (minus now (from_int window_seconds)) m.operation_timestamps))
          (from_int window_seconds)
      else zero_float
