-- ===== src/Service/Lifecycle/Report.antt =====
-- src/logs_interceptor/application/log_service.py: `get_metrics`.
use logs_interceptor_python.Base.{ℕ, ◌≡◌, ap, true, length, arith}
use logs_interceptor_python.Metrics
use logs_interceptor_python.Metrics.{Floats, MetricsCollector, LatencyMetrics, CompressionMetrics}
use logs_interceptor_python.Service.{
  ServiceConfig, Reading, LoggerMetrics, LogService, update_metrics,
}

-- The latencies and the compression as far as they are reported, with the two totals whose
-- difference is `total_saved_bytes`.
pub record Report (F : Type 0) : Type 0 where
  pub metrics : LoggerMetrics
  pub p50 : F
  pub p95 : F
  pub p99 : F
  pub avg : F
  pub avg_ratio : F
  pub avg_time : F
  pub total_original_bytes : ℕ
  pub total_compressed_bytes : ℕ
  pub throughput : F

-- `now` is the time that `get_throughput` reads.
module _ (floats : Floats) (config : ServiceConfig) (now : floats.Float) (r : Reading)
    (collector : MetricsCollector floats.Float) where
  -- the report of a service whose metrics are up to date
  abbrev pub reported : LogService → Report floats.Float × LogService
  reported s =
      let latency = Metrics.get_latency_metrics floats collector in
      let compression = Metrics.get_compression_metrics floats collector in
      (
        record {
          metrics = record s.metrics { buffer_size = length s.buffer.entries };
          p50 = latency.p50;
          p95 = latency.p95;
          p99 = latency.p99;
          avg = latency.avg;
          avg_ratio = compression.avg_ratio;
          avg_time = compression.avg_time;
          total_original_bytes = compression.total_original_bytes;
          total_compressed_bytes = compression.total_compressed_bytes;
          throughput = Metrics.get_throughput floats now 60 collector;
        },
        s,
      )

  unfoldable pub get_metrics : LogService → Report floats.Float × LogService
  unfolding update_metrics
  get_metrics s = reported (update_metrics config true r s)

  update_metrics-again :
      (s : LogService)
      → update_metrics config true r (update_metrics config true r s)
        ≡ update_metrics config true r s
  unfolding update_metrics
  update_metrics-again s = ground arith

  -- A second reading of the metrics at the same time gives the same and changes nothing.
  get_metrics-again : (s : LogService) → get_metrics (get_metrics s).1 ≡ get_metrics s
  unfolding get_metrics
  get_metrics-again s = ap reported (update_metrics-again s)
