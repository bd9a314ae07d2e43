-- ===== src/Lib.antt =====
-- Verification of logs-interceptor-python, a logging library for Python that sends log entries to
-- Loki. The program is src/logs_interceptor.
--
-- An application calls `LogService.log`. An entry passes `LogFilter`, which drops it or cuts and
-- sanitizes it, and waits in `MemoryBuffer`, which counts its size in `MemoryTracker`. A flush, by
-- the timer, by a full buffer or by a call, takes the entries out and puts them as one task in the
-- flush queue of `LogService`. A worker thread hands the batch to `ResilientTransport`, which
-- retries the wrapped transport behind a `CircuitBreaker` and gives a batch that failed to a dead
-- letter queue, in memory or in a file.
--
-- Files, by the source file they model:
-- - Breaker: infrastructure/circuit_breaker/circuit_breaker.py. `execute` is `admit`, the
--   operation, then `settle`; Breaker.Threads interleaves the blocks under the lock, Breaker.Stale
--   whole calls.
-- - Memory: infrastructure/memory/memory_tracker.py. A size is kept under `id(entry)`, the field
--   `address`.
-- - Buffer: infrastructure/buffer/memory_buffer.py. Each method is a function of its name; `add`
--   is `store`, then `start_timers`. Timers that were started are in the field `timers`.
-- - Dlq: infrastructure/dlq. The loop of `add_batch` that both classes share is in Dlq, the
--   classes in Dlq.Memory and Dlq.File, the text of the file in Dlq.Codec.
-- - Resilient: infrastructure/transport/resilient_transport.py. `attempts` is the loop of
--   `_retry_operation`, `guarded` the call of the breaker, `settle_send` what follows it.
-- - Interfaces: domain/interfaces.py and types.py, as records of operations; Resilient.Queues
--   fills the one for dead letter queues with the queue in memory.
-- - FlushQueue: `_enqueue_flush`, `_process_flush_queue_locked`, `_send_flush_batch` and
--   `_wait_for_queue_idle` of application/log_service.py, as steps of callers and workers, and of
--   threads that hold the lock of the buffer.
-- - TimerFlush: a flush by the timer across memory_buffer.py and log_service.py, as steps of the
--   timer's thread, the worker and other threads, with the buffer's lock.
-- - Service: `log`, `_create_log_entry` and `_update_metrics` of application/log_service.py. What
--   a call reads from outside is in a `Reading`. Service.Lifecycle: `flush`, `destroy`,
--   `get_metrics`, `get_health`.
-- - Loki: infrastructure/transport/loki_json_transport.py. `post_raw` is the `try` block of
--   `send`, `settle` what follows it; the averages of latency and compression are left out.
--   Loki.Payload: the streams of a batch. Loki.Protobuf: loki_protobuf_transport.py, over the same
--   state.
-- - Settings: config.py and application/config_service.py, with `load_config_from_env`, its
--   parsers and `merge_configs` of utils.py. Ints may be negative; a float is `nan` or a number of
--   millionths.
-- - Levels: domain/value_objects.py.
-- - Interceptor: infrastructure/interceptors/runtime_interceptor.py, on the hooks of a process.
-- - Factory: presentation/factory.py and the choice of
--   infrastructure/transport/transport_factory.py.
-- - Facade: __init__.py, the life cycle of the one logger of a process. Facade.Coerce:
--   `_coerce_config`, on values of the annotated types. Facade.Proxy: the object `logger`.
-- - Integrations: integrations/, by what a library calls them with.
-- - Stringify: `safe_stringify` of utils.py over a heap, and the messages of the library.
-- - Helpers: `parse_labels`, `should_sample_advanced`, `format_bytes`, `extract_error_metadata`
--   and `parse_stack_trace` of utils.py.
-- - Workers: infrastructure/workers/worker_pool.py, with the queue of the executor.
-- - Compression: infrastructure/compression, the compressors and their factory.
-- - Metrics: infrastructure/metrics/metrics_collector.py, over an interface for floats.
-- - Context: infrastructure/context/context_provider.py.
-- - Filter: infrastructure/filter/log_filter.py. Sanitize: `sanitize_data` of utils.py.
-- - Domain, Config, Errors: domain/entities.py, config.py, and exceptions as values. Base: lists,
--   texts, dictionaries and Boolean tests of Python.
--
-- A method takes the state of its object and returns the new one; a method that can raise returns
-- a `Result` beside it. The clock is read in whole microseconds and sleeps are in milliseconds.
-- Numbers of Python that the configuration keeps from being negative are natural numbers.
-- `str.lower` is that of ASCII.
--
-- Parameters: the clock, `time.sleep` and `random` (Host), `datetime.fromisoformat`, `json.dumps`
-- and `json.loads` of one line of the file, the tests of regular expressions, the HTTP client, the
-- wrapped transport, `float` of a text, the arithmetic of floats, `os.environ`, what constructors
-- raise, `gzip`, `brotli` and `snappy`, the digest of a key and the load of the machine.
--
-- Fuel: `_persist_queue_to_disk` calls itself and is modelled with fuel; as many calls as the
-- queue has items are enough when the newest line fits, and no number is when it does not.
-- `sanitize_data` has fuel for the depth of its nested calls; one more than the number of objects
-- is enough. `_safe_convert` has fuel for the same; two more than `max_depth` is enough.
--
-- Not modelled: the averages of times and ratios; preload.py, which is a script. A thread that
-- cannot be started and an object that is collected and whose address is used again are left out,
-- as are, in the buffer, timestamps before 1970.
pub mod Base
pub mod Domain
pub mod Levels
pub mod Config
pub mod Errors
pub mod Memory
pub mod Buffer
pub mod Dlq
pub mod Breaker
pub mod FlushQueue
pub mod TimerFlush
pub mod Sanitize
pub mod Stringify
pub mod Filter
pub mod Context
pub mod Service
pub mod Loki
pub mod Settings
pub mod Interfaces
pub mod Resilient
pub mod Metrics
pub mod Interceptor
pub mod Factory
pub mod Facade
pub mod Workers
pub mod Compression
pub mod Integrations
pub mod Helpers
