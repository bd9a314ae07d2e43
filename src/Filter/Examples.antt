-- ===== src/Filter/Examples.antt =====
-- An entry with a secret in its message and in its context, and the theorem at it.
use logs_interceptor_python.Base.{
  ◌≡◌, refl, String, Bool, true, none, some, [], ◌∷◌, ◌==◌, String_comparable,
}
use logs_interceptor_python.Config.{ResolvedFilterConfig}
use logs_interceptor_python.Domain.{str, null, LogEntryEntity}
use logs_interceptor_python.Filter.{filter}
use logs_interceptor_python.Filter.Safe.{IsSafeText, IsSafeContext, filter-IsSafe}
use logs_interceptor_python.Sanitize.{other, Heap}
use logs_interceptor_python.Sanitize.Clean.{IsClosed}

abbrev config : ResolvedFilterConfig
config = record {
  levels = "info" ∷ [];
  patterns = [];
  sampling_rate = 1000000;
  max_message_length = 100;
  sanitize = true;
  sensitive_patterns = "password" ∷ [];
}

abbrev key_sensitive : String → Bool
key_sensitive key = key == "password"

abbrev detect : String → Bool
detect s = s == "a@b.io"

abbrev entry : LogEntryEntity
entry = record {
  address = 1;
  id = "id";
  timestamp = "2024-01-01T00:00:00Z";
  level = "info";
  message = "a@b.io";
  context = some (("password", str "x") ∷ ("mail", str "a@b.io") ∷ ("user", null) ∷ []);
  trace_id = none;
  span_id = none;
  request_id = none;
  labels = none;
  metadata = none;
}

abbrev heap : Heap
heap = record { objects = λ a. other; next = 2 }

heap-IsClosed : IsClosed heap
heap-IsClosed a less = tt

filter-IsSafe_example :
    (e' : LogEntryEntity) × (h' : Heap) × (filter config key_sensitive detect 9 entry heap
      ≡ some (e', h'))
    × IsSafeText config key_sensitive detect e'.message
    × IsSafeContext config key_sensitive detect heap entry.context e'.context h'
    × (record e' { address = entry.address; message = entry.message; context = entry.context }
        ≡ entry)
filter-IsSafe_example =
    filter-IsSafe config key_sensitive detect 9 entry heap refl heap-IsClosed (tt, (tt, (tt, tt)))
