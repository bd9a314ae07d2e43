-- ===== src/Integrations/Examples.antt =====
-- Names, requests and signals, and the theorems at them.
use logs_interceptor_python.Base.{
  ◌≡◌, refl, String, true, none, some, List, [], ◌∷◌, ◌++◌, ◌||◌, ◌==◌, String_comparable,
  if◌then◌else◌,
}
use logs_interceptor_python.Base.Dict.{Dict, lookup, erase, insert, update}
use logs_interceptor_python.Base.Text.{lower_text}
use logs_interceptor_python.Context.{Scope, get_context}
use logs_interceptor_python.Domain.{Value, null, str}
use logs_interceptor_python.Errors.{ok, raise, runtime_error}
use logs_interceptor_python.Integrations.Handlers.{
  Log, level_object, loguru_level, structlog_level, sink, process,
}
use logs_interceptor_python.Integrations.Names.{loguru_level-structlog_level}
use logs_interceptor_python.Integrations.RequestIds.{Seen, watch, line_of, request_id-logged}
use logs_interceptor_python.Integrations.Requests.{
  Request, django_call, flask_call, fastapi_call, Message, response_start, other, AsgiScope,
}
use logs_interceptor_python.Integrations.Tasks.{failure, on_signal}
use logs_interceptor_python.Levels.{is_valid}

abbrev keep : Log (List (String × String × Dict String Value))
keep level message context w = (ok tt, (level, message, context) ∷ w)

abbrev text_of : Value → String
text_of v = "text"

processed : process text_of keep "warning" (("user", null) ∷ ("event", str "late") ∷ []) [] ≡ (
  ok (("user", null) ∷ ("event", str "late") ∷ []),
  ("info", "text", ("source", str "structlog") ∷ ("user", null) ∷ []) ∷ [],
)
unfolding process lookup erase insert update structlog_level lower_text
processed = refl

sunk :
    sink keep
      (some (record {
        level = level_object "INFO";
        message = "late";
        module_name = null;
        function_name = null;
        line = null;
        extra = null;
      }))
      "late"
      []
    ≡ (raise (runtime_error "'RecordLevel' object has no attribute 'get'"), [])
unfolding sink
sunk = refl

failed : on_signal keep (some "7") none (failure "down") [] ≡ (
  ok tt,
  (
    "error",
    "Celery task failed",
    ("source", str "celery")
        ∷ ("task_id", str "7")
        ∷ ("task_name", null)
        ∷ ("error", str "down")
        ∷ [],
  )
      ∷ [],
)
unfolding on_signal
failed = refl

loguru_level-structlog_level_example :
    let l = lower_text "Warning" in
    (loguru_level "Warning" ≡ (
      if l == "warning"
      then "warn"
      else if l == "critical"
      then "fatal"
      else structlog_level "Warning"))
    × ((if l == "warning" || l == "critical" then structlog_level "Warning" else "info") ≡ "info")
    × (is_valid (loguru_level "Warning") ≡ true)
    × (is_valid (structlog_level "Warning") ≡ true)
loguru_level-structlog_level_example = loguru_level-structlog_level "Warning"

abbrev before : Scope (List Seen)
before = record { context = none; rest = [] }

abbrev request : Request
request = record { method = "GET"; path = "/a"; request_id = some "7" }

abbrev asgi : AsgiScope
asgi = record { is_http = true; method = some "GET"; path = none; request_id = some "7" }

-- An application whose first start of a response is not the last.
abbrev sent : List Message
sent = (response_start none ∷ other ∷ []) ++ response_start (some 503) ∷ other ∷ []

request_id-logged_example :
    ((django_call watch 0 5000 (λ s. (ok (some 503), before)) request before).1.rest
      ≡ ("error", line_of "GET" "/a", none) ∷ [])
    × ((fastapi_call watch 0 5000 (λ s. (ok sent, before)) asgi before).1.rest
        ≡ ("error", line_of "GET" "/", none) ∷ [])
    × ((flask_call watch 0 5000 (λ s. (some 503, before)) request before).1.rest
        ≡ ("error", line_of "GET" "/a", some (str "7")) ∷ [])
unfolding lookup get_context
request_id-logged_example =
    request_id-logged 0 5000 before before "7" refl (λ s. (ok (some 503), before))
      (λ s. (ok sent, before)) (λ s. (some 503, before)) request asgi 503
      (response_start none ∷ other ∷ []) (other ∷ []) refl refl refl refl refl tt refl
