-- ===== src/Integrations/Requests.antt =====
-- src/logs_interceptor/integrations: django.py, flask.py and fastapi.py. A request is handled in the
-- scope of the context variable; times are in microseconds, and `end` is
-- not before `start`.
use logs_interceptor_python.Base.{
  ℕ, ◌-◌, ◌/◌, String, Bool, Option, none, some, List, [], ◌∷◌, leb, if◌then◌else◌,
}
use logs_interceptor_python.Base.Dict.{Dict}
use logs_interceptor_python.Base.Text.{decimal, is_blank, text_append}
use logs_interceptor_python.Context.{Scope, run_with_context}
use logs_interceptor_python.Domain.{LogLevel, Value, null, number, str}
use logs_interceptor_python.Errors.{Result, ok, raise}
use logs_interceptor_python.Integrations.Handlers.{Log, returning}

unfoldable pub http_level : ℕ → LogLevel
http_level status = if leb 500 status then "error" else if leb 400 status then "warn" else "info"

abbrev pub new_id : ℕ → String
new_id start = text_append "req-" (decimal (start / 1000))

-- `header or f"req-..."`
unfoldable pub request_id_or : Option String → ℕ → String
request_id_or none start = new_id start
request_id_or (some header) start = if is_blank header then new_id start else header

abbrev pub id_context : String → Dict String Value
id_context request_id = ("request_id", str request_id) ∷ []

-- A response without a `status_code` counts as 200.
abbrev pub or_200 : Option ℕ → ℕ
or_200 none = 200
or_200 (some status) = status

pub record Request : Type 0 where
  pub method : String
  pub path : String
  pub request_id : Option String

-- A response is its status, if it has one.
abbrev pub Handler : Type 0 → Type 0
Handler S = Scope S → Result (Option ℕ) × Scope S

module _ {S : Type 0} (log : Log (Scope S)) (start end : ℕ) where
  abbrev pub log_response :
      String → Request → Result (Option ℕ) × Scope S → Result (Option ℕ) × Scope S
  log_response source request (raise e, s) = (raise e, s)
  log_response source request (ok response, s) = returning response (
      log (http_level (or_200 response)) (text_append request.method (text_append " " request.path))
        (("type", str "http_request")
          ∷ ("source", str source)
          ∷ ("status_code", number (or_200 response))
          ∷ ("duration_ms", number ((end - start) / 1000))
          ∷ [])
        s)

  -- `DjangoMiddleware.__call__`
  unfoldable pub django_call : Handler S → Request → Scope S → Result (Option ℕ) × Scope S
  unfolding http_level request_id_or
  django_call get_response request s =
      log_response "django" request
        (run_with_context (id_context (request_id_or request.request_id start)) get_response s)

  -- `_after_request` of Flask; `request_id` is that of `g`, "" if `_before_request` has not run.
  unfoldable pub after_request : Request → String → Option ℕ → Scope S → Result (Option ℕ) × Scope S
  unfolding http_level
  after_request request request_id response s = returning response (
      run_with_context (id_context request_id)
        (log (http_level (or_200 response))
          (text_append request.method (text_append " " request.path))
          (("source", str "flask")
            ∷ ("type", str "http_request")
            ∷ ("status_code", number (or_200 response))
            ∷ ("duration_ms", number ((end - start) / 1000))
            ∷ []))
        s)

  -- A request to an application with both hooks of `FlaskExtension.init_app`. `view` gives the
  -- response that Flask makes, for a view that raises as well.
  unfoldable pub flask_call :
      (Scope S → Option ℕ × Scope S) → Request → Scope S → Result (Option ℕ) × Scope S
  unfolding after_request request_id_or
  flask_call view request s =
      let (response, s1) = view s in
      after_request request (request_id_or request.request_id start) response s1

-- What an ASGI application sends: the start of a response, with its status if it has one, or
-- another message.
pub data Message : Type 0 where
  response_start : Option ℕ → Message
  other : Message

-- `status_code_holder` after the messages
unfoldable pub status_of : List Message → ℕ → ℕ
status_of [] status = status
status_of (response_start sent ∷ messages) status = status_of messages (or_200 sent)
status_of (other ∷ messages) status = status_of messages status

-- The keys of an ASGI scope; `headers` has the one of its names that is read.
pub record AsgiScope : Type 0 where
  pub is_http : Bool
  pub method : Option String
  pub path : Option String
  pub request_id : Option String

abbrev pub text_or : String → Option String → String
text_or default none = default
text_or default (some text) = text

abbrev pub optional_text : Option String → Value
optional_text none = null
optional_text (some text) = str text

-- The application gives the messages that it sent.
abbrev pub App : Type 0 → Type 0
App S = Scope S → Result (List Message) × Scope S

module _ {S : Type 0} (log : Log (Scope S)) (start end : ℕ) where
  abbrev pub log_sent :
      AsgiScope → Result (List Message) × Scope S → Result (List Message) × Scope S
  log_sent scope (raise e, s) = (raise e, s)
  log_sent scope (ok messages, s) =
      let status = status_of messages 200 in
      returning messages (
        log (http_level status)
          (text_append (text_or "GET" scope.method) (text_append " " (text_or "/" scope.path)))
          (("type", str "http_request")
            ∷ ("path", optional_text scope.path)
            ∷ ("method", optional_text scope.method)
            ∷ ("status_code", number status)
            ∷ ("duration_ms", number ((end - start) / 1000))
            ∷ ("source", str "fastapi")
            ∷ [])
          s)

  -- `FastAPIMiddleware.__call__`
  unfoldable pub fastapi_call : App S → AsgiScope → Scope S → Result (List Message) × Scope S
  unfolding http_level request_id_or status_of
  fastapi_call app scope s =
      if scope.is_http
      then log_sent scope
          (run_with_context (id_context (request_id_or scope.request_id start)) app s)
      else app s
