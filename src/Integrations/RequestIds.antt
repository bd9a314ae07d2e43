-- ===== src/Integrations/RequestIds.antt =====
-- The identifier of a request in the context of what is logged.
use logs_interceptor_python.Base.{
  ℕ, ◌/◌, ◌++◌, ltb, ◌==◌, ℕ_comparable, if◌then◌else◌, if-of_false, arith, ◌≡◌, refl, String, true,
  false, Option, some, List, [], ◌∷◌, String_comparable,
}
use logs_interceptor_python.Base.Dict.{Dict, lookup, insert, update, lookup-insert}
use logs_interceptor_python.Base.Text.{is_blank, text_append}
use logs_interceptor_python.Context.{Scope, get_context, run_with_context}
use logs_interceptor_python.Domain.{LogLevel, Value, str}
use logs_interceptor_python.Errors.{ok}
use logs_interceptor_python.Integrations.Handlers.{Log}
use logs_interceptor_python.Integrations.Requests.{
  http_level, request_id_or, Request, Handler, or_200, django_call, after_request, flask_call,
  Message, response_start, other, status_of, AsgiScope, App, fastapi_call, text_or,
}

-- What a call of the logger is: its level, its text, and the `request_id` of its context.
abbrev pub Seen : Type 0
Seen = LogLevel × String × Option Value

-- A logger that keeps what it sees, newest first.
abbrev pub watch : Log (Scope (List Seen))
watch level message context s =
    (ok tt, record s { rest = (level, message, lookup "request_id" (get_context s)) ∷ s.rest })

abbrev pub inside : String → Scope (List Seen) → Scope (List Seen)
inside request_id s = record s {
  context = some (update (get_context s) (("request_id", str request_id) ∷ []));
}

abbrev pub line_of : String → String → String
line_of method path = text_append method (text_append " " path)

lookup-request_id :
    (request_id : String) (d : Dict String Value)
    → lookup "request_id" (insert "request_id" (str request_id) d) ≡ some (str request_id)
lookup-request_id request_id d = lookup-insert "request_id" "request_id" (str request_id) d

-- The level for the class of a status: 5 and above for errors of the server, 4 for those of the client.
abbrev pub class_level : ℕ → LogLevel
class_level class = if ltb 4 class then "error" else if class == 4 then "warn" else "info"

http_level-class_level : (status : ℕ) → http_level status ≡ class_level (status / 100)
unfolding http_level
http_level-class_level status = ground arith

-- The messages after the last start of a response.
abbrev pub NoStart : List Message → Type 0
NoStart [] = Unit
NoStart (response_start sent ∷ messages) = ⊥
NoStart (other ∷ messages) = NoStart messages

status_of-last :
    (before after : List Message) (status first : ℕ)
    → NoStart after
    → status_of (before ++ response_start (some status) ∷ after) first ≡ status
unfolding status_of
status_of-last [] [] status first h = refl
status_of-last [] (response_start sent ∷ after) status first h = absurd h
status_of-last [] (other ∷ after) status first h = status_of-last [] after status first h
status_of-last (response_start sent ∷ before) after status first h =
    status_of-last before after status (or_200 sent) h
status_of-last (other ∷ before) after status first h = status_of-last before after status first h

request_id_or-header :
    (header : String) (start : ℕ)
    → is_blank header ≡ false
    → request_id_or (some header) start ≡ header
unfolding request_id_or
request_id_or-header header start given = if-of_false (is_blank header) _ header given

module _ (start end : ℕ) (s t : Scope (List Seen)) (header : String)
    (given : is_blank header ≡ false) where
  django_call-log :
      (get_response : Handler (List Seen)) (request : Request) (status : ℕ)
      → request.request_id ≡ some header
      → get_response (inside header s) ≡ (ok (some status), t)
      → (django_call watch start end get_response request s).1.rest
        ≡ (
          class_level (status / 100),
          line_of request.method request.path,
          lookup "request_id" (get_context s),
        )
          ∷ t.rest
  unfolding django_call run_with_context
  django_call-log get_response request status has e =
      rw (has, request_id_or-header header start given, e, http_level-class_level status) refl

  flask_call-log :
      (view : Scope (List Seen) → Option ℕ × Scope (List Seen)) (request : Request) (status : ℕ)
      → request.request_id ≡ some header
      → view s ≡ (some status, t)
      → (flask_call watch start end view request s).1.rest
        ≡ (class_level (status / 100), line_of request.method request.path, some (str header))
          ∷ t.rest
  unfolding flask_call after_request run_with_context update
  flask_call-log view request status has e =
      rw
        (
          e,
          has,
          request_id_or-header header start given,
          lookup-request_id header (get_context t),
          http_level-class_level status,
        )
        refl

  fastapi_call-log :
      (app : App (List Seen)) (scope : AsgiScope) (before after : List Message) (status : ℕ)
      → scope.is_http ≡ true
      → scope.request_id ≡ some header
      → NoStart after
      → app (inside header s) ≡ (ok (before ++ response_start (some status) ∷ after), t)
      → (fastapi_call watch start end app scope s).1.rest
        ≡ (
          class_level (status / 100),
          line_of (text_or "GET" scope.method) (text_or "/" scope.path),
          lookup "request_id" (get_context s),
        )
          ∷ t.rest
  unfolding fastapi_call run_with_context
  fastapi_call-log app scope before after status http has final e =
      rw
        (
          http,
          has,
          request_id_or-header header start given,
          e,
          status_of-last before after status 200 final,
          http_level-class_level status,
        )
        refl

  -- When a request has a header with an identifier that is not blank and is answered with a status
  -- (the last start of a response that the ASGI application sends has it), the Django and ASGI
  -- handlers being called in a context with just that identifier added, each middleware logs the
  -- request once after it: at error for a status of class 5 and above, at warn for class 4 and at
  -- info below, with the method and the path. Flask logs it in a context with the identifier,
  -- Django and FastAPI in one whose `request_id` is what it was before the request.
  pub request_id-logged :
      (get_response : Handler (List Seen)) (app : App (List Seen))
      (view : Scope (List Seen) → Option ℕ × Scope (List Seen)) (request : Request)
      (scope : AsgiScope) (status : ℕ) (before after : List Message)
      → request.request_id ≡ some header
      → get_response (inside header s) ≡ (ok (some status), t)
      → view s ≡ (some status, t)
      → scope.is_http ≡ true
      → scope.request_id ≡ some header
      → NoStart after
      → app (inside header s) ≡ (ok (before ++ response_start (some status) ∷ after), t)
      → let level = class_level (status / 100) in
        let line = line_of request.method request.path in
        let outer = lookup "request_id" (get_context s) in
        ((django_call watch start end get_response request s).1.rest
          ≡ (level, line, outer) ∷ t.rest)
        × ((fastapi_call watch start end app scope s).1.rest
            ≡ (level, line_of (text_or "GET" scope.method) (text_or "/" scope.path), outer)
              ∷ t.rest)
        × ((flask_call watch start end view request s).1.rest
            ≡ (level, line, some (str header)) ∷ t.rest)
  request_id-logged get_response app view request scope status before after has answered viewed http
        scope_has final sent =
      (
        django_call-log get_response request status has answered,
        fastapi_call-log app scope before after status http scope_has final sent,
        flask_call-log view request status has viewed,
      )
