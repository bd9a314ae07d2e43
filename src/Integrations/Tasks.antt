-- ===== src/Integrations/Tasks.antt =====
-- src/logs_interceptor/integrations/celery.py: what the three signals log. A text is what `str` makes
-- of an argument.
use logs_interceptor_python.Base.{String, Option, [], ◌∷◌, ◌++◌}
use logs_interceptor_python.Base.Dict.{Dict}
use logs_interceptor_python.Domain.{Value, str}
use logs_interceptor_python.Errors.{Result}
use logs_interceptor_python.Integrations.Handlers.{Log}
use logs_interceptor_python.Integrations.Requests.{optional_text}

pub data Signal : Type 0 where
  prerun : Signal
  postrun : String → Signal
  failure : String → Signal

abbrev pub task_context : Option String → Option String → Dict String Value
task_context task_id task_name =
    ("source", str "celery")
    ∷ ("task_id", optional_text task_id)
    ∷ ("task_name", optional_text task_name)
    ∷ []

unfoldable pub on_signal :
    {W : Type 0} → Log W → Option String → Option String → Signal → W → Result (Unit {0}) × W
on_signal log task_id task_name prerun w =
    log "info" "Celery task started" (task_context task_id task_name) w
on_signal log task_id task_name (postrun retval) w =
    log "info" "Celery task completed"
      (task_context task_id task_name ++ ("retval", str retval) ∷ []) w
on_signal log task_id task_name (failure exception) w =
    log "error" "Celery task failed"
      (task_context task_id task_name ++ ("error", str exception) ∷ []) w
