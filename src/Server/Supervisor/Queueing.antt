-- ===== src/Server/Supervisor/Queueing.antt =====
-- piqo-server/src/supervisor.rs: `queue_run`, `retry` and `resume`, which put runs in a session's queue and
-- let it go on.
use piqo_server.Prelude.{
  String, Bool, true, false, not, ◌||◌, Option, none, some, List, [], ◌∷◌, str_eq, if◌then◌else◌,
  Result, ok, err,
}
use piqo_server.Prelude.Steps.{◌>>=◌, pure, fail, lift, check, attempt}
use piqo_server.Core.Json.{Json}
use piqo_server.Core.Phases.{RunStatus, failed, cancelled, interrupted}
use piqo_server.Core.Event.{SemanticEvent, run_queued, queue_resumed}
use piqo_server.Core.EventLog.{RecordedEvent}
use piqo_server.Core.Projection.{SessionProjection}
use piqo_server.Server.Storage.{
  StoreError, queue_is_paused, queue_not_paused, invalid_request, provider_and_model_required,
  conflict, not_retryable,
}
use piqo_server.Server.Supervisor.{
  Outside, Method, RunRequest, ensure_running, ensure_session_mutable, projection, get_run,
  parse_request, print_request, new_id, reserve_place, release_place, append_many, append,
  spawn_worker,
}

-- `matches!(run.status, Failed | Interrupted | Cancelled)`
abbrev pub can_retry : RunStatus → Bool
can_retry failed = true
can_retry interrupted = true
can_retry cancelled = true
can_retry _ = false

module _ {V : Type 0} where
  -- `if let Err(error) = appended`: the place is given back
  unfoldable pub or_release : String → Result StoreError (List (RecordedEvent V)) → Method V Unit
  or_release run_id (ok recorded) = pure tt
  or_release run_id (err e) = do released ← release_place run_id; fail e

module _ {V : Type 0} ⦃j : Json V⦄ (outside : Outside V) where
  abbrev pub queued_event : String → Option String → RunRequest V → V → SemanticEvent V
  queued_event run_id retry_of request payload =
      run_queued run_id retry_of request.provider request.model payload

  unfoldable pub queue_run : String → RunRequest V → Method V String
  queue_run session_id request = do
    running ← ensure_running
    mutable ← ensure_session_mutable session_id
    p ← projection session_id
    goes ← check (not p.queue_paused) queue_is_paused
    named ←
        check (not (str_eq request.provider "" || str_eq request.model ""))
          (invalid_request provider_and_model_required)
    resolved ← lift (outside.resolve_provider request.provider)
    run_id ← new_id outside
    placed ← reserve_place outside session_id run_id
    payload ← lift (print_request outside request)
    appended ← attempt (append outside session_id (queued_event run_id none request payload))
    recorded ← or_release run_id appended
    spawned ← spawn_worker session_id
    pure run_id

  -- the events of a retry
  abbrev pub retry_events :
      String → String → RunRequest V → V → SessionProjection V → List (SemanticEvent V)
  retry_events new_run run_id request payload p =
      queued_event new_run (some run_id) request payload
      ∷ (if p.queue_paused then queue_resumed ∷ [] else [])

  unfoldable pub retry : String → String → Method V String
  retry session_id run_id = do
    running ← ensure_running
    mutable ← ensure_session_mutable session_id
    p ← projection session_id
    run ← lift (get_run run_id p)
    ended ← check (can_retry run.status) (conflict not_retryable)
    request ← lift (parse_request outside run.request)
    new_run ← new_id outside
    placed ← reserve_place outside session_id new_run
    payload ← lift (print_request outside request)
    now ← projection session_id
    appended ←
        attempt (append_many outside session_id (retry_events new_run run_id request payload now))
    recorded ← or_release new_run appended
    spawned ← spawn_worker session_id
    pure new_run

  unfoldable pub resume : String → Method V Unit
  resume session_id = do
    running ← ensure_running
    mutable ← ensure_session_mutable session_id
    p ← projection session_id
    paused ← check p.queue_paused queue_not_paused
    recorded ← append outside session_id queue_resumed
    spawn_worker session_id
