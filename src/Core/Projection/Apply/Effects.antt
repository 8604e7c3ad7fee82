-- ===== src/Core/Projection/Apply/Effects.antt =====
-- What one event does to the runs of a session.
use piqo_server.Prelude.{
  String, Bool, true, false, ◌≡◌, refl, Option, none, some, Result, ok, err, arith,
}
use piqo_server.Prelude.Map.{Map}
use piqo_server.Prelude.Map.Carries.{Carries, Carries-refl}
use piqo_server.Core.Json.{Json}
use piqo_server.Core.Errors.{ProjectionError}
use piqo_server.Core.Phases.{RunStatus, failed, cancelled, interrupted}
use piqo_server.Core.Event.{
  EventId, SemanticEvent, run_queued, run_started, run_attempt_started, run_attempt_failed,
  run_completed, run_failed, run_cancelled, run_interrupted, run_requires_action, tool_call_emitted,
  tool_execution_started, tool_result,
}
use piqo_server.Core.SessionState
use piqo_server.Core.SessionState.{Outcome}
use piqo_server.Core.Projection.{SessionProjection, RunProjection}
use piqo_server.Core.Projection.ToolCalls.{emit_call, claim_execution, record_result, edit_call}
use piqo_server.Core.Projection.Runs.{
  edit_run, queue_run, start_run, start_attempt, fail_attempt, require_action, set_run_terminal,
  complete_run,
}
use piqo_server.Core.Projection.Runs.Evolution.{
  ◌⟶?◌, is_terminal, RunKeeps, RunKeeps-refl, start_run-RunKeeps, start_attempt-RunKeeps,
  fail_attempt-RunKeeps, require_action-RunKeeps, emit_call-RunKeeps, edit_call-RunKeeps,
  claim_execution-CallKeeps, record_result-CallKeeps,
}
use piqo_server.Core.Projection.Runs.Carried.{
  Moved, edit_run-Moved, queue_run-Moved, set_run_terminal-Moved, complete_run-Moved,
}
use piqo_server.Core.Projection.Apply.{put_runs, project_event, after_state, apply}

module _ {V : Type 0} where
  Moved-refl : (runs : Map (RunProjection V)) → Moved runs runs
  Moved-refl runs = Carries-refl (RunKeeps ◌⟶?◌) runs RunKeeps-refl

  still : (runs runs' : Map (RunProjection V)) → runs' ≡ runs → Moved runs runs'
  still runs runs' e = rw e (Moved-refl runs)

  -- where the arm fails the runs stay
  put_runs-Moved :
      (paused : Bool) (p : SessionProjection V) (r : Result ProjectionError (Map (RunProjection V)))
      → ((runs : Map (RunProjection V)) → r ≡ ok runs → Moved p.runs runs)
      → Moved p.runs (put_runs paused p r).0.runs
  unfolding put_runs
  put_runs-Moved paused p (ok runs) keep = keep runs refl
  put_runs-Moved paused p (err e) keep = Moved-refl p.runs

  edit-Moved :
      (paused : Bool) (p : SessionProjection V) (id : String)
      (change : RunProjection V → Result ProjectionError (RunProjection V))
      → ((r s : RunProjection V) → change r ≡ ok s → RunKeeps ◌⟶?◌ r s)
      → Moved p.runs (put_runs paused p (edit_run id change p.runs)).0.runs
  edit-Moved paused p id change keep =
      put_runs-Moved paused p (edit_run id change p.runs)
        (λ runs h. edit_run-Moved id change p.runs keep h)

  end-Moved :
      (paused : Bool) (p : SessionProjection V) (id : String) (status : RunStatus)
      (error : Option String)
      → is_terminal status ≡ true
      → Moved p.runs (put_runs paused p (set_run_terminal id status error p.runs)).0.runs
  end-Moved paused p id status error t =
      put_runs-Moved paused p (set_run_terminal id status error p.runs)
        (λ runs h. set_run_terminal-Moved id status error p.runs t h)

module _ {V : Type 0} ⦃j : Json V⦄ where
  project_event-Moved :
      (p : SessionProjection V) (event_id : EventId) (event : SemanticEvent V)
      → Moved p.runs (project_event p event_id event).0.runs
  unfolding project_event
  project_event-Moved p n (run_queued id retry_of provider model request) =
      put_runs-Moved p.queue_paused p (queue_run id retry_of provider model request p.runs)
        (λ runs h. queue_run-Moved id retry_of provider model request p.runs h)
  project_event-Moved p n (run_started id attempt_id attempt) =
      edit-Moved false p id (start_run id attempt_id attempt)
        (start_run-RunKeeps id attempt_id attempt)
  project_event-Moved p n (run_completed id usage) =
      put_runs-Moved p.queue_paused p (complete_run id usage p.runs)
        (λ runs h. complete_run-Moved id usage p.runs h)
  project_event-Moved p n (run_attempt_started id attempt_id attempt) =
      edit-Moved p.queue_paused p id (start_attempt id attempt_id attempt)
        (start_attempt-RunKeeps id attempt_id attempt)
  project_event-Moved p n (run_failed id error) = end-Moved true p id failed (some error) refl
  project_event-Moved p n (run_cancelled id reason) = end-Moved true p id cancelled none refl
  project_event-Moved p n (run_interrupted id reason) =
      end-Moved true p id interrupted (some reason) refl
  project_event-Moved p n (run_requires_action id call_ids) =
      edit-Moved true p id (require_action id) (require_action-RunKeeps id)
  project_event-Moved p n
        (tool_call_emitted id message_id call_id agent_id tool_name arguments raw native) =
      edit-Moved p.queue_paused p id
        (emit_call message_id call_id agent_id tool_name arguments raw native)
        (emit_call-RunKeeps message_id call_id agent_id tool_name arguments raw native)
  project_event-Moved p n (tool_execution_started id call_id execution_id) =
      edit-Moved p.queue_paused p id (edit_call call_id (claim_execution call_id execution_id))
        (λ r s h.
          edit_call-RunKeeps call_id (claim_execution call_id execution_id) r s
            (claim_execution-CallKeeps call_id execution_id) h)
  project_event-Moved p n (tool_result id call_id agent_id tool_name result) =
      edit-Moved p.queue_paused p id (edit_call call_id (record_result call_id result)) (λ r s h.
        edit_call-RunKeeps call_id (record_result call_id result) r s
          (record_result-CallKeeps call_id result) h)
  project_event-Moved p n (run_attempt_failed id attempt_id error retryable) =
      edit-Moved p.queue_paused p id (fail_attempt error) (fail_attempt-RunKeeps error)
  project_event-Moved p n event = still p.runs (project_event p n event).0.runs (ground arith)

  -- Whatever the event, whether the projection accepts or refuses it, no run is lost: each run keeps
  -- its id, request and priority, moves by at most one edge of the life cycle, and keeps its tool
  -- calls with the results and execution claims recorded for them.
  pub apply-Moved :
      (p : SessionProjection V) (event_id : EventId) (event : SemanticEvent V)
      → Carries (RunKeeps ◌⟶?◌) p.runs (apply p event_id event).0.runs
  unfolding apply
  apply-Moved p event_id event = go (SessionState.apply p.state event_id event)
    where
      go :
          (s : SessionState.SessionState × Outcome ProjectionError)
          → Moved p.runs (after_state p event_id event s).0.runs
      go (state, ok tt) = project_event-Moved (record p { state = state }) event_id event
      go (state, err e) = Moved-refl p.runs
