-- ===== src/Tests/Projections.antt =====
-- The laws of `SessionProjection` at a session with one run.
use piqo_server.Prelude.Map.{modify}
use piqo_server.Core.Projection.Runs.{set_run_terminal}
use piqo_server.Prelude.{String, ◌≡◌, refl, none, some}
use piqo_server.Prelude.Map.{get}
use piqo_server.Prelude.Map.Carries.{Carries}
use piqo_server.Core.Phases.{SessionPhase, RunStatus, text}
use piqo_server.Core.Event.{
  SemanticEvent, session_phase_changed, message_content_appended, run_started, run_failed,
  run_queued, tool_result, permission_resolved,
}
use piqo_server.Core.Permissions.{PermissionDecision}
use piqo_server.Core.SessionState
use piqo_server.Core.SessionState.Transitions.{Move, apply-Move}
use piqo_server.Core.Errors.{unknown_run}
use piqo_server.Core.Projection.{
  SessionProjection, RunProjection, ToolCallProjection, PermissionProjection,
}
use piqo_server.Core.Projection.Shape.{IsWellFormed}
use piqo_server.Core.Projection.Messages.Growth.{Grows}
use piqo_server.Core.Projection.Runs.Evolution.{RunKeeps}
use piqo_server.Core.Projection.Apply.{new, apply, project_event}
use piqo_server.Core.Projection.Apply.Histories.{
  Later, now, then, ◌⟶*◌, Later-RunKeeps, terminal_run_final, tool_result_final,
}
use piqo_server.Core.Projection.Apply.Requests.{decision_final}
use piqo_server.Core.Projection.Apply.Transcript.{Later-Grows}
use piqo_server.Core.Projection.Apply.WellFormed.{Later-IsWellFormed}
use piqo_server.Core.Projection.Apply.Refused.{SameParts, apply-SameParts}
use piqo_server.Tests.{json_strings, a_call, a_run, a_request, a_session}

-- a failed run is told to start, a result is replaced, a decision is turned round, a closed message is
-- appended to: all of them refused
abbrev failed_session : SessionProjection String
failed_session = a_session RunStatus.failed (some "42")

abbrev events_after : SessionProjection String
events_after =
    (apply
      (apply
        (apply (apply failed_session 9 (run_started "run" "again" 2)).0 10
          (tool_result "run" "call" "assistant" "read" "43")).0
        11 (permission_resolved "ask" PermissionDecision.allow none none none none)).0
      12 (message_content_appended "m1" (text "more"))).0

abbrev history : Later failed_session events_after
history =
    then
      (then
        (then (then now 9 (run_started "run" "again" 2)) 10
          (tool_result "run" "call" "assistant" "read" "43"))
        11 (permission_resolved "ask" PermissionDecision.allow none none none none))
      12 (message_content_appended "m1" (text "more"))

terminal_run_final_example :
    (s : RunProjection String) × (get "run" events_after.runs ≡ some s)
    × (s.status ≡ RunStatus.failed)
unfolding get
terminal_run_final_example =
    terminal_run_final "run" (a_run "run" RunStatus.failed (some "42")) history refl refl

tool_result_final_example :
    (s : RunProjection String) × (d : ToolCallProjection String) × (get "run" events_after.runs
      ≡ some s)
    × (get "call" s.tool_calls ≡ some d)
    × (d.result ≡ some "42")
    × (d.tool_name ≡ "read")
    × (d.arguments ≡ "{}")
unfolding get
tool_result_final_example =
    tool_result_final "run" "call" (a_run "run" RunStatus.failed (some "42")) (a_call (some "42"))
      "42" history refl refl refl

decision_final_example :
    (s : PermissionProjection String) × (get "ask" events_after.pending_permissions ≡ some s)
    × (s.decision ≡ some PermissionDecision.deny)
    × (s.run_id ≡ "run")
    × (s.call_id ≡ some "call")
    × (s.agent_id ≡ "assistant")
    × (s.tool_name ≡ "read")
    × (s.arguments ≡ "{}")
unfolding get
decision_final_example = decision_final "ask" a_request PermissionDecision.deny history refl refl

Later-Grows_example : Grows failed_session.messages events_after.messages
Later-Grows_example = Later-Grows history

Later-RunKeeps_example : Carries (RunKeeps ◌⟶*◌) failed_session.runs events_after.runs
Later-RunKeeps_example = Later-RunKeeps history

abbrev queued_event : SemanticEvent String
queued_event = run_queued "run" none "local" "small" "{}"

-- the run is queued twice: the second time is refused
Later-IsWellFormed_example :
    IsWellFormed (apply (apply (new {V = String} "s") 1 queued_event).0 2 queued_event).0
Later-IsWellFormed_example = Later-IsWellFormed "s" (then (then now 1 queued_event) 2 queued_event)

apply-SameParts_example :
    SameParts failed_session (apply failed_session 9 (run_failed "other" "lost")).0
unfolding apply project_event SessionState.apply set_run_terminal modify get
apply-SameParts_example =
    apply-SameParts failed_session 9 (run_failed "other" "lost") {e = unknown_run "other"} refl

abbrev started : SemanticEvent String
started = session_phase_changed SessionPhase.created SessionPhase.running none

apply-Move_example :
    ((SessionState.apply (SessionState.new "s") 2 started).0.last_event_id ≡ some 2)
    × ((SessionState.apply (SessionState.new "s") 2 started).0.session_id
        ≡ (SessionState.new "s").session_id)
    × Move started
        (SessionState.new "s").phase
        (SessionState.apply (SessionState.new "s") 2 started).0.phase
unfolding SessionState.apply SessionState.new
apply-Move_example = apply-Move (SessionState.new "s") 2 started refl
