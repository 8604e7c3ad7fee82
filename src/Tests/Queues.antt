-- ===== src/Tests/Queues.antt =====
-- The queue of a session with three runs.
use piqo_server.Core.Projection.ToolCalls.{record_result}
use piqo_server.Core.Projection.ToolCalls.{edit_call}
use piqo_server.Core.Projection.Runs.{require_action}
use piqo_server.Core.Projection.ToolCalls.{emit_call}
use piqo_server.Core.Projection.Runs.{start_run}
use piqo_server.Prelude.Map.{insert}
use piqo_server.Core.Projection.Runs.{queue_run}
use piqo_server.Prelude.Map.{modify}
use piqo_server.Core.Projection.Runs.{edit_run}
use piqo_server.Prelude.Int.{compare_ℤ}
use piqo_server.Core.Projection.Queue.{put_in_order}
use piqo_server.Core.Projection.Queue.{sort_runs}
use piqo_server.Prelude.{
  String, ◌≡◌, ◌≢◌, refl, none, some, [], ◌∷◌, true, is_some, List, ◌++◌, All,
}
use piqo_server.Prelude.Int.{negsuc}
use piqo_server.Prelude.Map.{get, values}
use piqo_server.Core.Phases.{RunStatus}
use piqo_server.Core.Event.{
  SemanticEvent, run_queued, run_started, run_requires_action, tool_call_emitted, tool_result,
}
use piqo_server.Core.SessionState
use piqo_server.Core.Projection.{SessionProjection, RunProjection, ToolCallProjection}
use piqo_server.Core.Projection.Apply.{new, apply, project_event}
use piqo_server.Core.Projection.Apply.Histories.{now, then}
use piqo_server.Core.Projection.Apply.WellFormed.{Later-IsWellFormed}
use piqo_server.Core.Projection.Shape.{IsWellFormed}
use piqo_server.Core.Projection.Queue.{queued_runs, ready_action_run, run_order}
use piqo_server.Core.Projection.Queue.Order.{
  InOrder, NotAfter, queued_runs-InOrder, next_run-NotAfter,
}
use piqo_server.Core.Projection.Queue.Selection.{ready_action_run-ready}
use mathlib.Core.List.{Perm}
use piqo_server.Tests.{json_strings, a_run, a_session}

-- "b" is a retry, and goes in front
abbrev retry : RunProjection String
retry = record (a_run "b" RunStatus.queued none) { retry_of = some "z"; queue_priority = negsuc 0 }

abbrev waiting : SessionProjection String
waiting = record (a_session RunStatus.running none) {
  runs =
      ("a", a_run "a" RunStatus.queued none)
      ∷ ("b", retry)
      ∷ ("c", a_run "c" RunStatus.queued none)
      ∷ ("z", a_run "z" RunStatus.failed none)
      ∷ [];
}

queued_runs_run :
    queued_runs waiting
    ≡ retry ∷ a_run "a" RunStatus.queued none ∷ a_run "c" RunStatus.queued none ∷ []
unfolding queued_runs values run_order sort_runs put_in_order compare_ℤ
queued_runs_run = refl

queued_runs-InOrder_example :
    InOrder (queued_runs waiting)
    × All (λ (r : RunProjection String). r.status ≡ RunStatus.queued) (queued_runs waiting)
    × ((others : List (RunProjection String)) × All
          (λ (r : RunProjection String). r.status ≢ RunStatus.queued)
          others
        × Perm (queued_runs waiting ++ others) (values waiting.runs))
queued_runs-InOrder_example = queued_runs-InOrder waiting

next_run-NotAfter_example :
    (retry.status ≡ RunStatus.queued) × NotAfter retry (a_run "c" RunStatus.queued none)
unfolding queued_runs values run_order get sort_runs put_in_order compare_ℤ
next_run-NotAfter_example =
    next_run-NotAfter waiting retry
      (a_run "a" RunStatus.queued none ∷ a_run "c" RunStatus.queued none ∷ []) "c"
      (a_run "c" RunStatus.queued none) refl refl refl

abbrev e1 : SemanticEvent String
e1 = run_queued "run" none "local" "small" "{}"

abbrev e2 : SemanticEvent String
e2 = run_started "run" "attempt" 1

abbrev e3 : SemanticEvent String
e3 = tool_call_emitted "run" "m2" "call" "assistant" "read" "{}" "{}" true

abbrev e4 : SemanticEvent String
e4 = run_requires_action "run" ("call" ∷ [])

abbrev e5 : SemanticEvent String
e5 = tool_result "run" "call" "assistant" "read" "42"

abbrev acting : SessionProjection String
acting = (apply (apply (apply (apply (apply (new "s") 1 e1).0 2 e2).0 3 e3).0 4 e4).0 5 e5).0

acting_ready : ready_action_run acting ≡ some (a_run "run" RunStatus.requires_action (some "42"))
unfolding ready_action_run values new apply project_event SessionState.apply SessionState.new
    edit_run modify get queue_run insert start_run emit_call require_action edit_call record_result
acting_ready = refl

acting-IsWellFormed : IsWellFormed acting
acting-IsWellFormed =
    Later-IsWellFormed "s" (then (then (then (then (then now 1 e1) 2 e2) 3 e3) 4 e4) 5 e5)

ready_action_run-ready_example :
    (get "run" acting.runs ≡ some (a_run "run" RunStatus.requires_action (some "42")))
    × (RunStatus.requires_action ≡ RunStatus.requires_action)
    × ((a_run "run" RunStatus.requires_action (some "42")).tool_calls ≢ [])
    × ((call_id : String) (c : ToolCallProjection String)
        → get call_id (a_run "run" RunStatus.requires_action (some "42")).tool_calls ≡ some c
        → is_some c.result ≡ true)
ready_action_run-ready_example =
    ready_action_run-ready acting (a_run "run" RunStatus.requires_action (some "42"))
      acting-IsWellFormed acting_ready
