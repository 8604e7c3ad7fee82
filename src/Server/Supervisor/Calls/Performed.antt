-- ===== src/Server/Supervisor/Calls/Performed.antt =====
-- What every call keeps, any sequence of calls keeps.
use piqo_server.Prelude.{List, [], ◌∷◌}
use piqo_server.Prelude.Steps.Keeps.{Preorder, Keeps}
use piqo_server.Core.Json.{Json}
use piqo_server.Server.Supervisor.{Supervisor, Outside}
use piqo_server.Server.Supervisor.Primitives.{Placing, method_rules}
use piqo_server.Server.Supervisor.Calls.{
  Call, queue_run, retry, resume, submit_tool_result, record_resolution, deny_permission,
  cancel_session_for_project_deletion, interrupt_remaining_runs, resume_ready_actions_after_restart,
  process_next, record_outcome, deliver_child_result, begin_delete_project, begin_shutdown,
  finish_shutdown, perform, perform_all,
}
use piqo_server.Server.Supervisor.Calls.Placed.{queue_run-Keeps, retry-Keeps}
use piqo_server.Server.Supervisor.Calls.Delivered.{deliver_child_result-Keeps}
use piqo_server.Server.Supervisor.Calls.Ended.{
  begin_delete_project-Keeps, begin_shutdown-Keeps, finish_shutdown-Keeps,
}
use piqo_server.Server.Supervisor.Calls.Kept.{
  resume-Keeps, submit_tool_result-Keeps, record_resolution-Keeps, deny_permission-Keeps,
  cancel_session_for_project_deletion-Keeps, interrupt_remaining_runs-Keeps,
  resume_ready_actions_after_restart-Keeps, process_next-Keeps, record_outcome-Keeps,
}

module _ {V : Type 0} ⦃j : Json V⦄ (outside : Outside V) (R : Preorder (Supervisor V))
    (P : Placing outside R) where
  pub perform-Keeps : (call : Call V) → Keeps R (perform outside call)
  unfolding perform
  perform-Keeps (queue_run session_id request) =
      let Q = P.primitives in search (method_rules, queue_run-Keeps)
  perform-Keeps (retry session_id run_id) =
      let Q = P.primitives in search (method_rules, retry-Keeps)
  perform-Keeps (resume session_id) = resume-Keeps outside R P.primitives session_id
  perform-Keeps (submit_tool_result session_id run_id call_id result) =
      submit_tool_result-Keeps outside R P.primitives session_id run_id call_id result
  perform-Keeps (record_resolution session_id run_id request_id decision scope) =
      let Q = P.primitives in search (method_rules, record_resolution-Keeps)
  perform-Keeps (deny_permission session_id run_id request_id) =
      deny_permission-Keeps outside R P.primitives session_id run_id request_id
  perform-Keeps (cancel_session_for_project_deletion session_id) =
      cancel_session_for_project_deletion-Keeps outside R P.primitives session_id
  perform-Keeps (begin_delete_project project_id) =
      begin_delete_project-Keeps outside R P.primitives project_id
  perform-Keeps begin_shutdown = begin_shutdown-Keeps outside R P.primitives
  perform-Keeps (finish_shutdown workers_finished) =
      finish_shutdown-Keeps outside R P.primitives workers_finished
  perform-Keeps (interrupt_remaining_runs reason) =
      interrupt_remaining_runs-Keeps outside R P.primitives reason
  perform-Keeps resume_ready_actions_after_restart =
      resume_ready_actions_after_restart-Keeps outside R P.primitives
  perform-Keeps (process_next session_id) =
      let Q = P.primitives in search (method_rules, process_next-Keeps)
  perform-Keeps (deliver_child_result child_session_id child_run_id) =
      let Q = P.primitives in search (method_rules, deliver_child_result-Keeps)
  perform-Keeps (record_outcome session_id run_id result) =
      record_outcome-Keeps outside R P.primitives session_id run_id result

  pub perform_all-Keeps :
      (calls : List (Call V)) (s : Supervisor V) → R.holds s (perform_all outside calls s)
  unfolding perform_all
  perform_all-Keeps [] s = R.reflexive s
  perform_all-Keeps (call ∷ calls) s =
      let first = (perform-Keeps call).over s in
      let t = (perform outside call s).0 in
      R.transitive s t (perform_all outside calls t) first (perform_all-Keeps calls t)
