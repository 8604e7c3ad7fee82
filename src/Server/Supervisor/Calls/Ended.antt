-- ===== src/Server/Supervisor/Calls/Ended.antt =====
-- What the primitive steps keep, the steps of a shutdown and of a project's deletion keep.
use piqo_server.Prelude.{String, Bool, ok, err, arith}
use piqo_server.Prelude.Steps.Keeps.{Preorder, Keeps, update-Keeps}
use piqo_server.Core.Json.{Json}
use piqo_server.Core.SessionState.{Outcome}
use piqo_server.Server.Storage.{StoreError}
use piqo_server.Server.Supervisor.{Supervisor, Outside, project_is_deleting}
use piqo_server.Server.Supervisor.Primitives.{Primitives, method_rules}
use piqo_server.Server.Supervisor.Stopping.{
  mark_project, unmark_project, project_session_ids, begin_shutdown, finish_shutdown,
  cancel_sessions, or_unmark, begin_delete_project,
}
use piqo_server.Server.Supervisor.Calls.Kept.{
  interrupt_remaining_runs-Keeps, cancel_session_for_project_deletion-Keeps,
}

module _ {V : Type 0} ⦃j : Json V⦄ (outside : Outside V) (R : Preorder (Supervisor V))
    (P : Primitives outside R) where
  pub begin_shutdown-Keeps : Keeps R (begin_shutdown {V = V})
  unfolding begin_shutdown
  begin_shutdown-Keeps = update-Keeps R _ (λ s. P.elsewhere s _ (ground arith))

  pub finish_shutdown-Keeps :
      (workers_finished : Bool) → Keeps R (finish_shutdown outside workers_finished)
  unfolding finish_shutdown
  finish_shutdown-Keeps workers_finished = search (method_rules, interrupt_remaining_runs-Keeps)

  mark_project-Keeps : (project_id : String) → Keeps R (mark_project {V = V} project_id)
  unfolding mark_project
  mark_project-Keeps project_id = update-Keeps R _ (λ s. P.elsewhere s _ (ground arith))

  unmark_project-Keeps : (project_id : String) → Keeps R (unmark_project {V = V} project_id)
  unfolding unmark_project
  unmark_project-Keeps project_id = update-Keeps R _ (λ s. P.elsewhere s _ (ground arith))

  project_session_ids-Keeps :
      (project_id : String) → Keeps R (project_session_ids {V = V} project_id)
  unfolding project_session_ids
  project_session_ids-Keeps project_id = search method_rules

  cancel_sessions-Keeps : (project_id : String) → Keeps R (cancel_sessions outside project_id)
  unfolding cancel_sessions
  cancel_sessions-Keeps project_id =
      search (method_rules, project_session_ids-Keeps, cancel_session_for_project_deletion-Keeps)

  or_unmark-Keeps :
      (project_id : String) (r : Outcome StoreError) → Keeps R (or_unmark {V = V} project_id r)
  unfolding or_unmark
  or_unmark-Keeps project_id (ok tt) = search method_rules
  or_unmark-Keeps project_id (err e) = search (method_rules, unmark_project-Keeps)

  pub begin_delete_project-Keeps :
      (project_id : String) → Keeps R (begin_delete_project outside project_id)
  unfolding begin_delete_project project_is_deleting
  begin_delete_project-Keeps project_id =
      search (method_rules, mark_project-Keeps, cancel_sessions-Keeps, or_unmark-Keeps) depth 12
