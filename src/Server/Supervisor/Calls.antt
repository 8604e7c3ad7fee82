-- ===== src/Server/Supervisor/Calls.antt =====
-- The modelled methods of the supervisor as calls that arrive in some order.
pub mod Kept
pub mod Placed
pub mod Ended
pub mod Delivered
pub mod Performed
use piqo_server.Prelude.{String, Bool, Option, List, [], ◌∷◌}
use piqo_server.Prelude.Steps.{Step, ◌>>=◌, pure}
use piqo_server.Core.Json.{Json}
use piqo_server.Core.Permissions.{PermissionDecision, PermissionScope}
use piqo_server.Server.Storage.{StoreError}
use piqo_server.Server.Supervisor.{Supervisor, Outside, Method, RunRequest}
use piqo_server.Server.Supervisor.Queueing
use piqo_server.Server.Supervisor.Submitting
use piqo_server.Server.Supervisor.Processing
use piqo_server.Server.Supervisor.Finishing
use piqo_server.Server.Supervisor.Finishing.{ExecutionResult}
use piqo_server.Server.Supervisor.Stopping
use piqo_server.Server.Supervisor.Resolving
use piqo_server.Server.Supervisor.Delivering

-- A call by a client, by the server's start or shutdown, or by a session's worker.
pub data Call (V : Type 0) : Type 0 where
  queue_run : (session_id : String) (request : RunRequest V) → Call V
  retry : (session_id run_id : String) → Call V
  resume : (session_id : String) → Call V
  submit_tool_result : (session_id run_id call_id : String) (result : V) → Call V
  record_resolution :
      (session_id run_id request_id : String) (decision : PermissionDecision)
      (scope : Option PermissionScope)
      → Call V
  deny_permission : (session_id run_id request_id : String) → Call V
  cancel_session_for_project_deletion : (session_id : String) → Call V
  begin_delete_project : (project_id : String) → Call V
  interrupt_remaining_runs : (reason : String) → Call V
  begin_shutdown : Call V
  finish_shutdown : (workers_finished : Bool) → Call V
  resume_ready_actions_after_restart : Call V
  process_next : (session_id : String) → Call V
  deliver_child_result : (child_session_id child_run_id : String) → Call V
  record_outcome : (session_id run_id : String) (result : ExecutionResult V) → Call V

-- the calls that put a run in the queue
pub data Queues {V : Type 0} : Call V → Type 0 where
  queueing : {session_id : String} {request : RunRequest V} → Queues (queue_run session_id request)
  retrying : {session_id run_id : String} → Queues (retry session_id run_id)

abbrev pub ignored : {V A : Type 0} → Method V A → Method V Unit
ignored m = m >>= λ result. pure tt

module _ {V : Type 0} ⦃j : Json V⦄ (outside : Outside V) where
  unfoldable pub perform : Call V → Method V Unit
  perform (queue_run session_id request) = ignored (Queueing.queue_run outside session_id request)
  perform (retry session_id run_id) = ignored (Queueing.retry outside session_id run_id)
  perform (resume session_id) = Queueing.resume outside session_id
  perform (submit_tool_result session_id run_id call_id result) =
      Submitting.submit_tool_result outside session_id run_id call_id result
  perform (record_resolution session_id run_id request_id decision scope) =
      ignored (Resolving.record_resolution outside session_id run_id request_id decision scope)
  perform (deny_permission session_id run_id request_id) =
      Resolving.deny_permission outside session_id run_id request_id
  perform (cancel_session_for_project_deletion session_id) =
      Stopping.cancel_session_for_project_deletion outside session_id
  perform (begin_delete_project project_id) = Stopping.begin_delete_project outside project_id
  perform begin_shutdown = Stopping.begin_shutdown
  perform (finish_shutdown workers_finished) = Stopping.finish_shutdown outside workers_finished
  perform (interrupt_remaining_runs reason) = Stopping.interrupt_remaining_runs outside reason
  perform resume_ready_actions_after_restart = Stopping.resume_ready_actions_after_restart outside
  perform (process_next session_id) = ignored (Processing.process_next outside session_id)
  perform (deliver_child_result child_session_id child_run_id) =
      ignored (Delivering.deliver_child_result outside child_session_id child_run_id)
  perform (record_outcome session_id run_id result) =
      Finishing.record_outcome outside session_id run_id result

  -- one call after another, each whatever the result of the last
  unfoldable pub perform_all : List (Call V) → Supervisor V → Supervisor V
  perform_all [] s = s
  perform_all (call ∷ calls) s = perform_all calls (perform call s).0
