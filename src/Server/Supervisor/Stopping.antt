-- ===== src/Server/Supervisor/Stopping.antt =====
-- piqo-server/src/supervisor.rs: what ends runs from outside: the server's shutdown and
-- restart, and the deletion of a project.
use piqo_server.Prelude.{
  String, Bool, true, false, not, ◌&&◌, Option, none, some, List, [], ◌∷◌, ◌++◌, map, any, select,
  is_empty, is_some, str_eq, if◌then◌else◌, ok, err,
}
use piqo_server.Prelude.Map.{Map, insert, values, contains_key}
use piqo_server.Prelude.Steps.{◌>>=◌, pure, fail, check, attempt, update, when, for_each, read}
use piqo_server.Core.Json.{Json}
use piqo_server.Core.Phases.{RunStatus, running, interrupted, queued, requires_action}
use piqo_server.Core.SessionState.{Outcome, same_phase}
use piqo_server.Core.Event.{SemanticEvent, session_phase_changed, run_cancelled, run_interrupted}
use piqo_server.Core.Projection.{SessionProjection, RunProjection}
use piqo_server.Core.Projection.Runs.{can_end, is_running}
use piqo_server.Core.Projection.Queue.{awaits_action, ready_action_run}
use piqo_server.Server.Storage.{StoreError, shutdown_timeout, project_deleting, project_not_found}
use piqo_server.Server.Supervisor.{
  Supervisor, Outside, Method, project_is_deleting, projection, append_many, spawn_worker,
}

-- `Queued | RequiresAction`
abbrev pub is_waiting : RunStatus → Bool
is_waiting queued = true
is_waiting requires_action = true
is_waiting _ = false

abbrev pub in_project : String → Option String → Bool
in_project project_id none = false
in_project project_id (some id) = str_eq id project_id

module _ {V : Type 0} where
  -- the loop over the runs in `interrupt_remaining_runs`
  unfoldable pub interrupt_events : String → List (RunProjection V) → List (SemanticEvent V)
  interrupt_events reason runs =
      map (λ run. run_interrupted run.run_id reason) (select (λ run. can_end run.status) runs)

  unfoldable pub remaining_events : String → SessionProjection V → List (SemanticEvent V)
  unfolding interrupt_events
  remaining_events reason p =
      interrupt_events reason (values p.runs)
      ++ (if same_phase p.state.phase running
          then session_phase_changed running interrupted (some reason) ∷ []
          else [])

  unfoldable pub deletion_events : List (RunProjection V) → List (SemanticEvent V)
  deletion_events runs =
      map (λ run. run_cancelled run.run_id (some "project_deleted"))
        (select (λ run. is_waiting run.status) runs)

  -- the tokens of the running runs are cancelled
  unfoldable pub cancel_tokens : List (RunProjection V) → Map Bool → Map Bool
  cancel_tokens [] tokens = tokens
  cancel_tokens (run ∷ runs) tokens =
      let rest = cancel_tokens runs tokens in
      if is_running run.status && contains_key run.run_id rest
      then insert run.run_id true rest
      else rest

  unfoldable pub cancel_running : List (RunProjection V) → Method V Unit
  cancel_running runs =
      update (λ s. record s { cancellations = cancel_tokens runs s.cancellations })

  -- a native call that was claimed and has no result
  abbrev pub was_executing : RunProjection V → Bool
  was_executing run =
      awaits_action run.status
      && any (λ call. call.native && (is_some call.execution_id && not (is_some call.result)))
          (values run.tool_calls)

  unfoldable pub restart_events : SessionProjection V → List (SemanticEvent V)
  restart_events p =
      map (λ run. run_interrupted run.run_id "native_execution_interrupted_by_restart")
        (select was_executing (values p.runs))

  -- the ids of the sessions
  unfoldable pub session_ids : Supervisor V → List String
  session_ids s = map (λ entry. entry.0) s.sessions

  -- the ids of the project's sessions
  abbrev pub ids_in : String → Supervisor V → List String
  ids_in project_id s =
      map (λ entry. entry.0) (select (λ entry. in_project project_id entry.1.project_id) s.sessions)

  -- a project that the database does not have is not found
  unfoldable pub project_session_ids : String → Method V (List String)
  project_session_ids project_id = do
    projects ← read (λ s. s.projects)
    found ← check (any (λ p. str_eq p project_id) projects) (project_not_found project_id)
    read (ids_in project_id)

  -- the insertion into `deleting_projects`, and the removal
  unfoldable pub mark_project : String → Method V Unit
  mark_project project_id =
      update (λ s. record s { deleting_projects = project_id ∷ s.deleting_projects })

  unfoldable pub unmark_project : String → Method V Unit
  unmark_project project_id = update (λ s. record s {
    deleting_projects = select (λ p. not (str_eq p project_id)) s.deleting_projects;
  })

  -- an error in the block of `delete_project` ends the deletion
  unfoldable pub or_unmark : String → Outcome StoreError → Method V Unit
  or_unmark project_id (ok tt) = pure tt
  or_unmark project_id (err e) = do unmarked ← unmark_project project_id; fail e

  -- `shutdown` up to where it waits for the workers
  unfoldable pub begin_shutdown : Method V Unit
  begin_shutdown = update (λ s. record s { is_shutting_down = true; workers = [] })

module _ {V : Type 0} ⦃j : Json V⦄ (outside : Outside V) where
  -- `if !events.is_empty()`
  unfoldable pub append_any : String → List (SemanticEvent V) → Method V Unit
  append_any session_id events =
      when (not (is_empty events)) (append_many outside session_id events >>= λ recorded. pure tt)

  unfoldable pub interrupt_session : String → String → Method V Unit
  interrupt_session reason session_id = do
    p ← projection session_id
    append_any session_id (remaining_events reason p)

  unfoldable pub interrupt_remaining_runs : String → Method V Unit
  interrupt_remaining_runs reason = do
    sessions ← read session_ids
    for_each sessions (interrupt_session reason)

  unfoldable pub cancel_session_for_project_deletion : String → Method V Unit
  cancel_session_for_project_deletion session_id = do
    p ← projection session_id
    cancelled ← cancel_running (values p.runs)
    append_any session_id (deletion_events (values p.runs))

  unfoldable pub resume_session : String → Method V Unit
  resume_session session_id = do
    p ← projection session_id
    if is_empty (restart_events p)
        then when (is_some (ready_action_run p)) (spawn_worker session_id)
        else append_any session_id (restart_events p)

  unfoldable pub resume_ready_actions_after_restart : Method V Unit
  resume_ready_actions_after_restart = do
    sessions ← read session_ids
    for_each sessions resume_session

  -- the rest of `shutdown`, once the workers have finished or were aborted
  unfoldable pub finish_shutdown : Bool → Method V Unit
  finish_shutdown workers_finished = do
    stopped ← interrupt_remaining_runs "server_shutdown"
    check workers_finished shutdown_timeout

  unfoldable pub cancel_sessions : String → Method V Unit
  cancel_sessions project_id = do
    sessions ← project_session_ids project_id
    for_each sessions cancel_session_for_project_deletion

  -- `delete_project` up to where it waits for the sessions' workers
  unfoldable pub begin_delete_project : String → Method V Unit
  begin_delete_project project_id = do
    deleting ← project_is_deleting project_id
    guarded ← check (not deleting) (project_deleting project_id)
    marked ← mark_project project_id
    cancelled ← attempt (cancel_sessions project_id)
    or_unmark project_id cancelled
