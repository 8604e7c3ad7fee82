-- ===== src/Server/Supervisor/Processing.antt =====
-- piqo-server/src/supervisor.rs: `process_session`, the worker of a session: one turn of its loop up to
-- where a run executes. The permit of an active run is awaited, so it changes nothing here.
pub mod Starting
use piqo_server.Prelude.{
  ℕ, ◌+◌, ◌%◌, String, Bool, true, false, not, Option, none, some, List, [], ◌∷◌, find, is_some,
  leb, str_eq, if◌then◌else◌, Result, ok, err,
}
use piqo_server.Prelude.Map.{insert, remove}
use piqo_server.Prelude.Steps.{◌>>=◌, pure, fail, lift, read, update, attempt, when}
use piqo_server.Core.Json.{Json}
use piqo_server.Core.Phases.{running, finished}
use piqo_server.Core.Orchestration.{AgentBudget}
use piqo_server.Core.SessionState.{same_phase}
use piqo_server.Core.Event.{
  SemanticEvent, session_phase_changed, run_started, run_failed, queue_resumed,
}
use piqo_server.Core.EventLog.{RecordedEvent}
use piqo_server.Core.Projection.{SessionProjection, RunProjection}
use piqo_server.Core.Projection.Queue.{active_run, queued_runs, ready_action_run}
use piqo_server.Server.Storage.{StoreError, session_not_found}
use piqo_server.Server.Supervisor.{
  Outside, Method, AgentLinkRecord, get_session, projection, new_id, append,
}

-- 2^32: attempts are u32
abbrev pub u32_mod : ℕ
u32_mod = 4294967296

-- what the worker does next: it stops, its loop goes on, or a run executes
pub data Next (V : Type 0) : Type 0 where
  stopped again : Next V
  execute : (run : RunProjection V) → Next V

module _ {V : Type 0} where
  unfoldable pub child_budget : String → Method V (Option AgentLinkRecord)
  child_budget session_id = do
    session ← get_session session_id
    read (λ s. find (λ link. str_eq link.child_session_id session_id) s.links)

  -- a child's budget, else the configuration's
  abbrev pub turns_of : Outside V → Option AgentLinkRecord → Result StoreError ℕ
  turns_of outside (some link) = ok link.budget.max_model_turns
  turns_of outside none = outside.max_model_turns

  unfoldable pub max_model_turns : Outside V → String → Method V ℕ
  max_model_turns outside session_id = do
    link ← child_budget session_id
    lift (turns_of outside link)

  -- the token of a run that becomes active
  unfoldable pub hold_token : String → Method V Unit
  hold_token run_id = update (λ s. record s { cancellations = insert run_id false s.cancellations })

  unfoldable pub drop_token : String → Method V Unit
  drop_token run_id = update (λ s. record s { cancellations = remove run_id s.cancellations })

  -- `if let Err(error) = …`: a run that did not start has no token
  unfoldable pub or_drop_token : String → Result StoreError (List (RecordedEvent V)) → Method V Unit
  or_drop_token run_id (ok recorded) = pure tt
  or_drop_token run_id (err e) = do dropped ← drop_token run_id; fail e

  abbrev pub started : RunProjection V → String → SemanticEvent V
  started run attempt_id = run_started run.run_id attempt_id ((run.attempts + 1) % u32_mod)

module _ {V : Type 0} ⦃j : Json V⦄ (outside : Outside V) where
  -- a run all of whose tool calls have results takes another turn of the model
  unfoldable pub resume_ready : String → RunProjection V → Method V (Next V)
  resume_ready session_id run = do
    max_turns ← max_model_turns outside session_id
    if leb max_turns run.attempts
        then (append outside session_id (run_failed run.run_id (outside.turns_exceeded max_turns))
            >>= λ recorded. pure again)
        else (append outside session_id queue_resumed >>= λ resumed.
            new_id outside >>= λ attempt_id.
            append outside session_id (started run attempt_id) >>= λ recorded.
            hold_token run.run_id >>= λ held. pure (execute run))

  unfoldable pub finish_queue : String → SessionProjection V → Method V (Next V)
  finish_queue session_id p = do
    recorded ← when (same_phase p.state.phase running) (
        append outside session_id (session_phase_changed running finished (some "queue_empty"))
        >>= λ recorded. pure tt)
    pure stopped

  unfoldable pub start_queued : String → SessionProjection V → RunProjection V → Method V (Next V)
  start_queued session_id p run = do
    recorded ← when (not (same_phase p.state.phase running)) (
        append outside session_id (session_phase_changed p.state.phase running (some "run_started"))
        >>= λ recorded. pure tt)
    attempt_id ← new_id outside
    held ← hold_token run.run_id
    appended ← attempt (append outside session_id (started run attempt_id))
    begun ← or_drop_token run.run_id appended
    pure (
        execute
          (record run { attempt_id = some attempt_id; attempts = (run.attempts + 1) % u32_mod }))

  unfoldable pub take_queued :
      String → SessionProjection V → List (RunProjection V) → Method V (Next V)
  take_queued session_id p [] = finish_queue session_id p
  take_queued session_id p (run ∷ runs) = start_queued session_id p run

  unfoldable pub take_next :
      String → SessionProjection V → Option (RunProjection V) → Method V (Next V)
  take_next session_id p (some run) = resume_ready session_id run
  take_next session_id p none =
      if p.queue_paused then pure stopped else take_queued session_id p (queued_runs p)

  unfoldable pub process_next : String → Method V (Next V)
  process_next session_id = do
    stopping ← read (λ s. s.is_shutting_down)
    if stopping
        then pure stopped
        else (projection session_id >>= λ p.
            if is_some (active_run p)
            then pure stopped
            else take_next session_id p (ready_action_run p))
