-- ===== src/Server/Supervisor/Finishing.antt =====
-- piqo-server/src/supervisor.rs: what `finish_run` records of how the execution of a run ended.
pub mod Refused
pub mod Resumed
use piqo_server.Prelude.{
  String, Bool, true, false, not, ◌&&◌, Option, none, some, List, [], ◌∷◌, ◌++◌, find,
  if◌then◌else◌,
}
use piqo_server.Prelude.Steps.{◌>>=◌, pure, if_some}
use piqo_server.Core.Json.{Json}
use piqo_server.Core.Phases.{
  MessageRole, assistant, running, interrupted as phase_interrupted, failed as phase_failed,
}
use piqo_server.Core.Event.{
  SemanticEvent, session_phase_changed, message_completed, message_interrupted, run_completed,
  run_failed, run_cancelled, run_interrupted,
}
use piqo_server.Core.Projection.{SessionProjection, MessageProjection}
use piqo_server.Server.Supervisor.{Outside, Method, projection, append}

pub data ExecutionResult (V : Type 0) : Type 0 where
  completed : ExecutionResult V
  completed_with_usage : (usage : Option V) → ExecutionResult V
  failed : (error : String) (retryable : Bool) → ExecutionResult V
  cancelled interrupted requires_action : ExecutionResult V

abbrev pub is_assistant : MessageRole → Bool
is_assistant assistant = true
is_assistant _ = false

module _ {V : Type 0} where
  -- `iter().rev().find(test)`
  unfoldable pub find_last :
      (MessageProjection V → Bool) → List (MessageProjection V) → Option (MessageProjection V)
  find_last test [] = none
  find_last test (m ∷ messages) = elim (find_last test messages) [
    | some found ↦ some found
    | none ↦ if test m then some m else none
  ]

  abbrev pub is_unfinished : MessageProjection V → Bool
  is_unfinished m = is_assistant m.role && not m.completed

  abbrev pub is_streaming : MessageProjection V → Bool
  is_streaming m = is_assistant m.role && (not m.completed && not m.interrupted)

module _ {V : Type 0} ⦃j : Json V⦄ (outside : Outside V) where
  unfoldable pub record_event : String → SemanticEvent V → Method V Unit
  record_event session_id event = do recorded ← append outside session_id event; pure tt

  unfoldable pub interrupt_message : String → Method V Unit
  interrupt_message session_id = do
    p ← projection session_id
    if_some (find_last is_streaming p.messages)
        (λ m. record_event session_id (message_interrupted m.message_id))

  unfoldable pub complete_message : (MessageProjection V → Bool) → String → Method V Unit
  complete_message test session_id = do
    p ← projection session_id
    if_some (find_last test p.messages)
        (λ m. record_event session_id (message_completed m.message_id))

  -- the three arms that end a run short of its completion
  unfoldable pub stop_run : String → SemanticEvent V → SemanticEvent V → Method V Unit
  stop_run session_id run_event phase_event = do
    message ← interrupt_message session_id
    ended ← record_event session_id run_event
    record_event session_id phase_event

  -- the `match result`
  unfoldable pub record_outcome : String → String → ExecutionResult V → Method V Unit
  record_outcome session_id run_id (completed_with_usage usage) = do
    message ← complete_message is_unfinished session_id
    record_event session_id (run_completed run_id usage)
  record_outcome session_id run_id cancelled =
      stop_run session_id (run_cancelled run_id (some "cancelled_by_user"))
        (session_phase_changed running phase_interrupted (some "run_cancelled"))
  record_outcome session_id run_id interrupted =
      stop_run session_id (run_interrupted run_id "server_shutdown")
        (session_phase_changed running phase_interrupted (some "server_shutdown"))
  record_outcome session_id run_id requires_action = do
    message ← complete_message is_streaming session_id
    record_event session_id
        (session_phase_changed running phase_interrupted (some "requires_action"))
  record_outcome session_id run_id (failed error retryable) =
      stop_run session_id (run_failed run_id error)
        (session_phase_changed running phase_failed (some "run_failed"))
  record_outcome session_id run_id completed = pure tt
