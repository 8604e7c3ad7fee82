-- ===== src/Server/Supervisor/Delivering.antt =====
-- piqo-server/src/supervisor.rs: `deliver_child_result`, which gives a delegated run's result to its
-- parent. It answers whether the parent's queue is to be processed, which is where the model ends.
use piqo_server.Prelude.{
  ℕ, String, Bool, false, not, ◌&&◌, ◌||◌, Option, none, some, List, [], ◌∷◌, ◌++◌, all, find,
  is_some, str_eq, if◌then◌else◌,
}
use piqo_server.Prelude.Map.{get, values}
use piqo_server.Prelude.Steps.{◌>>=◌, pure, lift, read, when}
use piqo_server.Core.Json.{Json}
use piqo_server.Core.Phases.{
  RunStatus, completed, failed, cancelled, interrupted, ContentBlock, text, json,
}
use piqo_server.Core.Orchestration.{AgentTerminalStatus, AgentResult}
use piqo_server.Core.Orchestration
use piqo_server.Core.Event.{
  SemanticEvent, agent_finished, agent_result_delivered, tool_result, queue_resumed,
}
use piqo_server.Core.Projection.{SessionProjection, RunProjection}
use piqo_server.Server.Truncation.{truncate_utf8}
use piqo_server.Server.Supervisor.{
  Outside, Method, AgentLinkRecord, get_session, get_run, projection, append, append_many,
  json_error,
}
use piqo_server.Server.Supervisor.Finishing.{find_last, is_assistant}

-- the `match run.status`
unfoldable pub terminal_status : RunStatus → Option AgentTerminalStatus
terminal_status completed = some Orchestration.completed
terminal_status failed = some Orchestration.failed
terminal_status cancelled = some Orchestration.cancelled
terminal_status interrupted = some Orchestration.interrupted
terminal_status _ = none

-- the `error` of the result
unfoldable pub error_of : AgentTerminalStatus → Option String
error_of Orchestration.failed = some "child_failed"
error_of Orchestration.cancelled = some "child_cancelled"
error_of Orchestration.interrupted = some "child_interrupted"
error_of Orchestration.completed = none

abbrev pub is_link_of : String → String → AgentLinkRecord → Bool
is_link_of child_session_id child_run_id link =
    str_eq link.child_session_id child_session_id && str_eq link.child_run_id child_run_id

module _ {V : Type 0} where
  -- whether the projection has the instance's result
  unfoldable pub has_result : String → SessionProjection V → Bool
  has_result instance_id p = elim (get instance_id p.agent_instances) [
    | none ↦ false
    | some agent ↦ is_some agent.result
  ]

  -- every other call of the parent's run has its result
  unfoldable pub all_ready : String → RunProjection V → Bool
  all_ready parent_call_id run =
      all (λ call. str_eq call.call_id parent_call_id || is_some call.result)
        (values run.tool_calls)

module _ {V : Type 0} (outside : Outside V) where
  -- the texts of the blocks, collected, as bytes
  unfoldable pub text_of : List (ContentBlock V) → List ℕ
  text_of [] = []
  text_of (text t ∷ blocks) = outside.bytes t ++ text_of blocks
  text_of (json value ∷ blocks) = text_of blocks

  -- the text of the last message of the assistant
  unfoldable pub last_text : SessionProjection V → List ℕ
  last_text p = elim (find_last (λ m. is_assistant m.role) p.messages) [
    | none ↦ []
    | some message ↦ text_of message.blocks
  ]

  unfoldable pub output_of : AgentTerminalStatus → List ℕ → Option V
  output_of Orchestration.completed output = some (outside.text_value output)
  output_of _ output = none

  unfoldable pub agent_result :
      AgentLinkRecord → AgentTerminalStatus → SessionProjection V → AgentResult V
  agent_result link status child =
      let (output, output_truncated) =
        truncate_utf8 (last_text child) link.budget.max_result_bytes in
      record {
        instance_id = link.instance_id;
        profile_id = link.profile_id;
        child_session_id = link.child_session_id;
        child_run_id = link.child_run_id;
        status = status;
        output = output_of status output;
        output_truncated = output_truncated;
        usage = none;
        error = error_of status;
      }

  unfoldable pub delivery_events :
      AgentLinkRecord → AgentResult V → V → Bool → List (SemanticEvent V)
  delivery_events link result value ready =
      agent_finished link.instance_id (some result)
      ∷ agent_result_delivered link.instance_id link.parent_run_id link.parent_call_id result
      ∷ tool_result link.parent_run_id link.parent_call_id "delegate" "delegate" value
      ∷ (if ready then queue_resumed ∷ [] else [])

module _ {V : Type 0} ⦃j : Json V⦄ (outside : Outside V) where
  unfoldable pub deliver_events :
      AgentLinkRecord → AgentResult V → SessionProjection V → Method V Bool
  deliver_events link result parent = do
    run ← lift (get_run link.parent_run_id parent)
    value ← lift (json_error (outside.result_value result))
    recorded ←
        append_many outside link.parent_session_id
          (delivery_events outside link result value (all_ready link.parent_call_id run))
    pure (all_ready link.parent_call_id run)

  unfoldable pub deliver_result :
      AgentLinkRecord → AgentResult V → SessionProjection V → Method V Bool
  deliver_result link result parent =
      if has_result link.instance_id parent then pure false else deliver_events link result parent

  unfoldable pub deliver_ended :
      AgentLinkRecord → SessionProjection V → Option AgentTerminalStatus → Method V Bool
  deliver_ended link child none = pure false
  deliver_ended link child (some status) = do
    finished ← when (not (has_result link.instance_id child)) (
        append outside link.child_session_id
          (agent_finished link.instance_id (some (agent_result outside link status child)))
        >>= λ recorded. pure tt)
    parent ← projection link.parent_session_id
    deliver_result link (agent_result outside link status child) parent

  unfoldable pub deliver_link : Option AgentLinkRecord → Method V Bool
  deliver_link none = pure false
  deliver_link (some link) = do
    child ← projection link.child_session_id
    run ← lift (get_run link.child_run_id child)
    deliver_ended link child (terminal_status run.status)

  unfoldable pub deliver_child_result : String → String → Method V Bool
  deliver_child_result child_session_id child_run_id = do
    found ← get_session child_session_id
    links ← read (λ s. s.links)
    deliver_link (find (is_link_of child_session_id child_run_id) links)
