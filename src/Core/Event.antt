-- ===== src/Core/Event.antt =====
-- piqo-core/src/event_log.rs: the state changes that make up a session's durable history.
-- `V` is the type of JSON values; a constructor takes the fields of its variant in their order.
use piqo_server.Prelude.{ℕ, String, Bool, Option, List}
use piqo_server.Core.Phases.{AgentPhase, SessionPhase, MessageRole, MessageAuthor, ContentBlock}
use piqo_server.Core.Orchestration.{AgentLink, AgentResult, DelegatedContextRef}
use piqo_server.Core.Context.{CompactionStrategy, ContextArtifact, ContextFact}
use piqo_server.Core.Permissions.{PermissionDecision, PermissionScope, PermissionDecisionSource}

abbrev pub EventId : Type 0
EventId = ℕ

pub data SemanticEvent (V : Type 0) : Type 0 where
  session_created : (title : Option String) → SemanticEvent V
  session_phase_changed :
      (from_phase to_phase : SessionPhase) (reason : Option String) → SemanticEvent V
  session_interrupted : (reason : String) → SemanticEvent V
  session_forked : (parent_session_id : String) (at_event_id : EventId) → SemanticEvent V
  message_started :
      (message_id agent_id : String) (role : MessageRole) (author : MessageAuthor) → SemanticEvent V
  message_content_appended : (message_id : String) (block : ContentBlock V) → SemanticEvent V
  message_completed : (message_id : String) → SemanticEvent V
  message_interrupted : (message_id : String) → SemanticEvent V
  run_queued :
      (run_id : String) (retry_of : Option String) (provider model : String) (request : V)
      → SemanticEvent V
  run_started : (run_id attempt_id : String) (attempt : ℕ) → SemanticEvent V
  run_attempt_started : (run_id attempt_id : String) (attempt : ℕ) → SemanticEvent V
  run_attempt_failed : (run_id attempt_id error : String) (retryable : Bool) → SemanticEvent V
  run_completed : (run_id : String) (usage : Option V) → SemanticEvent V
  run_failed : (run_id error : String) → SemanticEvent V
  run_cancelled : (run_id : String) (reason : Option String) → SemanticEvent V
  run_interrupted : (run_id reason : String) → SemanticEvent V
  run_requires_action : (run_id : String) (call_ids : List String) → SemanticEvent V
  queue_paused : SemanticEvent V
  queue_resumed : SemanticEvent V
  tool_call_emitted :
      (run_id assistant_message_id call_id agent_id tool_name : String) (arguments : V)
      (raw_arguments : String) (native : Bool)
      → SemanticEvent V
  tool_execution_started : (run_id call_id execution_id : String) → SemanticEvent V
  tool_result : (run_id call_id agent_id tool_name : String) (result : V) → SemanticEvent V
  agent_phase_changed : (agent_id : String) (phase : AgentPhase) → SemanticEvent V
  permission_requested :
      (request_id run_id : String) (call_id : Option String) (agent_id tool_name : String)
      (arguments : V)
      → SemanticEvent V
  permission_resolved :
      (request_id : String) (decision : PermissionDecision)
      (source : Option PermissionDecisionSource) (scope : Option PermissionScope)
      (rule_id reason : Option String)
      → SemanticEvent V
  agent_spawned :
      (agent_id : String) (parent_id : Option String) (link : Option (AgentLink V))
      (config_revision : Option ℕ)
      → SemanticEvent V
  agent_finished : (agent_id : String) (result : Option (AgentResult V)) → SemanticEvent V
  agent_context_captured :
      (agent_id : String) (references : List DelegatedContextRef) → SemanticEvent V
  agent_result_delivered :
      (agent_id parent_run_id parent_call_id : String) (result : AgentResult V) → SemanticEvent V
  context_fact_recorded : (fact : ContextFact) → SemanticEvent V
  context_compaction_started :
      (run_id artifact_id : String) (strategy : CompactionStrategy)
      (source_start_event_id source_end_event_id : EventId)
      → SemanticEvent V
  context_compacted : (run_id : String) (artifact : ContextArtifact) → SemanticEvent V
  context_compaction_failed : (run_id artifact_id code : String) → SemanticEvent V
  context_compaction_bypassed : (run_id reason : String) → SemanticEvent V
