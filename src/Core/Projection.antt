-- ===== src/Core/Projection.antt =====
-- piqo-core/src/session.rs: `SessionProjection`, what the event log of a session amounts to.
-- `V` is the type of JSON values.
pub mod Shape
pub mod Messages
pub mod Agents
pub mod Requests
pub mod ToolCalls
pub mod Runs
pub mod Facts
pub mod Apply
pub mod Queue
use piqo_server.Prelude.{ℕ, String, Bool, Option, List}
use piqo_server.Prelude.Int.{ℤ}
use piqo_server.Prelude.Map.{Map}
use piqo_server.Core.Phases.{AgentPhase, MessageRole, MessageAuthor, ContentBlock, RunStatus}
use piqo_server.Core.Orchestration.{AgentLink, AgentResult, DelegatedContextRef}
use piqo_server.Core.Context.{ContextProjection}
use piqo_server.Core.Permissions.{PermissionDecision}
use piqo_server.Core.Event.{EventId}
use piqo_server.Core.SessionState.{SessionState}

pub record MessageProjection (V : Type 0) : Type 0 where
  pub message_id : String
  pub role : MessageRole
  pub agent_id : Option String
  pub author : MessageAuthor
  pub blocks : List (ContentBlock V)
  pub completed : Bool
  pub interrupted : Bool
  pub first_event_id : EventId
  pub last_event_id : EventId

pub record ToolCallProjection (V : Type 0) : Type 0 where
  pub call_id : String
  pub assistant_message_id : String
  pub agent_id : String
  pub tool_name : String
  pub arguments : V
  pub raw_arguments : String
  pub native : Bool
  pub execution_id : Option String
  pub result : Option V

pub record RunProjection (V : Type 0) : Type 0 where
  pub run_id : String
  pub retry_of : Option String
  pub provider : String
  pub model : String
  pub request : V
  pub status : RunStatus
  pub attempt_id : Option String
  pub attempts : ℕ
  pub error : Option String
  pub usage : Option V
  pub queue_priority : ℤ
  pub tool_calls : Map (ToolCallProjection V)

pub record PermissionProjection (V : Type 0) : Type 0 where
  pub request_id : String
  pub run_id : String
  pub call_id : Option String
  pub agent_id : String
  pub tool_name : String
  pub arguments : V
  pub decision : Option PermissionDecision

pub record AgentProjection (V : Type 0) : Type 0 where
  pub agent_id : String
  pub parent_id : Option String
  pub link : Option (AgentLink V)
  pub config_revision : Option ℕ
  pub context : List DelegatedContextRef
  pub result : Option (AgentResult V)

pub record SessionProjection (V : Type 0) : Type 0 where
  pub state : SessionState
  pub messages : List (MessageProjection V)
  pub agents : Map AgentPhase
  pub agent_instances : Map (AgentProjection V)
  pub pending_permissions : Map (PermissionProjection V)
  pub runs : Map (RunProjection V)
  pub queue_paused : Bool
  pub context : ContextProjection
