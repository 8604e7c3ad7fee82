-- ===== src/Core/Phases.antt =====
-- piqo-core/src/session.rs: the enumerations of a session and the content of its messages.
-- `V` is the type of JSON values, which comes from a library.
use piqo_server.Prelude.{String}

pub data AgentPhase : Type 0 where
  created running waiting_for_permission finished failed : AgentPhase

pub data SessionPhase : Type 0 where
  created running interrupted finished failed : SessionPhase

pub data MessageRole : Type 0 where
  system user assistant tool : MessageRole

pub data MessageAuthor : Type 0 where
  system user : MessageAuthor
  agent tool : String → MessageAuthor

pub data ContentBlock (V : Type 0) : Type 0 where
  text : String → ContentBlock V
  json : V → ContentBlock V

pub data RunStatus : Type 0 where
  queued running requires_action completed failed cancelled interrupted : RunStatus
