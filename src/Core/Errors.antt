-- ===== src/Core/Errors.antt =====
-- piqo-core/src/session.rs: the errors of session transitions and of projecting an event log.
use piqo_server.Prelude.{String}
use piqo_server.Core.Phases.{SessionPhase, RunStatus}

pub record SessionTransitionError : Type 0 where
  pub from_phase : SessionPhase
  pub to_phase : SessionPhase

pub data ProjectionError : Type 0 where
  duplicate_creation : ProjectionError
  invalid_transition : SessionTransitionError → ProjectionError
  duplicate_message unknown_message duplicate_tool_call unknown_tool_call
        duplicate_permission_request unknown_permission_request conflicting_permission_resolution
        conflicting_tool_result external_tool_execution conflicting_tool_execution
        message_already_closed duplicate_agent unknown_agent conflicting_agent_result
        conflicting_agent_context duplicate_run unknown_run :
      String → ProjectionError
  invalid_run_transition : (run_id : String) (from_status to_status : RunStatus) → ProjectionError
