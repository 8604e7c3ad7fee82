-- ===== src/Core/Projection/Apply/Refused.antt =====
-- What an event leaves behind that the projection refuses.
use piqo_server.Prelude.{◌≡◌, ok, err, arith}
use piqo_server.Core.Json.{Json}
use piqo_server.Core.Errors.{ProjectionError}
use piqo_server.Core.Event.{EventId, SemanticEvent, session_created}
use piqo_server.Core.SessionState
use piqo_server.Core.SessionState.{Outcome}
use piqo_server.Core.Projection.{SessionProjection}
use piqo_server.Core.Projection.Agents.{
  spawn_agent, agent_finished_arm, agent_context_captured_arm, agent_result_delivered_arm,
}
use piqo_server.Core.Projection.Apply.{project_event, after_state, apply}

-- everything but the phases of agents and the session state
pub record SameParts {V : Type 0} (p q : SessionProjection V) : Type 0 where
  pub same_messages : q.messages ≡ p.messages
  pub same_runs : q.runs ≡ p.runs
  pub same_requests : q.pending_permissions ≡ p.pending_permissions
  pub same_instances : q.agent_instances ≡ p.agent_instances
  pub same_pause : q.queue_paused ≡ p.queue_paused
  pub same_context : q.context ≡ p.context

module _ {V : Type 0} ⦃j : Json V⦄ where
  project_event-SameParts :
      (p : SessionProjection V) (event_id : EventId) (event : SemanticEvent V) {e : ProjectionError}
      → (project_event p event_id event).1 ≡ err e
      → SameParts p (project_event p event_id event).0
  unfolding project_event spawn_agent agent_finished_arm agent_context_captured_arm
      agent_result_delivered_arm
  project_event-SameParts p n (session_created title) h = ground arith
  project_event-SameParts p n _ h = ground arith

  -- An event that is refused writes to no message, run, permission request or agent instance, and to
  -- neither the pause flag nor the context. (The session's state and the phases of its agents are
  -- written before some of the tests.)
  pub apply-SameParts :
      (p : SessionProjection V) (event_id : EventId) (event : SemanticEvent V) {e : ProjectionError}
      → (apply p event_id event).1 ≡ err e
      → SameParts p (apply p event_id event).0
  unfolding apply
  apply-SameParts p event_id event {e = e} h = go (SessionState.apply p.state event_id event) h
    where
      go :
          (s : SessionState.SessionState × Outcome ProjectionError)
          → (after_state p event_id event s).1 ≡ err e
          → SameParts p (after_state p event_id event s).0
      go (state, ok tt) k =
          let same = project_event-SameParts (record p { state = state }) event_id event k in
          record {
            same_messages = same.same_messages;
            same_runs = same.same_runs;
            same_requests = same.same_requests;
            same_instances = same.same_instances;
            same_pause = same.same_pause;
            same_context = same.same_context;
          }
      go (state, err x) k = ground arith
