-- ===== src/Core/Projection/Apply/Phase.antt =====
-- The session's own state within its projection: only `SessionState::apply` writes it.
use piqo_server.Prelude.{◌≡◌, refl, some, ok, err, arith}
use piqo_server.Core.Json.{Json}
use piqo_server.Core.Errors.{ProjectionError}
use piqo_server.Core.Event.{EventId, SemanticEvent}
use piqo_server.Core.SessionState
use piqo_server.Core.SessionState.Transitions.{apply-Move}
use piqo_server.Core.Projection.{SessionProjection}
use piqo_server.Core.Projection.Apply.{
  put_messages, put_requests, put_runs, put_agents, project_event, after_state, apply,
}

module _ {V : Type 0} ⦃j : Json V⦄ where
  pub project_event-state :
      (p : SessionProjection V) (event_id : EventId) (event : SemanticEvent V)
      → (project_event p event_id event).0.state ≡ p.state
  unfolding project_event put_messages put_requests put_runs put_agents
  project_event-state p event_id _ = ground arith

  -- An event that the projection accepts is the last event of the session's state.
  pub apply-last_event_id :
      (p : SessionProjection V) (event_id : EventId) (event : SemanticEvent V)
      → (apply p event_id event).1 ≡ ok tt
      → (apply p event_id event).0.state.last_event_id ≡ some event_id
  unfolding apply after_state
  apply-last_event_id p event_id event h = go (SessionState.apply p.state event_id event) refl h
    where
      go :
          (r : SessionState.SessionState × SessionState.Outcome ProjectionError)
          → SessionState.apply p.state event_id event ≡ r
          → (after_state p event_id event r).1 ≡ ok tt
          → (after_state p event_id event r).0.state.last_event_id ≡ some event_id
      go (state, ok tt) e h =
          let moved = apply-Move p.state event_id event (rw e refl) in
          rw project_event-state (rw e at moved.0)
      go (state, err e) _ h = absurd (cc)
