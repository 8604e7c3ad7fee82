-- ===== src/Core/Projection/Apply/Quiet.antt =====
-- Events that leave the session's phase alone, and a phase change from a phase that it is not in.
use piqo_server.Prelude.{
  refl, String, Bool, true, false, ◌≡◌, sym, ap, ◌∙◌, Option, some, ok, err, arith,
}
use piqo_server.Core.Json.{Json}
use piqo_server.Core.Errors.{ProjectionError}
use piqo_server.Core.Phases.{SessionPhase, interrupted}
use piqo_server.Core.Event.{
  EventId, SemanticEvent, session_interrupted, session_phase_changed, message_completed,
  message_interrupted, run_started, run_failed, run_cancelled, run_interrupted, queue_resumed,
}
use piqo_server.Core.SessionState
use piqo_server.Core.SessionState.{Outcome, same_phase}
use piqo_server.Core.Projection.{SessionProjection}
use piqo_server.Core.Projection.Apply.{after_state, apply, project_event}
use piqo_server.Core.Projection.Apply.Phase.{project_event-state}

interrupted-state :
    (V : Type 0) (s : SessionState.SessionState) (event_id : EventId) (reason : String)
    → (SessionState.apply {V = V} s event_id (session_interrupted reason)).1 ≡ ok tt
    → (SessionState.apply {V = V} s event_id (session_interrupted reason)).0.phase ≡ interrupted
unfolding SessionState.apply
interrupted-state V s event_id reason h = ground arith

module _ {V : Type 0} where
  -- the events of this kind that the supervisor appends to a run's session
  abbrev pub is_quiet : SemanticEvent V → Bool
  is_quiet (message_completed message_id) = true
  is_quiet (message_interrupted message_id) = true
  is_quiet (run_started run_id attempt_id attempt) = true
  is_quiet (run_failed run_id error) = true
  is_quiet (run_cancelled run_id reason) = true
  is_quiet (run_interrupted run_id reason) = true
  is_quiet queue_resumed = true
  is_quiet _ = false

  quiet-state :
      (s : SessionState.SessionState) (event_id : EventId) (event : SemanticEvent V)
      → is_quiet event ≡ true
      → SessionState.apply s event_id event ≡ (record s { last_event_id = some event_id }, ok tt)
  unfolding SessionState.apply
  quiet-state s event_id _ quiet = ground arith

module _ {V : Type 0} ⦃j : Json V⦄ where
  pub quiet-phase :
      (p : SessionProjection V) (event_id : EventId) (event : SemanticEvent V)
      {q : SessionProjection V}
      → is_quiet event ≡ true
      → apply p event_id event ≡ (q, ok tt)
      → q.state.phase ≡ p.state.phase
  unfolding apply after_state
  quiet-phase p event_id event {q = q} quiet h =
      go (SessionState.apply p.state event_id event) (quiet-state p.state event_id event quiet) h
    where
      go :
          (r : SessionState.SessionState × Outcome ProjectionError)
          → r ≡ (record p.state { last_event_id = some event_id }, ok tt)
          → after_state p event_id event r ≡ (q, ok tt)
          → q.state.phase ≡ p.state.phase
      go (state, ok tt) e h =
          sym (ap (λ (x : SessionProjection V × Outcome ProjectionError). x.0.state.phase) h)
          ∙ ap (λ (x : SessionState.SessionState). x.phase)
              (project_event-state (record p { state = state }) event_id event)
          ∙ ap (λ (x : SessionState.SessionState × Outcome ProjectionError). x.0.phase) e
      go (state, err x) e h = absurd (cc)

  -- a change from a phase that the session is not in is refused
  pub phase_changed-refused :
      (p : SessionProjection V) (event_id : EventId) (from_phase to_phase : SessionPhase)
      (reason : Option String) {q : SessionProjection V}
      → same_phase p.state.phase from_phase ≡ false
      → ¬ (apply p event_id (session_phase_changed from_phase to_phase reason) ≡ (q, ok tt))
  unfolding apply after_state SessionState.apply
  phase_changed-refused p event_id from_phase to_phase reason other h = absurd (cc (rw other at h))

  -- an interruption that is accepted leaves the session interrupted
  pub interrupted-phase :
      (p : SessionProjection V) (event_id : EventId) (reason : String) {q : SessionProjection V}
      → apply p event_id (session_interrupted reason) ≡ (q, ok tt)
      → q.state.phase ≡ interrupted
  unfolding apply after_state project_event
  interrupted-phase p event_id reason {q = q} h =
      go (SessionState.apply p.state event_id event) (interrupted-state V p.state event_id reason) h
    where
      event : SemanticEvent V
      event = session_interrupted reason

      go :
          (r : SessionState.SessionState × Outcome ProjectionError)
          → (r.1 ≡ ok tt → r.0.phase ≡ interrupted)
          → after_state p event_id event r ≡ (q, ok tt)
          → q.state.phase ≡ interrupted
      go (state, ok tt) e h =
          sym (ap (λ (x : SessionProjection V × Outcome ProjectionError). x.0.state.phase) h)
          ∙ e refl
      go (state, err x) e h = absurd (cc)
