-- ===== src/Core/Projection/Apply/Renaming.antt =====
-- A projection does not depend on the id of its session.
use piqo_server.Prelude.{String, ◌≡◌, sym, ap, ◌∙◌, ok, err, arith}
use piqo_server.Core.Json.{Json}
use piqo_server.Core.Errors.{ProjectionError}
use piqo_server.Core.Event.{EventId, SemanticEvent}
use piqo_server.Core.SessionState
use piqo_server.Core.SessionState.{Outcome}
use piqo_server.Core.Projection.{SessionProjection}
use piqo_server.Core.Projection.Apply.{
  put_messages, put_requests, put_runs, put_agents, agents_of, project_event, after_state, apply,
}

abbrev pub rename_state : String → SessionState.SessionState → SessionState.SessionState
rename_state id s = record s { session_id = id }

module _ {V : Type 0} where
  abbrev pub rename : String → SessionProjection V → SessionProjection V
  rename id p = record p { state = rename_state id p.state }

  abbrev restate : SessionState.SessionState → SessionProjection V → SessionProjection V
  restate state p = record p { state = state }

  state_apply-rename :
      (id : String) (s : SessionState.SessionState) (event_id : EventId) (event : SemanticEvent V)
      → SessionState.apply (rename_state id s) event_id event ≡ (
        rename_state id (SessionState.apply s event_id event).0,
        (SessionState.apply s event_id event).1,
      )
  unfolding SessionState.apply
  state_apply-rename id s event_id _ = ground arith

module _ {V : Type 0} ⦃j : Json V⦄ where
  project_event-restate :
      (state : SessionState.SessionState) (p : SessionProjection V) (event_id : EventId)
      (event : SemanticEvent V)
      → project_event (restate state p) event_id event
        ≡ (restate state (project_event p event_id event).0, (project_event p event_id event).1)
  unfolding project_event put_messages put_requests put_runs put_agents agents_of
  project_event-restate state p event_id _ = ground arith

  -- an accepted event is accepted under another id, and does the same
  pub apply-rename :
      (id : String) (p : SessionProjection V) (event_id : EventId) (event : SemanticEvent V)
      {q : SessionProjection V}
      → apply p event_id event ≡ (q, ok tt)
      → apply (rename id p) event_id event ≡ (rename id q, ok tt)
  unfolding apply after_state
  apply-rename id p event_id event {q = q} h =
      ap (after_state (rename id p) event_id event) (state_apply-rename id p.state event_id event)
      ∙ go (SessionState.apply p.state event_id event) h
    where
      go :
          (r : SessionState.SessionState × Outcome ProjectionError)
          → after_state p event_id event r ≡ (q, ok tt)
          → after_state (rename id p) event_id event (rename_state id r.0, r.1)
            ≡ (rename id q, ok tt)
      go (state, ok tt) h =
          project_event-restate (rename_state id state) p event_id event
          ∙ ap (λ (x : SessionProjection V × Outcome ProjectionError). (rename id x.0, x.1))
              (sym (project_event-restate state p event_id event) ∙ h)
      go (state, err e) h = absurd (cc)
