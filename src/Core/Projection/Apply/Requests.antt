-- ===== src/Core/Projection/Apply/Requests.antt =====
-- What one event, and a whole history, does to the permission requests of a session.
use piqo_server.Prelude.{String, ◌≡◌, refl, some, Result, ok, err, arith}
use piqo_server.Prelude.Map.{Map, get}
use piqo_server.Prelude.Map.Carries.{Carries, Carries-refl, Carries-trans}
use piqo_server.Core.Json.{Json}
use piqo_server.Core.Permissions.{PermissionDecision}
use piqo_server.Core.Errors.{ProjectionError}
use piqo_server.Core.Event.{EventId, SemanticEvent, permission_requested, permission_resolved}
use piqo_server.Core.SessionState
use piqo_server.Core.SessionState.{Outcome}
use piqo_server.Core.Projection.{SessionProjection, PermissionProjection}
use piqo_server.Core.Projection.Requests.{request_permission, resolve_permission}
use piqo_server.Core.Projection.Requests.Fitting.{
  RequestKeeps, RequestKeeps-refl, RequestKeeps-trans, request_permission-Carries,
  resolve_permission-Carries,
}
use piqo_server.Core.Projection.Apply.{put_requests, project_event, after_state, apply}
use piqo_server.Core.Projection.Apply.Histories.{Later, now, then}

abbrev Kept : {V : Type 0} → Map (PermissionProjection V) → Map (PermissionProjection V) → Type 0
Kept = Carries RequestKeeps

module _ {V : Type 0} where
  Kept-refl : (m : Map (PermissionProjection V)) → Kept m m
  Kept-refl m = Carries-refl RequestKeeps m RequestKeeps-refl

  still : (m m' : Map (PermissionProjection V)) → m' ≡ m → Kept m m'
  still m m' e = rw e (Kept-refl m)

  put_requests-Kept :
      (p : SessionProjection V) (r : Result ProjectionError (Map (PermissionProjection V)))
      → ((m : Map (PermissionProjection V)) → r ≡ ok m → Kept p.pending_permissions m)
      → Kept p.pending_permissions (put_requests p r).0.pending_permissions
  unfolding put_requests
  put_requests-Kept p (ok m) keep = keep m refl
  put_requests-Kept p (err e) keep = Kept-refl p.pending_permissions

module _ {V : Type 0} ⦃j : Json V⦄ where
  project_event-Kept :
      (p : SessionProjection V) (event_id : EventId) (event : SemanticEvent V)
      → Kept p.pending_permissions (project_event p event_id event).0.pending_permissions
  unfolding project_event
  project_event-Kept p n (permission_requested id run_id call_id agent_id tool_name arguments) =
      put_requests-Kept p
        (request_permission id run_id call_id agent_id tool_name arguments p.pending_permissions)
        (λ m h.
          request_permission-Carries id run_id call_id agent_id tool_name arguments
            p.pending_permissions h)
  project_event-Kept p n (permission_resolved id decision source scope rule_id reason) =
      put_requests-Kept p (resolve_permission id decision p.pending_permissions)
        (λ m h. resolve_permission-Carries id decision p.pending_permissions h)
  project_event-Kept p n event =
      still p.pending_permissions (project_event p n event).0.pending_permissions (ground arith)

  apply-Kept :
      (p : SessionProjection V) (event_id : EventId) (event : SemanticEvent V)
      → Kept p.pending_permissions (apply p event_id event).0.pending_permissions
  unfolding apply
  apply-Kept p event_id event = go (SessionState.apply p.state event_id event)
    where
      go :
          (s : SessionState.SessionState × Outcome ProjectionError)
          → Kept p.pending_permissions (after_state p event_id event s).0.pending_permissions
      go (state, ok tt) = project_event-Kept (record p { state = state }) event_id event
      go (state, err e) = Kept-refl p.pending_permissions

  Later-Kept :
      {p q : SessionProjection V}
      → Later p q
      → Carries RequestKeeps p.pending_permissions q.pending_permissions
  Later-Kept {p = p} now = Kept-refl p.pending_permissions
  Later-Kept {p = p} (then {q = q} l event_id event) =
      Carries-trans RequestKeeps RequestKeeps RequestKeeps p.pending_permissions
        q.pending_permissions (apply q event_id event).0.pending_permissions RequestKeeps-trans
        (Later-Kept l) (apply-Kept q event_id event)

  -- A permission decision, once recorded, is never withdrawn or turned into another, and the request
  -- that it answers keeps its run, its call, its agent, its tool and its arguments.
  pub decision_final :
      {p q : SessionProjection V} (request_id : String) (r : PermissionProjection V)
      (d : PermissionDecision)
      → Later p q
      → get request_id p.pending_permissions ≡ some r
      → r.decision ≡ some d
      → (s : PermissionProjection V) × (get request_id q.pending_permissions ≡ some s)
        × (s.decision ≡ some d)
        × (s.run_id ≡ r.run_id)
        × (s.call_id ≡ r.call_id)
        × (s.agent_id ≡ r.agent_id)
        × (s.tool_name ≡ r.tool_name)
        × (s.arguments ≡ r.arguments)
  decision_final request_id r d l found decided =
      let (s, there, keeps) = Later-Kept l request_id r found in
      (
        s,
        there,
        keeps.decision_kept d decided,
        keeps.same_run,
        keeps.same_call,
        keeps.same_agent,
        keeps.same_tool,
        keeps.same_arguments,
      )
