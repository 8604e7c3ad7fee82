-- ===== src/Core/Projection/Requests/Fitting.antt =====
-- The permission arms keep the map of requests well formed, and never change a decision.
use piqo_server.Prelude.{String, ◌≡◌, refl, ◌∙◌, Option, none, some, ok, arith}
use piqo_server.Prelude.Map.{Map, get, insert}
use piqo_server.Prelude.Map.Carries.{Carries, modify-Carries, insert_fresh-Carries}
use piqo_server.Prelude.Map.Fits.{Fits, insert-Fits, modify-Fits}
use piqo_server.Core.Permissions.{PermissionDecision}
use piqo_server.Core.Errors.{unknown_permission_request}
use piqo_server.Core.Projection.{PermissionProjection}
use piqo_server.Core.Projection.Shape.{RequestFits}
use piqo_server.Core.Projection.Requests.{request_permission, decide_request, resolve_permission}

-- A later state of the same request.
pub record RequestKeeps {V : Type 0} (p q : PermissionProjection V) : Type 0 where
  pub same_id : q.request_id ≡ p.request_id
  pub same_run : q.run_id ≡ p.run_id
  pub same_call : q.call_id ≡ p.call_id
  pub same_agent : q.agent_id ≡ p.agent_id
  pub same_tool : q.tool_name ≡ p.tool_name
  pub same_arguments : q.arguments ≡ p.arguments
  pub decision_kept : (d : PermissionDecision) → p.decision ≡ some d → q.decision ≡ some d

module _ {V : Type 0} where
  new_request : String → String → Option String → String → String → V → PermissionProjection V
  new_request id run_id call_id agent_id tool_name arguments = record {
    request_id = id;
    run_id = run_id;
    call_id = call_id;
    agent_id = agent_id;
    tool_name = tool_name;
    arguments = arguments;
    decision = none;
  }

  requested :
      (id run_id : String) (call_id : Option String) (agent_id tool_name : String) (arguments : V)
      (m m' : Map (PermissionProjection V))
      → request_permission id run_id call_id agent_id tool_name arguments m ≡ ok m'
      → (get id m ≡ none)
        × (m' ≡ insert id (new_request id run_id call_id agent_id tool_name arguments) m)
  unfolding request_permission new_request
  requested id run_id call_id agent_id tool_name arguments m m' h = ground arith

  pub request_permission-Fits :
      (id run_id : String) (call_id : Option String) (agent_id tool_name : String) (arguments : V)
      (m : Map (PermissionProjection V)) {m' : Map (PermissionProjection V)}
      → Fits RequestFits m
      → request_permission id run_id call_id agent_id tool_name arguments m ≡ ok m'
      → Fits RequestFits m'
  unfolding new_request
  request_permission-Fits id run_id call_id agent_id tool_name arguments m {m' = m'} f h =
      let (fresh, e) = requested id run_id call_id agent_id tool_name arguments m m' h in
      rw e (
        insert-Fits RequestFits id (new_request id run_id call_id agent_id tool_name arguments) m
          refl f)

  decide_request-RequestKeeps :
      (id : String) (decision : PermissionDecision) (p q : PermissionProjection V)
      → decide_request id decision p ≡ ok q
      → RequestKeeps p q
  unfolding decide_request
  decide_request-RequestKeeps id decision p q h = ground arith

  pub resolve_permission-Fits :
      (id : String) (decision : PermissionDecision) (m : Map (PermissionProjection V))
      {m' : Map (PermissionProjection V)}
      → Fits RequestFits m
      → resolve_permission id decision m ≡ ok m'
      → Fits RequestFits m'
  unfolding resolve_permission
  resolve_permission-Fits id decision m f h =
      modify-Fits RequestFits id (unknown_permission_request id) (decide_request id decision) m
        (λ p q g e. (decide_request-RequestKeeps id decision p q e).same_id ∙ g) f h

  pub RequestKeeps-refl : (p : PermissionProjection V) → RequestKeeps p p
  RequestKeeps-refl p = ground arith

  pub RequestKeeps-trans :
      (p q r : PermissionProjection V) → RequestKeeps p q → RequestKeeps q r → RequestKeeps p r
  RequestKeeps-trans p q r h k = record {
    same_id = k.same_id ∙ h.same_id;
    same_run = k.same_run ∙ h.same_run;
    same_call = k.same_call ∙ h.same_call;
    same_agent = k.same_agent ∙ h.same_agent;
    same_tool = k.same_tool ∙ h.same_tool;
    same_arguments = k.same_arguments ∙ h.same_arguments;
    decision_kept = λ d e. k.decision_kept d (h.decision_kept d e);
  }

  pub request_permission-Carries :
      (id run_id : String) (call_id : Option String) (agent_id tool_name : String) (arguments : V)
      (m : Map (PermissionProjection V)) {m' : Map (PermissionProjection V)}
      → request_permission id run_id call_id agent_id tool_name arguments m ≡ ok m'
      → Carries RequestKeeps m m'
  request_permission-Carries id run_id call_id agent_id tool_name arguments m {m' = m'} h =
      let (fresh, e) = requested id run_id call_id agent_id tool_name arguments m m' h in
      rw e (
        insert_fresh-Carries RequestKeeps id
          (new_request id run_id call_id agent_id tool_name arguments) m RequestKeeps-refl fresh)

  pub resolve_permission-Carries :
      (id : String) (decision : PermissionDecision) (m : Map (PermissionProjection V))
      {m' : Map (PermissionProjection V)}
      → resolve_permission id decision m ≡ ok m'
      → Carries RequestKeeps m m'
  unfolding resolve_permission
  resolve_permission-Carries id decision m h =
      modify-Carries RequestKeeps id (unknown_permission_request id) (decide_request id decision) m
        RequestKeeps-refl (decide_request-RequestKeeps id decision) h
