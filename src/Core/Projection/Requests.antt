-- ===== src/Core/Projection/Requests.antt =====
-- The permission requests of a session: the arms of `SessionProjection::apply` that write to
-- `pending_permissions`.
pub mod Fitting
use piqo_server.Prelude.{
  String, Bool, true, false, Option, none, some, if◌then◌else◌, Result, ok, err,
}
use piqo_server.Prelude.Map.{Map, insert, contains_key, modify}
use piqo_server.Core.Permissions.{PermissionDecision, allow, ask, deny}
use piqo_server.Core.Errors.{
  ProjectionError, duplicate_permission_request, unknown_permission_request,
  conflicting_permission_resolution,
}
use piqo_server.Core.Projection.{PermissionProjection}

-- `==` of the derived `PartialEq`
abbrev pub same_decision : PermissionDecision → PermissionDecision → Bool
same_decision allow allow = true
same_decision ask ask = true
same_decision deny deny = true
same_decision _ _ = false

module _ {V : Type 0} where
  unfoldable pub request_permission :
      String
      → String
      → Option String
      → String
      → String
      → V
      → Map (PermissionProjection V)
      → Result ProjectionError (Map (PermissionProjection V))
  request_permission request_id run_id call_id agent_id tool_name arguments pending =
      if contains_key request_id pending
      then err (duplicate_permission_request request_id)
      else ok (
          insert request_id
            (record {
              request_id = request_id;
              run_id = run_id;
              call_id = call_id;
              agent_id = agent_id;
              tool_name = tool_name;
              arguments = arguments;
              decision = none;
            })
            pending)

  -- `match pending.decision`
  unfoldable pub decide_request :
      String
      → PermissionDecision
      → PermissionProjection V
      → Result ProjectionError (PermissionProjection V)
  decide_request request_id decision p = elim p.decision [
    | none ↦ ok (record p { decision = some decision })
    | some existing ↦
        if same_decision existing decision
        then ok p
        else err (conflicting_permission_resolution request_id)
  ]

  unfoldable pub resolve_permission :
      String
      → PermissionDecision
      → Map (PermissionProjection V)
      → Result ProjectionError (Map (PermissionProjection V))
  unfolding decide_request
  resolve_permission request_id decision =
      modify request_id (unknown_permission_request request_id) (decide_request request_id decision)
