-- ===== src/Core/Projection/Shape.antt =====
-- The shape that every projection keeps: ordered maps whose entries carry their keys, and messages
-- with ids of their own.
use piqo_server.Prelude.{String, false, ◌≡◌, List, [], ◌∷◌, any, str_eq}
use piqo_server.Prelude.Map.Fits.{Fits}
use piqo_server.Core.Projection.{
  SessionProjection, MessageProjection, RunProjection, ToolCallProjection, PermissionProjection,
  AgentProjection,
}

abbrev pub CallFits : {V : Type 0} → String → ToolCallProjection V → Type 0
CallFits k c = c.call_id ≡ k

abbrev pub RunFits : {V : Type 0} → String → RunProjection V → Type 0
RunFits k r = (r.run_id ≡ k) × Fits CallFits r.tool_calls

abbrev pub RequestFits : {V : Type 0} → String → PermissionProjection V → Type 0
RequestFits k p = p.request_id ≡ k

abbrev pub InstanceFits : {V : Type 0} → String → AgentProjection V → Type 0
InstanceFits k a = a.agent_id ≡ k

-- every message has an id of its own
abbrev pub Distinct : {V : Type 0} → List (MessageProjection V) → Type 0
Distinct [] = Unit
Distinct (m ∷ ms) = (any (λ n. str_eq n.message_id m.message_id) ms ≡ false) × Distinct ms

pub record IsWellFormed {V : Type 0} (p : SessionProjection V) : Type 0 where
  pub runs_fit : Fits RunFits p.runs
  pub requests_fit : Fits RequestFits p.pending_permissions
  pub instances_fit : Fits InstanceFits p.agent_instances
  pub messages_distinct : Distinct p.messages
