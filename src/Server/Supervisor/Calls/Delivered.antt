-- ===== src/Server/Supervisor/Calls/Delivered.antt =====
-- What the primitive steps keep, `deliver_child_result` keeps.
use piqo_server.Prelude.{String, Option, none, some}
use piqo_server.Prelude.Steps.Keeps.{Preorder, Keeps}
use piqo_server.Core.Json.{Json}
use piqo_server.Core.Orchestration.{AgentTerminalStatus, AgentResult}
use piqo_server.Core.Projection.{SessionProjection}
use piqo_server.Server.Supervisor.{Supervisor, Outside, AgentLinkRecord}
use piqo_server.Server.Supervisor.Primitives.{Primitives, method_rules}
use piqo_server.Server.Supervisor.Delivering.{
  deliver_events, deliver_result, deliver_ended, deliver_link, deliver_child_result,
}

module _ {V : Type 0} ⦃j : Json V⦄ (outside : Outside V) (R : Preorder (Supervisor V))
    (P : Primitives outside R) where
  deliver_result-Keeps :
      (link : AgentLinkRecord) (result : AgentResult V) (parent : SessionProjection V)
      → Keeps R (deliver_result outside link result parent)
  unfolding deliver_result deliver_events
  deliver_result-Keeps link result parent = search method_rules depth 10

  deliver_ended-Keeps :
      (link : AgentLinkRecord) (child : SessionProjection V) (status : Option AgentTerminalStatus)
      → Keeps R (deliver_ended outside link child status)
  unfolding deliver_ended
  deliver_ended-Keeps link child none = search method_rules
  deliver_ended-Keeps link child (some status) =
      search (method_rules, deliver_result-Keeps) depth 10

  deliver_link-Keeps : (link : Option AgentLinkRecord) → Keeps R (deliver_link outside link)
  unfolding deliver_link
  deliver_link-Keeps none = search method_rules
  deliver_link-Keeps (some link) = search (method_rules, deliver_ended-Keeps) depth 10

  pub deliver_child_result-Keeps :
      (child_session_id child_run_id : String)
      → Keeps R (deliver_child_result outside child_session_id child_run_id)
  unfolding deliver_child_result
  deliver_child_result-Keeps child_session_id child_run_id =
      search (method_rules, deliver_link-Keeps) depth 10
