-- ===== src/Core/Projection/Agents/Fitting.antt =====
-- The agent arms keep the map of agent instances well formed, and a settled result is final.
use piqo_server.Prelude.{
  ℕ, String, ◌≡◌, refl, ◌∙◌, Option, none, some, List, [], Result, ok, err, arith,
}
use piqo_server.Prelude.Map.{Map, insert, modify}
use piqo_server.Prelude.Map.Fits.{Fits, insert-Fits, modify-Fits}
use piqo_server.Core.Json.{Json}
use piqo_server.Core.Phases.{AgentPhase}
use piqo_server.Core.Orchestration.{AgentResult, AgentLink, DelegatedContextRef}
use piqo_server.Core.Errors.{ProjectionError, unknown_agent}
use piqo_server.Core.Projection.{AgentProjection}
use piqo_server.Core.Projection.Shape.{InstanceFits}
use piqo_server.Core.Projection.Agents.{
  Agents, spawn_agent, with_instances, capture_context, settle_instance, agent_finished_arm,
  agent_context_captured_arm, agent_result_delivered_arm,
}

module _ {V : Type 0} where
  with_instances-Fits :
      (a : Agents V) (r : Result ProjectionError (Map (AgentProjection V)))
      → Fits InstanceFits a.instances
      → ((m : Map (AgentProjection V)) → r ≡ ok m → Fits InstanceFits m)
      → Fits InstanceFits (with_instances a r).0.instances
  unfolding with_instances
  with_instances-Fits a (ok m) f g = g m refl
  with_instances-Fits a (err e) f g = f

  -- a change of an agent instance that leaves its id
  modify-Fits_instances :
      (a : Agents V) (id : String)
      (change : AgentProjection V → Result ProjectionError (AgentProjection V))
      → ((x y : AgentProjection V) → change x ≡ ok y → y.agent_id ≡ x.agent_id)
      → Fits InstanceFits a.instances
      → Fits InstanceFits
          (with_instances a (modify id (unknown_agent id) change a.instances)).0.instances
  modify-Fits_instances a id change keep f =
      with_instances-Fits a (modify id (unknown_agent id) change a.instances) f (λ m h.
        modify-Fits InstanceFits id (unknown_agent id) change a.instances
          (λ x y g e. keep x y e ∙ g) f h)

  pub spawn_agent-Fits :
      (id : String) (parent_id : Option String) (link : Option (AgentLink V)) (revision : Option ℕ)
      (a : Agents V)
      → Fits InstanceFits a.instances
      → Fits InstanceFits (spawn_agent id parent_id link revision a).0.instances
  unfolding spawn_agent
  spawn_agent-Fits id parent_id link revision a f = ground (arith, inserted)
    where
      inserted : Fits InstanceFits (
          insert id
            (record {
              agent_id = id;
              parent_id = parent_id;
              link = link;
              config_revision = revision;
              context = [];
              result = none;
            })
            a.instances)
      inserted =
          insert-Fits InstanceFits id
            (record {
              agent_id = id;
              parent_id = parent_id;
              link = link;
              config_revision = revision;
              context = [];
              result = none;
            })
            a.instances refl f

  capture_context-id :
      (id : String) (references : List DelegatedContextRef) (x y : AgentProjection V)
      → capture_context id references x ≡ ok y
      → y.agent_id ≡ x.agent_id
  unfolding capture_context
  capture_context-id id references x y h = ground arith

  pub agent_context_captured_arm-Fits :
      (id : String) (references : List DelegatedContextRef) (a : Agents V)
      → Fits InstanceFits a.instances
      → Fits InstanceFits (agent_context_captured_arm id references a).0.instances
  unfolding agent_context_captured_arm
  agent_context_captured_arm-Fits id references a f =
      modify-Fits_instances a id (capture_context id references) (capture_context-id id references)
        f

module _ {V : Type 0} ⦃j : Json V⦄ where
  settle_instance-id :
      (id : String) (result : Option (AgentResult V)) (x y : AgentProjection V)
      → settle_instance id result x ≡ ok y
      → y.agent_id ≡ x.agent_id
  unfolding settle_instance
  settle_instance-id id result x y h = ground arith

  pub agent_finished_arm-Fits :
      (id : String) (result : Option (AgentResult V)) (a : Agents V)
      → Fits InstanceFits a.instances
      → Fits InstanceFits (agent_finished_arm id result a).0.instances
  unfolding agent_finished_arm
  agent_finished_arm-Fits id result a f =
      modify-Fits_instances (record a { phases = insert id AgentPhase.finished a.phases }) id
        (settle_instance id result) (settle_instance-id id result) f

  pub agent_result_delivered_arm-Fits :
      (id : String) (result : AgentResult V) (a : Agents V)
      → Fits InstanceFits a.instances
      → Fits InstanceFits (agent_result_delivered_arm id result a).0.instances
  unfolding agent_result_delivered_arm
  agent_result_delivered_arm-Fits id result a f =
      modify-Fits_instances a id (settle_instance id (some result))
        (settle_instance-id id (some result)) f
