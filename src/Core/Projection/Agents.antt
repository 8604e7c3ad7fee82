-- ===== src/Core/Projection/Agents.antt =====
-- The agents of a session: the arms of `SessionProjection::apply` that write to `agents` and
-- `agent_instances`. Some of them write before they fail, so each returns the maps beside its result.
pub mod Fitting
use piqo_server.Prelude.{
  ℕ, String, true, false, not, ◌&&◌, Option, none, some, List, [], is_empty, list_eq, if◌then◌else◌,
  Result, ok, err,
}
use piqo_server.Prelude.Map.{Map, insert, contains_key, modify}
use piqo_server.Core.Json.{Json}
use piqo_server.Core.Phases.{AgentPhase}
use piqo_server.Core.Orchestration.{
  AgentLink, AgentResult, DelegatedContextRef, same_result, same_ref,
}
use piqo_server.Core.Errors.{
  ProjectionError, duplicate_agent, unknown_agent, conflicting_agent_result,
  conflicting_agent_context,
}
use piqo_server.Core.SessionState.{Outcome}
use piqo_server.Core.Projection.{AgentProjection}

-- `agents` and `agent_instances`
pub record Agents (V : Type 0) : Type 0 where
  pub phases : Map AgentPhase
  pub instances : Map (AgentProjection V)

module _ {V : Type 0} where
  unfoldable pub spawn_agent :
      String
      → Option String
      → Option (AgentLink V)
      → Option ℕ
      → Agents V
      → Agents V × Outcome ProjectionError
  spawn_agent agent_id parent_id link config_revision a =
      let phases = insert agent_id AgentPhase.created a.phases in
      if contains_key agent_id a.phases
      then (record a { phases = phases }, err (duplicate_agent agent_id))
      else (
        record {
          phases = phases;
          instances =
              insert agent_id
                (record {
                  agent_id = agent_id;
                  parent_id = parent_id;
                  link = link;
                  config_revision = config_revision;
                  context = [];
                  result = none;
                })
                a.instances;
        },
        ok tt,
      )

  unfoldable pub change_agent_phase : String → AgentPhase → Agents V → Agents V
  change_agent_phase agent_id phase a = record a { phases = insert agent_id phase a.phases }

  -- writes `agent_instances` back where its change succeeded
  unfoldable pub with_instances :
      Agents V
      → Result ProjectionError (Map (AgentProjection V))
      → Agents V × Outcome ProjectionError
  with_instances a (ok instances) = (record a { instances = instances }, ok tt)
  with_instances a (err e) = (a, err e)

  unfoldable pub capture_context :
      String
      → List DelegatedContextRef
      → AgentProjection V
      → Result ProjectionError (AgentProjection V)
  capture_context agent_id references instance_ =
      if not (is_empty instance_.context) && not (list_eq same_ref instance_.context references)
      then err (conflicting_agent_context agent_id)
      else ok (record instance_ { context = references })

  unfoldable pub agent_context_captured_arm :
      String → List DelegatedContextRef → Agents V → Agents V × Outcome ProjectionError
  unfolding with_instances capture_context
  agent_context_captured_arm agent_id references a =
      with_instances a
        (modify agent_id (unknown_agent agent_id) (capture_context agent_id references) a.instances)

module _ {V : Type 0} ⦃j : Json V⦄ where
  -- `match (&instance.result, result)`
  unfoldable pub settle :
      String
      → Option (AgentResult V)
      → Option (AgentResult V)
      → Result ProjectionError (Option (AgentResult V))
  settle agent_id none result = ok result
  settle agent_id (some existing) (some result) =
      if same_result existing result
      then ok (some existing)
      else err (conflicting_agent_result agent_id)
  settle agent_id (some existing) none = ok (some existing)

  unfoldable pub settle_instance :
      String
      → Option (AgentResult V)
      → AgentProjection V
      → Result ProjectionError (AgentProjection V)
  unfolding settle
  settle_instance agent_id result instance_ = elim (settle agent_id instance_.result result) [
    | ok settled ↦ ok (record instance_ { result = settled })
    | err e ↦ err e
  ]

  unfoldable pub agent_finished_arm :
      String → Option (AgentResult V) → Agents V → Agents V × Outcome ProjectionError
  unfolding with_instances settle_instance
  agent_finished_arm agent_id result a =
      with_instances (record a { phases = insert agent_id AgentPhase.finished a.phases })
        (modify agent_id (unknown_agent agent_id) (settle_instance agent_id result) a.instances)

  unfoldable pub agent_result_delivered_arm :
      String → AgentResult V → Agents V → Agents V × Outcome ProjectionError
  unfolding with_instances settle_instance
  agent_result_delivered_arm agent_id result a = with_instances a (
      modify agent_id (unknown_agent agent_id) (settle_instance agent_id (some result)) a.instances)
