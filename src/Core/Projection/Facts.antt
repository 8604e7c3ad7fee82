-- ===== src/Core/Projection/Facts.antt =====
-- The context of a session: the arms of `SessionProjection::apply` that write to `context`.
use piqo_server.Prelude.{String, not, none, some, [], ◌∷◌, ◌++◌, any, str_eq, if◌then◌else◌}
use piqo_server.Core.Context.{ContextFact, ContextArtifact, ContextProjection}

unfoldable pub record_fact : ContextFact → ContextProjection → ContextProjection
record_fact fact c =
    if not (any (λ existing. str_eq existing.fact_id fact.fact_id) c.durable_facts)
    then record c { durable_facts = c.durable_facts ++ fact ∷ [] }
    else c

unfoldable pub compacted : ContextArtifact → ContextProjection → ContextProjection
compacted artifact c = record c {
  active_artifact = some artifact;
  last_failure = none;
  last_bypass_reason = none;
}

unfoldable pub compaction_failed : String → ContextProjection → ContextProjection
compaction_failed code c = record c { last_failure = some code }

unfoldable pub compaction_bypassed : String → ContextProjection → ContextProjection
compaction_bypassed reason c = record c { last_bypass_reason = some reason }
