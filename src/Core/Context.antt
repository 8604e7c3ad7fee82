-- ===== src/Core/Context.antt =====
-- piqo-core/src/context.rs: compaction artifacts and the token estimate.
pub mod Estimate
use piqo_server.Prelude.{ℕ, ◌+◌, ◌*◌, ◌/◌, ◌-◌, String, Option, none, List, [], min}

pub data CompactionStrategy : Type 0 where
  deterministic llm : CompactionStrategy

pub record ContextFact : Type 0 where
  pub fact_id : String
  pub value : String

pub record ToolCorrelation : Type 0 where
  pub call_id : String
  pub tool_name : String
  pub run_id : String

pub record ContextArtifact : Type 0 where
  pub artifact_id : String
  pub supersedes_artifact_id : Option String
  pub strategy : CompactionStrategy
  pub strategy_version : ℕ
  pub source_start_event_id : ℕ
  pub source_end_event_id : ℕ
  pub context_window_tokens : ℕ
  pub output_reserve_tokens : ℕ
  pub estimated_input_tokens : ℕ
  pub target_input_tokens : ℕ
  pub estimator_version : String
  pub summary : String
  pub tool_correlations : List ToolCorrelation

pub record ContextProjection : Type 0 where
  pub durable_facts : List ContextFact
  pub active_artifact : Option ContextArtifact
  pub last_failure : Option String
  pub last_bypass_reason : Option String

-- `ContextProjection::default()`
unfoldable pub no_context : ContextProjection
no_context = record {
  durable_facts = [];
  active_artifact = none;
  last_failure = none;
  last_bypass_reason = none;
}

-- 2^64 - 1: u64::MAX, and usize::MAX on the 64-bit targets of the program.
abbrev pub u64_max : ℕ
u64_max = 18446744073709551615

abbrev pub saturating_add : ℕ → ℕ → ℕ
saturating_add a b = min (a + b) u64_max

abbrev pub saturating_mul : ℕ → ℕ → ℕ
saturating_mul a b = min (a * b) u64_max

-- On a 64-bit target `u64::try_from` of a usize cannot fail, so it is the identity.
unfoldable pub estimate_tokens : ℕ → ℕ → ℕ → ℕ
estimate_tokens serialized_bytes transcript_items tool_definitions =
    saturating_add (saturating_add serialized_bytes 2 / 3)
      (saturating_mul (saturating_add transcript_items tool_definitions) 8)
