-- ===== src/Core/Orchestration.antt =====
-- piqo-core/src/orchestration.rs: links between a delegation and its child run.
-- `V` is the type of JSON values.
use text.Mathlib.TextPositions.{eq_refl}
use piqo_server.Prelude.{
  ℕ, String, Bool, true, false, not, ◌&&◌, Option, ◌≡◌, refl, ◌==◌, str_eq, option_eq,
  option_eq_refl,
}
use piqo_server.Core.Json.{Json}

-- u32 and u64 fields are natural numbers; nothing here computes with them.
pub record AgentBudget : Type 0 where
  pub max_model_turns : ℕ
  pub max_duration_seconds : ℕ
  pub max_tree_duration_seconds : ℕ
  pub max_tree_tokens : ℕ
  pub max_context_bytes : ℕ
  pub max_result_bytes : ℕ

pub record AgentLink (V : Type 0) : Type 0 where
  pub instance_id : String
  pub profile_id : String
  pub parent_session_id : String
  pub parent_run_id : String
  pub parent_call_id : String
  pub child_session_id : String
  pub child_run_id : String
  pub depth : ℕ
  pub budget : AgentBudget
  pub permission_ceiling : V

pub data AgentTerminalStatus : Type 0 where
  completed failed cancelled interrupted : AgentTerminalStatus

pub record AgentResult (V : Type 0) : Type 0 where
  pub instance_id : String
  pub profile_id : String
  pub child_session_id : String
  pub child_run_id : String
  pub status : AgentTerminalStatus
  pub output : Option V
  pub output_truncated : Bool
  pub usage : Option V
  pub error : Option String

pub record DelegatedContextRef : Type 0 where
  pub source_session_id : String
  pub message_id : String
  pub last_event_id : ℕ

abbrev pub same_status : AgentTerminalStatus → AgentTerminalStatus → Bool
same_status completed completed = true
same_status failed failed = true
same_status cancelled cancelled = true
same_status interrupted interrupted = true
same_status _ _ = false

same_status_refl : (s : AgentTerminalStatus) → same_status s s ≡ true
same_status_refl completed = refl
same_status_refl _ = refl

abbrev pub same_flag : Bool → Bool → Bool
same_flag true b = b
same_flag false b = not b

same_flag_refl : (b : Bool) → same_flag b b ≡ true
same_flag_refl true = refl
same_flag_refl false = refl

-- `==` of the derived `PartialEq`, field by field
unfoldable pub same_result : {V : Type 0} ⦃j : Json V⦄ → AgentResult V → AgentResult V → Bool
same_result ⦃j⦄ a b =
    str_eq a.instance_id b.instance_id
    && (str_eq a.profile_id b.profile_id
        && (str_eq a.child_session_id b.child_session_id
            && (str_eq a.child_run_id b.child_run_id
                && (same_status a.status b.status
                    && (option_eq j.same a.output b.output
                        && (same_flag a.output_truncated b.output_truncated
                            && (option_eq j.same a.usage b.usage
                                && option_eq str_eq a.error b.error)))))))

pub same_result_refl : {V : Type 0} ⦃j : Json V⦄ (a : AgentResult V) → same_result a a ≡ true
unfolding same_result
same_result_refl ⦃j⦄ a = simp (
  eq_refl,
  same_status_refl,
  same_flag_refl,
  option_eq_refl j.same a.output j.same_refl,
  option_eq_refl j.same a.usage j.same_refl,
  option_eq_refl str_eq a.error eq_refl,
)

unfoldable pub same_ref : DelegatedContextRef → DelegatedContextRef → Bool
same_ref a b =
    str_eq a.source_session_id b.source_session_id
    && (str_eq a.message_id b.message_id && a.last_event_id == b.last_event_id)
