-- ===== src/Core/Projection/Runs/Evolution.antt =====
-- How one event may change a run: along the edges of its life cycle, with its identity, its recorded
-- tool results and its execution claims kept.
use piqo_server.Prelude.{
  ℕ, String, Bool, true, false, ◌≡◌, refl, ◌∙◌, ◌⊎◌, inl, inr, Option, none, some, Result, ok,
  map_ok-eq-ok, arith,
}
use piqo_server.Prelude.Map.{get, insert, modify}
use piqo_server.Prelude.Map.Carries.{
  Carries, Carries-refl, Carries-trans, modify-Carries, insert_fresh-Carries,
}
use piqo_server.Core.Phases.{
  RunStatus, queued, running, requires_action, completed, failed, cancelled, interrupted,
}
use piqo_server.Core.Json.{Json}
use piqo_server.Core.Errors.{ProjectionError, unknown_tool_call}
use piqo_server.Core.Projection.{RunProjection, ToolCallProjection}
use piqo_server.Core.Projection.ToolCalls.{emit_call, edit_call, claim_execution, record_result}
use piqo_server.Core.Projection.Runs.{
  start_run, start_attempt, fail_attempt, require_action, end_run, record_usage,
}

-- The statuses that no event leaves.
abbrev pub is_terminal : RunStatus → Bool
is_terminal completed = true
is_terminal failed = true
is_terminal cancelled = true
is_terminal interrupted = true
is_terminal _ = false

-- The life cycle of a run.
infix 40 ◌⟶◌ ◌⟶?◌
pub data ◌⟶◌ : RunStatus → RunStatus → Type 0 where
  begin : queued ⟶ running
  resume : requires_action ⟶ running
  pause : running ⟶ requires_action
  end : {s t : RunStatus} → is_terminal s ≡ false → is_terminal t ≡ true → s ⟶ t

pub ruleset run_edges = (begin, resume, pause, end)

-- at most one step
abbrev pub ◌⟶?◌ : RunStatus → RunStatus → Type 0
s ⟶? t = (s ≡ t) ⊎ (s ⟶ t)

-- A later state of the same call: its request is unchanged, and what was recorded stays.
pub record CallKeeps {V : Type 0} (c d : ToolCallProjection V) : Type 0 where
  pub same_call : d.call_id ≡ c.call_id
  pub same_message : d.assistant_message_id ≡ c.assistant_message_id
  pub same_agent : d.agent_id ≡ c.agent_id
  pub same_tool : d.tool_name ≡ c.tool_name
  pub same_arguments : d.arguments ≡ c.arguments
  pub same_native : d.native ≡ c.native
  pub claim_kept : (x : String) → c.execution_id ≡ some x → d.execution_id ≡ some x
  pub result_kept : (v : V) → c.result ≡ some v → d.result ≡ some v

-- What no event changes of a run.
pub record SameRun {V : Type 0} (r s : RunProjection V) : Type 0 where
  pub same_id : s.run_id ≡ r.run_id
  pub same_retry : s.retry_of ≡ r.retry_of
  pub same_provider : s.provider ≡ r.provider
  pub same_model : s.model ≡ r.model
  pub same_request : s.request ≡ r.request
  pub same_priority : s.queue_priority ≡ r.queue_priority

-- A later state of the same run, whose status moved by `S`.
pub record RunKeeps {V : Type 0} (S : RunStatus → RunStatus → Type 0) (r s : RunProjection V)
    : Type 0 where
  pub identity : SameRun r s
  pub status_moves : S r.status s.status
  pub calls_kept : Carries CallKeeps r.tool_calls s.tool_calls

module _ {V : Type 0} where
  pub CallKeeps-refl : (c : ToolCallProjection V) → CallKeeps c c
  CallKeeps-refl c = record {
    same_call = refl;
    same_message = refl;
    same_agent = refl;
    same_tool = refl;
    same_arguments = refl;
    same_native = refl;
    claim_kept = λ x h. h;
    result_kept = λ v h. h;
  }

  pub SameRun-refl : (r : RunProjection V) → SameRun r r
  SameRun-refl r = ground arith

  pub RunKeeps-refl : (r : RunProjection V) → RunKeeps ◌⟶?◌ r r
  RunKeeps-refl r = record {
    identity = SameRun-refl r;
    status_moves = inl refl;
    calls_kept = Carries-refl CallKeeps r.tool_calls CallKeeps-refl;
  }

  same_calls :
      (r s : RunProjection V)
      → s.tool_calls ≡ r.tool_calls
      → Carries CallKeeps r.tool_calls s.tool_calls
  same_calls r s e = rw e (Carries-refl CallKeeps r.tool_calls CallKeeps-refl)

  -- a change of the run that leaves its calls alone
  status_only :
      (r s : RunProjection V)
      → SameRun r s
      → r.status ⟶? s.status
      → s.tool_calls ≡ r.tool_calls
      → RunKeeps ◌⟶?◌ r s
  status_only r s i m e = record { identity = i; status_moves = m; calls_kept = same_calls r s e }

  pub start_run-RunKeeps :
      (id attempt_id : String) (attempt : ℕ) (r s : RunProjection V)
      → start_run id attempt_id attempt r ≡ ok s
      → RunKeeps ◌⟶?◌ r s
  unfolding start_run
  start_run-RunKeeps id attempt_id attempt r s h =
      status_only r s (ground arith) (grind (arith, begin, resume, pause)) (ground arith)

  pub start_attempt-RunKeeps :
      (id attempt_id : String) (attempt : ℕ) (r s : RunProjection V)
      → start_attempt id attempt_id attempt r ≡ ok s
      → RunKeeps ◌⟶?◌ r s
  unfolding start_attempt
  start_attempt-RunKeeps id attempt_id attempt r s h =
      status_only r s (ground arith) (inl (ground arith)) (ground arith)

  pub fail_attempt-RunKeeps :
      (error : String) (r s : RunProjection V) → fail_attempt error r ≡ ok s → RunKeeps ◌⟶?◌ r s
  unfolding fail_attempt
  fail_attempt-RunKeeps error r s h =
      status_only r s (ground arith) (inl (ground arith)) (ground arith)

  pub record_usage-RunKeeps :
      (usage : Option V) (r s : RunProjection V)
      → record_usage usage r ≡ ok s
      → RunKeeps (λ a b. a ≡ b) r s
  unfolding record_usage
  record_usage-RunKeeps usage r s h = record {
    identity = ground arith;
    status_moves = ground arith;
    calls_kept = same_calls r s (ground arith);
  }

  pub RunKeeps-same_refl : (r : RunProjection V) → RunKeeps (λ a b. a ≡ b) r r
  RunKeeps-same_refl r = record {
    identity = SameRun-refl r;
    status_moves = refl;
    calls_kept = Carries-refl CallKeeps r.tool_calls CallKeeps-refl;
  }

  CallKeeps-trans : (c d e : ToolCallProjection V) → CallKeeps c d → CallKeeps d e → CallKeeps c e
  CallKeeps-trans c d e k l = record {
    same_call = l.same_call ∙ k.same_call;
    same_message = l.same_message ∙ k.same_message;
    same_agent = l.same_agent ∙ k.same_agent;
    same_tool = l.same_tool ∙ k.same_tool;
    same_arguments = l.same_arguments ∙ k.same_arguments;
    same_native = l.same_native ∙ k.same_native;
    claim_kept = λ x h. l.claim_kept x (k.claim_kept x h);
    result_kept = λ v h. l.result_kept v (k.result_kept v h);
  }

  SameRun-trans : (r s t : RunProjection V) → SameRun r s → SameRun s t → SameRun r t
  SameRun-trans r s t k l = ground arith

  -- Two moves in a row, where their statuses compose.
  pub RunKeeps-trans :
      (S T U : RunStatus → RunStatus → Type 0)
      → ((a b c : RunStatus) → S a b → T b c → U a c)
      → (r s t : RunProjection V) → RunKeeps S r s
      → RunKeeps T s t
      → RunKeeps U r t
  RunKeeps-trans S T U compose r s t k l = record {
    identity = SameRun-trans r s t k.identity l.identity;
    status_moves = compose r.status s.status t.status k.status_moves l.status_moves;
    calls_kept =
        Carries-trans CallKeeps CallKeeps CallKeeps r.tool_calls s.tool_calls t.tool_calls
          CallKeeps-trans k.calls_kept l.calls_kept;
  }

  pub require_action-RunKeeps :
      (id : String) (r s : RunProjection V) → require_action id r ≡ ok s → RunKeeps ◌⟶?◌ r s
  unfolding require_action
  require_action-RunKeeps id r s h =
      status_only r s (ground arith) (grind (arith, begin, resume, pause)) (ground arith)

  pub end_run-RunKeeps :
      (id : String) (status : RunStatus) (error : Option String) (r s : RunProjection V)
      → is_terminal status ≡ true
      → end_run id status error r ≡ ok s
      → RunKeeps ◌⟶?◌ r s
  unfolding end_run
  end_run-RunKeeps id status error r s t h =
      status_only r s (ground arith) (inr (end (ground arith) (ground arith))) (ground arith)

  pub claim_execution-CallKeeps :
      (call_id execution_id : String) (c d : ToolCallProjection V)
      → claim_execution call_id execution_id c ≡ ok d
      → CallKeeps c d
  unfolding claim_execution
  claim_execution-CallKeeps call_id execution_id c d h = ground arith

  -- a change of one call of the run
  pub edit_call-RunKeeps :
      (call_id : String)
      (change : ToolCallProjection V → Result ProjectionError (ToolCallProjection V))
      (r s : RunProjection V)
      → ((c d : ToolCallProjection V) → change c ≡ ok d → CallKeeps c d)
      → edit_call call_id change r ≡ ok s
      → RunKeeps ◌⟶?◌ r s
  unfolding edit_call
  edit_call-RunKeeps call_id change r s keep h =
      let (calls, changed, e) =
        map_ok-eq-ok (λ calls. record r { tool_calls = calls })
          (modify call_id (unknown_tool_call call_id) change r.tool_calls) h in
      let kept =
        modify-Carries CallKeeps call_id (unknown_tool_call call_id) change r.tool_calls
          CallKeeps-refl keep changed in
      rw (← e) (record { identity = ground arith; status_moves = inl refl; calls_kept = kept })

  pub emit_call-RunKeeps :
      (message_id call_id agent_id tool_name : String) (arguments : V) (raw : String)
      (native : Bool) (r s : RunProjection V)
      → emit_call message_id call_id agent_id tool_name arguments raw native r ≡ ok s
      → RunKeeps ◌⟶?◌ r s
  unfolding emit_call
  emit_call-RunKeeps message_id call_id agent_id tool_name arguments raw native r s h =
      let (fresh, e) = emitted in
      rw e (record {
        identity = ground arith;
        status_moves = inl refl;
        calls_kept =
            insert_fresh-Carries CallKeeps call_id (new_call) r.tool_calls CallKeeps-refl fresh;
      })
    where
      new_call : ToolCallProjection V
      new_call = record {
        call_id = call_id;
        assistant_message_id = message_id;
        agent_id = agent_id;
        tool_name = tool_name;
        arguments = arguments;
        raw_arguments = raw;
        native = native;
        execution_id = none;
        result = none;
      }

      emitted :
          (get call_id r.tool_calls ≡ none)
          × (s ≡ record r { tool_calls = insert call_id new_call r.tool_calls })
      emitted = ground arith

module _ {V : Type 0} ⦃j : Json V⦄ where
  pub record_result-CallKeeps :
      (call_id : String) (result : V) (c d : ToolCallProjection V)
      → record_result call_id result c ≡ ok d
      → CallKeeps c d
  unfolding record_result
  record_result-CallKeeps call_id result c d h = ground arith
