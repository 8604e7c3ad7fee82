-- ===== src/Core/Projection/Runs/Fitting.antt =====
-- The run arms keep the map of runs well formed.
use piqo_server.Prelude.{
  ℕ, String, Bool, ◌≡◌, refl, ◌∙◌, Option, none, [], Result, ok, is_some, if◌then◌else◌, >>=-eq-ok,
  map_ok-eq-ok, arith,
}
use piqo_server.Prelude.Int.{pos, negsuc}
use piqo_server.Prelude.Map.{Map, insert, modify}
use piqo_server.Prelude.Map.Fits.{Fits, Fits-nil, insert-Fits, modify-Fits}
use piqo_server.Core.Phases.{RunStatus, queued, completed}
use piqo_server.Core.Json.{Json}
use piqo_server.Core.Errors.{ProjectionError, unknown_run, unknown_tool_call}
use piqo_server.Core.Projection.{RunProjection, ToolCallProjection}
use piqo_server.Core.Projection.Shape.{RunFits, CallFits}
use piqo_server.Core.Projection.ToolCalls.{emit_call, edit_call, claim_execution, record_result}
use piqo_server.Core.Projection.Runs.{
  edit_run, queue_run, start_run, start_attempt, fail_attempt, require_action, end_run,
  set_run_terminal, record_usage, complete_run,
}

module _ {V : Type 0} where
  -- a change that leaves a run's id and calls
  abbrev LeavesCalls : (RunProjection V → Result ProjectionError (RunProjection V)) → Type 0
  LeavesCalls change =
      (r s : RunProjection V)
      → change r ≡ ok s
      → (s.run_id ≡ r.run_id) × (s.tool_calls ≡ r.tool_calls)

  -- a change that keeps a run fitting its key
  abbrev pub KeepsFit : (RunProjection V → Result ProjectionError (RunProjection V)) → Type 0
  KeepsFit change =
      (k : String) (r s : RunProjection V) → RunFits k r → change r ≡ ok s → RunFits k s

  LeavesCalls-KeepsFit :
      (change : RunProjection V → Result ProjectionError (RunProjection V))
      → LeavesCalls change
      → KeepsFit change
  LeavesCalls-KeepsFit change leaves k r s f h =
      let (id, calls) = leaves r s h in (id ∙ f.0, rw calls f.1)

  pub start_run-KeepsFit :
      (id attempt_id : String) (attempt : ℕ) → KeepsFit (start_run id attempt_id attempt)
  unfolding start_run
  start_run-KeepsFit id attempt_id attempt =
      LeavesCalls-KeepsFit (start_run id attempt_id attempt) (λ r s h. ground arith)

  pub start_attempt-KeepsFit :
      (id attempt_id : String) (attempt : ℕ) → KeepsFit (start_attempt id attempt_id attempt)
  unfolding start_attempt
  start_attempt-KeepsFit id attempt_id attempt =
      LeavesCalls-KeepsFit (start_attempt id attempt_id attempt) (λ r s h. ground arith)

  pub fail_attempt-KeepsFit : (error : String) → KeepsFit (fail_attempt error)
  unfolding fail_attempt
  fail_attempt-KeepsFit error = LeavesCalls-KeepsFit (fail_attempt error) (λ r s h. ground arith)

  pub require_action-KeepsFit : (id : String) → KeepsFit (require_action id)
  unfolding require_action
  require_action-KeepsFit id = LeavesCalls-KeepsFit (require_action id) (λ r s h. ground arith)

  end_run-KeepsFit :
      (id : String) (status : RunStatus) (error : Option String)
      → KeepsFit (end_run id status error)
  unfolding end_run
  end_run-KeepsFit id status error =
      LeavesCalls-KeepsFit (end_run id status error) (λ r s h. ground arith)

  record_usage-KeepsFit : (usage : Option V) → KeepsFit (record_usage usage)
  unfolding record_usage
  record_usage-KeepsFit usage = LeavesCalls-KeepsFit (record_usage usage) (λ r s h. ground arith)

  pub emit_call-KeepsFit :
      (message_id call_id agent_id tool_name : String) (arguments : V) (raw : String)
      (native : Bool)
      → KeepsFit (emit_call message_id call_id agent_id tool_name arguments raw native)
  unfolding emit_call
  emit_call-KeepsFit message_id call_id agent_id tool_name arguments raw native k r s f h =
      rw emitted (f.0, insert-Fits CallFits call_id new_call r.tool_calls refl f.1)
    where
      new_call : ToolCallProjection V
      new_call = record {
        call_id = call_id;
        assistant_message_id = message_id;
        agent_id = agent_id;
        tool_name = tool_name;
        arguments = arguments;
        raw_arguments = raw;
        native = native;
        execution_id = none;
        result = none;
      }

      emitted : s ≡ record r { tool_calls = insert call_id new_call r.tool_calls }
      emitted = ground arith

  pub edit_call-KeepsFit :
      (call_id : String)
      (change : ToolCallProjection V → Result ProjectionError (ToolCallProjection V))
      → ((c d : ToolCallProjection V) → change c ≡ ok d → d.call_id ≡ c.call_id)
      → KeepsFit (edit_call call_id change)
  unfolding edit_call
  edit_call-KeepsFit call_id change keep k r s f h =
      let (calls, changed, e) =
        map_ok-eq-ok (λ calls. record r { tool_calls = calls })
          (modify call_id (unknown_tool_call call_id) change r.tool_calls) h in
      let fits =
        modify-Fits CallFits call_id (unknown_tool_call call_id) change r.tool_calls
          (λ c d g x. keep c d x ∙ g) f.1 changed in
      rw (← e) (f.0, fits)

  pub claim_execution-call_id :
      (call_id execution_id : String) (c d : ToolCallProjection V)
      → claim_execution call_id execution_id c ≡ ok d
      → d.call_id ≡ c.call_id
  unfolding claim_execution
  claim_execution-call_id call_id execution_id c d h = ground arith

  pub edit_run-Fits :
      (id : String) (change : RunProjection V → Result ProjectionError (RunProjection V))
      (runs : Map (RunProjection V)) {runs' : Map (RunProjection V)}
      → KeepsFit change
      → Fits RunFits runs
      → edit_run id change runs ≡ ok runs'
      → Fits RunFits runs'
  unfolding edit_run
  edit_run-Fits id change runs keep f h =
      modify-Fits RunFits id (unknown_run id) change runs (keep id) f h

  pub queue_run-Fits :
      (id : String) (retry_of : Option String) (provider model : String) (request : V)
      (runs : Map (RunProjection V)) {runs' : Map (RunProjection V)}
      → Fits RunFits runs
      → queue_run id retry_of provider model request runs ≡ ok runs'
      → Fits RunFits runs'
  unfolding queue_run
  queue_run-Fits id retry_of provider model request runs {runs' = runs'} f h =
      rw inserted (insert-Fits RunFits id new_run runs (refl, Fits-nil CallFits) f)
    where
      new_run : RunProjection V
      new_run = record {
        run_id = id;
        retry_of = retry_of;
        provider = provider;
        model = model;
        request = request;
        status = queued;
        attempt_id = none;
        attempts = 0;
        error = none;
        usage = none;
        queue_priority = if is_some retry_of then negsuc 0 else pos 0;
        tool_calls = [];
      }

      inserted : runs' ≡ insert id new_run runs
      inserted = ground arith

  pub set_run_terminal-Fits :
      (id : String) (status : RunStatus) (error : Option String) (runs : Map (RunProjection V))
      {runs' : Map (RunProjection V)}
      → Fits RunFits runs
      → set_run_terminal id status error runs ≡ ok runs'
      → Fits RunFits runs'
  unfolding set_run_terminal
  set_run_terminal-Fits id status error runs f h =
      edit_run-Fits id (end_run id status error) runs (end_run-KeepsFit id status error) f h

  pub complete_run-Fits :
      (id : String) (usage : Option V) (runs : Map (RunProjection V))
      {runs' : Map (RunProjection V)}
      → Fits RunFits runs
      → complete_run id usage runs ≡ ok runs'
      → Fits RunFits runs'
  unfolding complete_run
  complete_run-Fits id usage runs f h =
      let (ended, first, second) =
        >>=-eq-ok (set_run_terminal id completed none runs)
          (λ ended. edit_run id (record_usage usage) ended) h in
      edit_run-Fits id (record_usage usage) ended (record_usage-KeepsFit usage)
        (set_run_terminal-Fits id completed none runs f first) second

module _ {V : Type 0} ⦃j : Json V⦄ where
  pub record_result-call_id :
      (call_id : String) (result : V) (c d : ToolCallProjection V)
      → record_result call_id result c ≡ ok d
      → d.call_id ≡ c.call_id
  unfolding record_result
  record_result-call_id call_id result c d h = ground arith
