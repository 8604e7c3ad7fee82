-- ===== src/Core/Projection/Runs.antt =====
-- The runs of a session: the arms of `SessionProjection::apply` that write to `runs`, and
-- `set_run_terminal`.
pub mod Evolution
pub mod Carried
pub mod Fitting
use piqo_server.Prelude.{
  ℕ, String, Bool, true, false, not, Option, none, some, [], is_some, str_eq, if◌then◌else◌, Result,
  ok, err, map_ok, ◌>>=◌,
}
use piqo_server.Prelude.Int.{pos, negsuc}
use piqo_server.Prelude.Map.{Map, insert, contains_key, modify}
use piqo_server.Core.Phases.{
  RunStatus, queued, running, requires_action, completed, failed, cancelled, interrupted,
}
use piqo_server.Core.Json.{Json}
use piqo_server.Core.Errors.{ProjectionError, duplicate_run, unknown_run, invalid_run_transition}
use piqo_server.Core.Projection.{RunProjection}
use piqo_server.Core.Projection.ToolCalls.{emit_call, edit_call, claim_execution, record_result}

-- `matches!(run.status, Queued | RequiresAction)`
abbrev pub can_start : RunStatus → Bool
can_start queued = true
can_start requires_action = true
can_start _ = false

-- `run.status == Running`
abbrev pub is_running : RunStatus → Bool
is_running running = true
is_running _ = false

-- `matches!(run.status, Queued | Running | RequiresAction)`
abbrev pub can_end : RunStatus → Bool
can_end queued = true
can_end running = true
can_end requires_action = true
can_end _ = false

module _ {V : Type 0} where
  -- `runs.get_mut(run_id).ok_or(UnknownRun)?`, then `change` on the run
  unfoldable pub edit_run :
      String
      → (RunProjection V → Result ProjectionError (RunProjection V))
      → Map (RunProjection V)
      → Result ProjectionError (Map (RunProjection V))
  edit_run run_id = modify run_id (unknown_run run_id)

  unfoldable pub queue_run :
      String
      → Option String
      → String
      → String
      → V
      → Map (RunProjection V)
      → Result ProjectionError (Map (RunProjection V))
  queue_run run_id retry_of provider model request runs =
      if contains_key run_id runs
      then err (duplicate_run run_id)
      else ok (
          insert run_id
            (record {
              run_id = run_id;
              retry_of = retry_of;
              provider = provider;
              model = model;
              request = request;
              status = queued;
              attempt_id = none;
              attempts = 0;
              error = none;
              usage = none;
              queue_priority = if is_some retry_of then negsuc 0 else pos 0;
              tool_calls = [];
            })
            runs)

  unfoldable pub start_run :
      String → String → ℕ → RunProjection V → Result ProjectionError (RunProjection V)
  start_run run_id attempt_id attempt run =
      if not (can_start run.status)
      then err (invalid_run_transition run_id run.status running)
      else ok (record run { status = running; attempt_id = some attempt_id; attempts = attempt })

  unfoldable pub start_attempt :
      String → String → ℕ → RunProjection V → Result ProjectionError (RunProjection V)
  start_attempt run_id attempt_id attempt run =
      if not (is_running run.status)
      then err (invalid_run_transition run_id run.status running)
      else ok (record run { attempt_id = some attempt_id; attempts = attempt })

  unfoldable pub fail_attempt : String → RunProjection V → Result ProjectionError (RunProjection V)
  fail_attempt error run = ok (record run { error = some error })

  unfoldable pub require_action :
      String → RunProjection V → Result ProjectionError (RunProjection V)
  require_action run_id run =
      if not (is_running run.status)
      then err (invalid_run_transition run_id run.status requires_action)
      else ok (record run { status = requires_action })

  unfoldable pub end_run :
      String
      → RunStatus
      → Option String
      → RunProjection V
      → Result ProjectionError (RunProjection V)
  end_run run_id status error run =
      if not (can_end run.status)
      then err (invalid_run_transition run_id run.status status)
      else ok (record run { status = status; error = error })

  unfoldable pub set_run_terminal :
      String
      → RunStatus
      → Option String
      → Map (RunProjection V)
      → Result ProjectionError (Map (RunProjection V))
  unfolding edit_run end_run
  set_run_terminal run_id status error = edit_run run_id (end_run run_id status error)

  unfoldable pub record_usage :
      Option V → RunProjection V → Result ProjectionError (RunProjection V)
  record_usage usage run = ok (record run { usage = usage })

  -- The second lookup of the run cannot fail where the first has not.
  unfoldable pub complete_run :
      String → Option V → Map (RunProjection V) → Result ProjectionError (Map (RunProjection V))
  unfolding set_run_terminal edit_run record_usage
  complete_run run_id usage runs = do
    ended ← set_run_terminal run_id completed none runs
    edit_run run_id (record_usage usage) ended
