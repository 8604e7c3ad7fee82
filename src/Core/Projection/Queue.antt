-- ===== src/Core/Projection/Queue.antt =====
-- `active_run`, `queued_runs` and `ready_action_run` of `SessionProjection`.
pub mod Selection
pub mod Order
use Prim.Native.Nat.{Ordering}
use Prim.Native.Nat.Ordering.{lt, eq, gt}
use Prim.Native.String.{compare}
use piqo_server.Prelude.{
  String, Bool, true, false, not, ◌&&◌, Option, List, [], ◌∷◌, find, all, select, is_empty, is_some,
}
use piqo_server.Prelude.Int.{compare_ℤ}
use piqo_server.Prelude.Map.{Map, values}
use piqo_server.Core.Phases.{RunStatus, queued, requires_action}
use piqo_server.Core.Projection.{SessionProjection, RunProjection, ToolCallProjection}
use piqo_server.Core.Projection.Runs.{is_running}

-- `run.status == Queued`
abbrev pub is_queued : RunStatus → Bool
is_queued queued = true
is_queued _ = false

-- `run.status == RequiresAction`
abbrev pub awaits_action : RunStatus → Bool
awaits_action requires_action = true
awaits_action _ = false

-- `Ordering::then_with`
abbrev pub then_with : Ordering → Ordering → Ordering
then_with eq o = o
then_with o _ = o

module _ {V : Type 0} where
  unfoldable pub active_run : SessionProjection V → Option (RunProjection V)
  active_run p = find (λ run. is_running run.status) (values p.runs)

  -- the closure of `sort_by`
  unfoldable pub run_order : RunProjection V → RunProjection V → Ordering
  run_order left right =
      then_with (compare_ℤ left.queue_priority right.queue_priority)
        (compare left.run_id right.run_id)

  -- The stable `sort_by`: a run goes in front of the first that it does not come after.
  unfoldable pub put_in_order : RunProjection V → List (RunProjection V) → List (RunProjection V)
  put_in_order run [] = run ∷ []
  put_in_order run (other ∷ rest) = elim (run_order run other) [
    | gt ↦ other ∷ put_in_order run rest
    | _ ↦ run ∷ other ∷ rest
  ]

  unfoldable pub sort_runs : List (RunProjection V) → List (RunProjection V)
  sort_runs [] = []
  sort_runs (run ∷ runs) = put_in_order run (sort_runs runs)

  unfoldable pub queued_runs : SessionProjection V → List (RunProjection V)
  queued_runs p = sort_runs (select (λ run. is_queued run.status) (values p.runs))

  abbrev pub is_ready : RunProjection V → Bool
  is_ready run =
      awaits_action run.status
      && (not (is_empty run.tool_calls)
          && all (λ call. is_some call.result) (values run.tool_calls))

  unfoldable pub ready_action_run : SessionProjection V → Option (RunProjection V)
  ready_action_run p = find is_ready (values p.runs)
