-- ===== src/Core/Projection/Queue/Selection.antt =====
-- Which run `active_run` and `ready_action_run` select.
use piqo_server.Prelude.{
  String, Bool, true, ◌≡◌, ◌≢◌, ap, ◌∙◌, none, some, [], ◌∷◌, all, is_some, arith,
}
use piqo_server.Prelude.Map.{Map, get, values}
use piqo_server.Prelude.Map.Sorted.{find-values, find-values-none}
use piqo_server.Core.Phases.{RunStatus, running, requires_action}
use piqo_server.Core.Projection.{SessionProjection, RunProjection, ToolCallProjection}
use piqo_server.Core.Projection.Shape.{IsWellFormed}
use piqo_server.Core.Projection.Runs.{is_running}
use piqo_server.Core.Projection.Queue.{active_run, ready_action_run, is_ready}

running_status : (s : RunStatus) → is_running s ≡ true → s ≡ running
running_status s h = ground arith

module _ {V : Type 0} where
  at_own_id :
      (runs : Map (RunProjection V)) (k : String) (r : RunProjection V)
      → r.run_id ≡ k
      → get k runs ≡ some r
      → get r.run_id runs ≡ some r
  at_own_id runs k r e found = ap (λ (i : String). get i runs) e ∙ found

  -- In a well-formed projection the run that `active_run` returns is running and is the one that the
  -- map has under its id.
  pub active_run-running :
      (p : SessionProjection V) (r : RunProjection V)
      → IsWellFormed p
      → active_run p ≡ some r
      → (get r.run_id p.runs ≡ some r) × (r.status ≡ running)
  unfolding active_run
  active_run-running p r w h =
      let (k, found, hit) =
        find-values (λ (run : RunProjection V). is_running run.status) p.runs w.runs_fit.sorted h in
      (at_own_id p.runs k r (w.runs_fit.at k r found).0 found, running_status r.status hit)

  -- Where `active_run` returns none, no run of the map is running.
  pub active_run-none :
      (p : SessionProjection V) (run_id : String) (r : RunProjection V)
      → active_run p ≡ none
      → get run_id p.runs ≡ some r
      → r.status ≢ running
  unfolding active_run
  active_run-none p run_id r h found e =
      let miss =
        find-values-none (λ (run : RunProjection V). is_running run.status) p.runs run_id h found in
      ground arith

  all-values :
      (test : ToolCallProjection V → Bool) (m : Map (ToolCallProjection V)) (k : String)
      (c : ToolCallProjection V)
      → all test (values m) ≡ true
      → get k m ≡ some c
      → test c ≡ true
  unfolding values get
  all-values test [] k c h g = absurd (cc)
  all-values test ((j, d) ∷ m) k c h g = ground (arith, all-values test m k c)

  -- In a well-formed projection the run that `ready_action_run` returns is the one that the map has
  -- under its id, awaits action, has at least one tool call, and has a result for each of them.
  pub ready_action_run-ready :
      (p : SessionProjection V) (r : RunProjection V)
      → IsWellFormed p
      → ready_action_run p ≡ some r
      → (get r.run_id p.runs ≡ some r)
        × (r.status ≡ requires_action)
        × (r.tool_calls ≢ [])
        × ((call_id : String) (c : ToolCallProjection V)
            → get call_id r.tool_calls ≡ some c
            → is_some c.result ≡ true)
  unfolding ready_action_run
  ready_action_run-ready p r w h =
      let (k, found, hit) = find-values is_ready p.runs w.runs_fit.sorted h in
      let complete : all (λ (c : ToolCallProjection V). is_some c.result) (values r.tool_calls)
          ≡ true =
        ground arith in
      (
        at_own_id p.runs k r (w.runs_fit.at k r found).0 found,
        ground arith,
        λ e. ground arith,
        λ call_id c called.
            all-values (λ (c : ToolCallProjection V). is_some c.result) r.tool_calls call_id c
              complete called,
      )
