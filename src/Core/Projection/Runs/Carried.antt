-- ===== src/Core/Projection/Runs/Carried.antt =====
-- The run arms on the map of runs: no run is lost, and each moves as `Evolution` says.
use piqo_server.Prelude.{
  String, true, ◌≡◌, refl, Option, none, [], is_some, if◌then◌else◌, Result, ok, >>=-eq-ok, arith,
}
use piqo_server.Prelude.Int.{pos, negsuc}
use piqo_server.Prelude.Map.{Map, get, insert}
use piqo_server.Prelude.Map.Carries.{Carries, Carries-trans, modify-Carries, insert_fresh-Carries}
use piqo_server.Core.Phases.{RunStatus, queued, completed}
use piqo_server.Core.Errors.{ProjectionError, unknown_run}
use piqo_server.Core.Projection.{RunProjection}
use piqo_server.Core.Projection.Runs.{
  edit_run, queue_run, end_run, set_run_terminal, record_usage, complete_run,
}
use piqo_server.Core.Projection.Runs.Evolution.{
  ◌⟶?◌, RunKeeps, RunKeeps-refl, RunKeeps-same_refl, RunKeeps-trans, is_terminal, end_run-RunKeeps,
  record_usage-RunKeeps,
}

abbrev pub Moved : {V : Type 0} → Map (RunProjection V) → Map (RunProjection V) → Type 0
Moved = Carries (RunKeeps ◌⟶?◌)

step_then_same : (a b c : RunStatus) → a ⟶? b → b ≡ c → a ⟶? c
step_then_same a b c m e = rw (← e) m

module _ {V : Type 0} where
  edit_run-same :
      (id : String) (change : RunProjection V → Result ProjectionError (RunProjection V))
      (runs : Map (RunProjection V)) {runs' : Map (RunProjection V)}
      → ((r s : RunProjection V) → change r ≡ ok s → RunKeeps (λ a b. a ≡ b) r s)
      → edit_run id change runs ≡ ok runs'
      → Carries (RunKeeps (λ a b. a ≡ b)) runs runs'
  unfolding edit_run
  edit_run-same id change runs keep h =
      modify-Carries (RunKeeps (λ a b. a ≡ b)) id (unknown_run id) change runs RunKeeps-same_refl
        keep h

  pub edit_run-Moved :
      (id : String) (change : RunProjection V → Result ProjectionError (RunProjection V))
      (runs : Map (RunProjection V)) {runs' : Map (RunProjection V)}
      → ((r s : RunProjection V) → change r ≡ ok s → RunKeeps ◌⟶?◌ r s)
      → edit_run id change runs ≡ ok runs'
      → Moved runs runs'
  unfolding edit_run
  edit_run-Moved id change runs keep h =
      modify-Carries (RunKeeps ◌⟶?◌) id (unknown_run id) change runs RunKeeps-refl keep h

  pub queue_run-Moved :
      (id : String) (retry_of : Option String) (provider model : String) (request : V)
      (runs : Map (RunProjection V)) {runs' : Map (RunProjection V)}
      → queue_run id retry_of provider model request runs ≡ ok runs'
      → Moved runs runs'
  unfolding queue_run
  queue_run-Moved id retry_of provider model request runs {runs' = runs'} h =
      let (fresh, e) = queued_new in
      rw e (insert_fresh-Carries (RunKeeps ◌⟶?◌) id new_run runs RunKeeps-refl fresh)
    where
      new_run : RunProjection V
      new_run = record {
        run_id = id;
        retry_of = retry_of;
        provider = provider;
        model = model;
        request = request;
        status = queued;
        attempt_id = none;
        attempts = 0;
        error = none;
        usage = none;
        queue_priority = if is_some retry_of then negsuc 0 else pos 0;
        tool_calls = [];
      }

      queued_new : (get id runs ≡ none) × (runs' ≡ insert id new_run runs)
      queued_new = ground arith

  pub set_run_terminal-Moved :
      (id : String) (status : RunStatus) (error : Option String) (runs : Map (RunProjection V))
      {runs' : Map (RunProjection V)}
      → is_terminal status ≡ true
      → set_run_terminal id status error runs ≡ ok runs'
      → Moved runs runs'
  unfolding set_run_terminal
  set_run_terminal-Moved id status error runs t h =
      edit_run-Moved id (end_run id status error) runs
        (λ r s k. end_run-RunKeeps id status error r s t k) h

  pub complete_run-Moved :
      (id : String) (usage : Option V) (runs : Map (RunProjection V))
      {runs' : Map (RunProjection V)}
      → complete_run id usage runs ≡ ok runs'
      → Moved runs runs'
  unfolding complete_run
  complete_run-Moved id usage runs {runs' = runs'} h =
      let (ended, first, second) =
        >>=-eq-ok (set_run_terminal id completed none runs)
          (λ ended. edit_run id (record_usage usage) ended) h in
      Carries-trans (RunKeeps ◌⟶?◌) (RunKeeps (λ a b. a ≡ b)) (RunKeeps ◌⟶?◌) runs ended runs'
        (RunKeeps-trans ◌⟶?◌ (λ a b. a ≡ b) ◌⟶?◌ step_then_same)
        (set_run_terminal-Moved id completed none runs refl first)
        (edit_run-same id (record_usage usage) ended (record_usage-RunKeeps usage) second)
