-- ===== src/Core/Projection/Apply/Accepted.antt =====
-- What accepted events do: one that starts a run, and two that leave the runs alone.
use text.Mathlib.TextPositions.{eq_refl}
use piqo_server.Prelude.{
  ℕ, String, Bool, false, ◌≡◌, ◌≢◌, refl, sym, ap, Option, some, Bool-cases, inl, inr, str_eq,
  Result, ok, err, arith, eq_iff,
}
use piqo_server.Prelude.Map.{Map, get, get-insert}
use piqo_server.Prelude.Map.Carries.{modify-eq-ok}
use piqo_server.Core.Json.{Json}
use piqo_server.Core.Errors.{ProjectionError, unknown_run}
use piqo_server.Core.Phases.{SessionPhase, running}
use piqo_server.Core.Event.{
  EventId, SemanticEvent, session_phase_changed, session_interrupted, run_started, queue_resumed,
}
use piqo_server.Core.SessionState
use piqo_server.Core.SessionState.{Outcome}
use piqo_server.Core.Projection.{SessionProjection, RunProjection}
use piqo_server.Core.Projection.Runs.{edit_run, start_run}
use piqo_server.Core.Projection.Apply.{put_runs, project_event, after_state, apply}

module _ {V : Type 0} where
  -- no run of the session is running
  abbrev pub NoneRunning : SessionProjection V → Type 0
  NoneRunning p =
      (run_id : String) (run : RunProjection V)
      → get run_id p.runs ≡ some run
      → run.status ≢ running

  -- the run is running, and no other is
  pub record OnlyRunning (run_id : String) (p : SessionProjection V) : Type 0 where
    pub run : RunProjection V
    pub found : get run_id p.runs ≡ some run
    pub is_running : run.status ≡ running
    pub no_other :
        (other : String) (r : RunProjection V)
        → get other p.runs ≡ some r
        → r.status ≡ running
        → other ≡ run_id

  put_runs-eq-ok :
      (paused : Bool) (p : SessionProjection V) (r : Result ProjectionError (Map (RunProjection V)))
      {q : SessionProjection V}
      → put_runs paused p r ≡ (q, ok tt)
      → r ≡ ok q.runs
  unfolding put_runs
  put_runs-eq-ok paused p (ok runs) {q = q} h =
      let same : runs ≡ q.runs =
        ap (λ (x : SessionProjection V × Outcome ProjectionError). x.0.runs) h in
      rw same refl
  put_runs-eq-ok paused p (err e) h = absurd (cc)

  started-running :
      (run_id attempt_id : String) (attempt : ℕ) (run run' : RunProjection V)
      → start_run run_id attempt_id attempt run ≡ ok run'
      → run'.status ≡ running
  unfolding start_run
  started-running run_id attempt_id attempt run run' h = ground arith

module _ {V : Type 0} ⦃j : Json V⦄ where
  apply-eq-ok :
      (p : SessionProjection V) (event_id : EventId) (event : SemanticEvent V)
      {q : SessionProjection V}
      → apply p event_id event ≡ (q, ok tt)
      → (state : SessionState.SessionState) × (project_event
            (record p { state = state })
            event_id
            event
          ≡ (q, ok tt))
  unfolding apply after_state
  apply-eq-ok p event_id event {q = q} h = go (SessionState.apply p.state event_id event) h
    where
      go :
          (r : SessionState.SessionState × Outcome ProjectionError)
          → after_state p event_id event r ≡ (q, ok tt)
          → (state : SessionState.SessionState) × (project_event
                (record p { state = state })
                event_id
                event
              ≡ (q, ok tt))
      go (state, ok tt) h = (state, h)
      go (state, err e) h = absurd (cc)

  -- where no run is running, an accepted start makes its run the only one
  pub run_started-OnlyRunning :
      (p : SessionProjection V) (event_id : EventId) (run_id attempt_id : String) (attempt : ℕ)
      {q : SessionProjection V}
      → NoneRunning p
      → apply p event_id (run_started run_id attempt_id attempt) ≡ (q, ok tt)
      → OnlyRunning run_id q
  unfolding project_event edit_run
  run_started-OnlyRunning p event_id run_id attempt_id attempt {q = q} idle h =
      let (state, accepted) = apply-eq-ok p event_id (run_started run_id attempt_id attempt) h in
      let (run, run', found, changed, runs) =
        modify-eq-ok run_id (unknown_run run_id) (start_run run_id attempt_id attempt) p.runs
          (put_runs-eq-ok false (record p { state = state }) _ accepted) in
      record {
        run = run';
        found = rw (runs, get-insert run_id run_id run' p.runs, eq_refl run_id) refl;
        is_running = started-running run_id attempt_id attempt run run' changed;
        no_other = λ other r there active. elim (Bool-cases (str_eq run_id other)) [
          | inl same ↦ sym ((eq_iff run_id other).0 same)
          | inr different ↦
              let before = rw (runs, get-insert run_id other run' p.runs, different) at there in
              absurd (idle other r before active)
        ];
      }

  pub phase_changed-runs :
      (p : SessionProjection V) (event_id : EventId) (from_phase to_phase : SessionPhase)
      (reason : Option String) {q : SessionProjection V}
      → apply p event_id (session_phase_changed from_phase to_phase reason) ≡ (q, ok tt)
      → q.runs ≡ p.runs
  unfolding project_event
  phase_changed-runs p event_id from_phase to_phase reason h = sym (
      ap (λ (x : SessionProjection V × Outcome ProjectionError). x.0.runs)
        (apply-eq-ok p event_id (session_phase_changed from_phase to_phase reason) h).1)

  pub queue_resumed-runs :
      (p : SessionProjection V) (event_id : EventId) {q : SessionProjection V}
      → apply p event_id queue_resumed ≡ (q, ok tt)
      → q.runs ≡ p.runs
  unfolding project_event
  queue_resumed-runs p event_id h = sym (
      ap (λ (x : SessionProjection V × Outcome ProjectionError). x.0.runs)
        (apply-eq-ok p event_id queue_resumed h).1)

  pub session_interrupted-runs :
      (p : SessionProjection V) (event_id : EventId) (reason : String) {q : SessionProjection V}
      → apply p event_id (session_interrupted reason) ≡ (q, ok tt)
      → q.runs ≡ p.runs
  unfolding project_event
  session_interrupted-runs p event_id reason h = sym (
      ap (λ (x : SessionProjection V × Outcome ProjectionError). x.0.runs)
        (apply-eq-ok p event_id (session_interrupted reason) h).1)
