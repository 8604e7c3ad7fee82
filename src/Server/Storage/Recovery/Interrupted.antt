-- ===== src/Server/Storage/Recovery/Interrupted.antt =====
-- A recovered session stays consistent, and its row is not running.
use mathlib.Core.List.{append_assoc, append-nil, map-append}
use piqo_server.Core.Projection.Apply.Accepted.{session_interrupted-runs}
use piqo_server.Prelude.{
  String, false, ◌≡◌, inl, inr, refl, sym, ◌∙◌, Option, Bool-cases, none, some, List, [], ◌∷◌, ◌++◌,
  map, if◌then◌else◌, ok, >>=-eq-ok,
}
use piqo_server.Core.Json.{Json}
use piqo_server.Core.Phases.{SessionPhase, interrupted}
use piqo_server.Core.Event.{EventId, SemanticEvent, session_interrupted, run_interrupted}
use piqo_server.Core.EventLog.{RecordedEvent}
use piqo_server.Core.Projection.{SessionProjection, RunProjection}
use piqo_server.Core.Projection.Queue.{active_run}
use piqo_server.Core.Projection.Apply.Quiet.{quiet-phase, interrupted-phase}
use piqo_server.Server.Storage.{SessionStore, current, append_events}
use piqo_server.Server.Storage.Advancing.{append_events-applied}
use piqo_server.Server.Storage.Consistency.{IsConsistent, current-IsConsistent}
use piqo_server.Server.Storage.Appending.{append_events-IsConsistent}
use piqo_server.Server.Storage.Recovery.{row_is_running, interrupt_active, recover_session}

module _ {V : Type 0} where
  -- the events that a run's interruption appends
  abbrev pub run_events : Option (RunProjection V) → List (SemanticEvent V)
  run_events none = []
  run_events (some run) = run_interrupted run.run_id "server_restart" ∷ []

  events_grow :
      (log new : List (RecordedEvent V)) (events : List (SemanticEvent V))
      {after : List (RecordedEvent V)}
      → after ≡ log ++ new
      → map (λ e. e.event) new ≡ events
      → map (λ e. e.event) after ≡ map (λ e. e.event) log ++ events
  events_grow log new events {after = after} grown new_are =
      rw (grown, ← new_are) (map-append (λ (e : RecordedEvent V). e.event) log new)

  active_run-runs : (p q : SessionProjection V) → p.runs ≡ q.runs → active_run p ≡ active_run q
  unfolding active_run
  active_run-runs p q same = rw same refl

module _ {V : Type 0} ⦃j : Json V⦄ (session_id : String) (now : EventId → String) where
  -- the projection has that phase
  abbrev InPhase : SessionPhase → SessionStore V → Type 0
  InPhase phase store =
      (p : SessionProjection V) × (current session_id store ≡ ok p) × (p.state.phase ≡ phase)

  row-InPhase :
      (store : SessionStore V)
      → IsConsistent session_id store
      → InPhase interrupted store
      → row_is_running store ≡ false
  unfolding row_is_running
  row-InPhase store c (p, is_p, phase_is) =
      let at_state = current-IsConsistent session_id store c in
      let state_is : c.state ≡ p = cc in rw (c.row_agrees, state_is, phase_is) refl

  interrupt_active-IsConsistent :
      (run : Option (RunProjection V)) (store : SessionStore V) {after : SessionStore V}
      → IsConsistent session_id store
      → InPhase interrupted store
      → interrupt_active session_id now run store ≡ ok after
      → IsConsistent session_id after
        × InPhase interrupted after
        × (map (λ e. e.event) after.events ≡ map (λ e. e.event) store.events ++ run_events run)
  unfolding interrupt_active
  interrupt_active-IsConsistent none store {after = after} c at_phase h =
      let same : store ≡ after = cc in
      rw (← same)
        (c, at_phase, sym (append-nil (map (λ (e : RecordedEvent V). e.event) store.events)))
  interrupt_active-IsConsistent (some run) store {after = after} c (p, is_p, phase_is) h =
      let event = run_interrupted run.run_id "server_restart" in
      let ((stored, recorded), appended, rest) =
        >>=-eq-ok (append_events session_id now (event ∷ []) store) _ h in
      let same : stored ≡ after = cc in
      let (kept, grown, new_are, _) =
        append_events-IsConsistent session_id now (event ∷ []) store c appended in
      let (event_id, q, accepted, is_q) =
        append_events-applied session_id now event store p is_p appended in
      rw (← same) (
        kept,
        (q, is_q, quiet-phase p event_id event refl accepted ∙ phase_is),
        events_grow store.events recorded (event ∷ []) grown new_are,
      )

  first-InPhase :
      (store : SessionStore V) {stored : SessionStore V} {recorded : List (RecordedEvent V)}
      (c : IsConsistent session_id store)
      → append_events session_id now (session_interrupted "server_restart" ∷ []) store
        ≡ ok (stored, recorded)
      → IsConsistent session_id stored
        × ((p : SessionProjection V) × (current session_id stored ≡ ok p)
            × (p.state.phase ≡ interrupted)
            × (p.runs ≡ c.state.runs))
        × (map (λ e. e.event) stored.events
            ≡ map (λ e. e.event) store.events ++ session_interrupted "server_restart" ∷ [])
  first-InPhase store {recorded = recorded} c appended =
      let event = session_interrupted "server_restart" in
      let (kept, grown, new_are, _) =
        append_events-IsConsistent session_id now (event ∷ []) store c appended in
      let (event_id, q, accepted, is_q) =
        append_events-applied session_id now event store c.state
          (current-IsConsistent session_id store c) appended in
      (
        kept,
        (
          q,
          is_q,
          interrupted-phase c.state event_id "server_restart" accepted,
          session_interrupted-runs c.state event_id "server_restart" accepted,
        ),
        events_grow store.events recorded (event ∷ []) grown new_are,
      )

-- A session that the server recovers when it starts stays consistent, and its row is not running. Where
-- its row was not running, nothing is appended; where it was, the events appended are that the session
-- was interrupted and then, if it has an active run, that the run was interrupted.
pub recover_session-NotRunning :
    {V : Type 0} ⦃j : Json V⦄ (session_id : String) (now : EventId → String)
    (store : SessionStore V) {after : SessionStore V} (c : IsConsistent session_id store)
    → recover_session session_id now store ≡ ok after
    → IsConsistent session_id after
      × (row_is_running after ≡ false)
      × (map (λ e. e.event) after.events
          ≡ map (λ e. e.event) store.events
            ++ (if row_is_running store
                then session_interrupted "server_restart" ∷ run_events (active_run c.state)
                else []))
unfolding recover_session
recover_session-NotRunning {V = V} session_id now store {after = after} c h =
    elim (Bool-cases (row_is_running store)) [
      | inr idle ↦
          let same : store ≡ after = cc (rw idle at h) in
          rw (← same, idle)
            (c, refl, sym (append-nil (map (λ (e : RecordedEvent V). e.event) store.events)))
      | inl active ↦
          let ((stored, recorded), appended, rest) =
            >>=-eq-ok
              (append_events session_id now (session_interrupted "server_restart" ∷ []) store) _
              (rw active at h) in
          let (p, is_p, ended) = >>=-eq-ok (current session_id stored) _ rest in
          let (kept, (q, is_q, phase_is, runs), began) =
            first-InPhase session_id now store c appended in
          let p_is : p ≡ q = cc in
          let run_is = active_run-runs p c.state (rw p_is runs) in
          let (done, at_phase, grew) =
            interrupt_active-IsConsistent session_id now (active_run p) stored kept
              (q, is_q, phase_is) ended in
          (
            done,
            row-InPhase session_id now after done at_phase,
            rw (active, ← run_is, grew, began)
                (append_assoc (map (λ (e : RecordedEvent V). e.event) store.events) _ _),
          )
    ]
