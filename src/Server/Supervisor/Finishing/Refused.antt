-- ===== src/Server/Supervisor/Finishing/Refused.antt =====
-- Recording how a run ended where the session's phase is not running.
use piqo_server.Prelude.{
  String, Bool, true, false, ◌≡◌, refl, ap, Option, none, some, List, Result, ok,
}
use piqo_server.Prelude.Steps.{if_some}
use piqo_server.Prelude.Steps.Succeeds.{>>=-succeeds, pure-succeeds}
use piqo_server.Core.Json.{Json}
use piqo_server.Core.Phases.{SessionPhase, running}
use piqo_server.Core.Event.{
  SemanticEvent, session_phase_changed, run_failed, run_cancelled, run_interrupted,
}
use piqo_server.Core.EventLog.{RecordedEvent}
use piqo_server.Core.SessionState.{same_phase}
use piqo_server.Core.Projection.{SessionProjection, MessageProjection}
use piqo_server.Core.Projection.Apply.Quiet.{is_quiet, quiet-phase, phase_changed-refused}
use piqo_server.Server.Storage.{StoreError}
use piqo_server.Server.Supervisor.{Supervisor, Outside, projection, append}
use piqo_server.Server.Supervisor.Seeing.{Sees, append-Sees, projection-Sees}
use piqo_server.Server.Supervisor.Finishing.{
  ExecutionResult, completed, completed_with_usage, failed, cancelled, interrupted, requires_action,
  find_last, is_streaming, record_event, interrupt_message, complete_message, stop_run,
  record_outcome,
}

module _ {V : Type 0} where
  -- the results whose arm ends with a change of the session's phase
  abbrev pub changes_phase : ExecutionResult V → Bool
  changes_phase (failed error retryable) = true
  changes_phase cancelled = true
  changes_phase interrupted = true
  changes_phase requires_action = true
  changes_phase _ = false

module _ {V : Type 0} ⦃j : Json V⦄ (outside : Outside V) (k : String) where
  -- the session's phase is not running
  abbrev pub IsElsewhere : Supervisor V → Type 0
  IsElsewhere s =
      (p : SessionProjection V) × Sees k s p × (same_phase p.state.phase running ≡ false)

  pub append-IsElsewhere :
      (event : SemanticEvent V) (s : Supervisor V) {t : Supervisor V}
      {recorded : List (RecordedEvent V)}
      → is_quiet event ≡ true
      → IsElsewhere s
      → append outside k event s ≡ (t, ok recorded)
      → IsElsewhere t
  append-IsElsewhere event s quiet (p, seen, other) h =
      let (event_id, q, accepted, now) = append-Sees outside k event s p seen h in
      (q, now, rw (quiet-phase p event_id event quiet accepted) other)

  record_event-IsElsewhere :
      (event : SemanticEvent V) (s : Supervisor V) {t : Supervisor V}
      → is_quiet event ≡ true
      → IsElsewhere s
      → record_event outside k event s ≡ (t, ok tt)
      → IsElsewhere t
  unfolding record_event
  record_event-IsElsewhere event s quiet elsewhere h =
      let (recorded, u, appended, rest) = >>=-succeeds (append outside k event) _ s h in
      rw (pure-succeeds tt u rest).1 (append-IsElsewhere event s quiet elsewhere appended)

  record_event-refused :
      (to_phase : SessionPhase) (reason : Option String) (s : Supervisor V) {t : Supervisor V}
      → IsElsewhere s
      → ¬ (record_event outside k (session_phase_changed running to_phase reason) s ≡ (t, ok tt))
  unfolding record_event
  record_event-refused to_phase reason s (p, seen, other) h =
      let event = session_phase_changed running to_phase reason in
      let (recorded, u, appended, rest) = >>=-succeeds (append outside k event) _ s h in
      let (event_id, q, accepted, now) = append-Sees outside k event s p seen appended in
      phase_changed-refused p event_id running to_phase reason other accepted

  -- an event for the message that is found, if one is
  message-IsElsewhere :
      (o : Option (MessageProjection V)) (event : MessageProjection V → SemanticEvent V)
      (s : Supervisor V) {t : Supervisor V}
      → ((m : MessageProjection V) → is_quiet (event m) ≡ true)
      → IsElsewhere s
      → if_some o (λ m. record_event outside k (event m)) s ≡ (t, ok tt)
      → IsElsewhere t
  unfolding if_some
  message-IsElsewhere none event s quiet elsewhere h =
      let unmoved = ap (λ (x : Supervisor V × Result StoreError (Unit {0})). x.0) h in
      rw (← unmoved) elsewhere
  message-IsElsewhere (some m) event s quiet elsewhere h =
      record_event-IsElsewhere (event m) s (quiet m) elsewhere h

  interrupt_message-IsElsewhere :
      (s : Supervisor V) {t : Supervisor V}
      → IsElsewhere s
      → interrupt_message outside k s ≡ (t, ok tt)
      → IsElsewhere t
  unfolding interrupt_message
  interrupt_message-IsElsewhere s (p, seen, other) h =
      let (q, u, projected, rest) = >>=-succeeds (projection k) _ s h in
      let (before, after) = projection-Sees k s projected in
      let same : p ≡ q = cc in
      message-IsElsewhere (find_last is_streaming q.messages) _ u (λ m. refl)
        (p, rw same after, other) rest

  complete_message-IsElsewhere :
      (test : MessageProjection V → Bool) (s : Supervisor V) {t : Supervisor V}
      → IsElsewhere s
      → complete_message outside test k s ≡ (t, ok tt)
      → IsElsewhere t
  unfolding complete_message
  complete_message-IsElsewhere test s (p, seen, other) h =
      let (q, u, projected, rest) = >>=-succeeds (projection k) _ s h in
      let (before, after) = projection-Sees k s projected in
      let same : p ≡ q = cc in
      message-IsElsewhere (find_last test q.messages) _ u (λ m. refl) (p, rw same after, other) rest

  stop_run-refused :
      (run_event : SemanticEvent V) (to_phase : SessionPhase) (reason : Option String)
      (s : Supervisor V) {t : Supervisor V}
      → is_quiet run_event ≡ true
      → IsElsewhere s
      → ¬ (
          stop_run outside k run_event (session_phase_changed running to_phase reason) s
          ≡ (t, ok tt))
  unfolding stop_run
  stop_run-refused run_event to_phase reason s quiet elsewhere h =
      let (a, u, message, rest) = >>=-succeeds (interrupt_message outside k) _ s h in
      let (b, v, ended, last) = >>=-succeeds (record_event outside k run_event) _ u rest in
      record_event-refused to_phase reason v
        (record_event-IsElsewhere run_event u quiet
          (interrupt_message-IsElsewhere s elsewhere message) ended)
        last

  -- Where the session's phase is not running, recording that a run failed, was cancelled, was interrupted
  -- or requires action ends with an error, whatever it wrote before.
  pub record_outcome-refused :
      (run_id : String) (result : ExecutionResult V) (s : Supervisor V) {t : Supervisor V}
      → changes_phase result ≡ true
      → IsElsewhere s
      → ¬ (record_outcome outside k run_id result s ≡ (t, ok tt))
  unfolding record_outcome
  record_outcome-refused run_id (failed error retryable) s ends elsewhere h =
      stop_run-refused (run_failed run_id error) _ _ s refl elsewhere h
  record_outcome-refused run_id cancelled s ends elsewhere h =
      stop_run-refused (run_cancelled run_id (some "cancelled_by_user")) _ _ s refl elsewhere h
  record_outcome-refused run_id interrupted s ends elsewhere h =
      stop_run-refused (run_interrupted run_id "server_shutdown") _ _ s refl elsewhere h
  record_outcome-refused run_id requires_action s ends elsewhere h =
      let (a, u, message, rest) = >>=-succeeds (complete_message outside is_streaming k) _ s h in
      record_event-refused _ _ u (complete_message-IsElsewhere is_streaming s elsewhere message)
        rest
  record_outcome-refused run_id completed s ends elsewhere h = absurd (cc)
  record_outcome-refused run_id (completed_with_usage usage) s ends elsewhere h = absurd (cc)
