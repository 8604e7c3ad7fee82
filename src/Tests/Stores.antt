-- ===== src/Tests/Stores.antt =====
-- Sessions that are created, appended to, forked and recovered.
use piqo_server.Prelude.{
  ◌+◌, String, false, ◌≡◌, ◌↔◌, refl, none, some, List, [], ◌∷◌, ◌++◌, length, map, if◌then◌else◌,
  ok,
}
use piqo_server.Prelude.Map.{get, values, modify, insert}
use piqo_server.Core.Phases
use piqo_server.Core.Phases.{running}
use piqo_server.Core.Event.{
  EventId, SemanticEvent, session_created, session_phase_changed, session_interrupted, run_queued,
  run_started, queue_paused,
}
use piqo_server.Core.EventLog.{RecordedEvent}
use piqo_server.Core.EventLog.Numbering.{CountsFrom}
use piqo_server.Core.SessionState
use piqo_server.Core.Projection.{SessionProjection}
use piqo_server.Core.Projection.Apply
use piqo_server.Core.Projection.Apply.{project_event}
use piqo_server.Core.Projection.Queue.{active_run}
use piqo_server.Core.Projection.Runs.{queue_run, start_run, edit_run, end_run, set_run_terminal}
use piqo_server.Server.Storage.{
  SessionStore, create_session, append_events, validate, row_event, row_of, replay, project,
  applied, current,
}
use piqo_server.Server.Storage.Consistency.{
  IsConsistent, RowAgrees, create_session-IsConsistent, validate-RowAgrees,
}
use piqo_server.Server.Storage.Appending.{append_events-IsConsistent}
use piqo_server.Server.Storage.Forking.{
  rows_until, copied, parent_state, fork_rows, append_branch, branch_events, fork_session,
}
use piqo_server.Server.Storage.Forking.Child.{upto, cut_off, fork_session-IsConsistent}
use piqo_server.Server.Storage.Recovery.{recover_session, row_is_running, interrupt_active}
use piqo_server.Server.Storage.Recovery.Interrupted.{run_events, recover_session-NotRunning}
use piqo_server.Tests.{json_strings}

abbrev created : SessionStore String
created = create_session "s" "now" (some "title")

abbrev created_state : SessionProjection String
created_state =
    (Apply.apply (Apply.new "s") 1 (row_event "s" 1 "now" (session_created (some "title"))).event).0

abbrev clock : EventId → String
clock reading = "later"

abbrev new_events : List (SemanticEvent String)
new_events = run_queued "run" none "local" "small" "{}" ∷ queue_paused ∷ []

abbrev recorded : List (RecordedEvent String)
recorded =
    row_event "s" 2 "later" (run_queued "run" none "local" "small" "{}")
    ∷ row_event "s" 3 "later" queue_paused
    ∷ []

abbrev state_after : SessionProjection String
state_after =
    (Apply.apply
      (Apply.apply
        (Apply.apply (Apply.new "s") 1
          (row_event "s" 1 "now" (session_created (some "title"))).event).0
        2 (run_queued "run" none "local" "small" "{}")).0
      3 queue_paused).0

abbrev after : SessionStore String
after = record {
  row = some (row_of state_after 3);
  events = created.events ++ recorded;
  cached = some state_after;
}

created-IsConsistent : IsConsistent "s" created
created-IsConsistent = create_session-IsConsistent "s" "now" (some "title")

validate-RowAgrees_example :
    (validate "s" created ≡ ok tt) ↔ RowAgrees "s" created (row_of created_state 1)
unfolding create_session Apply.new Apply.apply SessionState.new SessionState.apply project_event
validate-RowAgrees_example = validate-RowAgrees "s" created (row_of created_state 1) refl

append_events-IsConsistent_example :
    IsConsistent "s" after
    × (after.events ≡ created.events ++ recorded)
    × (map (λ e. e.event) recorded ≡ new_events)
    × CountsFrom (length created.events + 1) recorded
unfolding create_session append_events replay Apply.new Apply.apply SessionState.new
    SessionState.apply project_event queue_run get
append_events-IsConsistent_example =
    append_events-IsConsistent "s" clock new_events created {after = after} {recorded = recorded}
      created-IsConsistent refl

abbrev parent : SessionStore String
parent = create_session "s" "now" (some "title")

-- a session with a run under way
busy :
    (store : SessionStore String) × (recorded : List (RecordedEvent String)) × (append_events "s"
        clock
        (run_queued "run" none "local" "small" "{}"
          ∷ session_phase_changed Phases.created running none
          ∷ run_started "run" "attempt" 1
          ∷ [])
        parent
      ≡ ok (store, recorded))
unfolding create_session append_events replay applied Apply.new Apply.apply SessionState.new
    SessionState.apply project_event queue_run start_run edit_run get modify insert
busy = (_, _, refl)

busy-IsConsistent : IsConsistent "s" busy.0
busy-IsConsistent =
    (append_events-IsConsistent "s" clock _ parent {after = busy.0} {recorded = busy.1}
      (create_session-IsConsistent "s" "now" (some "title")) busy.2).0

recovered : (after : SessionStore String) × (recover_session "s" clock busy.0 ≡ ok after)
unfolding busy create_session append_events replay applied Apply.new Apply.apply SessionState.new
    SessionState.apply project_event queue_run start_run edit_run get modify insert recover_session
    row_is_running interrupt_active active_run values current end_run set_run_terminal
recovered = (_, refl)

recover_session-NotRunning_example :
    IsConsistent "s" recovered.0
    × (row_is_running recovered.0 ≡ false)
    × (map (λ e. e.event) recovered.0.events
        ≡ map (λ e. e.event) busy.0.events
          ++ (if row_is_running busy.0
              then session_interrupted "server_restart"
                ∷ run_events (active_run busy-IsConsistent.state)
              else []))
recover_session-NotRunning_example =
    recover_session-NotRunning "s" clock busy.0 {after = recovered.0} busy-IsConsistent recovered.1

-- a fork of the session at its last event, with the run under way
forked : (child : SessionStore String) × (fork_session "s" 4 "child" "later" busy.0 ≡ ok child)
unfolding busy create_session append_events replay applied Apply.new Apply.apply SessionState.new
    SessionState.apply project_event queue_run start_run edit_run get modify insert active_run
    values end_run set_run_terminal fork_session rows_until copied parent_state fork_rows
    append_branch branch_events project
forked = (_, refl)

fork_session-IsConsistent_example :
    IsConsistent "child" forked.0
    × ((p : SessionProjection String) × (project "s" (upto 4 busy.0.events) ≡ ok p)
        × (map (λ e. e.event) forked.0.events
            ≡ map (λ e. e.event) (upto 4 busy.0.events) ++ cut_off "s" 4 (active_run p)))
fork_session-IsConsistent_example =
    fork_session-IsConsistent "s" "child" "later" 4 busy.0 {child = forked.0} forked.1
