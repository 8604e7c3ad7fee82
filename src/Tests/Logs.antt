-- ===== src/Tests/Logs.antt =====
-- A log of three events, read from a place and forked.
use piqo_server.Prelude.{ℕ, ◌+◌, String, ◌≡◌, refl, none, some, [], ◌∷◌, ◌++◌, drop, length, arith}
use piqo_server.Core.Event.{SemanticEvent, session_created, queue_paused, queue_resumed}
use piqo_server.Core.EventLog.{
  RecordedEvent, EventLog, last_id, append_for_session, replay_from, fork_at,
}
use piqo_server.Core.EventLog.Numbering.{IsNumbered, append_for_session-IsNumbered}
use piqo_server.Core.EventLog.Branching.{replay_from-eq-drop, fork_at-append-replay_from}

abbrev recorded : ℕ → SemanticEvent String → RecordedEvent String
recorded id event = record {
  id = id;
  session_id = "s";
  schema_version = 1;
  occurred_at = "now";
  event = event;
  raw_data = none;
}

abbrev e1 : RecordedEvent String
e1 = recorded 1 (session_created none)

abbrev e2 : RecordedEvent String
e2 = recorded 2 queue_paused

abbrev e3 : RecordedEvent String
e3 = recorded 3 queue_resumed

abbrev log : EventLog String
log = record { events = e1 ∷ e2 ∷ e3 ∷ [] }

log-IsNumbered : IsNumbered log
log-IsNumbered = ((refl, (refl, (refl, tt))), omega arith)

replay_from-eq-drop_example : replay_from log 1 ≡ drop 1 log.events
replay_from-eq-drop_example = replay_from-eq-drop log 1 log-IsNumbered

fork_at-append-replay_from_example :
    IsNumbered (record { events = e1 ∷ e2 ∷ [] })
    × (last_id (record { events = e1 ∷ e2 ∷ [] }) ≡ some 2)
    × (e1 ∷ e2 ∷ [] ++ replay_from log 2 ≡ log.events)
unfolding fork_at
fork_at-append-replay_from_example =
    fork_at-append-replay_from log (record { events = e1 ∷ e2 ∷ [] }) 2 log-IsNumbered refl

append_for_session-IsNumbered_example :
    (e : RecordedEvent String) × ((append_for_session log "s" "later" queue_paused).0.events
      ≡ log.events ++ e ∷ [])
    × (e.id ≡ length log.events + 1)
    × (e.event ≡ queue_paused)
    × (e.session_id ≡ "s")
    × ((append_for_session log "s" "later" queue_paused).1 ≡ e.id)
    × (last_id (append_for_session log "s" "later" queue_paused).0 ≡ some e.id)
    × IsNumbered (append_for_session log "s" "later" queue_paused).0
append_for_session-IsNumbered_example =
    append_for_session-IsNumbered log "s" "later" queue_paused log-IsNumbered (omega arith)
