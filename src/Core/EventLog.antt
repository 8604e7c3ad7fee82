-- ===== src/Core/EventLog.antt =====
-- piqo-core/src/event_log.rs: the append-only event log of a session.
pub mod Numbering
pub mod Branching
use piqo_server.Prelude.{
  ℕ, ◌+◌, ◌%◌, String, Bool, Option, none, some, List, [], ◌∷◌, ◌++◌, last, any, select, ltb, leb,
  ◌==◌, if◌then◌else◌, Result, ok, err,
}
use piqo_server.Core.Event.{EventId, SemanticEvent}

pub record RecordedEvent (V : Type 0) : Type 0 where
  pub id : EventId
  pub session_id : String
  pub schema_version : ℕ
  pub occurred_at : String
  pub event : SemanticEvent V
  pub raw_data : Option V

pub record EventLog (V : Type 0) : Type 0 where
  pub events : List (RecordedEvent V)

pub data EventLogError : Type 0 where
  unknown_event : EventId → EventLogError

-- 2^64: ids are u64, and `last + 1` wraps.
abbrev pub u64_mod : ℕ
u64_mod = 18446744073709551616

-- `map_or(1, |last| last + 1)`
abbrev pub next_id : Option EventId → EventId
next_id none = 1
next_id (some id) = (id + 1) % u64_mod

abbrev pub id_of : {V : Type 0} → Option (RecordedEvent V) → Option EventId
id_of none = none
id_of (some e) = some e.id

module _ {V : Type 0} where
  unfoldable pub new : EventLog V
  new = record { events = [] }

  unfoldable pub last_id : EventLog V → Option EventId
  last_id log = id_of (last log.events)

  unfoldable pub append_for_session :
      EventLog V → String → String → SemanticEvent V → EventLog V × EventId
  unfolding last_id
  append_for_session log session_id occurred_at event =
      let id = next_id (last_id log) in
      let recorded : RecordedEvent V = record {
        id = id;
        session_id = session_id;
        schema_version = 1;
        occurred_at = occurred_at;
        event = event;
        raw_data = none;
      } in
      (record log { events = log.events ++ recorded ∷ [] }, id)

  unfoldable pub append : EventLog V → SemanticEvent V → EventLog V × EventId
  unfolding last_id
  append log event =
      let id = next_id (last_id log) in
      let recorded : RecordedEvent V = record {
        id = id;
        session_id = "";
        schema_version = 1;
        occurred_at = "";
        event = event;
        raw_data = none;
      } in
      (record log { events = log.events ++ recorded ∷ [] }, id)

  unfoldable pub replay_from : EventLog V → EventId → List (RecordedEvent V)
  replay_from log after = select (λ e. ltb after e.id) log.events

  unfoldable pub fork_at : EventLog V → EventId → Result EventLogError (EventLog V)
  fork_at log event_id =
      if any (λ e. e.id == event_id) log.events
      then ok (record { events = select (λ e. leb e.id event_id) log.events })
      else err (unknown_event event_id)
