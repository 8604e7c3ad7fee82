-- ===== src/Server/Storage.antt =====
-- piqo-server/src/storage.rs: the event log of a session in the database. A `SessionStore` is the part of
-- the database and of the projection cache that belongs to one session: its row of `sessions`, its rows of
-- `events` in the order of their ids, and its cached projection. A transaction that fails writes nothing,
-- which is the database's, so an operation returns the new store or an error.
pub mod Replay
pub mod Recording
pub mod Recovery
pub mod Forking
pub mod Advancing
pub mod Consistency
pub mod Appending
use piqo_server.Prelude.{
  ℕ, ◌+◌, String, Bool, true, false, not, ◌||◌, Option, none, some, unwrap_or, List, [], ◌∷◌, ◌++◌,
  length, last, select, is_empty, ltb, ◌==◌, if◌then◌else◌, Result, ok, err, ◌>>=◌,
}
use piqo_server.Core.Json.{Json}
use piqo_server.Core.Phases.{SessionPhase, created}
use piqo_server.Core.Errors.{ProjectionError}
use piqo_server.Core.Event.{EventId, SemanticEvent, session_created}
use piqo_server.Core.EventLog.{RecordedEvent}
use piqo_server.Core.SessionState.{Outcome, same_phase}
use piqo_server.Core.Projection.{SessionProjection}
use piqo_server.Core.Projection.Apply

-- the texts of `reason`, with the id that the first one shows
pub data CorruptReason : Type 0 where
  unsupported_event : EventId → CorruptReason
  no_creation_event cache_mismatch : CorruptReason

-- what serializing or parsing a JSON value reports, a library's error
pub data JsonError : Type 0 where
  malformed : JsonError

-- the texts that `InvalidRequest` and `Conflict` carry
pub data Refusal : Type 0 where
  provider_and_model_required request_unknown request_of_other_run request_without_call : Refusal
  not_awaiting_results tool_denied tool_not_approved resolved_otherwise : Refusal
  stopping already_terminal not_retryable : Refusal

-- of `StoreError`, what the modelled operations return
pub data StoreError : Type 0 where
  json : JsonError → StoreError
  session_not_found project_not_found project_deleting : String → StoreError
  event_not_found : (session_id : String) (event_id : EventId) → StoreError
  corrupt_session : (session_id : String) (reason : CorruptReason) → StoreError
  projection : ProjectionError → StoreError
  invalid_cursor queue_is_paused queue_not_paused : StoreError
  invalid_request conflict : Refusal → StoreError
  run_not_found tool_call_not_found : String → StoreError
  tool_call_wrong_run : (call_id run_id : String) → StoreError
  tool_result_conflict native_tool_managed mcp_tool_managed : String → StoreError
  caller_owned_transcript : StoreError
  provider_not_found provider_unavailable provider_protocol_error : String → StoreError
  shutting_down shutdown_timeout run_capacity_exceeded invalid_permission_scope : StoreError
  permission_rule_not_found : String → StoreError

-- of the row of `sessions`, what these operations read and write
pub record SessionRow : Type 0 where
  pub phase : SessionPhase
  pub revision : ℕ
  pub last_event_id : EventId

pub record SessionStore (V : Type 0) : Type 0 where
  pub row : Option SessionRow
  pub events : List (RecordedEvent V)
  pub cached : Option (SessionProjection V)

abbrev pub event_schema_version : ℕ
event_schema_version = 1

-- i64::MAX
abbrev pub i64_max : ℕ
i64_max = 9223372036854775807

-- the state of a transaction: the row, the projection, and the events recorded so far
pub record Transaction (V : Type 0) : Type 0 where
  pub row : Option SessionRow
  pub state : SessionProjection V
  pub recorded : List (RecordedEvent V)

module _ {V : Type 0} where
  abbrev pub row_of : SessionProjection V → EventId → SessionRow
  row_of state event_id = record {
    phase = state.state.phase;
    revision = state.state.revision;
    last_event_id = event_id;
  }

  abbrev pub row_event : String → EventId → String → SemanticEvent V → RecordedEvent V
  row_event session_id event_id occurred_at event = record {
    id = event_id;
    session_id = session_id;
    schema_version = event_schema_version;
    occurred_at = occurred_at;
    event = event;
    raw_data = none;
  }

  -- the projection after an event, `projection.apply(event_id, &event)?`
  unfoldable pub applied :
      SessionProjection V × Outcome ProjectionError → Result StoreError (SessionProjection V)
  applied (p, ok tt) = ok p
  applied (p, err e) = err (projection e)

module _ {V : Type 0} ⦃j : Json V⦄ where
  unfoldable pub replay :
      String
      → EventId
      → SessionProjection V
      → List (RecordedEvent V)
      → Result StoreError (SessionProjection V)
  unfolding applied
  replay session_id expected_id state [] = ok state
  replay session_id expected_id state (event ∷ events) =
      if not (event.id == expected_id) || not (event.schema_version == event_schema_version)
      then err (corrupt_session session_id (unsupported_event event.id))
      else applied (Apply.apply state event.id event.event) >>= λ state'.
          replay session_id (expected_id + 1) state' events

  unfoldable pub project : String → List (RecordedEvent V) → Result StoreError (SessionProjection V)
  unfolding replay
  project session_id events = replay session_id 1 (Apply.new session_id) events >>= λ state.
      if is_empty events then err (corrupt_session session_id no_creation_event) else ok state

  -- one event within `append_events`: its id from the row, the projection, the row of `events`, the row
  unfoldable pub append_event :
      String → String → SemanticEvent V → Transaction V → Result StoreError (Transaction V)
  unfolding applied
  append_event session_id occurred_at event tx = elim tx.row [
    | none ↦ err (session_not_found session_id)
    | some row ↦ applied (Apply.apply tx.state (row.last_event_id + 1) event) >>= λ state.
        if ltb i64_max state.state.revision
        then err invalid_cursor
        else ok (record {
          row = some (row_of state (row.last_event_id + 1));
          state = state;
          recorded =
              tx.recorded ++ row_event session_id (row.last_event_id + 1) occurred_at event ∷ [];
        })
  ]

  -- `now` is the clock, read once for each event
  unfoldable pub append_all :
      String
      → (EventId → String)
      → ℕ
      → List (SemanticEvent V)
      → Transaction V
      → Result StoreError (Transaction V)
  unfolding append_event
  append_all session_id now reading [] tx = ok tx
  append_all session_id now reading (event ∷ events) tx =
      append_event session_id (now reading) event tx >>= λ tx'.
      append_all session_id now (reading + 1) events tx'

  -- `if let Some(projection) = cached_projection`, else the projection of the stored events
  unfoldable pub current : String → SessionStore V → Result StoreError (SessionProjection V)
  unfolding project
  current session_id store = elim store.cached [
    | none ↦ project session_id store.events
    | some state ↦ ok state
  ]

  unfoldable pub append_events :
      String
      → (EventId → String)
      → List (SemanticEvent V)
      → SessionStore V
      → Result StoreError (SessionStore V × List (RecordedEvent V))
  unfolding append_all current
  append_events session_id now [] store = ok (store, [])
  append_events session_id now (event ∷ events) store = current session_id store >>= λ state.
      append_all session_id now 0 (event ∷ events)
        (record { row = store.row; state = state; recorded = [] })
      >>= λ tx. ok (
        record { row = tx.row; events = store.events ++ tx.recorded; cached = some tx.state },
        tx.recorded,
      )

  -- `create_session_with_retention`: the new row and the first event
  unfoldable pub create_session : String → String → Option String → SessionStore V
  create_session session_id now title = record {
    row = some (record { phase = created; revision = 0; last_event_id = 1 });
    events = row_event session_id 1 now (session_created title) ∷ [];
    cached = none;
  }

  -- `validate_all`, for one session
  unfoldable pub validate : String → SessionStore V → Outcome StoreError
  unfolding project
  validate session_id store = elim store.row [
    | none ↦ ok tt
    | some row ↦ project session_id store.events >>= λ state.
        if not (same_phase state.state.phase row.phase)
          || not (state.state.revision == row.revision)
          || not (unwrap_or state.state.last_event_id 0 == row.last_event_id)
        then err (corrupt_session session_id cache_mismatch)
        else ok tt
  ]
