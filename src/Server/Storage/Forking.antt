-- ===== src/Server/Storage/Forking.antt =====
-- piqo-server/src/storage.rs: `fork_session`, a child session that begins with a prefix of its parent's log.
pub mod Copied
pub mod Branch
pub mod Child
use piqo_server.Prelude.{
  ℕ, ◌+◌, String, Bool, true, false, not, ◌||◌, Option, none, some, List, [], ◌∷◌, ◌++◌, map, last,
  select, ltb, leb, ◌==◌, if◌then◌else◌, Result, ok, err, ◌>>=◌,
}
use piqo_server.Core.Json.{Json}
use piqo_server.Core.Event.{EventId, SemanticEvent, session_forked, run_interrupted, queue_paused}
use piqo_server.Core.EventLog.{RecordedEvent, id_of}
use piqo_server.Core.Projection.{SessionProjection}
use piqo_server.Core.Projection.Apply
use piqo_server.Core.Projection.Queue.{active_run}
use piqo_server.Server.Storage.{
  StoreError, session_not_found, event_not_found, invalid_cursor, SessionStore, Transaction,
  i64_max, row_of, row_event, applied, project,
}

abbrev pub ends_at : EventId → Option EventId → Bool
ends_at at_event_id none = false
ends_at at_event_id (some id) = id == at_event_id

module _ {V : Type 0} where
  -- the rows of `events` up to `at_event_id`
  unfoldable pub rows_until : EventId → List (RecordedEvent V) → List (RecordedEvent V)
  rows_until at_event_id = select (λ e. leb e.id at_event_id)

  -- the rows that `INSERT … SELECT` copies
  unfoldable pub copied : String → List (RecordedEvent V) → List (RecordedEvent V)
  copied id [] = []
  copied id (e ∷ rows) = record e { session_id = id } ∷ copied id rows

  unfoldable pub branch_events : String → EventId → SessionProjection V → List (SemanticEvent V)
  branch_events parent_session_id at_event_id p =
      session_forked parent_session_id at_event_id ∷ elim (active_run p) [
        | none ↦ queue_paused ∷ []
        | some run ↦ run_interrupted run.run_id "forked_branch" ∷ queue_paused ∷ []
      ]

module _ {V : Type 0} ⦃j : Json V⦄ where
  -- the loop over the branch's events
  unfoldable pub append_branch :
      String
      → String
      → EventId
      → List (SemanticEvent V)
      → Transaction V
      → Result StoreError (Transaction V)
  append_branch id created_at next_id [] tx = ok tx
  append_branch id created_at next_id (event ∷ events) tx =
      applied (Apply.apply tx.state next_id event) >>= λ state.
      if ltb i64_max state.state.revision || ltb i64_max next_id
      then err invalid_cursor
      else append_branch id created_at (next_id + 1) events (record {
        row = some (row_of state next_id);
        state = state;
        recorded = tx.recorded ++ row_event id next_id created_at event ∷ [];
      })

  -- the projection of the prefix, which must end at the event
  unfoldable pub parent_state :
      String → EventId → List (RecordedEvent V) → Result StoreError (SessionProjection V)
  parent_state parent_session_id at_event_id rows =
      if ends_at at_event_id (id_of (last rows))
      then project parent_session_id rows
      else err (event_not_found parent_session_id at_event_id)

  -- the child of a parent that is there
  unfoldable pub fork_rows :
      String
      → String
      → EventId
      → String
      → List (RecordedEvent V)
      → Result StoreError (SessionStore V)
  fork_rows parent_session_id id at_event_id created_at rows =
      parent_state parent_session_id at_event_id rows >>= λ state.
      if ltb i64_max state.state.revision
      then err invalid_cursor
      else append_branch id created_at (at_event_id + 1)
          (branch_events parent_session_id at_event_id state)
          (record { row = some (row_of state at_event_id); state = state; recorded = [] })
        >>= λ tx.
            ok (record { row = tx.row; events = copied id rows ++ tx.recorded; cached = none })

  -- `id` and `created_at` are a new UUID and the clock
  unfoldable pub fork_session :
      String → EventId → String → String → SessionStore V → Result StoreError (SessionStore V)
  fork_session parent_session_id at_event_id id created_at parent = elim parent.row [
    | none ↦ err (session_not_found parent_session_id)
    | some row ↦
        if ltb i64_max at_event_id
        then err invalid_cursor
        else fork_rows parent_session_id id at_event_id created_at
            (rows_until at_event_id parent.events)
  ]
