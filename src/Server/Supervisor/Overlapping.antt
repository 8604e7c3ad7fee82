-- ===== src/Server/Supervisor/Overlapping.antt =====
-- piqo-server/src/storage.rs, `append_events`, and piqo-server/src/supervisor.rs, `append_many`, taken
-- apart into what calls on one session that overlap do in turns: a call reads the cache, commits its
-- transaction, writes the cache, and publishes its events one after the other.
pub mod Accounted
pub mod Alone
use piqo_server.Prelude.{String, Option, some, List, [], ◌∷◌, ◌++◌, Result, ok, err, ◌≡◌, ◌>>=◌}
use piqo_server.Core.Json.{Json}
use piqo_server.Core.Event.{EventId, SemanticEvent}
use piqo_server.Core.EventLog.{RecordedEvent}
use piqo_server.Core.Projection.{SessionProjection}
use piqo_server.Server.Storage.{StoreError, SessionStore, append_all, current}

-- A call that is under way: it has read the cache, it has committed, or it publishes.
pub data Task (V : Type 0) : Type 0 where
  reading : (cached : Option (SessionProjection V)) (events : List (SemanticEvent V)) → Task V
  caching : (state : SessionProjection V) (recorded : List (RecordedEvent V)) → Task V
  publishing : (left : List (RecordedEvent V)) → Task V

-- a session in the database and the cache, what was published of it, and the calls under way
pub record Shared (V : Type 0) : Type 0 where
  pub store : SessionStore V
  pub published : List (RecordedEvent V)
  pub tasks : List (Task V)

module _ {V : Type 0} ⦃j : Json V⦄ (session_id : String) where
  -- the transaction, which starts from what was cached before it began, or else from the stored events
  unfoldable pub commit_events :
      (EventId → String)
      → Option (SessionProjection V)
      → List (SemanticEvent V)
      → SessionStore V
      → Result StoreError (SessionStore V × Task V)
  commit_events now cached events store =
      current session_id (record store { cached = cached }) >>= λ state.
      append_all session_id now 0 events (record { row = store.row; state = state; recorded = [] })
      >>= λ tx. ok (
        record store { row = tx.row; events = store.events ++ tx.recorded },
        caching tx.state tx.recorded,
      )

  -- a call begins, or one of those under way takes its next step
  pub data Step (s : Shared V) : Shared V → Type 0 where
    begin :
        (event : SemanticEvent V) (events : List (SemanticEvent V))
        → Step s (record s { tasks = reading s.store.cached (event ∷ events) ∷ s.tasks })
    commit :
        (now : EventId → String) (before after : List (Task V))
        (cached : Option (SessionProjection V)) (events : List (SemanticEvent V))
        (store : SessionStore V) (task : Task V)
        → s.tasks ≡ before ++ reading cached events ∷ after
        → commit_events now cached events s.store ≡ ok (store, task)
        → Step s (record s { store = store; tasks = before ++ task ∷ after })
    refuse :
        (now : EventId → String) (before after : List (Task V))
        (cached : Option (SessionProjection V)) (events : List (SemanticEvent V)) (e : StoreError)
        → s.tasks ≡ before ++ reading cached events ∷ after
        → commit_events now cached events s.store ≡ err e
        → Step s (record s { tasks = before ++ after })
    write_cache :
        (before after : List (Task V)) (state : SessionProjection V)
        (recorded : List (RecordedEvent V))
        → s.tasks ≡ before ++ caching state recorded ∷ after
        → Step s (record s {
          store = record s.store { cached = some state };
          tasks = before ++ publishing recorded ∷ after;
        })
    publish :
        (before after : List (Task V)) (e : RecordedEvent V) (left : List (RecordedEvent V))
        → s.tasks ≡ before ++ publishing (e ∷ left) ∷ after
        → Step s (record s {
          published = s.published ++ e ∷ [];
          tasks = before ++ publishing left ∷ after;
        })

  pub data Steps (s : Shared V) : Shared V → Type 0 where
    at_start : Steps s s
    step : {t u : Shared V} → Steps s t → Step t u → Steps s u
