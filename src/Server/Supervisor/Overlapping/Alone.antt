-- ===== src/Server/Supervisor/Overlapping/Alone.antt =====
-- A call that no other overlaps does what `append_events` does.
use piqo_server.Prelude.{String, ◌≡◌, refl, some, List, [], ◌∷◌, ◌++◌, Result, ok, err, ◌>>=◌}
use piqo_server.Core.Json.{Json}
use piqo_server.Core.Event.{EventId, SemanticEvent}
use piqo_server.Core.EventLog.{RecordedEvent}
use piqo_server.Core.Projection.{SessionProjection}
use piqo_server.Server.Storage.{
  StoreError, SessionStore, Transaction, append_all, append_events, current,
}
use piqo_server.Server.Supervisor.Overlapping.{Task, reading, caching, publishing, commit_events}
use piqo_server.Server.Supervisor.Overlapping.Accounted.{unpublished}

module _ {V : Type 0} ⦃j : Json V⦄ (session_id : String) (now : EventId → String) where
  -- the write to the cache that follows a commit
  abbrev cached_after : Task V → SessionStore V → SessionStore V
  cached_after (caching state recorded) store = record store { cached = some state }
  cached_after (reading cached events) store = store
  cached_after (publishing left) store = store

  abbrev returned :
      SessionStore V × Task V → Result StoreError (SessionStore V × List (RecordedEvent V))
  returned (store, task) = ok (cached_after task store, unpublished task)

  abbrev stored : SessionStore V → Transaction V → SessionStore V × Task V
  stored store tx = (
    record store { row = tx.row; events = store.events ++ tx.recorded },
    caching tx.state tx.recorded,
  )

  committed-returned :
      (store : SessionStore V) (r : Result StoreError (Transaction V))
      → (r >>= λ tx. ok (
        record { row = tx.row; events = store.events ++ tx.recorded; cached = some tx.state },
        tx.recorded,
      ))
        ≡ ((r >>= λ tx. ok (stored store tx)) >>= returned)
  committed-returned store (ok tx) = refl
  committed-returned store (err e) = refl

  -- reading the cache, committing and writing the cache, with nothing between, is `append_events`
  append_events-commit_events :
      (event : SemanticEvent V) (events : List (SemanticEvent V)) (store : SessionStore V)
      → append_events session_id now (event ∷ events) store
        ≡ (commit_events session_id now store.cached (event ∷ events) store >>= returned)
  unfolding append_events commit_events
  append_events-commit_events event events store = go (current session_id store)
    where
      started : SessionProjection V → Result StoreError (Transaction V)
      started state =
          append_all session_id now 0 (event ∷ events)
            (record { row = store.row; state = state; recorded = [] })

      go :
          (r : Result StoreError (SessionProjection V))
          → (r >>= λ state. started state >>= λ tx. ok (
            record { row = tx.row; events = store.events ++ tx.recorded; cached = some tx.state },
            tx.recorded,
          ))
            ≡ ((r >>= λ state. started state >>= λ tx. ok (stored store tx)) >>= returned)
      go (ok state) = committed-returned store (started state)
      go (err e) = refl
