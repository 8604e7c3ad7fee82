-- ===== src/Server/Storage/Advancing.antt =====
-- What a session's projection is after one more event.
use piqo_server.Prelude.{
  ◌+◌, String, ◌≡◌, refl, Option-cases, Bool-cases, inl, inr, some, List, [], ◌∷◌, ◌++◌, ap, ltb,
  Result, ok, err, >>=-eq-ok,
}
use piqo_server.Core.Json.{Json}
use piqo_server.Core.Event.{EventId, SemanticEvent}
use piqo_server.Core.EventLog.{RecordedEvent}
use piqo_server.Core.Errors.{ProjectionError}
use piqo_server.Core.SessionState.{Outcome}
use piqo_server.Core.Projection.{SessionProjection}
use piqo_server.Core.Projection.Apply
use piqo_server.Server.Storage.{
  StoreError, SessionStore, Transaction, i64_max, applied, append_event, append_all, append_events,
  current,
}

module _ {V : Type 0} where
  pub applied-eq-ok :
      (r : SessionProjection V × Outcome ProjectionError) {q : SessionProjection V}
      → applied r ≡ ok q
      → r ≡ (q, ok tt)
  unfolding applied
  applied-eq-ok (p, ok tt) h =
      ap (λ (x : Result StoreError (SessionProjection V)). (unwrapped p x, ok tt)) h
    where
      unwrapped :
          SessionProjection V → Result StoreError (SessionProjection V) → SessionProjection V
      unwrapped p (ok q) = q
      unwrapped p (err e) = p
  applied-eq-ok (p, err e) h = absurd (cc)

module _ {V : Type 0} ⦃j : Json V⦄ (session_id : String) where
  append_event-applied :
      (occurred_at : String) (event : SemanticEvent V) (tx : Transaction V) {after : Transaction V}
      → append_event session_id occurred_at event tx ≡ ok after
      → (event_id : EventId) × (applied (Apply.apply tx.state event_id event) ≡ ok after.state)
  unfolding append_event
  append_event-applied occurred_at event tx {after = after} h = elim (Option-cases tx.row) [
    | inl absent ↦ absurd (cc (rw absent at h))
    | inr (row, present) ↦
        let (state, accepted, rest) =
          >>=-eq-ok (applied (Apply.apply tx.state (row.last_event_id + 1) event)) _
            (rw present at h) in
        elim (Bool-cases (ltb i64_max state.state.revision)) [
          | inl over ↦ absurd (cc (rw over at rest))
          | inr under ↦
              let same = rw under at rest in
              let state_is : state ≡ after.state = cc in
              (row.last_event_id + 1, rw (← state_is) accepted)
        ]
  ]

  -- The projection after an event is the one before with the event applied.
  pub append_events-applied :
      (now : EventId → String) (event : SemanticEvent V) (store : SessionStore V)
      (p : SessionProjection V) {after : SessionStore V} {recorded : List (RecordedEvent V)}
      → current session_id store ≡ ok p
      → append_events session_id now (event ∷ []) store ≡ ok (after, recorded)
      → (event_id : EventId) × (q : SessionProjection V) × (Apply.apply p event_id event
          ≡ (q, ok tt))
        × (current session_id after ≡ ok q)
  unfolding append_events append_all current
  append_events-applied now event store p {after = after} is_p h =
      let start : Transaction V = record { row = store.row; state = p; recorded = [] } in
      let (tx, appended, rest) =
        >>=-eq-ok (append_all session_id now 0 (event ∷ []) start) _ (rw is_p at h) in
      let (tx', one, same) = >>=-eq-ok (append_event session_id (now 0) event start) _ appended in
      let (event_id, accepted) = append_event-applied (now 0) event start one in
      let tx_is : tx' ≡ tx = cc in
      let grown : (record {
        row = tx.row;
        events = store.events ++ tx.recorded;
        cached = some tx.state;
      })
          ≡ after =
        cc in
      (
        event_id,
        tx.state,
        applied-eq-ok (Apply.apply p event_id event) (rw (← tx_is) accepted),
        rw (← grown) refl,
      )
