-- ===== src/Server/Storage/Recording.antt =====
-- What appending to a log records, whatever the log is.
use piqo_server.Prelude.{
  ℕ, ◌+◌, String, ◌≡◌, refl, sym, ap, ◌∙◌, Option-cases, some, List, [], ◌∷◌, ◌++◌, map, All, ltb,
  Bool-cases, inl, inr, ok, >>=-eq-ok,
}
use mathlib.Core.List.{append_assoc, append-nil}
use piqo_server.Core.Json.{Json}
use piqo_server.Core.Event.{EventId, SemanticEvent}
use piqo_server.Core.EventLog.{RecordedEvent}
use piqo_server.Core.Projection.Apply
use piqo_server.Server.Storage.{
  SessionStore, Transaction, i64_max, row_event, applied, append_event, append_all, append_events,
  current,
}

module _ {V : Type 0} ⦃j : Json V⦄ (session_id : String) where
  append_event-recorded :
      (occurred_at : String) (event : SemanticEvent V) (tx : Transaction V) {after : Transaction V}
      → append_event session_id occurred_at event tx ≡ ok after
      → (event_id : EventId) × (after.recorded
          ≡ tx.recorded ++ row_event session_id event_id occurred_at event ∷ [])
  unfolding append_event
  append_event-recorded occurred_at event tx {after = after} h = elim (Option-cases tx.row) [
    | inl absent ↦ absurd (cc (rw absent at h))
    | inr (row, present) ↦
        let (state, accepted, rest) =
          >>=-eq-ok (applied (Apply.apply tx.state (row.last_event_id + 1) event)) _
            (rw present at h) in
        elim (Bool-cases (ltb i64_max state.state.revision)) [
          | inl over ↦ absurd (cc (rw over at rest))
          | inr under ↦ let same = rw under at rest in (row.last_event_id + 1, cc)
        ]
  ]

  append_all-recorded :
      (now : EventId → String) (reading : ℕ) (events : List (SemanticEvent V)) (tx : Transaction V)
      {after : Transaction V}
      → append_all session_id now reading events tx ≡ ok after
      → (new : List (RecordedEvent V)) × (after.recorded ≡ tx.recorded ++ new)
        × (map (λ e. e.event) new ≡ events)
        × All (λ e. e.session_id ≡ session_id) new
  unfolding append_all
  append_all-recorded now reading [] tx {after = after} h =
      let same : tx ≡ after = cc in ([], rw (← same) (sym (append-nil tx.recorded)), refl, tt)
  append_all-recorded now reading (event ∷ events) tx h =
      let (mid, first, rest) = >>=-eq-ok (append_event session_id (now reading) event tx) _ h in
      let (event_id, written) = append_event-recorded (now reading) event tx first in
      let (new, recorded, events_are, here) =
        append_all-recorded now (reading + 1) events mid rest in
      let e = row_event session_id event_id (now reading) event in
      (
        e ∷ new,
        recorded
            ∙ ap (λ (l : List (RecordedEvent V)). l ++ new) written
            ∙ append_assoc tx.recorded (e ∷ []) new,
        ap (λ (l : List (SemanticEvent V)). event ∷ l) events_are,
        (refl, here),
      )

  -- The log keeps its events and gets those that are returned, which bear the session's id.
  pub append_events-recorded :
      (now : EventId → String) (events : List (SemanticEvent V)) (store : SessionStore V)
      {after : SessionStore V} {recorded : List (RecordedEvent V)}
      → append_events session_id now events store ≡ ok (after, recorded)
      → (after.events ≡ store.events ++ recorded)
        × (map (λ e. e.event) recorded ≡ events)
        × All (λ e. e.session_id ≡ session_id) recorded
  unfolding append_events
  append_events-recorded now [] store {after = after} {recorded = recorded} h =
      let same : store ≡ after = cc in
      let none_new : [] ≡ recorded = cc in
      rw (← same, ← none_new) (sym (append-nil store.events), refl, tt)
  append_events-recorded now (event ∷ events) store {after = after} {recorded = recorded} h =
      let (state, found, run) = >>=-eq-ok (current session_id store) _ h in
      let start : Transaction V = record { row = store.row; state = state; recorded = [] } in
      let (tx, appended, rest) =
        >>=-eq-ok (append_all session_id now 0 (event ∷ events) start) _ run in
      let (new, new_are, events_are, here) =
        append_all-recorded now 0 (event ∷ events) start appended in
      let grown : (record {
        row = tx.row;
        events = store.events ++ tx.recorded;
        cached = some tx.state;
      })
          ≡ after =
        cc in
      let returned : tx.recorded ≡ recorded = cc in
      let new_is : recorded ≡ new = sym returned ∙ new_are in
      (rw (← grown, ← returned) refl, rw new_is events_are, rw new_is here)
