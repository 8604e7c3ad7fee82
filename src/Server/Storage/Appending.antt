-- ===== src/Server/Storage/Appending.antt =====
-- What appending events does to a session's log, its row and its cached projection.
use piqo_server.Prelude.{
  ℕ, ◌+◌, String, false, ◌≡◌, inl, inr, refl, sym, ap, ◌∙◌, some, List, [], ◌∷◌, ◌++◌, map, length,
  length-append, is_empty, ltb, Bool-cases, ok, err, >>=-eq-ok, arith,
}
use mathlib.Core.List.{append_assoc, append-nil}
use piqo_server.Core.EventLog.Numbering.{CountsFrom}
use piqo_server.Core.Json.{Json}
use piqo_server.Core.Event.{EventId, SemanticEvent}
use piqo_server.Core.EventLog.{RecordedEvent}
use piqo_server.Core.SessionState.{Outcome}
use piqo_server.Core.Errors.{ProjectionError}
use piqo_server.Core.Projection.{SessionProjection}
use piqo_server.Core.Projection.Apply
use piqo_server.Core.Projection.Apply.Phase.{apply-last_event_id}
use piqo_server.Server.Storage.{
  SessionStore, Transaction, i64_max, row_of, row_event, replay, applied, append_event, append_all,
  append_events,
}
use piqo_server.Server.Storage.Replay.{replay-append}
use piqo_server.Server.Storage.Consistency.{IsConsistent, current-IsConsistent}

module _ {V : Type 0} ⦃j : Json V⦄ (session_id : String) (stored : List (RecordedEvent V)) where
  -- the log so far replays to the transaction's projection, and the row agrees with it
  record Follows (tx : Transaction V) : Type 0 where
    replays : replay session_id 1 (Apply.new session_id) (stored ++ tx.recorded) ≡ ok tx.state
    row_agrees : tx.row ≡ some (row_of tx.state (length (stored ++ tx.recorded)))
    last_agrees : tx.state.state.last_event_id ≡ some (length (stored ++ tx.recorded))

  applied-eq-ok :
      (state : SessionProjection V) (event_id : EventId) (event : SemanticEvent V)
      {after : SessionProjection V}
      → applied (Apply.apply state event_id event) ≡ ok after
      → after.state.last_event_id ≡ some event_id
  unfolding applied
  applied-eq-ok state event_id event {after = after} h =
      go (Apply.apply state event_id event) refl h
    where
      go :
          (r : SessionProjection V × Outcome ProjectionError)
          → Apply.apply state event_id event ≡ r
          → applied r ≡ ok after
          → after.state.last_event_id ≡ some event_id
      go (p, ok tt) e h =
          let p_is : p ≡ after = cc in
          rw (← p_is) (rw e at (apply-last_event_id state event_id event (rw e refl)))
      go (p, err x) e h = absurd (cc)

  abbrev grown : String → SemanticEvent V → Transaction V → SessionProjection V → Transaction V
  grown occurred_at event tx state =
      let event_id = length (stored ++ tx.recorded) + 1 in
      record {
        row = some (row_of state event_id);
        state = state;
        recorded = tx.recorded ++ row_event session_id event_id occurred_at event ∷ [];
      }

  grown-Follows :
      (occurred_at : String) (event : SemanticEvent V) (tx : Transaction V)
      (state : SessionProjection V)
      → Follows tx
      → applied (Apply.apply tx.state (length (stored ++ tx.recorded) + 1) event) ≡ ok state
      → Follows (grown occurred_at event tx state)
  grown-Follows occurred_at event tx state f accepted =
      let log = stored ++ tx.recorded in
      let e = row_event session_id (length log + 1) occurred_at event in
      let split : stored ++ (tx.recorded ++ e ∷ []) ≡ log ++ e ∷ [] =
        sym (append_assoc stored tx.recorded (e ∷ [])) in
      let size : length (log ++ e ∷ []) ≡ length log + 1 =
        omega (arith, length-append log (e ∷ [])) in
      record {
        replays =
            rw
              (
                split,
                replay-append session_id 1 (Apply.new session_id) log e (omega arith) refl,
                f.replays,
              )
              accepted;
        row_agrees = rw (split, size) refl;
        last_agrees = rw (split, size) (applied-eq-ok tx.state (length log + 1) event accepted);
      }

  append_event-Follows :
      (occurred_at : String) (event : SemanticEvent V) (tx : Transaction V) {after : Transaction V}
      → Follows tx
      → append_event session_id occurred_at event tx ≡ ok after
      → Follows after
        × (after.recorded
            ≡ tx.recorded
              ++ row_event session_id (length (stored ++ tx.recorded) + 1) occurred_at event ∷ [])
  unfolding append_event
  append_event-Follows occurred_at event tx {after = after} f h =
      let n = length (stored ++ tx.recorded) in
      let (state, accepted, rest) =
        >>=-eq-ok (applied (Apply.apply tx.state (n + 1) event)) _ (rw f.row_agrees at h) in
      let done : grown occurred_at event tx state ≡ after =
        elim (Bool-cases (ltb i64_max state.state.revision)) [
          | inl over ↦ absurd (cc (rw over at rest))
          | inr under ↦ cc (rw under at rest)
        ] in
      rw (← done) (grown-Follows occurred_at event tx state f accepted, refl)

  append_all-Follows :
      (now : EventId → String) (reading : ℕ) (events : List (SemanticEvent V)) (tx : Transaction V)
      {after : Transaction V}
      → Follows tx
      → append_all session_id now reading events tx ≡ ok after
      → Follows after
        × ((new : List (RecordedEvent V)) × (after.recorded ≡ tx.recorded ++ new)
            × (map (λ e. e.event) new ≡ events)
            × CountsFrom (length (stored ++ tx.recorded) + 1) new)
  unfolding append_all
  append_all-Follows now reading [] tx {after = after} f h =
      let same : tx ≡ after = cc in
      (rw (← same) f, ([], rw (← same) (sym (append-nil tx.recorded)), refl, tt))
  append_all-Follows now reading (event ∷ events) tx f h =
      let n = length (stored ++ tx.recorded) in
      let e = row_event session_id (n + 1) (now reading) event in
      let (mid, first, rest) = >>=-eq-ok (append_event session_id (now reading) event tx) _ h in
      let (follows, written) = append_event-Follows (now reading) event tx f first in
      let (done, (new, recorded, events_are, counts)) =
        append_all-Follows now (reading + 1) events mid follows rest in
      let size : length (stored ++ mid.recorded) ≡ n + 1 =
        rw (written, ← append_assoc stored tx.recorded (e ∷ []))
          (omega (arith, length-append (stored ++ tx.recorded) (e ∷ []))) in
      (
        done,
        (
          e ∷ new,
          recorded
              ∙ ap (λ (l : List (RecordedEvent V)). l ++ new) written
              ∙ append_assoc tx.recorded (e ∷ []) new,
          ap (λ (l : List (SemanticEvent V)). event ∷ l) events_are,
          (refl, rw size at counts),
        ),
      )

module _ {V : Type 0} ⦃j : Json V⦄ where
  start-Follows :
      (session_id : String) (store : SessionStore V) (c : IsConsistent session_id store)
      → Follows session_id store.events (record { row = store.row; state = c.state; recorded = [] })
  start-Follows session_id store c = record {
    replays = rw (append-nil store.events) c.replays;
    row_agrees = rw (append-nil store.events) c.row_agrees;
    last_agrees = rw (append-nil store.events) c.last_agrees;
  }

  IsConsistent-Follows :
      (session_id : String) (stored : List (RecordedEvent V)) (tx : Transaction V)
      → Follows session_id stored tx
      → is_empty stored ≡ false
      → IsConsistent session_id
          (record { row = tx.row; events = stored ++ tx.recorded; cached = some tx.state })
  IsConsistent-Follows session_id (e ∷ stored) tx f nonempty = record {
    state = tx.state;
    replays = f.replays;
    has_events = refl;
    row_agrees = f.row_agrees;
    last_agrees = f.last_agrees;
    cache_agrees = inr refl;
  }
  IsConsistent-Follows session_id [] tx f nonempty = absurd (cc)

  -- Appending events to a consistent session keeps it consistent. The log keeps its events and gets one
  -- more for each event given, in their order, whose ids count on from the log's length; those are returned.
  pub append_events-IsConsistent :
      (session_id : String) (now : EventId → String) (events : List (SemanticEvent V))
      (store : SessionStore V) {after : SessionStore V} {recorded : List (RecordedEvent V)}
      → IsConsistent session_id store
      → append_events session_id now events store ≡ ok (after, recorded)
      → IsConsistent session_id after
        × (after.events ≡ store.events ++ recorded)
        × (map (λ e. e.event) recorded ≡ events)
        × CountsFrom (length store.events + 1) recorded
  unfolding append_events
  append_events-IsConsistent session_id now [] store {after = after} {recorded = recorded} c h =
      let same : store ≡ after = cc in
      let none_new : [] ≡ recorded = cc in
      rw (← same, ← none_new) (c, sym (append-nil store.events), refl, tt)
  append_events-IsConsistent session_id now (event ∷ events) store {after = after}
        {recorded = recorded} c h =
      let start : Transaction V = record { row = store.row; state = c.state; recorded = [] } in
      let (tx, appended, rest) =
        >>=-eq-ok (append_all session_id now 0 (event ∷ events) start) _
          (rw (current-IsConsistent session_id store c) at h) in
      let (f, (new, new_are, events_are, counts)) =
        append_all-Follows session_id store.events now 0 (event ∷ events) start
          (start-Follows session_id store c) appended in
      let grown_store : (record {
        row = tx.row;
        events = store.events ++ tx.recorded;
        cached = some tx.state;
      })
          ≡ after =
        cc in
      let returned : tx.recorded ≡ recorded = cc in
      let new_is : recorded ≡ new = sym returned ∙ new_are in
      (
        rw (← grown_store) (IsConsistent-Follows session_id store.events tx f c.has_events),
        rw (← grown_store, returned) refl,
        rw new_is events_are,
        rw (new_is, ← append-nil store.events) counts,
      )
