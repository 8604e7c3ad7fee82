-- ===== src/Server/Storage/Forking/Branch.antt =====
-- The events that a fork appends to what it copied.
use mathlib.Core.List.{append_assoc}
use piqo_server.Prelude.{
  ◌+◌, String, ◌||◌, ◌≡◌, refl, sym, ap, ◌∙◌, some, List, [], ◌∷◌, ◌++◌, map, length, length-append,
  ltb, ok, >>=-eq-ok, arith,
}
use piqo_server.Core.Json.{Json}
use piqo_server.Core.Event.{EventId, SemanticEvent}
use piqo_server.Core.EventLog.{RecordedEvent}
use piqo_server.Core.Projection.{SessionProjection}
use piqo_server.Core.Projection.Apply
use piqo_server.Core.Projection.Apply.Phase.{apply-last_event_id}
use piqo_server.Core.Projection.Apply.Renaming.{rename, apply-rename}
use piqo_server.Server.Storage.{Transaction, i64_max, row_of, row_event, replay, applied}
use piqo_server.Server.Storage.Advancing.{applied-eq-ok}
use piqo_server.Server.Storage.Replay.{replay-append}
use piqo_server.Server.Storage.Forking.{append_branch}
use piqo_server.Server.Storage.Forking.Copied.{not_over}

module _ {V : Type 0} ⦃j : Json V⦄ (id : String) where
  -- the branch so far: its log replays, and its row and its last event are those of its log
  pub record Agrees (stored : List (RecordedEvent V)) (tx : Transaction V) : Type 0 where
    pub replays : replay id 1 (Apply.new id) (stored ++ tx.recorded) ≡ ok (rename id tx.state)
    pub row_agrees : tx.row ≡ some (row_of tx.state (length (stored ++ tx.recorded)))
    pub last_agrees : tx.state.state.last_event_id ≡ some (length (stored ++ tx.recorded))

  abbrev grown :
      String → EventId → SemanticEvent V → SessionProjection V → Transaction V → Transaction V
  grown created_at next_id event state tx = record {
    row = some (row_of state next_id);
    state = state;
    recorded = tx.recorded ++ row_event id next_id created_at event ∷ [];
  }

  grown-Agrees :
      (created_at : String) (event : SemanticEvent V) (stored : List (RecordedEvent V))
      (tx : Transaction V) (state : SessionProjection V)
      → replay id 1 (Apply.new id) (stored ++ tx.recorded) ≡ ok (rename id tx.state)
      → applied (Apply.apply tx.state (length (stored ++ tx.recorded) + 1) event) ≡ ok state
      → Agrees stored (grown created_at (length (stored ++ tx.recorded) + 1) event state tx)
  unfolding applied
  grown-Agrees created_at event stored tx state replays accepted =
      let log = stored ++ tx.recorded in
      let e = row_event id (length log + 1) created_at event in
      let split : stored ++ (tx.recorded ++ e ∷ []) ≡ log ++ e ∷ [] =
        sym (append_assoc stored tx.recorded (e ∷ [])) in
      let size : length (log ++ e ∷ []) ≡ length log + 1 =
        omega (arith, length-append log (e ∷ [])) in
      let done = applied-eq-ok (Apply.apply tx.state (length log + 1) event) accepted in
      let last_is = apply-last_event_id tx.state (length log + 1) event (rw done refl) in
      record {
        replays =
            rw
              (
                split,
                replay-append id 1 (Apply.new id) log e (omega arith) refl,
                replays,
                apply-rename id tx.state (length log + 1) event done,
              )
              refl;
        row_agrees = rw (split, size) refl;
        last_agrees = rw (split, size) (rw done at last_is);
      }

  pub append_branch-Agrees :
      (created_at : String) (event : SemanticEvent V) (events : List (SemanticEvent V))
      (stored : List (RecordedEvent V)) (tx : Transaction V) {after : Transaction V}
      → replay id 1 (Apply.new id) (stored ++ tx.recorded) ≡ ok (rename id tx.state)
      → append_branch id created_at (length (stored ++ tx.recorded) + 1) (event ∷ events) tx
        ≡ ok after
      → Agrees stored after
        × ((new : List (RecordedEvent V)) × (after.recorded ≡ tx.recorded ++ new)
            × (map (λ e. e.event) new ≡ event ∷ events))
  unfolding append_branch
  append_branch-Agrees created_at event [] stored tx {after = after} replays h =
      let n = length (stored ++ tx.recorded) + 1 in
      let (state, accepted, rest) = >>=-eq-ok (applied (Apply.apply tx.state n event)) _ h in
      let done = not_over (ltb i64_max state.state.revision || ltb i64_max n) _ _ rest in
      let same : grown created_at n event state tx ≡ after = cc in
      rw (← same) (
        grown-Agrees created_at event stored tx state replays accepted,
        (row_event id n created_at event ∷ [], refl, refl),
      )
  append_branch-Agrees created_at event (event' ∷ events) stored tx {after = after} replays h =
      let n = length (stored ++ tx.recorded) + 1 in
      let e = row_event id n created_at event in
      let (state, accepted, rest) = >>=-eq-ok (applied (Apply.apply tx.state n event)) _ h in
      let done = not_over (ltb i64_max state.state.revision || ltb i64_max n) _ _ rest in
      let next = grown created_at n event state tx in
      let agrees = grown-Agrees created_at event stored tx state replays accepted in
      let size : length (stored ++ next.recorded) ≡ n =
        rw (← append_assoc stored tx.recorded (e ∷ []))
          (omega (arith, length-append (stored ++ tx.recorded) (e ∷ []))) in
      let (final, (new, recorded, events_are)) =
        append_branch-Agrees created_at event' events stored next {after = after} agrees.replays
          (rw size done) in
      (
        final,
        (
          e ∷ new,
          recorded ∙ append_assoc tx.recorded (e ∷ []) new,
          ap (λ (l : List (SemanticEvent V)). event ∷ l) events_are,
        ),
      )
