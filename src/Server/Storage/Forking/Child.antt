-- ===== src/Server/Storage/Forking/Child.antt =====
-- A forked session is consistent, and begins with its parent's events.
use mathlib.Core.List.{append-nil, map-append}
use piqo_server.Prelude.{
  ◌+◌, String, false, Option, select, leb, ◌∷◌, arith, ◌≡◌, refl, sym, ap, ◌∙◌, Option-cases,
  Bool-cases, inl, inr, none, some, List, [], ◌++◌, map, length, last, is_empty, ltb, ok, >>=-eq-ok,
}
use piqo_server.Core.Json.{Json}
use piqo_server.Core.Event.{EventId, SemanticEvent, session_forked, run_interrupted, queue_paused}
use piqo_server.Core.Projection.Queue.{active_run}
use piqo_server.Core.EventLog.{RecordedEvent, id_of}
use piqo_server.Core.EventLog.Numbering.{last-CountsFrom}
use piqo_server.Core.Projection.{SessionProjection, RunProjection}
use piqo_server.Core.Projection.Apply
use piqo_server.Core.Projection.Apply.Renaming.{rename}
use piqo_server.Server.Storage.{SessionStore, Transaction, i64_max, row_of, replay, project}
use piqo_server.Server.Storage.Consistency.{IsConsistent}
use piqo_server.Server.Storage.Forking.{
  rows_until, copied, ends_at, branch_events, append_branch, parent_state, fork_rows, fork_session,
}
use piqo_server.Server.Storage.Forking.Copied.{
  length-copied, copied-events, not_over, not_empty, has_length, at_length, copied-not_empty,
  replay-eq-ok,
}
use piqo_server.Server.Storage.Forking.Branch.{append_branch-Agrees}

module _ {V : Type 0} where
  -- the events up to the one with that id
  abbrev pub upto : EventId → List (RecordedEvent V) → List (RecordedEvent V)
  upto at_event_id = select (λ e. leb e.id at_event_id)

  -- what a fork says after them, with the run that was active
  abbrev pub cut_off : String → EventId → Option (RunProjection V) → List (SemanticEvent V)
  cut_off parent_session_id at_event_id none =
      session_forked parent_session_id at_event_id ∷ queue_paused ∷ []
  cut_off parent_session_id at_event_id (some run) =
      session_forked parent_session_id at_event_id
      ∷ run_interrupted run.run_id "forked_branch"
      ∷ queue_paused
      ∷ []

  branch_events-cut_off :
      (parent_session_id : String) (at_event_id : EventId) (p : SessionProjection V)
      → branch_events parent_session_id at_event_id p
        ≡ cut_off parent_session_id at_event_id (active_run p)
  unfolding branch_events
  branch_events-cut_off parent_session_id at_event_id p = ground arith

module _ {V : Type 0} ⦃j : Json V⦄ (parent id : String) where
  -- the prefix ends at its length, and is what the parent's state comes from
  parent_state-eq-ok :
      (at_event_id : EventId) (rows : List (RecordedEvent V)) {p : SessionProjection V}
      → parent_state parent at_event_id rows ≡ ok p
      → (project parent rows ≡ ok p)
        × (replay parent 1 (Apply.new parent) rows ≡ ok p)
        × (is_empty rows ≡ false)
        × (at_event_id ≡ length rows)
  unfolding parent_state project
  parent_state-eq-ok at_event_id rows {p = p} h =
      elim (Bool-cases (ends_at at_event_id (id_of (last rows)))) [
        | inr other ↦ absurd (cc (rw other at h))
        | inl ends ↦
            let found = rw ends at h in
            let (state, replays, rest) =
              >>=-eq-ok (replay parent 1 (Apply.new parent) rows) _ found in
            let is_p = not_over (is_empty rows) _ _ rest in
            let state_is : state ≡ p = cc in
            let some_rows = not_empty (is_empty rows) _ _ rest in
            let (counts, renamed) = replay-eq-ok parent id 1 (Apply.new parent) rows replays in
            let last_is = last-CountsFrom 1 rows counts (has_length rows some_rows) in
            (
              found,
              rw (← state_is) replays,
              some_rows,
              at_length at_event_id rows (rw last_is at ends),
            )
      ]

  -- what a fork of the rows leaves
  fork_rows-IsConsistent :
      (at_event_id : EventId) (created_at : String) (rows : List (RecordedEvent V))
      {child : SessionStore V}
      → fork_rows parent id at_event_id created_at rows ≡ ok child
      → IsConsistent id child
        × ((p : SessionProjection V) × (project parent rows ≡ ok p)
            × (map (λ e. e.event) child.events
                ≡ map (λ e. e.event) rows ++ branch_events parent at_event_id p))
  unfolding fork_rows branch_events Apply.new
  fork_rows-IsConsistent at_event_id created_at rows {child = child} h =
      let (p, found, rest) = >>=-eq-ok (parent_state parent at_event_id rows) _ h in
      let (projects, replays, some_rows, at_is) = parent_state-eq-ok at_event_id rows found in
      let done = not_over (ltb i64_max p.state.revision) _ _ rest in
      let start : Transaction V = record {
        row = some (row_of p at_event_id);
        state = p;
        recorded = [];
      } in
      let stored = copied id rows in
      let (tx, branched, same) =
        >>=-eq-ok
          (append_branch id created_at (at_event_id + 1) (branch_events parent at_event_id p) start)
          _ done in
      let size : length (stored ++ []) ≡ at_event_id =
        rw (append-nil stored, length-copied id rows) (sym at_is) in
      let (counts, renamed) = replay-eq-ok parent id 1 (Apply.new parent) rows replays in
      let (agrees, (new, recorded, events_are)) =
        append_branch-Agrees id created_at _ _ stored start {after = tx}
          (rw (append-nil stored) renamed) (rw size branched) in
      let child_is : (record { row = tx.row; events = stored ++ tx.recorded; cached = none })
          ≡ child =
        cc in
      let consistent : IsConsistent id
          (record { row = tx.row; events = stored ++ tx.recorded; cached = none }) =
        record {
          state = rename id tx.state;
          replays = agrees.replays;
          has_events = copied-not_empty id rows tx.recorded some_rows;
          row_agrees = agrees.row_agrees;
          last_agrees = agrees.last_agrees;
          cache_agrees = inl refl;
        } in
      (
        rw (← child_is) consistent,
        (
          p,
          projects,
          rw (← child_is, recorded)
              (map-append (λ (e : RecordedEvent V). e.event) stored new
                ∙ ap (λ (l : List (SemanticEvent V)). l ++ map (λ e. e.event) new)
                    (copied-events id rows)
                ∙ ap (λ (l : List (SemanticEvent V)). map (λ e. e.event) rows ++ l) events_are),
        ),
      )

-- A session that was forked is consistent: its log replays, and its row agrees with it. Its events are
-- those of its parent up to the event, then that it was forked, that the run that was active there was
-- interrupted, if one was, and that its queue is paused.
pub fork_session-IsConsistent :
    {V : Type 0} ⦃j : Json V⦄ (parent_session_id id created_at : String) (at_event_id : EventId)
    (parent : SessionStore V) {child : SessionStore V}
    → fork_session parent_session_id at_event_id id created_at parent ≡ ok child
    → IsConsistent id child
      × ((p : SessionProjection V) × (project parent_session_id (upto at_event_id parent.events)
            ≡ ok p)
          × (map (λ e. e.event) child.events
              ≡ map (λ e. e.event) (upto at_event_id parent.events)
                ++ cut_off parent_session_id at_event_id (active_run p)))
unfolding fork_session rows_until
fork_session-IsConsistent parent_session_id id created_at at_event_id parent {child = child} h =
    elim (Option-cases parent.row) [
      | inl absent ↦ absurd (cc (rw absent at h))
      | inr (row, present) ↦
          let there = rw present at h in
          let (consistent, (p, projects, events_are)) =
            fork_rows-IsConsistent parent_session_id id at_event_id created_at
              (upto at_event_id parent.events) {child = child}
              (not_over (ltb i64_max at_event_id) _ _ there) in
          (
            consistent,
            (p, projects, rw (branch_events-cut_off parent_session_id at_event_id p) at events_are),
          )
    ]
