-- ===== src/Core/EventLog/Numbering.antt =====
-- The ids of a log: they count up from 1, so that a reader can resume after any of them.
use piqo_server.Prelude.{
  ℕ, ◌+◌, ◌-◌, ◌<◌, String, ◌≡◌, refl, sym, ap, ◌∙◌, none, some, List, [], ◌∷◌, ◌++◌, length,
  length-append, last, arith,
}
use piqo_server.Core.Event.{EventId, SemanticEvent}
use piqo_server.Core.EventLog.{
  RecordedEvent, EventLog, u64_mod, next_id, id_of, last_id, append, append_for_session,
}

-- the ids of `events` are `first`, `first + 1`, and so on
abbrev pub CountsFrom : {V : Type 0} → EventId → List (RecordedEvent V) → Type 0
CountsFrom first [] = Unit
CountsFrom first (e ∷ es) = (e.id ≡ first) × CountsFrom (first + 1) es

-- A log that `append` has built: ids from 1, and none of them wrapped.
abbrev pub IsNumbered : {V : Type 0} → EventLog V → Type 0
IsNumbered log = CountsFrom 1 log.events × (length log.events < u64_mod)

module _ {V : Type 0} where
  pub last-CountsFrom :
      (first : EventId) (es : List (RecordedEvent V))
      → CountsFrom first es
      → 0 < length es
      → id_of (last es) ≡ some (first + length es - 1)
  last-CountsFrom first [] c h = absurd (omega arith)
  last-CountsFrom first (e ∷ []) c h = ground arith
  last-CountsFrom first (e ∷ d ∷ es) c h = ground (arith, last-CountsFrom (first + 1) (d ∷ es) c.1)

  pub CountsFrom-append :
      (first : EventId) (es : List (RecordedEvent V)) (e : RecordedEvent V)
      → CountsFrom first es
      → e.id ≡ first + length es
      → CountsFrom first (es ++ e ∷ [])
  CountsFrom-append first [] e c h = (omega arith, tt)
  CountsFrom-append first (d ∷ es) e c h =
      (c.0, CountsFrom-append (first + 1) es e c.1 (omega arith))

  next_id-IsNumbered :
      (log : EventLog V)
      → IsNumbered log
      → length log.events + 1 < u64_mod
      → next_id (last_id log) ≡ length log.events + 1
  unfolding last_id
  next_id-IsNumbered log n h = go log.events n.0 h
    where
      go :
          (es : List (RecordedEvent V))
          → CountsFrom 1 es
          → length es + 1 < u64_mod
          → next_id (id_of (last es)) ≡ length es + 1
      go [] c k = omega arith
      go (e ∷ es) c k = rw (last-CountsFrom 1 (e ∷ es) c (omega arith)) (omega arith)

  -- A log with one more event, numbered by `next_id`, is numbered.
  push-IsNumbered :
      (log : EventLog V) (e : RecordedEvent V)
      → IsNumbered log
      → length log.events + 1 < u64_mod
      → e.id ≡ next_id (last_id log)
      → IsNumbered (record { events = log.events ++ e ∷ [] })
        × (last_id (record { events = log.events ++ e ∷ [] }) ≡ some (length log.events + 1))
  unfolding last_id
  push-IsNumbered log e n room h =
      let counts =
        CountsFrom-append 1 log.events e n.0
          (omega (arith, ap (λ (i : ℕ). i) h, next_id-IsNumbered log n room)) in
      let size = length-append log.events (e ∷ []) in
      (
        (counts, omega arith),
        last-CountsFrom 1 (log.events ++ e ∷ []) counts (omega arith) ∙ ap some (omega arith),
      )

  -- `append_for_session` on a numbered log that has room for one more id hands out the next number,
  -- puts one event with that id, the given session and the given event behind the old ones, which
  -- stay as they were, and keeps the log numbered.
  pub append_for_session-IsNumbered :
      (log : EventLog V) (session_id occurred_at : String) (event : SemanticEvent V)
      → IsNumbered log
      → length log.events + 1 < u64_mod
      → (e : RecordedEvent V) × ((append_for_session log session_id occurred_at event).0.events
          ≡ log.events ++ e ∷ [])
        × (e.id ≡ length log.events + 1)
        × (e.event ≡ event)
        × (e.session_id ≡ session_id)
        × ((append_for_session log session_id occurred_at event).1 ≡ e.id)
        × (last_id (append_for_session log session_id occurred_at event).0 ≡ some e.id)
        × IsNumbered (append_for_session log session_id occurred_at event).0
  unfolding append_for_session
  append_for_session-IsNumbered log session_id occurred_at event n room =
      let e : RecordedEvent V = record {
        id = next_id (last_id log);
        session_id = session_id;
        schema_version = 1;
        occurred_at = occurred_at;
        event = event;
        raw_data = none;
      } in
      let numbered = push-IsNumbered log e n room refl in
      let id = next_id-IsNumbered log n room in
      (e, refl, id, refl, refl, refl, numbered.1 ∙ ap some (sym id), numbered.0)

  -- `append` numbers its event in the same way, and returns the number.
  pub append-IsNumbered :
      (log : EventLog V) (event : SemanticEvent V)
      → IsNumbered log
      → length log.events + 1 < u64_mod
      → IsNumbered (append log event).0
        × ((append log event).1 ≡ length log.events + 1)
        × (last_id (append log event).0 ≡ some (length log.events + 1))
  unfolding append
  append-IsNumbered log event n room =
      let e : RecordedEvent V = record {
        id = next_id (last_id log);
        session_id = "";
        schema_version = 1;
        occurred_at = "";
        event = event;
        raw_data = none;
      } in
      let numbered = push-IsNumbered log e n room refl in
      (numbered.0, next_id-IsNumbered log n room, numbered.1)
