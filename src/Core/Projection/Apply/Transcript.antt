-- ===== src/Core/Projection/Apply/Transcript.antt =====
-- What one event, and a whole history, does to the messages of a session.
use piqo_server.Prelude.{◌≡◌, refl, List, Result, ok, err, arith}
use piqo_server.Core.Json.{Json}
use piqo_server.Core.Errors.{ProjectionError}
use piqo_server.Core.Event.{
  EventId, SemanticEvent, message_started, message_content_appended, message_completed,
  message_interrupted,
}
use piqo_server.Core.SessionState
use piqo_server.Core.SessionState.{Outcome}
use piqo_server.Core.Projection.{SessionProjection, MessageProjection}
use piqo_server.Core.Projection.Messages.{
  start_message, append_content, complete_message, interrupt_message,
}
use piqo_server.Core.Projection.Messages.Growth.{
  Grows, Grows-refl, Grows-trans, start_message-Grows, append_content-Grows, complete_message-Grows,
  interrupt_message-Grows,
}
use piqo_server.Core.Projection.Apply.{put_messages, project_event, after_state, apply}
use piqo_server.Core.Projection.Apply.Histories.{Later, now, then}

module _ {V : Type 0} where
  still : (ms ns : List (MessageProjection V)) → ns ≡ ms → Grows ms ns
  still ms ns e = rw e (Grows-refl ms)

  put_messages-Grows :
      (p : SessionProjection V) (r : Result ProjectionError (List (MessageProjection V)))
      → ((ns : List (MessageProjection V)) → r ≡ ok ns → Grows p.messages ns)
      → Grows p.messages (put_messages p r).0.messages
  unfolding put_messages
  put_messages-Grows p (ok ns) grow = grow ns refl
  put_messages-Grows p (err e) grow = Grows-refl p.messages

module _ {V : Type 0} ⦃j : Json V⦄ where
  project_event-Grows :
      (p : SessionProjection V) (event_id : EventId) (event : SemanticEvent V)
      → Grows p.messages (project_event p event_id event).0.messages
  unfolding project_event
  project_event-Grows p n (message_started id agent_id role author) =
      put_messages-Grows p (start_message n id agent_id role author p.messages)
        (λ ns h. start_message-Grows n id agent_id role author p.messages h)
  project_event-Grows p n (message_content_appended id block) =
      put_messages-Grows p (append_content n id block p.messages)
        (λ ns h. append_content-Grows n id block p.messages h)
  project_event-Grows p n (message_completed id) =
      put_messages-Grows p (complete_message n id p.messages)
        (λ ns h. complete_message-Grows n id p.messages h)
  project_event-Grows p n (message_interrupted id) =
      put_messages-Grows p (interrupt_message n id p.messages)
        (λ ns h. interrupt_message-Grows n id p.messages h)
  project_event-Grows p n event =
      still p.messages (project_event p n event).0.messages (ground arith)

  apply-Grows :
      (p : SessionProjection V) (event_id : EventId) (event : SemanticEvent V)
      → Grows p.messages (apply p event_id event).0.messages
  unfolding apply
  apply-Grows p event_id event = go (SessionState.apply p.state event_id event)
    where
      go :
          (s : SessionState.SessionState × Outcome ProjectionError)
          → Grows p.messages (after_state p event_id event s).0.messages
      go (state, ok tt) = project_event-Grows (record p { state = state }) event_id event
      go (state, err e) = Grows-refl p.messages

  -- However a history goes on, no message is lost or moved: each stays at its place with its id, role,
  -- author and first event, its content is only appended to, and a completed or interrupted message
  -- does not change at all.
  pub Later-Grows : {p q : SessionProjection V} → Later p q → Grows p.messages q.messages
  Later-Grows {p = p} now = Grows-refl p.messages
  Later-Grows {p = p} (then {q = q} l event_id event) =
      Grows-trans p.messages q.messages (apply q event_id event).0.messages (Later-Grows l)
        (apply-Grows q event_id event)
