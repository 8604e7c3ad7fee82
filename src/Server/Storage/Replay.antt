-- ===== src/Server/Storage/Replay.antt =====
-- Replaying a log that another event is appended to.
use piqo_server.Prelude.{
  ◌+◌, String, not, ◌||◌, ◌≡◌, ◌∙◌, refl, List, [], ◌∷◌, ◌++◌, length, ◌==◌, Bool-cases, inl, inr,
  ◌>>=◌, >>=-ok, >>=-assoc, >>=-ap, arith,
}
use piqo_server.Core.Json.{Json}
use piqo_server.Core.Event.{EventId}
use piqo_server.Core.EventLog.{RecordedEvent}
use piqo_server.Core.Projection.{SessionProjection}
use piqo_server.Core.Projection.Apply
use piqo_server.Server.Storage.{event_schema_version, applied, replay}

module _ {V : Type 0} ⦃j : Json V⦄ (session_id : String) where
  replay-one :
      (first : EventId) (state : SessionProjection V) (event : RecordedEvent V)
      → event.id ≡ first
      → event.schema_version ≡ event_schema_version
      → replay session_id first state (event ∷ [])
        ≡ applied (Apply.apply state event.id event.event)
  unfolding replay
  replay-one first state event e v =
      ground (arith, >>=-ok (applied (Apply.apply state event.id event.event)))

  -- Replaying a log and one more event, whose id is the next one, applies the event to what the
  -- log replays to.
  pub replay-append :
      (first : EventId) (state : SessionProjection V) (events : List (RecordedEvent V))
      (event : RecordedEvent V)
      → event.id ≡ first + length events
      → event.schema_version ≡ event_schema_version
      → replay session_id first state (events ++ event ∷ []) ≡ (
          replay session_id first state events >>= λ state'.
          applied (Apply.apply state' event.id event.event))
  unfolding replay
  replay-append first state [] event e v = replay-one first state event (omega arith) v
  replay-append first state (d ∷ events) event e v =
      elim (Bool-cases (not (d.id == first) || not (d.schema_version == event_schema_version))) [
        | inl bad ↦ rw bad refl
        | inr good ↦ rw good (
            >>=-ap (applied (Apply.apply state d.id d.event)) _ _
              (λ state'. replay-append (first + 1) state' events event (omega arith) v)
            ∙ >>=-assoc (applied (Apply.apply state d.id d.event)) _ _)
      ]
