-- ===== src/Server/Storage/Forking/Copied.antt =====
-- The events of a parent that a forked session begins with, and what they replay to there.
use piqo_server.Prelude.{
  ℕ, ◌+◌, String, Bool, true, false, not, ◌||◌, ◌≡◌, refl, ap, Bool-cases, inl, inr, some, List, [],
  ◌∷◌, ◌++◌, map, length, is_empty, ◌==◌, if◌then◌else◌, Result, ok, err, >>=-eq-ok, arith, ◌<◌,
  ◌-◌,
}
use piqo_server.Core.Json.{Json}
use piqo_server.Core.Event.{EventId, SemanticEvent}
use piqo_server.Core.EventLog.{RecordedEvent}
use piqo_server.Core.EventLog.Numbering.{CountsFrom}
use piqo_server.Core.Projection.{SessionProjection}
use piqo_server.Core.Projection.Apply
use piqo_server.Core.Projection.Apply.Renaming.{rename, apply-rename}
use piqo_server.Server.Storage.{event_schema_version, replay, applied}
use piqo_server.Server.Storage.Advancing.{applied-eq-ok}
use piqo_server.Server.Storage.Forking.{copied, ends_at}

same_id : (a b : ℕ) (version : Bool) → (not (a == b) || version) ≡ false → a ≡ b
same_id a b version h = ground arith

module _ {V : Type 0} where
  pub length-copied :
      (id : String) (rows : List (RecordedEvent V)) → length (copied id rows) ≡ length rows
  unfolding copied
  length-copied id [] = refl
  length-copied id (e ∷ rows) = omega (arith, length-copied id rows)

  pub copied-events :
      (id : String) (rows : List (RecordedEvent V))
      → map (λ e. e.event) (copied id rows) ≡ map (λ e. e.event) rows
  unfolding copied
  copied-events id [] = refl
  copied-events id (e ∷ rows) =
      ap (λ (l : List (SemanticEvent V)). e.event ∷ l) (copied-events id rows)

pub not_over :
    {E : Type 0} {A : Type 0} (over : Bool) (e : E) (r : Result E A) {a : A}
    → (if over then err e else r) ≡ ok a
    → r ≡ ok a
not_over true e r h = absurd (cc)
not_over false e r h = h

pub not_empty :
    {E : Type 0} {A : Type 0} (over : Bool) (e : E) (r : Result E A) {a : A}
    → (if over then err e else r) ≡ ok a
    → over ≡ false
not_empty true e r h = absurd (cc)
not_empty false e r h = refl

module _ {V : Type 0} where
  pub has_length : (rows : List (RecordedEvent V)) → is_empty rows ≡ false → 0 < length rows
  has_length [] h = absurd (cc)
  has_length (e ∷ rows) h = omega arith

  pub at_length :
      (at_event_id : EventId) (rows : List (RecordedEvent V))
      → ends_at at_event_id (some (1 + length rows - 1)) ≡ true
      → at_event_id ≡ length rows
  at_length at_event_id rows h = ground arith

  pub copied-not_empty :
      (id : String) (rows : List (RecordedEvent V)) (more : List (RecordedEvent V))
      → is_empty rows ≡ false
      → is_empty (copied id rows ++ more) ≡ false
  unfolding copied
  copied-not_empty id [] more h = absurd (cc)
  copied-not_empty id (e ∷ rows) more h = refl

module _ {V : Type 0} ⦃j : Json V⦄ (parent id : String) where
  -- a log that replays is numbered, and replays under another id
  pub replay-eq-ok :
      (first : EventId) (p : SessionProjection V) (rows : List (RecordedEvent V))
      {q : SessionProjection V}
      → replay parent first p rows ≡ ok q
      → CountsFrom first rows × (replay id first (rename id p) (copied id rows) ≡ ok (rename id q))
  unfolding replay copied applied
  replay-eq-ok first p [] {q = q} h = let same : p ≡ q = cc in (tt, rw same refl)
  replay-eq-ok first p (e ∷ rows) {q = q} h =
      elim (Bool-cases (not (e.id == first) || not (e.schema_version == event_schema_version))) [
        | inl bad ↦ absurd (cc (rw bad at h))
        | inr good ↦
            let (state, accepted, rest) =
              >>=-eq-ok (applied (Apply.apply p e.id e.event)) _ (rw good at h) in
            let (counts, replays) = replay-eq-ok (first + 1) state rows rest in
            let renamed = apply-rename id p e.id e.event (applied-eq-ok _ accepted) in
            ((same_id e.id first _ good, counts), rw (good, renamed) replays)
      ]
