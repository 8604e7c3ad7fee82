-- ===== src/Core/EventLog/Branching.antt =====
-- Resuming and forking a numbered log: what a reader has and what it is sent make up the whole log.
use piqo_server.Prelude.{
  ℕ, zero, suc, ◌+◌, ◌-◌, ◌≤◌, ◌<◌, ◌≡◌, refl, ap, ◌∙◌, inl, inr, true, false, some, List, [], ◌∷◌,
  ◌++◌, length, drop, is_ok, any, arith, select, ltb, leb, ◌==◌, if◌then◌else◌, ok, Bool-cases,
}
use piqo_server.Core.Event.{EventId}
use piqo_server.Core.EventLog.{RecordedEvent, EventLog, last_id, replay_from, fork_at}
use piqo_server.Core.EventLog.Numbering.{CountsFrom, IsNumbered, last-CountsFrom}

drop_nil {ℓ} : {A : Type ℓ} (n : ℕ) → [] ≡ drop {A = A} n []
drop_nil zero = refl
drop_nil (suc n) = refl

module _ {V : Type 0} where
  abbrev upto : EventId → List (RecordedEvent V) → List (RecordedEvent V)
  upto k = select (λ e. leb e.id k)

  abbrev beyond : EventId → List (RecordedEvent V) → List (RecordedEvent V)
  beyond k = select (λ e. ltb k e.id)

  upto-below :
      (first k : EventId) (es : List (RecordedEvent V))
      → CountsFrom first es
      → k < first
      → (upto k es ≡ []) × (beyond k es ≡ es)
  upto-below first k [] c h = (refl, refl)
  upto-below first k (e ∷ es) c h = ground (arith, upto-below (first + 1) k es c.1)

  -- the two filters cut the log in two
  upto-append-beyond :
      (first k : EventId) (es : List (RecordedEvent V))
      → CountsFrom first es
      → upto k es ++ beyond k es ≡ es
  upto-append-beyond first k [] c = refl
  upto-append-beyond first k (e ∷ es) c =
      ground (arith, upto-append-beyond (first + 1) k es c.1, upto-below (first + 1) k es c.1)

  upto-CountsFrom :
      (first k : EventId) (es : List (RecordedEvent V))
      → CountsFrom first es
      → CountsFrom first (upto k es)
  upto-CountsFrom first k [] c = tt
  upto-CountsFrom first k (e ∷ es) c = elim (Bool-cases (leb e.id k)) [
    | inl keep ↦ rw keep (c.0, upto-CountsFrom (first + 1) k es c.1)
    | inr drop ↦ rw (drop, (upto-below (first + 1) k es c.1 (ground arith)).0) tt
  ]

  length-upto :
      (first k : EventId) (es : List (RecordedEvent V))
      → CountsFrom first es
      → first ≤ k
      → k < first + length es
      → length (upto k es) ≡ k + 1 - first
  length-upto first k [] c h l = absurd (omega arith)
  length-upto first k (e ∷ es) c h l =
      ground (arith, upto-below (first + 1) k es c.1, length-upto (first + 1) k es c.1)

  any-id :
      (first k : EventId) (es : List (RecordedEvent V))
      → CountsFrom first es
      → any (λ e. e.id == k) es ≡ (if leb first k then ltb k (first + length es) else false)
  any-id first k [] c = ground arith
  any-id first k (e ∷ es) c = ground (arith, any-id (first + 1) k es c.1)

  beyond-eq-drop :
      (first k : EventId) (es : List (RecordedEvent V))
      → CountsFrom first es
      → beyond k es ≡ drop (k + 1 - first) es
  beyond-eq-drop first k [] c = drop_nil (k + 1 - first)
  beyond-eq-drop first k (e ∷ es) c = elim (Bool-cases (ltb k e.id)) [
    | inl new ↦
        let none_dropped : k + 1 - first ≡ 0 = ground arith in
        let later = (upto-below (first + 1) k es c.1 (ground arith)).1 in
        rw (new, none_dropped) (ap (λ (r : List (RecordedEvent V)). e ∷ r) later)
    | inr old ↦
        let one_dropped : k + 1 - first ≡ suc (k + 1 - (first + 1)) = ground arith in
        rw (old, one_dropped) (beyond-eq-drop (first + 1) k es c.1)
  ]

  -- A reader that has seen the events up to `after` is sent exactly the events behind its place, in
  -- their order: none is lost and none comes twice.
  pub replay_from-eq-drop :
      (log : EventLog V) (after : EventId)
      → IsNumbered log
      → replay_from log after ≡ drop after log.events
  unfolding replay_from
  replay_from-eq-drop log after n =
      beyond-eq-drop 1 after log.events n.0 ∙ ap (λ (k : ℕ). drop k log.events) (omega arith)

  -- A numbered log forks exactly at the ids from 1 to its length.
  pub fork_at-is_ok :
      (log : EventLog V) (event_id : EventId)
      → IsNumbered log
      → is_ok (fork_at log event_id)
        ≡ (if leb 1 event_id then leb event_id (length log.events) else false)
  unfolding fork_at
  fork_at-is_ok log k n = ground (arith, any-id 1 k log.events n.0)

  fork_at-eq-ok :
      (log : EventLog V) (event_id : EventId) {branch : EventLog V}
      → fork_at log event_id ≡ ok branch
      → (any (λ e. e.id == event_id) log.events ≡ true) × (branch.events ≡ upto event_id log.events)
  unfolding fork_at
  fork_at-eq-ok log k h = ground arith

  -- A branch is a numbered log that ends at the fork, and the branch followed by what a reader at the
  -- fork would be sent is the whole log.
  pub fork_at-append-replay_from :
      (log branch : EventLog V) (event_id : EventId)
      → IsNumbered log
      → fork_at log event_id ≡ ok branch
      → IsNumbered branch
        × (last_id branch ≡ some event_id)
        × (branch.events ++ replay_from log event_id ≡ log.events)
  unfolding last_id replay_from
  fork_at-append-replay_from log branch k n h =
      let (hit, cut) = fork_at-eq-ok log k h in
      let inside = any-id 1 k log.events n.0 in
      let low : 1 ≤ k = ground arith in
      let high : k < 1 + length log.events = ground arith in
      let size = length-upto 1 k log.events n.0 low high in
      let counts = upto-CountsFrom 1 k log.events n.0 in
      (
        (rw cut counts, rw cut (omega arith)),
        rw cut (last-CountsFrom 1 (upto k log.events) counts (omega arith) ∙ ap some (omega arith)),
        rw cut (upto-append-beyond 1 k log.events n.0),
      )
