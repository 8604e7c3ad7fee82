-- ===== src/Core/SessionState/Transitions.antt =====
-- The phases of a session: which moves `SessionState` admits, and what a refused event leaves.
use piqo_server.Prelude.{String, Option, true, ◌≡◌, refl, some, ok, err, arith}
use piqo_server.Core.Phases.{SessionPhase, created, running, interrupted, finished, failed}
use piqo_server.Core.Event.{
  EventId, SemanticEvent, session_created, session_phase_changed, session_interrupted,
  session_forked,
}
use piqo_server.Core.Errors.{ProjectionError}
use piqo_server.Core.SessionState.{SessionState, same_phase, apply}

-- The phase diagram of a session, without forks.
infix 40 ◌⟶◌
pub data ◌⟶◌ : SessionPhase → SessionPhase → Type 0 where
  begin : created ⟶ running
  reopen : finished ⟶ running
  continue_ : interrupted ⟶ running
  recover : failed ⟶ running
  complete : running ⟶ finished
  stop : running ⟶ interrupted
  reject : created ⟶ failed
  break : running ⟶ failed
  abandon : interrupted ⟶ failed

ruleset edges = (begin, reopen, continue_, recover, complete, stop, reject, break, abandon)

-- What an accepted event does to the phase: a change of phase goes along an edge from the phase that it
-- names to the one that it names, an interruption from running to interrupted, a fork interrupts the
-- session whatever its phase, and any other event leaves the phase.
abbrev pub Move : {V : Type 0} → SemanticEvent V → SessionPhase → SessionPhase → Type 0
Move (session_phase_changed from_phase to_phase reason) s t =
    (s ≡ from_phase) × (t ≡ to_phase) × (from_phase ⟶ to_phase)
Move (session_interrupted reason) s t = (s ≡ running) × (t ≡ interrupted)
Move (session_forked parent_session_id at_event_id) s t = t ≡ interrupted
Move _ s t = s ≡ t

-- An event that `SessionState::apply` refuses leaves every field of the state as it was.
pub apply_refused :
    {V : Type 0} (s : SessionState) (event_id : EventId) (event : SemanticEvent V)
    {e : ProjectionError}
    → (apply s event_id event).1 ≡ err e
    → (apply s event_id event).0 ≡ s
unfolding apply
apply_refused s id (session_created t) h = ground arith
apply_refused s id _ h = ground arith

same_phase-eq : (s t : SessionPhase) → same_phase s t ≡ true → s ≡ t
same_phase-eq s t h = ground arith

changed-Move :
    (V : Type 0) (s : SessionState) (event_id : EventId) (from_phase to_phase : SessionPhase)
    (reason : Option String)
    → (apply {V = V} s event_id (session_phase_changed from_phase to_phase reason)).1 ≡ ok tt
    → (s.phase ≡ from_phase)
      × ((apply {V = V} s event_id (session_phase_changed from_phase to_phase reason)).0.phase
          ≡ to_phase)
      × (s.phase ⟶ to_phase)
unfolding apply
changed-Move V s id from_phase to_phase reason h =
    (ground arith, ground arith, grind (arith, edges))

apply-phase :
    {V : Type 0} (s : SessionState) (event_id : EventId) (event : SemanticEvent V)
    → (apply s event_id event).1 ≡ ok tt
    → Move event s.phase (apply s event_id event).0.phase
unfolding apply
apply-phase s id (session_created t) h = ground arith
apply-phase {V = V} s id (session_phase_changed from_phase to_phase reason) h =
    let (is_from, is_to, edge) = changed-Move V s id from_phase to_phase reason h in
    (is_from, is_to, rw (← is_from) edge)
apply-phase s id (session_interrupted reason) h = ground arith
apply-phase s id _ h = refl

-- An event that `SessionState::apply` accepts becomes the last event and leaves the session's id. A
-- change of phase goes along an edge of the diagram from the phase that it names, which was the session's,
-- to the one that it names, an interruption from running to interrupted, a fork to interrupted, and any
-- other event leaves the phase.
pub apply-Move :
    {V : Type 0} (s : SessionState) (event_id : EventId) (event : SemanticEvent V)
    → (apply s event_id event).1 ≡ ok tt
    → ((apply s event_id event).0.last_event_id ≡ some event_id)
      × ((apply s event_id event).0.session_id ≡ s.session_id)
      × Move event s.phase (apply s event_id event).0.phase
unfolding apply
apply-Move {V = V} s id (session_created t) h =
    (ground arith, ground arith, apply-phase {V = V} s id (session_created t) h)
apply-Move {V = V} s id event h = (ground arith, ground arith, apply-phase {V = V} s id event h)
