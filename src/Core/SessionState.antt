-- ===== src/Core/SessionState.antt =====
-- piqo-core/src/session.rs: `SessionState` and its phase transitions. A method that takes `&mut self`
-- returns the state that it leaves behind beside its result.
pub mod Transitions
use piqo_server.Prelude.{
  ℕ, ◌+◌, ◌%◌, String, Bool, true, false, not, ◌||◌, Option, none, some, List, [], ◌∷◌, any,
  is_some, ite, ◌==◌, if◌then◌else◌, Result, ok, err,
}
use piqo_server.Core.Phases.{SessionPhase, created, running, interrupted, finished, failed}
use piqo_server.Core.Errors.{
  SessionTransitionError, ProjectionError, duplicate_creation, invalid_transition,
}
use piqo_server.Core.Event.{
  EventId, SemanticEvent, session_created, session_phase_changed, session_interrupted,
  session_forked,
}
use piqo_server.Core.EventLog.{u64_mod}

pub record SessionState : Type 0 where
  pub session_id : String
  pub phase : SessionPhase
  pub revision : ℕ
  pub last_event_id : Option EventId

unfoldable pub new : String → SessionState
new id = record { session_id = id; phase = created; revision = 0; last_event_id = none }

-- `==` of the derived `PartialEq`
abbrev pub same_phase : SessionPhase → SessionPhase → Bool
same_phase created created = true
same_phase running running = true
same_phase interrupted interrupted = true
same_phase finished finished = true
same_phase failed failed = true
same_phase _ _ = false

-- `self.revision += 1` on a u64
unfoldable pub move_to : SessionState → SessionPhase → SessionState
move_to s next = record s { phase = next; revision = (s.revision + 1) % u64_mod }

abbrev pub Outcome : Type 0 → Type 0
Outcome E = Result E Unit

unfoldable pub transition :
    SessionState → SessionPhase → List SessionPhase → SessionState × Outcome SessionTransitionError
unfolding move_to
transition s next allowed_from =
    if not (any (λ p. same_phase p s.phase) allowed_from)
    then (s, err (record { from_phase = s.phase; to_phase = next }))
    else (move_to s next, ok tt)

unfoldable pub start : SessionState → SessionState × Outcome SessionTransitionError
unfolding transition
start s = transition s running (created ∷ finished ∷ interrupted ∷ failed ∷ [])

unfoldable pub finish : SessionState → SessionState × Outcome SessionTransitionError
unfolding transition
finish s = transition s finished (running ∷ [])

unfoldable pub interrupt : SessionState → SessionState × Outcome SessionTransitionError
unfolding transition
interrupt s = transition s interrupted (running ∷ [])

unfoldable pub resume : SessionState → SessionState × Outcome SessionTransitionError
unfolding start
resume s = start s

unfoldable pub fail : SessionState → SessionState × Outcome SessionTransitionError
unfolding transition
fail s = transition s failed (created ∷ running ∷ interrupted ∷ [])

unfoldable pub allowed_sources : SessionPhase → List SessionPhase
allowed_sources created = []
allowed_sources running = created ∷ finished ∷ interrupted ∷ failed ∷ []
allowed_sources interrupted = running ∷ []
allowed_sources finished = running ∷ []
allowed_sources failed = created ∷ running ∷ interrupted ∷ []

-- `?` converts a `SessionTransitionError`
lift_error : SessionState × Outcome SessionTransitionError → SessionState × Outcome ProjectionError
lift_error (s, ok tt) = (s, ok tt)
lift_error (s, err e) = (s, err (invalid_transition e))

-- the `match` of `SessionState::apply`
change_phase :
    {V : Type 0} → SessionState → SemanticEvent V → SessionState × Outcome ProjectionError
unfolding lift_error transition interrupt allowed_sources move_to
change_phase s (session_created title) =
    if not (s.revision == 0) || is_some s.last_event_id
    then (s, err duplicate_creation)
    else (s, ok tt)
change_phase s (session_phase_changed from_phase to_phase reason) =
    if not (same_phase s.phase from_phase)
    then (s, err (invalid_transition (record { from_phase = s.phase; to_phase = to_phase })))
    else lift_error (transition s to_phase (allowed_sources to_phase))
change_phase s (session_interrupted reason) = lift_error (interrupt s)
change_phase s (session_forked parent_session_id at_event_id) = (move_to s interrupted, ok tt)
change_phase s _ = (s, ok tt)

-- `self.last_event_id = Some(event_id)`, which an early return skips
record_event :
    EventId → SessionState × Outcome ProjectionError → SessionState × Outcome ProjectionError
record_event event_id (s, ok tt) = (record s { last_event_id = some event_id }, ok tt)
record_event event_id (s, err e) = (s, err e)

unfoldable pub apply :
    {V : Type 0} → SessionState → EventId → SemanticEvent V → SessionState × Outcome ProjectionError
unfolding change_phase record_event
apply s event_id event = record_event event_id (change_phase s event)
