-- ===== src/Server/Admission.antt =====
-- piqo-server/src/supervisor.rs: `AdmissionController`, the counts of pending runs that bound the queue.
-- The semaphore of active runs and the lock around the state are a library's; each method runs under the
-- lock, so it is one step.
pub mod Balance
use piqo_server.Prelude.{
  ℕ, ◌+◌, ◌-◌, String, Bool, true, false, ◌||◌, Option, none, some, [], leb, ◌==◌, unwrap_or,
  if◌then◌else◌, Result, ok, err,
}
use piqo_server.Prelude.Map.{Map, get, insert, remove}

pub record AdmissionState : Type 0 where
  pub pending : ℕ
  pub sessions : Map ℕ
  pub run_sessions : Map String

-- of `ResourceLimits`, what admission reads
pub record Limits : Type 0 where
  pub max_pending_runs : ℕ
  pub max_pending_runs_per_session : ℕ

pub data AdmissionError : Type 0 where
  run_capacity_exceeded : AdmissionError

-- `AdmissionState::default()`
unfoldable pub new : AdmissionState
new = record { pending = 0; sessions = []; run_sessions = [] }

abbrev pub session_pending : AdmissionState → String → ℕ
session_pending state session_id = unwrap_or (get session_id state.sessions) 0

-- the state once a run holds its place
abbrev pub placed : AdmissionState → String → String → AdmissionState
placed state session_id run_id = record {
  pending = state.pending + 1;
  sessions = insert session_id (session_pending state session_id + 1) state.sessions;
  run_sessions = insert run_id session_id state.run_sessions;
}

unfoldable pub reserve :
    Limits → AdmissionState → String → String → Result AdmissionError AdmissionState
reserve limits state session_id run_id =
    if leb limits.max_pending_runs state.pending
      || leb limits.max_pending_runs_per_session (session_pending state session_id)
    then err run_capacity_exceeded
    else ok (placed state session_id run_id)

-- `if let Some(value) = sessions.get_mut(…)`; `-` stops at 0, as `saturating_sub` does
unfoldable pub decrement : String → Map ℕ → Map ℕ
decrement session_id sessions = elim (get session_id sessions) [
  | none ↦ sessions
  | some value ↦
      if value - 1 == 0 then remove session_id sessions else insert session_id (value - 1) sessions
]

unfoldable pub release : AdmissionState → String → AdmissionState
unfolding decrement
release state run_id = elim (get run_id state.run_sessions) [
  | none ↦ state
  | some session_id ↦ record {
    pending = state.pending - 1;
    sessions = decrement session_id state.sessions;
    run_sessions = remove run_id state.run_sessions;
  }
]
