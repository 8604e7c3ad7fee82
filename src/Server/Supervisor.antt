-- ===== src/Server/Supervisor.antt =====
-- piqo-server/src/supervisor.rs: `SessionSupervisor`, its state and the steps that its methods are made
-- of. A method that holds the lock of a session is one step; the others are taken as one step too.
pub mod Sessions
pub mod Guards
pub mod Seeing
pub mod Primitives
pub mod Calls
pub mod Overlapping
pub mod Consistent
pub mod Queueing
pub mod Submitting
pub mod Processing
pub mod Finishing
pub mod Delivering
pub mod Stopping
pub mod Resolving
use piqo_server.Prelude.{
  ℕ, ◌+◌, String, Bool, true, false, not, ◌&&◌, ◌||◌, Option, none, some, List, [], ◌∷◌, ◌++◌,
  length, any, str_eq, if◌then◌else◌, Result, ok, err, ok_or,
}
use piqo_server.Prelude.Map.{Map, get, insert}
use piqo_server.Prelude.Steps.{Step, Act, ◌>>=◌, pure, fail, lift, check, read, update, when}
use piqo_server.Core.Json.{Json}
use piqo_server.Core.Event.{
  EventId, SemanticEvent, run_completed, run_failed, run_cancelled, run_interrupted,
}
use piqo_server.Core.EventLog.{RecordedEvent}
use piqo_server.Core.Orchestration.{AgentBudget, AgentResult}
use piqo_server.Core.SessionState.{Outcome}
use piqo_server.Core.Projection.{SessionProjection, RunProjection}
use piqo_server.Server.Storage.{
  StoreError, json, session_not_found, project_deleting, shutting_down, run_not_found,
  run_capacity_exceeded, SessionStore, JsonError, current, append_events,
}
use piqo_server.Server.Admission.{AdmissionState, AdmissionError, Limits, reserve, release}
use piqo_server.Server.Admission
use piqo_server.Server.PermissionRules.{PermissionRuleRecord}

pub record RunRequest (V : Type 0) : Type 0 where
  pub provider : String
  pub model : String
  pub input : V
  pub agent : Option String
  pub variant : Option String
  pub body : V

-- of `AgentLinkRecord`, what these methods read
pub record AgentLinkRecord : Type 0 where
  pub instance_id : String
  pub profile_id : String
  pub parent_session_id : String
  pub parent_run_id : String
  pub parent_call_id : String
  pub child_session_id : String
  pub child_run_id : String
  pub budget : AgentBudget

-- a session in the database: its project, and its log
pub record Session (V : Type 0) : Type 0 where
  pub project_id : Option String
  pub store : SessionStore V

-- What a method reads and writes: the database, the events published so far, the places that pending
-- runs hold, for each active run whether its token is cancelled, the projects and those that are being deleted, the
-- sessions that a worker was spawned for, the number of UUIDs made, and whether the server shuts down.
pub record Supervisor (V : Type 0) : Type 0 where
  pub sessions : Map (Session V)
  pub rules : List PermissionRuleRecord
  pub links : List AgentLinkRecord
  pub published : List (RecordedEvent V)
  pub admission : AdmissionState
  pub cancellations : Map Bool
  pub projects : List String
  pub deleting_projects : List String
  pub workers : List String
  pub ids : ℕ
  pub is_shutting_down : Bool

-- What comes from elsewhere: the clock and the UUIDs, as the values that they give in turn, `RunRequest`
-- to and from JSON, whether a JSON object has a field, the JSON of a denied call's result, the text that
-- says how many model turns were exceeded, the UTF-8 bytes of a text, the JSON string of such bytes,
-- and the JSON of an agent's result; the configuration's limits on runs and on model turns, and
-- whether it resolves a provider's name.
pub record Outside (V : Type 0) : Type 0 where
  pub now : ℕ → String
  pub uuid : ℕ → String
  pub from_value : V → Result JsonError (RunRequest V)
  pub to_value : RunRequest V → Result JsonError V
  pub has_field : String → V → Bool
  pub permission_denied : V
  pub turns_exceeded : ℕ → String
  pub bytes : String → List ℕ
  pub text_value : List ℕ → V
  pub result_value : AgentResult V → Result JsonError V
  pub limits : Limits
  pub max_model_turns : Result StoreError ℕ
  pub resolve_provider : String → Outcome StoreError

abbrev pub Method : Type 0 → Type 0 → Type 0
Method V A = Supervisor V → Supervisor V × Result StoreError A

abbrev pub json_error : {A : Type 0} → Result JsonError A → Result StoreError A
json_error (ok a) = ok a
json_error (err e) = err (json e)

abbrev pub empty_store : {V : Type 0} → SessionStore V
empty_store = record { row = none; events = []; cached = none }

module _ {V : Type 0} where
  -- what the database and the cache hold of a session, nothing where there is none
  unfoldable pub store_of : String → Supervisor V → SessionStore V
  store_of session_id s = elim (get session_id s.sessions) [
    | none ↦ empty_store
    | some session ↦ session.store
  ]

  unfoldable pub put_store : String → SessionStore V → Supervisor V → Supervisor V
  put_store session_id store s = elim (get session_id s.sessions) [
    | none ↦ s
    | some session ↦ record s {
      sessions = insert session_id (record session { store = store }) s.sessions;
    }
  ]

  -- the `match` of `release_terminal_admission`
  abbrev pub ended_run : SemanticEvent V → Option String
  ended_run (run_completed run_id usage) = some run_id
  ended_run (run_failed run_id error) = some run_id
  ended_run (run_cancelled run_id reason) = some run_id
  ended_run (run_interrupted run_id reason) = some run_id
  ended_run _ = none

  unfoldable pub release_terminal_admission : SemanticEvent V → AdmissionState → AdmissionState
  release_terminal_admission event admission = elim (ended_run event) [
    | none ↦ admission
    | some run_id ↦ release admission run_id
  ]

  -- `hub.publish`, then `release_terminal_admission`
  unfoldable pub publish_event : RecordedEvent V → Supervisor V → Supervisor V
  publish_event e s = record s {
    published = s.published ++ e ∷ [];
    admission = release_terminal_admission e.event s.admission;
  }

  -- the loop over the recorded events
  unfoldable pub publish_all : List (RecordedEvent V) → Supervisor V → Supervisor V
  unfolding publish_event
  publish_all [] s = s
  publish_all (e ∷ recorded) s = publish_all recorded (publish_event e s)

  -- the store has committed and cached, or failed
  unfoldable pub store_events :
      String
      → Supervisor V
      → Result StoreError (SessionStore V × List (RecordedEvent V))
      → Supervisor V × Result StoreError (List (RecordedEvent V))
  store_events session_id s (ok (store, recorded)) = (put_store session_id store s, ok recorded)
  store_events session_id s (err e) = (s, err e)

  -- what it has recorded is then published
  unfoldable pub publish_recorded :
      Supervisor V × Result StoreError (List (RecordedEvent V))
      → Supervisor V × Result StoreError (List (RecordedEvent V))
  publish_recorded (s, ok recorded) = (publish_all recorded s, ok recorded)
  publish_recorded (s, err e) = (s, err e)

  -- `SqliteStore::projection`: a projection that is not cached is cached
  abbrev pub cache_projection :
      String
      → Supervisor V
      → Result StoreError (SessionProjection V)
      → Supervisor V × Result StoreError (SessionProjection V)
  cache_projection session_id s (ok p) =
      (put_store session_id (record (store_of session_id s) { cached = some p }) s, ok p)
  cache_projection session_id s (err e) = (s, err e)

  unfoldable pub get_session : String → Method V (Session V)
  get_session session_id s = (s, ok_or (get session_id s.sessions) (session_not_found session_id))

  unfoldable pub project_is_deleting : String → Method V Bool
  project_is_deleting project_id = read (λ s. any (λ p. str_eq p project_id) s.deleting_projects)

  -- the `if let Some(project_id)` of `ensure_session_mutable`
  unfoldable pub refuse_deleting : Option String → Method V Unit
  refuse_deleting none = pure tt
  refuse_deleting (some project_id) = do
    deleting ← project_is_deleting project_id
    check (not deleting) (project_deleting project_id)

  unfoldable pub ensure_session_mutable : String → Method V Unit
  ensure_session_mutable session_id = do
    session ← get_session session_id
    refuse_deleting session.project_id

  -- `if self.shutdown.is_cancelled()`
  unfoldable pub ensure_running : Method V Unit
  ensure_running = do stopping ← read (λ s. s.is_shutting_down); check (not stopping) shutting_down

  -- a worker of the session processes its queue, as `process_session` does
  unfoldable pub spawn_worker : String → Method V Unit
  spawn_worker session_id =
      update
        (λ s. if s.is_shutting_down then s else record s { workers = s.workers ++ session_id ∷ [] })

  -- a place is taken or `RunCapacityExceeded`
  abbrev pub take_place :
      Supervisor V → Result AdmissionError AdmissionState → Supervisor V × Outcome StoreError
  take_place s (ok admission) = (record s { admission = admission }, ok tt)
  take_place s (err e) = (s, err run_capacity_exceeded)

  unfoldable pub release_place : String → Method V Unit
  release_place run_id = update (λ s. record s { admission = release s.admission run_id })

  unfoldable pub get_run : String → SessionProjection V → Result StoreError (RunProjection V)
  get_run run_id p = ok_or (get run_id p.runs) (run_not_found run_id)

module _ {V : Type 0} (outside : Outside V) where
  -- `serde_json::from_value(…).map_err(StoreError::Json)?` and `to_value`
  unfoldable pub parse_request : V → Result StoreError (RunRequest V)
  parse_request value = json_error (outside.from_value value)

  unfoldable pub print_request : RunRequest V → Result StoreError V
  print_request request = json_error (outside.to_value request)

  -- `Uuid::now_v7().to_string()`
  unfoldable pub new_id : Method V String
  new_id s = (record s { ids = s.ids + 1 }, ok (outside.uuid s.ids))

  unfoldable pub reserve_place : String → String → Method V Unit
  reserve_place session_id run_id s =
      take_place s (reserve outside.limits s.admission session_id run_id)

module _ {V : Type 0} ⦃j : Json V⦄ where
  -- a session that the database does not have is not found
  unfoldable pub projection : String → Method V (SessionProjection V)
  projection session_id s = elim (get session_id s.sessions) [
    | none ↦ (s, err (session_not_found session_id))
    | some session ↦ cache_projection session_id s (current session_id session.store)
  ]

module _ {V : Type 0} ⦃j : Json V⦄ (outside : Outside V) where
  -- one call at a time: Overlapping has the steps of calls that overlap
  unfoldable pub append_many : String → List (SemanticEvent V) → Method V (List (RecordedEvent V))
  append_many session_id events s = publish_recorded (
      store_events session_id s (
        append_events session_id (λ reading. outside.now (length s.published + reading)) events
          (store_of session_id s)))

  -- `append_event` of the store is `append_events` of one event
  unfoldable pub append : String → SemanticEvent V → Method V (List (RecordedEvent V))
  append session_id event = append_many session_id (event ∷ [])
