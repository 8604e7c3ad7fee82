-- ===== src/Server/Supervisor/Primitives.antt =====
-- The steps that write to the supervisor's state, as an interface: what each of them keeps, every method
-- keeps.
use piqo_server.Prelude.{String, ◌≡◌, refl, Option, none, some, List, arith}
use piqo_server.Prelude.Steps.{update}
use piqo_server.Prelude.Steps.Keeps.{Preorder, Keeps, update-Keeps, step_rules}
use piqo_server.Core.Json.{Json}
use piqo_server.Core.Event.{SemanticEvent}
use piqo_server.Server.Supervisor.{
  Supervisor, Outside, get_session, project_is_deleting, refuse_deleting, ensure_session_mutable,
  ensure_running, spawn_worker, new_id, release_place, reserve_place, projection, append_many,
  append,
}

-- nothing of the logs, of what is published or of the places changes
pub record SameHistory {V : Type 0} (s t : Supervisor V) : Type 0 where
  pub same_sessions : t.sessions ≡ s.sessions
  pub same_published : t.published ≡ s.published
  pub same_admission : t.admission ≡ s.admission

module _ {V : Type 0} ⦃j : Json V⦄ (outside : Outside V) (R : Preorder (Supervisor V)) where
  pub record Primitives : Type 0 where
    pub elsewhere : (s t : Supervisor V) → SameHistory s t → R.holds s t
    pub appending :
        (session_id : String) (events : List (SemanticEvent V))
        → Keeps R (append_many outside session_id events)
    pub projecting : (session_id : String) → Keeps R (projection session_id)
    pub releasing : (run_id : String) → Keeps R (release_place {V = V} run_id)

  -- what `queue_run` and `retry` need besides
  pub record Placing : Type 0 where
    pub primitives : Primitives
    pub reserving : (session_id run_id : String) → Keeps R (reserve_place outside session_id run_id)

module _ {V : Type 0} ⦃j : Json V⦄ (outside : Outside V) (R : Preorder (Supervisor V))
    (P : Primitives outside R) where
  pub append-Keeps :
      (session_id : String) (event : SemanticEvent V) → Keeps R (append outside session_id event)
  unfolding append
  append-Keeps session_id event = P.appending session_id _

  pub new_id-Keeps : Keeps R (new_id outside)
  unfolding new_id
  new_id-Keeps = record {
    over = λ s.
        P.elsewhere s _
          (record { same_sessions = refl; same_published = refl; same_admission = refl });
  }

  spawned : (session_id : String) (s : Supervisor V) → SameHistory s (spawn_worker session_id s).0
  unfolding spawn_worker update
  spawned session_id s = ground arith

  pub spawn_worker-Keeps : (session_id : String) → Keeps R (spawn_worker session_id)
  spawn_worker-Keeps session_id = record {
    over = λ s. P.elsewhere s (spawn_worker session_id s).0 (spawned session_id s);
  }

  pub get_session-Keeps : (session_id : String) → Keeps R (get_session session_id)
  unfolding get_session
  get_session-Keeps session_id = record { over = R.reflexive }

  refuse_deleting-Keeps :
      (project_id : Option String) → Keeps R (refuse_deleting {V = V} project_id)
  unfolding refuse_deleting project_is_deleting
  refuse_deleting-Keeps none = search step_rules
  refuse_deleting-Keeps (some project_id) = search step_rules

  pub ensure_session_mutable-Keeps :
      (session_id : String) → Keeps R (ensure_session_mutable {V = V} session_id)
  unfolding ensure_session_mutable
  ensure_session_mutable-Keeps session_id =
      search (step_rules, get_session-Keeps, refuse_deleting-Keeps)

  pub ensure_running-Keeps : Keeps R (ensure_running {V = V})
  unfolding ensure_running
  ensure_running-Keeps = search step_rules

  pub append_many-Keeps :
      (session_id : String) (events : List (SemanticEvent V))
      → Keeps R (append_many outside session_id events)
  append_many-Keeps = P.appending

  pub projection-Keeps : (session_id : String) → Keeps R (projection session_id)
  projection-Keeps = P.projecting

  pub release_place-Keeps : (run_id : String) → Keeps R (release_place {V = V} run_id)
  release_place-Keeps = P.releasing

module _ {V : Type 0} ⦃j : Json V⦄ (outside : Outside V) (R : Preorder (Supervisor V))
    (P : Placing outside R) where
  pub reserve_place-Keeps :
      (session_id run_id : String) → Keeps R (reserve_place outside session_id run_id)
  reserve_place-Keeps = P.reserving

pub ruleset method_rules = (
  step_rules, append_many-Keeps, projection-Keeps, release_place-Keeps, append-Keeps, new_id-Keeps,
  spawn_worker-Keeps, get_session-Keeps, ensure_session_mutable-Keeps, ensure_running-Keeps,
)
