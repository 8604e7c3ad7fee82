-- ===== src/Server/Supervisor/Overlapping/Accounted.antt =====
-- What overlapping calls leave of a session's log, and what is published of it.
use mathlib.Core.List.{Perm}
use mathlib.Core.List.Perm
use piqo_server.Prelude.{◌≡◌, some, List, [], ◌∷◌, ◌++◌, length}
use piqo_server.Core.Json.{Json}
use piqo_server.Core.EventLog.{RecordedEvent}
use piqo_server.Core.EventLog.Numbering.{CountsFrom}
use piqo_server.Core.Projection.Apply
use piqo_server.Server.Storage.{SessionStore, SessionRow}
use piqo_server.Server.Supervisor.Overlapping.{Task, reading, caching, publishing, Shared}

module _ {V : Type 0} where
  -- what a call has recorded and not yet published
  abbrev pub unpublished : Task V → List (RecordedEvent V)
  unpublished (reading cached events) = []
  unpublished (caching state recorded) = recorded
  unpublished (publishing left) = left

  abbrev pub all_unpublished : List (Task V) → List (RecordedEvent V)
  all_unpublished [] = []
  all_unpublished (task ∷ tasks) = unpublished task ++ all_unpublished tasks

  -- the ids of the log count up from 1, and the row has the last
  pub record IsNumbered (store : SessionStore V) : Type 0 where
    pub row : SessionRow
    pub row_is : store.row ≡ some row
    pub last_is : row.last_event_id ≡ length store.events
    pub counts : CountsFrom 1 store.events

  -- The log has grown and is numbered; what was published since, with what the calls under way have still
  -- to publish, is what was recorded since, in some order.
  pub record Accounts (s t : Shared V) : Type 0 where
    pub numbered : IsNumbered t.store
    pub new : List (RecordedEvent V)
    pub grown : t.store.events ≡ s.store.events ++ new
    pub accounted : Perm (t.published ++ all_unpublished t.tasks) (s.published ++ new)
