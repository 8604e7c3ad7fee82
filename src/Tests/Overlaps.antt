-- ===== src/Tests/Overlaps.antt =====
-- Two appends to a new session overlap: both begin before either commits, and the second to commit
-- publishes first.
use piqo_server.Prelude.{String, ◌≡◌, refl, none, [], ◌∷◌, ok}
use piqo_server.Core.Event.{EventId, queue_paused, queue_resumed}
use piqo_server.Core.SessionState
use piqo_server.Core.Projection.Apply
use piqo_server.Core.Projection.Apply.{project_event}
use piqo_server.Server.Storage.{
  SessionStore, create_session, append_all, append_event, current, project, replay, applied,
}
use piqo_server.Server.Supervisor.Overlapping.{Task, Shared, commit_events}
use piqo_server.Tests.{json_strings}

abbrev new_session : SessionStore String
new_session = create_session "s" "now" none

abbrev idle : Shared String
idle = record { store = new_session; published = []; tasks = [] }

abbrev clock : EventId → String
clock count = "later"

first_commit :
    (store : SessionStore String) × (task : Task String) × (commit_events "s" clock none
        (queue_paused ∷ [])
        new_session
      ≡ ok (store, task))
unfolding commit_events append_all append_event current project replay applied create_session
    Apply.new Apply.apply SessionState.new SessionState.apply project_event
first_commit = (_, _, refl)

second_commit :
    (store : SessionStore String) × (task : Task String) × (commit_events "s" clock none
        (queue_resumed ∷ [])
        first_commit.0
      ≡ ok (store, task))
unfolding first_commit commit_events append_all append_event current project replay applied
    create_session Apply.new Apply.apply SessionState.new SessionState.apply project_event
second_commit = (_, _, refl)
