-- ===== src/Server/Storage/Recovery.antt =====
-- piqo-server/src/storage.rs: what `recover_running_sessions` does to a session whose row is running when
-- the server starts. Nothing listens yet, so the events are stored and not published.
pub mod Interrupted
use piqo_server.Prelude.{
  String, Bool, false, Option, none, some, [], ◌∷◌, if◌then◌else◌, Result, ok, ◌>>=◌,
}
use piqo_server.Core.Json.{Json}
use piqo_server.Core.Phases.{running}
use piqo_server.Core.SessionState.{same_phase}
use piqo_server.Core.Event.{EventId, session_interrupted, run_interrupted}
use piqo_server.Core.Projection.{RunProjection}
use piqo_server.Core.Projection.Queue.{active_run}
use piqo_server.Server.Storage.{SessionStore, StoreError, current, append_events}

-- the `WHERE phase = 'running'`
unfoldable pub row_is_running : {V : Type 0} → SessionStore V → Bool
row_is_running store = elim store.row [ none ↦ false | some row ↦ same_phase row.phase running ]

module _ {V : Type 0} ⦃j : Json V⦄ (session_id : String) (now : EventId → String) where
  unfoldable pub interrupt_active :
      Option (RunProjection V) → SessionStore V → Result StoreError (SessionStore V)
  interrupt_active none store = ok store
  interrupt_active (some run) store =
      append_events session_id now (run_interrupted run.run_id "server_restart" ∷ []) store
      >>= λ (after, recorded). ok after

  unfoldable pub recover_session : SessionStore V → Result StoreError (SessionStore V)
  recover_session store =
      if row_is_running store
      then (append_events session_id now (session_interrupted "server_restart" ∷ []) store
          >>= λ (stored, recorded).
              current session_id stored >>= λ p. interrupt_active (active_run p) stored)
      else ok store
