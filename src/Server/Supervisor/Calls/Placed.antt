-- ===== src/Server/Supervisor/Calls/Placed.antt =====
-- What the primitive steps keep, taking a place included, `queue_run` and `retry` keep.
use piqo_server.Prelude.{String, List, Result, ok, err}
use piqo_server.Prelude.Steps.Keeps.{Preorder, Keeps}
use piqo_server.Core.Json.{Json}
use piqo_server.Core.EventLog.{RecordedEvent}
use piqo_server.Server.Storage.{StoreError}
use piqo_server.Server.Supervisor.{Supervisor, Outside, RunRequest}
use piqo_server.Server.Supervisor.Primitives.{
  Primitives, Placing, method_rules, reserve_place-Keeps,
}
use piqo_server.Server.Supervisor.Queueing.{or_release, queue_run, retry}

module _ {V : Type 0} ⦃j : Json V⦄ (outside : Outside V) (R : Preorder (Supervisor V))
    (P : Primitives outside R) where
  or_release-Keeps :
      (run_id : String) (r : Result StoreError (List (RecordedEvent V)))
      → Keeps R (or_release run_id r)
  unfolding or_release
  or_release-Keeps run_id (ok recorded) = search method_rules
  or_release-Keeps run_id (err e) = search method_rules

module _ {V : Type 0} ⦃j : Json V⦄ (outside : Outside V) (R : Preorder (Supervisor V))
    (P : Placing outside R) where
  pub queue_run-Keeps :
      (session_id : String) (request : RunRequest V)
      → Keeps R (queue_run outside session_id request)
  unfolding queue_run
  queue_run-Keeps session_id request =
      let Q = P.primitives in search (method_rules, reserve_place-Keeps, or_release-Keeps) depth 16

  pub retry-Keeps : (session_id run_id : String) → Keeps R (retry outside session_id run_id)
  unfolding retry
  retry-Keeps session_id run_id =
      let Q = P.primitives in search (method_rules, reserve_place-Keeps, or_release-Keeps) depth 16
