-- ===== src/Server/Supervisor/Finishing/Resumed.antt =====
-- A run that is taken up again after its tool results, and how it ends.
use piqo_server.Prelude.{String, true, ◌≡◌, refl, sym, ap, leb, Result, ok}
use piqo_server.Prelude.Steps.Succeeds.{pure-succeeds}
use piqo_server.Prelude.Steps.Ensures.{Ensures, >>=-Ensures, if-Ensures}
use piqo_server.Core.Json.{Json}
use piqo_server.Core.Event.{queue_resumed}
use piqo_server.Core.Projection.{RunProjection}
use piqo_server.Server.Storage.{StoreError}
use piqo_server.Server.Supervisor.{Supervisor, Outside, new_id, append}
use piqo_server.Server.Supervisor.Seeing.{same-Sees}
use piqo_server.Server.Supervisor.Processing.{
  Next, again, execute, max_model_turns, hold_token, started, resume_ready,
}
use piqo_server.Server.Supervisor.Processing.Starting.{
  max_model_turns-succeeds, hold_token-sessions,
}
use piqo_server.Server.Supervisor.Finishing.{ExecutionResult, record_outcome}
use piqo_server.Server.Supervisor.Finishing.Refused.{
  changes_phase, IsElsewhere, append-IsElsewhere, record_outcome-refused,
}

module _ {V : Type 0} ⦃j : Json V⦄ (outside : Outside V) (k : String) where
  abbrev Stays : Supervisor V → Next V → Type 0
  Stays t next = IsElsewhere outside k t

  same-IsElsewhere :
      (s t : Supervisor V)
      → t.sessions ≡ s.sessions
      → IsElsewhere outside k s
      → IsElsewhere outside k t
  same-IsElsewhere s t e (p, seen, other) = (p, same-Sees k s t e seen, other)

  new_id-sessions :
      (s : Supervisor V) {t : Supervisor V} {id : String}
      → new_id outside s ≡ (t, ok id)
      → t.sessions ≡ s.sessions
  unfolding new_id
  new_id-sessions s h = sym (ap (λ (x : Supervisor V × Result StoreError String). x.0.sessions) h)

  resume_ready-Stays :
      (run : RunProjection V) (s : Supervisor V)
      → IsElsewhere outside k s
      → Ensures (resume_ready outside k run) s Stays
  unfolding resume_ready
  resume_ready-Stays run s elsewhere =
      >>=-Ensures Stays (max_model_turns outside k) _ s (λ s1 turns h1.
        let there : IsElsewhere outside k s1 =
          rw (max_model_turns-succeeds outside k s h1) elsewhere in
        if-Ensures Stays (leb turns run.attempts) _ _ s1
          (λ over. >>=-Ensures Stays _ _ s1 (λ s2 recorded h2. record {
            ensured = λ t next done.
                let unmoved : t ≡ s2 = (pure-succeeds again s2 done).1 in
                rw unmoved (append-IsElsewhere outside k _ s1 refl there h2);
          }))
          (λ under. >>=-Ensures Stays (append outside k queue_resumed) _ s1 (λ s2 resumed h2.
            >>=-Ensures Stays (new_id outside) _ s2 (λ s3 attempt_id h3.
              >>=-Ensures Stays (append outside k (started run attempt_id)) _ s3 (λ s4 recorded h4.
                >>=-Ensures Stays (hold_token run.run_id) _ s4 (λ s5 held h5. record {
                  ensured = λ t next done.
                      let there2 = append-IsElsewhere outside k queue_resumed s1 refl there h2 in
                      let there3 = same-IsElsewhere s2 s3 (new_id-sessions s2 h3) there2 in
                      let there4 =
                        append-IsElsewhere outside k (started run attempt_id) s3 refl there3 h4 in
                      let there5 =
                        same-IsElsewhere s4 s5 (hold_token-sessions outside k run.run_id s4 h5)
                          there4 in
                      let unmoved : t ≡ s5 = (pure-succeeds (execute run) s5 done).1 in
                      rw unmoved there5;
                }))))))

-- When a worker takes up a run whose tool calls all have results, it leaves the session's phase as it is.
-- If that is not running, which it is not after `requires_action` was recorded, then recording that the
-- run failed, was cancelled, was interrupted or requires action again ends with an error.
pub resume_ready-refused :
    {V : Type 0} ⦃j : Json V⦄ (outside : Outside V) (session_id : String) (run : RunProjection V)
    (result : ExecutionResult V) (s : Supervisor V) {t u : Supervisor V} {next : Next V}
    → changes_phase result ≡ true
    → IsElsewhere outside session_id s
    → resume_ready outside session_id run s ≡ (t, ok next)
    → ¬ (record_outcome outside session_id run.run_id result t ≡ (u, ok tt))
resume_ready-refused outside session_id run result s {t = t} {next = next} ends elsewhere h =
    record_outcome-refused outside session_id run.run_id result t ends
      ((resume_ready-Stays outside session_id run s elsewhere).ensured t next h)
