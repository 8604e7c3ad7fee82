-- ===== src/Server/Supervisor/Processing/Starting.antt =====
-- The run that a worker goes on to execute is the one run of the session that is running.
use piqo_server.Prelude.{
  ℕ, String, Bool, true, false, ◌≡◌, refl, sym, ap, ◌∙◌, Option, none, some, List, [], ◌∷◌, is_some,
  leb, Bool-cases, inl, inr, Result, ok, err, ok_or,
}
use piqo_server.Prelude.Map.{get}
use piqo_server.Prelude.Steps.{◌>>=◌, pure, lift, update, attempt, when}
use piqo_server.Prelude.Steps.Succeeds.{
  >>=-succeeds, lift-succeeds, read-succeeds, pure-succeeds, fail-succeeds, attempt-is,
}
use piqo_server.Prelude.Steps.Ensures.{Ensures, >>=-Ensures, if-Ensures}
use piqo_server.Core.Json.{Json}
use piqo_server.Core.Event.{SemanticEvent, session_phase_changed, queue_resumed}
use piqo_server.Core.Phases.{running}
use piqo_server.Core.EventLog.{RecordedEvent}
use piqo_server.Core.Projection.{SessionProjection, RunProjection}
use piqo_server.Core.Projection.Queue.{active_run, queued_runs, ready_action_run}
use piqo_server.Core.Projection.Queue.Selection.{active_run-none}
use piqo_server.Core.Projection.Apply.Accepted.{
  NoneRunning, OnlyRunning, run_started-OnlyRunning, phase_changed-runs, queue_resumed-runs,
}
use piqo_server.Server.Storage.{StoreError, session_not_found}
use piqo_server.Server.Supervisor.{
  Supervisor, Outside, AgentLinkRecord, get_session, projection, new_id, append,
}
use piqo_server.Server.Supervisor.Seeing.{Sees, same-Sees, append-Sees, projection-Sees}
use piqo_server.Server.Supervisor.Processing.{
  Next, stopped, again, execute, child_budget, turns_of, max_model_turns, hold_token, drop_token,
  or_drop_token, started, resume_ready, finish_queue, start_queued, take_queued, take_next,
  process_next,
}

module _ {V : Type 0} ⦃j : Json V⦄ (outside : Outside V) (k : String) where
  -- the worker does not go on to execute a run, or that run is the only one that is running
  abbrev Starts : Supervisor V → Next V → Type 0
  Starts t stopped = Unit
  Starts t again = Unit
  Starts t (execute run) = (q : SessionProjection V) × Sees k t q × OnlyRunning run.run_id q

  -- the session shows a projection in which no run is running
  abbrev Idle : Supervisor V → Type 0
  Idle s = (p : SessionProjection V) × Sees k s p × NoneRunning p

  idle_runs : (p q : SessionProjection V) → q.runs ≡ p.runs → NoneRunning p → NoneRunning q
  idle_runs p q e idle run_id run found = idle run_id run (rw e at found)

  same-Idle : (s t : Supervisor V) → t.sessions ≡ s.sessions → Idle s → Idle t
  same-Idle s t e (p, seen, idle) = (p, same-Sees k s t e seen, idle)

  child_budget-succeeds :
      (s : Supervisor V) {t : Supervisor V} {link : Option AgentLinkRecord}
      → child_budget k s ≡ (t, ok link)
      → t ≡ s
  unfolding child_budget get_session lift
  child_budget-succeeds s h =
      let (session, u, there, rest) = >>=-succeeds (get_session k) _ s h in
      (read-succeeds _ u rest).1
      ∙ (lift-succeeds (ok_or (get k s.sessions) (session_not_found k)) s there).1

  pub max_model_turns-succeeds :
      (s : Supervisor V) {t : Supervisor V} {turns : ℕ}
      → max_model_turns outside k s ≡ (t, ok turns)
      → t ≡ s
  unfolding max_model_turns
  max_model_turns-succeeds s h =
      let (link, u, budget, rest) = >>=-succeeds (child_budget k) _ s h in
      (lift-succeeds (turns_of outside link) u rest).1 ∙ child_budget-succeeds s budget

  new_id-Idle :
      (s : Supervisor V) {t : Supervisor V} {id : String}
      → Idle s
      → new_id outside s ≡ (t, ok id)
      → Idle t
  unfolding new_id
  new_id-Idle s {t = t} idle h =
      same-Idle s t (sym (ap (λ (x : Supervisor V × Result StoreError String). x.0.sessions) h))
        idle

  pub hold_token-sessions :
      (run_id : String) (s : Supervisor V) {t : Supervisor V}
      → hold_token run_id s ≡ (t, ok tt)
      → t.sessions ≡ s.sessions
  unfolding hold_token update
  hold_token-sessions run_id s h =
      sym (ap (λ (x : Supervisor V × Result StoreError (Unit {0})). x.0.sessions) h)

  resumed-Idle :
      (s : Supervisor V) {t : Supervisor V} {recorded : List (RecordedEvent V)}
      → Idle s
      → append outside k queue_resumed s ≡ (t, ok recorded)
      → Idle t
  resumed-Idle s (p, seen, idle) h =
      let (event_id, q, accepted, now) = append-Sees outside k queue_resumed s p seen h in
      (q, now, idle_runs p q (queue_resumed-runs p event_id accepted) idle)

  started-Starts :
      (run : RunProjection V) (attempt_id : String) (s : Supervisor V) {t : Supervisor V}
      {recorded : List (RecordedEvent V)}
      → Idle s
      → append outside k (started run attempt_id) s ≡ (t, ok recorded)
      → (q : SessionProjection V) × Sees k t q × OnlyRunning run.run_id q
  started-Starts run attempt_id s (p, seen, idle) h =
      let (event_id, q, accepted, now) =
        append-Sees outside k (started run attempt_id) s p seen h in
      (q, now, run_started-OnlyRunning p event_id run.run_id attempt_id _ idle accepted)

  failing-Starts :
      (event : SemanticEvent V) (s : Supervisor V)
      → Ensures (append outside k event >>= λ recorded. pure again) s Starts
  failing-Starts event s = >>=-Ensures Starts (append outside k event) _ s (λ t recorded appended.
      record { ensured = λ u next done. rw (← (pure-succeeds again t done).0) tt })

  resuming-Starts :
      (run : RunProjection V) (s : Supervisor V)
      → Idle s
      → Ensures
          (append outside k queue_resumed >>= λ resumed. new_id outside >>= λ attempt_id.
            append outside k (started run attempt_id) >>= λ recorded.
            hold_token run.run_id >>= λ held. pure (execute run))
          s
          Starts
  resuming-Starts run s idle =
      >>=-Ensures Starts (append outside k queue_resumed) _ s (λ s1 resumed h1.
        >>=-Ensures Starts (new_id outside) _ s1 (λ s2 attempt_id h2.
          >>=-Ensures Starts (append outside k (started run attempt_id)) _ s2 (λ s3 recorded h3.
            >>=-Ensures Starts (hold_token run.run_id) _ s3 (λ s4 held h4. record {
              ensured = λ u next done.
                  let idle2 = new_id-Idle s1 (resumed-Idle s idle h1) h2 in
                  let (q, seen, only) = started-Starts run attempt_id s2 idle2 h3 in
                  let now = same-Sees k s3 s4 (hold_token-sessions run.run_id s3 h4) seen in
                  let (is, unmoved) = pure-succeeds (execute run) s4 done in
                  rw (← is, unmoved) (q, now, only);
            }))))

  resume_ready-Starts :
      (run : RunProjection V) (s : Supervisor V)
      → Idle s
      → Ensures (resume_ready outside k run) s Starts
  unfolding resume_ready
  resume_ready-Starts run s idle =
      >>=-Ensures Starts (max_model_turns outside k) _ s (λ s1 turns h1.
        let idle1 : Idle s1 = rw (max_model_turns-succeeds s h1) idle in
        elim (Bool-cases (leb turns run.attempts)) [
          | inl over ↦ rw over (failing-Starts _ s1)
          | inr under ↦ rw under (resuming-Starts run s1 idle1)
        ])

  phase-Idle :
      (test : Bool) (p : SessionProjection V) (s : Supervisor V) {t : Supervisor V}
      → Idle s
      → when test
          (append outside k (session_phase_changed p.state.phase running (some "run_started"))
            >>= λ recorded. pure tt)
          s
        ≡ (t, ok tt)
      → Idle t
  unfolding when
  phase-Idle false p s {t = t} idle h =
      same-Idle s t (sym (ap (λ (x : Supervisor V × Result StoreError (Unit {0})). x.0.sessions) h))
        idle
  phase-Idle true p s {t = t} (q, seen, idle) h =
      let event = session_phase_changed p.state.phase running (some "run_started") in
      let (recorded, u, appended, rest) = >>=-succeeds (append outside k event) _ s h in
      let (event_id, r, accepted, now) = append-Sees outside k event s q seen appended in
      let unmoved = (pure-succeeds tt u rest).1 in
      rw unmoved (
        r,
        now,
        idle_runs q r
            (phase_changed-runs q event_id p.state.phase running (some "run_started") accepted)
            idle,
      )

  or_drop_token-succeeds :
      (run_id : String) (r : Result StoreError (List (RecordedEvent V))) (s : Supervisor V)
      {t : Supervisor V}
      → or_drop_token run_id r s ≡ (t, ok tt)
      → (recorded : List (RecordedEvent V)) × (r ≡ ok recorded) × (t ≡ s)
  unfolding or_drop_token
  or_drop_token-succeeds run_id (ok recorded) s h = (recorded, refl, (pure-succeeds tt s h).1)
  or_drop_token-succeeds run_id (err e) s h =
      let (dropped, u, there, rest) = >>=-succeeds (drop_token run_id) _ s h in
      absurd (fail-succeeds e u rest)

  start_queued-Starts :
      (p : SessionProjection V) (run : RunProjection V) (s : Supervisor V)
      → Idle s
      → Ensures (start_queued outside k p run) s Starts
  unfolding start_queued
  start_queued-Starts p run s idle = >>=-Ensures Starts _ _ s (λ s1 changed h1.
      >>=-Ensures Starts (new_id outside) _ s1 (λ s2 attempt_id h2.
        >>=-Ensures Starts (hold_token run.run_id) _ s2 (λ s3 held h3.
          >>=-Ensures Starts (attempt (append outside k (started run attempt_id))) _ s3
            (λ s4 appended h4.
              >>=-Ensures Starts (or_drop_token run.run_id appended) _ s4 (λ s5 begun h5. record {
                ensured = λ u next done.
                    let idle1 = phase-Idle _ p s idle h1 in
                    let idle3 =
                      same-Idle s2 s3 (hold_token-sessions run.run_id s2 h3)
                        (new_id-Idle s1 idle1 h2) in
                    let (recorded, accepted, e5) =
                      or_drop_token-succeeds run.run_id appended s4 h5 in
                    let (q, seen, only) =
                      started-Starts run attempt_id s3 idle3
                        (rw accepted at (attempt-is _ s3 h4)) in
                    let (is, unmoved) = pure-succeeds _ s5 done in
                    rw (← is, unmoved, e5) (q, seen, only);
              })))))

  take_queued-Starts :
      (p : SessionProjection V) (runs : List (RunProjection V)) (s : Supervisor V)
      → Idle s
      → Ensures (take_queued outside k p runs) s Starts
  unfolding take_queued finish_queue
  take_queued-Starts p [] s idle =
      >>=-Ensures Starts _ _ s
        (λ t done h. record { ensured = λ u next rest. rw (← (pure-succeeds stopped t rest).0) tt })
  take_queued-Starts p (run ∷ runs) s idle = start_queued-Starts p run s idle

  stopping-Starts : (s : Supervisor V) → Ensures {E = StoreError} (pure stopped) s Starts
  stopping-Starts s = record { ensured = λ t next done. rw (← (pure-succeeds stopped s done).0) tt }

  take_next-Starts :
      (p : SessionProjection V) (ready : Option (RunProjection V)) (s : Supervisor V)
      → Idle s
      → Ensures (take_next outside k p ready) s Starts
  unfolding take_next
  take_next-Starts p (some run) s idle = resume_ready-Starts run s idle
  take_next-Starts p none s idle =
      if-Ensures Starts p.queue_paused _ _ s (λ paused. stopping-Starts s)
        (λ goes. take_queued-Starts p (queued_runs p) s idle)

  not_some : (o : Option (RunProjection V)) → is_some o ≡ false → o ≡ none
  not_some none h = refl
  not_some (some run) h = absurd (cc)

  process_next-Starts : (s : Supervisor V) → Ensures (process_next outside k) s Starts
  unfolding process_next
  process_next-Starts s = >>=-Ensures Starts _ _ s (λ s1 stopping h1.
      if-Ensures Starts stopping _ _ s1 (λ on. stopping-Starts s1)
        (λ off. >>=-Ensures Starts (projection k) _ s1 (λ s2 p h2.
          if-Ensures Starts (is_some (active_run p)) _ _ s2 (λ busy. stopping-Starts s2)
            (λ free.
              let idle = not_some (active_run p) free in
              take_next-Starts p (ready_action_run p) s2 (
                p,
                (projection-Sees k s1 h2).1,
                λ run_id run found. active_run-none p run_id run idle found,
              )))))

-- When a worker goes on to execute a run, the session's projection shows that run running, and no other
-- run of the session.
pub process_next-OnlyRunning :
    {V : Type 0} ⦃j : Json V⦄ (outside : Outside V) (session_id : String) (s : Supervisor V)
    {t : Supervisor V} {run : RunProjection V}
    → process_next outside session_id s ≡ (t, ok (execute run))
    → (q : SessionProjection V) × Sees session_id t q × OnlyRunning run.run_id q
process_next-OnlyRunning outside session_id s {t = t} {run = run} h =
    (process_next-Starts outside session_id s).ensured t (execute run) h
