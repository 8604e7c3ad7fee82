-- ===== src/Server/Supervisor/Submitting/Accepted.antt =====
-- When a submitted tool result is accepted, and what is then recorded.
use piqo_server.Prelude.{
  String, Bool, true, false, not, ◌≡◌, refl, sym, ap, ◌∙◌, ◌⊎◌, inl, inr, Option, Bool-cases, none,
  some, List, [], ◌∷◌, ◌≢◌, ◌||◌, ◌&&◌, ◌++◌, map, find, all, All, Any, is_some, str_eq, eq_iff,
  option_eq, Result, ok, ok_or-eq-ok, arith,
}
use piqo_server.Prelude.Map.{get, values}
use piqo_server.Prelude.Steps.{when}
use piqo_server.Prelude.Steps.Succeeds.{>>=-succeeds, pure-succeeds, fail-succeeds}
use piqo_server.Prelude.Steps.Ensures.{Ensures, >>=-Ensures, lift-Ensures, check-Ensures}
use piqo_server.Core.Json.{Json}
use piqo_server.Core.Permissions.{PermissionDecision, allow}
use piqo_server.Core.Phases.{RunStatus, requires_action}
use piqo_server.Core.Event.{SemanticEvent, tool_result, queue_resumed}
use piqo_server.Core.EventLog.{RecordedEvent}
use piqo_server.Core.Projection.{
  SessionProjection, RunProjection, ToolCallProjection, PermissionProjection,
}
use piqo_server.Core.Projection.Queue.{awaits_action}
use piqo_server.Server.Storage.{StoreError}
use piqo_server.Server.Supervisor.{
  Supervisor, Outside, ensure_running, ensure_session_mutable, append_many, projection, get_run,
  spawn_worker,
}
use piqo_server.Server.Supervisor.Guards.{
  ensure_running-succeeds, ensure_session_mutable-succeeds, projection-published,
  append_many-published, spawn_worker-published,
}
use piqo_server.Server.Supervisor.Submitting.{
  find_call, request_for, decision_of, ensure_decided_allow, ensure_allowed, is_last_result,
  result_events, record_submitted, submit, submit_tool_result,
}

status_is : (status : RunStatus) → awaits_action status ≡ true → status ≡ requires_action
status_is status h = ground arith

negated : (b : Bool) → not b ≡ true → b ≡ false
negated b h = ground arith

only : (b : Bool) → b || false ≡ true → b ≡ true
only b h = ground arith

neither : (b : Bool) → b || false ≡ false → b ≡ false
neither b h = ground arith

one_holds : (b : Bool) → ¬ (b || true ≡ false)
one_holds b h = ground arith

true_not_false : ¬ (true ≡ false)
true_not_false h = absurd (cc)

both : (a b : Bool) → a && b ≡ true → (a ≡ true) × (b ≡ true)
both a b h = ground arith

same_option : (o : Option String) (a : String) → option_eq str_eq o (some a) ≡ true → o ≡ some a
unfolding option_eq
same_option none a h = absurd (cc)
same_option (some b) a h = ap (λ (x : String). some x) ((eq_iff b a).0 h)

decided : (o : Option PermissionDecision) → ensure_decided_allow o ≡ ok tt → o ≡ some allow
decided o h = ground arith

module _ {V : Type 0} where
  -- a request for that call of that run was allowed
  abbrev pub Approves : String → String → PermissionProjection V → Type 0
  Approves run_id call_id request =
      (request.run_id ≡ run_id) × (request.call_id ≡ some call_id) × (request.decision ≡ some allow)

  -- `queue_resumed` follows the result exactly if every other call of the run has its result
  abbrev pub Resumes : RunProjection V → String → List (SemanticEvent V) → Type 0
  Resumes run call_id events =
      ((events ≡ queue_resumed ∷ [])
        × All (λ c. (c.call_id ≡ call_id) ⊎ (c.result ≢ none)) (values run.tool_calls))
      ⊎ ((events ≡ [])
          × Any (λ c. (c.call_id ≢ call_id) × (c.result ≡ none)) (values run.tool_calls))

  answered_or_not :
      (call_id : String) (c : ToolCallProjection V)
      → (str_eq c.call_id call_id || is_some c.result ≡ true
          → (c.call_id ≡ call_id) ⊎ (c.result ≢ none))
        × (str_eq c.call_id call_id || is_some c.result ≡ false
            → (c.call_id ≢ call_id) × (c.result ≡ none))
  answered_or_not call_id c = go c.result
    where
      go :
          (o : Option V)
          → (str_eq c.call_id call_id || is_some o ≡ true → (c.call_id ≡ call_id) ⊎ (o ≢ none))
            × (str_eq c.call_id call_id || is_some o ≡ false → (c.call_id ≢ call_id) × (o ≡ none))
      go none = (
        λ h. inl ((eq_iff c.call_id call_id).0 (only (str_eq c.call_id call_id) h)),
        λ h. (
          λ e.
              true_not_false
                (sym ((eq_iff c.call_id call_id).1 e) ∙ neither (str_eq c.call_id call_id) h),
          refl,
        ),
      )
      go (some result) =
          (λ h. inr (λ e. absurd (cc)), λ h. absurd (one_holds (str_eq c.call_id call_id) h))

  all-cases :
      (test : ToolCallProjection V → Bool) (P Q : ToolCallProjection V → Type 0)
      (calls : List (ToolCallProjection V))
      → ((c : ToolCallProjection V) → (test c ≡ true → P c) × (test c ≡ false → Q c))
      → (all test calls ≡ true → All P calls) × (all test calls ≡ false → Any Q calls)
  all-cases test P Q [] f = (λ h. tt, λ h. absurd (cc))
  all-cases test P Q (c ∷ calls) f =
      let (passes, fails) = all-cases test P Q calls f in
      elim (Bool-cases (test c)) [
        | inl holds ↦
            (λ h. ((f c).0 holds, passes (rw holds at h)), λ h. inr (fails (rw holds at h)))
        | inr not_so ↦ (λ h. absurd (cc (rw not_so at h)), λ h. inl ((f c).1 not_so))
      ]

  result_events-Resumes :
      (run : RunProjection V) (call : ToolCallProjection V) (run_id call_id : String) (result : V)
      → (more : List (SemanticEvent V)) × (result_events run call run_id call_id result
          ≡ tool_result run_id call_id call.agent_id call.tool_name result ∷ more)
        × Resumes run call_id more
  unfolding result_events is_last_result
  result_events-Resumes run call run_id call_id result =
      let test : ToolCallProjection V → Bool = λ c. str_eq c.call_id call_id || is_some c.result in
      let (every, some_left) =
        all-cases test _ _ (values run.tool_calls) (answered_or_not call_id) in
      elim (Bool-cases (all test (values run.tool_calls))) [
        | inl last ↦ (queue_resumed ∷ [], rw last refl, inl (refl, every last))
        | inr not_last ↦ ([], rw not_last refl, inr (refl, some_left not_last))
      ]

  find-Approves :
      (run_id call_id : String) (requests : List (PermissionProjection V))
      → decision_of (find (request_for run_id call_id) requests) ≡ some allow
      → Any (Approves run_id call_id) requests
  find-Approves run_id call_id [] h = absurd (cc)
  find-Approves run_id call_id (request ∷ requests) h =
      elim (Bool-cases (request_for run_id call_id request)) [
        | inl for_it ↦
            let (same_run, same_call) = both _ _ for_it in
            inl (
              (eq_iff request.run_id run_id).0 same_run,
              same_option request.call_id call_id same_call,
              rw for_it at h,
            )
        | inr other ↦ inr (find-Approves run_id call_id requests (rw other at h))
      ]

module _ {V : Type 0} ⦃j : Json V⦄ where
  -- What the projection `p` says of a submitted result that is accepted, and what is published then: the
  -- result, and that the queue goes on where it was the last; or nothing where the call has that result.
  pub record Accepts (p : SessionProjection V) (run_id call_id : String) (result : V)
      (before after : List (RecordedEvent V)) : Type 0 where
    pub run : RunProjection V
    pub call : ToolCallProjection V
    pub found_run : get run_id p.runs ≡ some run
    pub waits : run.status ≡ requires_action
    pub found_call : get call_id run.tool_calls ≡ some call
    pub is_client_tool : call.native ≡ false
    pub approved : Any (Approves run_id call_id) (values p.pending_permissions)
    pub recorded :
        ((call.result ≡ none)
          × ((new : List (RecordedEvent V)) × (more : List (SemanticEvent V)) × (after
                ≡ before ++ new)
              × (map (λ e. e.event) new
                  ≡ tool_result run_id call_id call.agent_id call.tool_name result ∷ more)
              × Resumes run call_id more))
        ⊎ ((existing : V) × (call.result ≡ some existing)
            × (j.same existing result ≡ true)
            × (after ≡ before))

  find_call-eq-ok :
      (p : SessionProjection V) (run : RunProjection V) (run_id call_id : String)
      {call : ToolCallProjection V}
      → find_call p run run_id call_id ≡ ok call
      → get call_id run.tool_calls ≡ some call
  unfolding find_call
  find_call-eq-ok p run run_id call_id h = ground arith

  projected-published :
      (session_id : String) (s : Supervisor V) {t : Supervisor V} {p : SessionProjection V}
      → projection session_id s ≡ (t, ok p)
      → t.published ≡ s.published
  projected-published session_id s h =
      sym (ap (λ (x : Supervisor V × Result StoreError (SessionProjection V)). x.0.published) h)
      ∙ projection-published session_id s

module _ {V : Type 0} ⦃j : Json V⦄ (outside : Outside V) where
  abbrev Recorded :
      String
      → String
      → V
      → RunProjection V
      → ToolCallProjection V
      → Supervisor V
      → Supervisor V
      → Type 0
  Recorded run_id call_id result run call s t =
      ((call.result ≡ none)
        × ((new : List (RecordedEvent V)) × (more : List (SemanticEvent V)) × (t.published
              ≡ s.published ++ new)
            × (map (λ e. e.event) new
                ≡ tool_result run_id call_id call.agent_id call.tool_name result ∷ more)
            × Resumes run call_id more))
      ⊎ ((existing : V) × (call.result ≡ some existing)
          × (j.same existing result ≡ true)
          × (t.published ≡ s.published))

  record_submitted-succeeds :
      (session_id run_id call_id : String) (result : V) (run : RunProjection V)
      (call : ToolCallProjection V) (s : Supervisor V) {t : Supervisor V} {last : Bool}
      (stored : Option V)
      → call.result ≡ stored
      → record_submitted outside session_id run_id call_id result run call stored s ≡ (t, ok last)
      → Recorded run_id call_id result run call s t
  unfolding record_submitted
  record_submitted-succeeds session_id run_id call_id result run call s none e h =
      let (recorded, u, appended, rest) =
        >>=-succeeds (append_many outside session_id (result_events run call run_id call_id result))
          _ s h in
      let (grown, events_are) = append_many-published outside session_id _ s appended in
      let unmoved = (pure-succeeds (is_last_result run call_id) u rest).1 in
      let (more, spelled, resumes) = result_events-Resumes run call run_id call_id result in
      inl (e, (recorded, more, rw unmoved grown, events_are ∙ spelled, resumes))
  record_submitted-succeeds session_id run_id call_id result run call s (some existing) e h =
      elim (Bool-cases (j.same existing result)) [
        | inl same ↦
            let unmoved = (pure-succeeds false s (rw same at h)).1 in
            inr (existing, e, same, rw unmoved refl)
        | inr other ↦ absurd (fail-succeeds _ s (rw other at h))
      ]

  -- A submitted result that is accepted is one of a call of the run, the run waits for results, the call
  -- is the client's to execute, and it was allowed. It is then recorded, if the call had no result; if the
  -- call had this result already, nothing is.
  submit-Ensures :
      (session_id run_id call_id : String) (result : V) (s : Supervisor V)
      → Ensures (submit outside session_id run_id call_id result) s (λ t last.
        (p : SessionProjection V) × ((projection session_id s).1 ≡ ok p)
        × Accepts p run_id call_id result s.published t.published)
  unfolding submit get_run ensure_allowed
  submit-Ensures session_id run_id call_id result s =
      >>=-Ensures _ (projection session_id) _ s (λ s0 p projected.
        lift-Ensures _ _ _ s0 (λ run got_run. check-Ensures _ _ _ _ s0 (λ waiting.
          lift-Ensures _ _ _ s0 (λ request is_request. check-Ensures _ _ _ _ s0 (λ ours.
            lift-Ensures _ _ _ s0 (λ call got_call. check-Ensures _ _ _ _ s0 (λ client.
              lift-Ensures _ _ _ s0 (λ allowed is_allowed. record {
                ensured = λ t last h.
                    let fresh = projected-published session_id s projected in
                    (
                      p,
                      ap (λ (x : Supervisor V × Result StoreError (SessionProjection V)). x.1)
                          projected,
                      record {
                        run = run;
                        call = call;
                        found_run = ok_or-eq-ok (get run_id p.runs) _ got_run;
                        waits = status_is run.status waiting;
                        found_call = find_call-eq-ok p run run_id call_id got_call;
                        is_client_tool = negated call.native client;
                        approved =
                            find-Approves run_id call_id (values p.pending_permissions)
                              (decided _ is_allowed);
                        recorded = rw (← fresh) (
                            record_submitted-succeeds session_id run_id call_id result run call s0
                              call.result refl h);
                      },
                    );
              }))))))))

  -- the worker is spawned after the results are all there
  when_spawned :
      (last : Bool) (session_id : String) (s : Supervisor V) {t : Supervisor V}
      → when last (spawn_worker session_id) s ≡ (t, ok tt)
      → t.published ≡ s.published
  unfolding when
  when_spawned true session_id s h =
      sym (ap (λ (x : Supervisor V × Result StoreError (Unit {0})). x.0.published) h)
      ∙ spawn_worker-published session_id s
  when_spawned false session_id s h =
      sym (ap (λ (x : Supervisor V × Result StoreError (Unit {0})). x.0.published) h)

  -- A submitted result is accepted only while the server is not shutting down, of a run that waits for
  -- results, for a call of that run that is the client's to execute, and where a request for that call of
  -- that run was allowed. Then the result is published, if the call had none, and after it the queue's
  -- resumption exactly if every other call of the run has its result; or nothing is published, where the
  -- call has this result already.
  pub submit_tool_result-Accepts :
      (session_id run_id call_id : String) (result : V) (s : Supervisor V) {t : Supervisor V}
      → submit_tool_result outside session_id run_id call_id result s ≡ (t, ok tt)
      → (s.is_shutting_down ≡ false)
        × ((p : SessionProjection V) × ((projection session_id s).1 ≡ ok p)
            × Accepts p run_id call_id result s.published t.published)
  unfolding submit_tool_result
  submit_tool_result-Accepts session_id run_id call_id result s {t = t} h =
      (>>=-Ensures
          (λ t done.
            (s.is_shutting_down ≡ false)
            × ((p : SessionProjection V) × ((projection session_id s).1 ≡ ok p)
                × Accepts p run_id call_id result s.published t.published))
          ensure_running _ s
          (λ s0 done running.
            let (on, e0) = ensure_running-succeeds s running in
            >>=-Ensures _ (ensure_session_mutable session_id) _ s0 (λ s1 done mutable.
              let e1 = ensure_session_mutable-succeeds session_id s0 mutable ∙ e0 in
              >>=-Ensures _ (submit outside session_id run_id call_id result) _ s1
                (λ s2 last submitted. record {
                  ensured = λ u done spawned.
                      let accepted =
                        (submit-Ensures session_id run_id call_id result s).ensured s2 last
                          (rw e1 at submitted) in
                      (on, rw (when_spawned last session_id s2 spawned) accepted);
                })))).ensured
        t tt h
