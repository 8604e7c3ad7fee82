-- ===== src/Core/Projection/Apply/Histories.antt =====
-- What holds of a session however its history goes on.
use piqo_server.Prelude.{String, true, ◌≡◌, refl, inl, inr, some}
use piqo_server.Prelude.Map.{get}
use piqo_server.Prelude.Map.Carries.{Carries, Carries-refl, Carries-trans}
use piqo_server.Core.Json.{Json}
use piqo_server.Core.Phases.{RunStatus}
use piqo_server.Core.Event.{EventId, SemanticEvent}
use piqo_server.Core.Projection.{SessionProjection, RunProjection, ToolCallProjection}
use piqo_server.Core.Projection.Runs.Evolution.{
  ◌⟶◌, ◌⟶?◌, begin, resume, pause, end, is_terminal, RunKeeps, RunKeeps-trans, SameRun-refl,
  CallKeeps, CallKeeps-refl,
}
use piqo_server.Core.Projection.Apply.{apply}
use piqo_server.Core.Projection.Apply.Effects.{apply-Moved}

-- The projections that a session can come to from `p`: by any events, accepted or refused.
pub data Later {V : Type 0} ⦃j : Json V⦄ (p : SessionProjection V)
    : SessionProjection V → Type 0 where
  now : Later p p
  then :
      {q : SessionProjection V}
      → Later p q
      → (event_id : EventId) (event : SemanticEvent V) → Later p (apply q event_id event).0

infix 40 ◌⟶*◌
pub data ◌⟶*◌ (s : RunStatus) : RunStatus → Type 0 where
  stay : s ⟶* s
  more : {t u : RunStatus} → s ⟶* t → t ⟶ u → s ⟶* u

extend : (s t u : RunStatus) → s ⟶* t → t ⟶? u → s ⟶* u
extend s t u h (inl e) = rw (← e) h
extend s t u h (inr m) = more h m

terminal_stays : {s t : RunStatus} → s ⟶* t → is_terminal s ≡ true → t ≡ s
terminal_stays stay h = refl
terminal_stays (more {t = t} r m) h = absurd (not_left m (terminal_stays r h) h)
  where
    not_left : {s t u : RunStatus} → t ⟶ u → t ≡ s → is_terminal s ≡ true → ⊥
    not_left begin e h = cc
    not_left resume e h = cc
    not_left pause e h = cc
    not_left (end a b) e h = cc

module _ {V : Type 0} ⦃j : Json V⦄ where
  -- However the history goes on, every run of the session is still there, has come to its status by
  -- edges of the life cycle, and keeps its identity, its tool calls and what was recorded for them.
  pub Later-RunKeeps :
      {p q : SessionProjection V} → Later p q → Carries (RunKeeps ◌⟶*◌) p.runs q.runs
  Later-RunKeeps {p = p} now = Carries-refl (RunKeeps ◌⟶*◌) p.runs (λ r. record {
    identity = SameRun-refl r;
    status_moves = stay;
    calls_kept = Carries-refl CallKeeps r.tool_calls CallKeeps-refl;
  })
  Later-RunKeeps {p = p} (then {q = q} l event_id event) =
      Carries-trans (RunKeeps ◌⟶*◌) (RunKeeps ◌⟶?◌) (RunKeeps ◌⟶*◌) p.runs q.runs
        (apply q event_id event).0.runs (RunKeeps-trans ◌⟶*◌ ◌⟶?◌ ◌⟶*◌ extend) (Later-RunKeeps l)
        (apply-Moved q event_id event)

  -- A run that has completed, failed, been cancelled or been interrupted is so for ever.
  pub terminal_run_final :
      {p q : SessionProjection V} (run_id : String) (r : RunProjection V)
      → Later p q
      → get run_id p.runs ≡ some r
      → is_terminal r.status ≡ true
      → (s : RunProjection V) × (get run_id q.runs ≡ some s) × (s.status ≡ r.status)
  terminal_run_final run_id r l found t =
      let (s, there, keeps) = Later-RunKeeps l run_id r found in
      (s, there, terminal_stays keeps.status_moves t)

  -- A tool result, once recorded, is never lost or replaced, whatever the history goes on with.
  pub tool_result_final :
      {p q : SessionProjection V} (run_id call_id : String) (r : RunProjection V)
      (c : ToolCallProjection V) (result : V)
      → Later p q
      → get run_id p.runs ≡ some r
      → get call_id r.tool_calls ≡ some c
      → c.result ≡ some result
      → (s : RunProjection V) × (d : ToolCallProjection V) × (get run_id q.runs ≡ some s)
        × (get call_id s.tool_calls ≡ some d)
        × (d.result ≡ some result)
        × (d.tool_name ≡ c.tool_name)
        × (d.arguments ≡ c.arguments)
  tool_result_final run_id call_id r c result l found call recorded =
      let (s, there, keeps) = Later-RunKeeps l run_id r found in
      let (d, called, kept) = keeps.calls_kept call_id c call in
      (s, d, there, called, kept.result_kept result recorded, kept.same_tool, kept.same_arguments)
