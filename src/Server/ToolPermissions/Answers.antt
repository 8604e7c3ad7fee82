-- ===== src/Server/ToolPermissions/Answers.antt =====
-- Which requests, resolutions and results the evaluation of a run's calls appends.
use piqo_server.Prelude.{
  String, Bool, true, false, none, some, is_some, not, ◌≡◌, refl, sym, ap, ◌∙◌, Option, List, [],
  ◌∷◌, ◌++◌, map, select, any, if◌then◌else◌, arith,
}
use piqo_server.Core.Permissions.{PermissionDecision, PermissionDecisionSource}
use piqo_server.Prelude.Map.{values}
use piqo_server.Core.Event.{SemanticEvent, permission_requested, permission_resolved, tool_result}
use piqo_server.Core.Projection.{RunProjection, ToolCallProjection}
use piqo_server.Server.ToolPermissions.{AgentPermissions}
use piqo_server.Server.ToolPermissions.Evaluate.{
  PermissionRuleRecord, Outcome, outcome, settle, evaluate_calls, evaluate_tool_permissions,
  open_calls, is_ask,
}

module _ {V : Type 0} where
  -- the ids that an event requests, resolves, or answers with a result
  abbrev pub requested : List (SemanticEvent V) → List String
  requested [] = []
  requested (permission_requested request_id run_id call_id agent_id tool_name arguments ∷ events) =
      request_id ∷ requested events
  requested (_ ∷ events) = requested events

  abbrev pub resolved : List (SemanticEvent V) → List String
  resolved [] = []
  resolved (permission_resolved request_id decision source scope rule_id reason ∷ events) =
      request_id ∷ resolved events
  resolved (_ ∷ events) = resolved events

  -- what is requested, with the call and its tool, and what is decided
  abbrev pub requests : List (SemanticEvent V) → List (String × Option String × String)
  requests [] = []
  requests (permission_requested request_id run_id call_id agent_id tool_name arguments ∷ events) =
      (request_id, call_id, tool_name) ∷ requests events
  requests (_ ∷ events) = requests events

  abbrev pub decisions :
      List (SemanticEvent V)
      → List (String × PermissionDecision × Option PermissionDecisionSource × Option String)
  decisions [] = []
  decisions (permission_resolved request_id decision source scope rule_id reason ∷ events) =
      (request_id, decision, source, rule_id) ∷ decisions events
  decisions (_ ∷ events) = decisions events

  abbrev pub answered : List (SemanticEvent V) → List String
  answered [] = []
  answered (tool_result run_id call_id agent_id tool_name result ∷ events) =
      call_id ∷ answered events
  answered (_ ∷ events) = answered events

-- the decision leaves the request open
abbrev pub stays_open : PermissionDecision → Bool
stays_open PermissionDecision.ask = true
stays_open PermissionDecision.allow = false
stays_open PermissionDecision.deny = false

abbrev pub denies : PermissionDecision → Bool
denies PermissionDecision.deny = true
denies PermissionDecision.allow = false
denies PermissionDecision.ask = false

-- the calls that have no result
abbrev pub unanswered : {V : Type 0} → List (ToolCallProjection V) → List (ToolCallProjection V)
unanswered = select (λ call. elim call.result [ none ↦ true | some result ↦ false ])

module _ (configured parent_ceiling : Option AgentPermissions)
    (matching_permission_rule : String → Option PermissionRuleRecord) {V : Type 0}
    (new_request_id : ToolCallProjection V → String) (permission_denied : V) (agent_id : String)
    (run : RunProjection V) where
  abbrev decision_of : ToolCallProjection V → Outcome
  decision_of call = outcome configured parent_ceiling matching_permission_rule call.tool_name

  abbrev events_of : List (ToolCallProjection V) → List (SemanticEvent V)
  events_of =
      evaluate_calls configured parent_ceiling matching_permission_rule new_request_id
        permission_denied agent_id run

  abbrev settle_of : ToolCallProjection V → Outcome → List (SemanticEvent V)
  settle_of =
      settle configured parent_ceiling matching_permission_rule new_request_id permission_denied
        agent_id run

  settle-events :
      (call : ToolCallProjection V) (o : Outcome) (rest : List (SemanticEvent V))
      → (requested (settle_of call o ++ rest) ≡ requested rest)
        × (resolved (settle_of call o ++ rest)
            ≡ (if is_ask o.decision then resolved rest else new_request_id call ∷ resolved rest))
  unfolding settle
  settle-events call o rest = ground arith

  evaluate_calls-events :
      (calls : List (ToolCallProjection V))
      → (requested (events_of calls) ≡ map new_request_id calls)
        × (resolved (events_of calls)
            ≡ map new_request_id (select (λ call. not (is_ask (decision_of call).decision)) calls))
  unfolding evaluate_calls
  evaluate_calls-events [] = (refl, refl)
  evaluate_calls-events (call ∷ calls) =
      let one = settle-events call (decision_of call) (events_of calls) in
      let rest = evaluate_calls-events calls in
      (
        ap (λ (ids : List String). new_request_id call ∷ ids) (one.0 ∙ rest.0),
        one.1 ∙ rw rest.1 (ground arith),
      )

  abbrev evaluated : List (SemanticEvent V) × Bool
  evaluated =
      evaluate_tool_permissions configured parent_ceiling matching_permission_rule new_request_id
        permission_denied agent_id run

  -- what is recorded of a decision
  abbrev pub decided :
      ToolCallProjection V
      → String × PermissionDecision × Option PermissionDecisionSource × Option String
  decided call =
      let o = decision_of call in (new_request_id call, o.decision, some o.source, o.rule_id)

  settle-decisions :
      (call : ToolCallProjection V) (o : Outcome) (rest : List (SemanticEvent V))
      → (requests (settle_of call o ++ rest) ≡ requests rest)
        × (decisions (settle_of call o ++ rest) ≡ (
            if stays_open o.decision
            then decisions rest
            else (new_request_id call, o.decision, some o.source, o.rule_id) ∷ decisions rest))
        × (answered (settle_of call o ++ rest)
            ≡ (if denies o.decision then call.call_id ∷ answered rest else answered rest))
  unfolding settle
  settle-decisions call o rest = ground arith

  evaluate_calls-decisions :
      (calls : List (ToolCallProjection V))
      → (requests (events_of calls)
          ≡ map (λ call. (new_request_id call, some call.call_id, call.tool_name)) calls)
        × (decisions (events_of calls)
            ≡ map decided (select (λ call. not (stays_open (decision_of call).decision)) calls))
        × (answered (events_of calls)
            ≡ map
                (λ call. call.call_id)
                (select (λ call. denies (decision_of call).decision) calls))
  unfolding evaluate_calls
  evaluate_calls-decisions [] = (refl, refl, refl)
  evaluate_calls-decisions (call ∷ calls) =
      let one = settle-decisions call (decision_of call) (events_of calls) in
      let rest = evaluate_calls-decisions calls in
      (
        ap
            (λ (l : List (String × Option String × String)).
              (new_request_id call, some call.call_id, call.tool_name) ∷ l)
            (one.0 ∙ rest.0),
        one.1 ∙ rw rest.1 (ground arith),
        one.2 ∙ rw rest.2 (ground arith),
      )

  open_calls-unanswered : open_calls run ≡ unanswered (values run.tool_calls)
  open_calls-unanswered = go (values run.tool_calls)
    where
      go :
          (calls : List (ToolCallProjection V))
          → select (λ call. not (is_some call.result)) calls ≡ unanswered calls
      go [] = refl
      go (call ∷ calls) = ground (arith, go calls)

  -- For each call without a result, and no other, a request is appended, in the calls' order, that names
  -- the call and its tool. A request whose decision is to ask stays open; each other is resolved with the
  -- decision, its source and its rule; the calls that are denied, and no others, get a result.
  pub evaluate_tool_permissions-events :
      (requests evaluated.0
        ≡ map
            (λ call. (new_request_id call, some call.call_id, call.tool_name))
            (unanswered (values run.tool_calls)))
      × (decisions evaluated.0
          ≡ map decided (
              select
                (λ call. not (stays_open (decision_of call).decision))
                (unanswered (values run.tool_calls))))
      × (answered evaluated.0
          ≡ map
              (λ call. call.call_id)
              (select
                (λ call. denies (decision_of call).decision)
                (unanswered (values run.tool_calls))))
  unfolding evaluate_tool_permissions
  evaluate_tool_permissions-events =
      rw (← open_calls-unanswered) (evaluate_calls-decisions (open_calls run))

  select-none_asks :
      (calls : List (ToolCallProjection V))
      → any (λ call. is_ask (decision_of call).decision) calls ≡ false
      → select (λ call. not (is_ask (decision_of call).decision)) calls ≡ calls
  select-none_asks [] h = refl
  select-none_asks (call ∷ calls) h = ground (arith, select-none_asks calls)

  -- Where no approval is awaited, every request that is appended is resolved as well.
  pub evaluate_tool_permissions-awaits :
      evaluated.1 ≡ false → resolved evaluated.0 ≡ requested evaluated.0
  unfolding evaluate_tool_permissions
  evaluate_tool_permissions-awaits h =
      let events = evaluate_calls-events (open_calls run) in
      events.1 ∙ ap (map new_request_id) (select-none_asks (open_calls run) h) ∙ sym events.0
