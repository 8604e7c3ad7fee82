-- ===== src/Tests/Supervision.antt =====
-- Calls to a supervisor with one session.
use piqo_server.Prelude.{
  String, false, ◌≡◌, refl, Option, none, some, List, [], ◌∷◌, ok, str_eq, option_eq, eq_iff,
  Bool-cases, inl, inr,
}
use piqo_server.Prelude.Steps.{◌>>=◌, continue, read, check, pure, lift, when, update, attempt}
use piqo_server.Prelude.Map.{get, insert, values, modify}
use piqo_server.Server.Supervisor.{
  ensure_running, ensure_session_mutable, get_session, refuse_deleting, get_run, parse_request,
  new_id, append, append_many, store_events, publish_recorded, publish_all, publish_event, store_of,
  put_store, spawn_worker, release_terminal_admission,
}
use piqo_server.Server.Storage.{current, applied, append_event, append_all, append_events}
use piqo_server.Core.SessionState
use piqo_server.Core.Projection.Apply
use piqo_server.Core.Projection.Apply.{project_event, put_runs}
use piqo_server.Core.Projection.Runs.{edit_run, start_run}
use piqo_server.Core.Projection.ToolCalls.{edit_call, record_result}
use piqo_server.Core.Projection.Queue.{
  active_run, queued_runs, ready_action_run, sort_runs, put_in_order,
}
use piqo_server.Server.Supervisor.Submitting.{
  submit, owns_transcript, find_call, ensure_allowed, is_last_result, result_events,
  record_submitted,
}
use piqo_server.Server.Supervisor.Processing.{
  take_next, take_queued, start_queued, resume_ready, hold_token, or_drop_token, max_model_turns,
  child_budget,
}
use piqo_server.Core.Phases.{RunStatus, SessionPhase}
use piqo_server.Core.Permissions.{PermissionDecision}
use piqo_server.Core.Projection.{SessionProjection, RunProjection, ToolCallProjection}
use piqo_server.Core.Projection.Apply.Accepted.{OnlyRunning}
use piqo_server.Server.Storage.{SessionStore, create_session}
use piqo_server.Server.Storage.Consistency.{create_session-IsConsistent}
use piqo_server.Server.Admission
use piqo_server.Server.Supervisor.{Supervisor, Outside, RunRequest, projection}
use piqo_server.Server.Supervisor.Seeing.{Sees}
use piqo_server.Server.Supervisor.Consistent.{AllConsistent, perform_all-IsConsistent}
use piqo_server.Server.Supervisor.Submitting.{submit_tool_result}
use piqo_server.Server.Supervisor.Submitting.Accepted.{Accepts, submit_tool_result-Accepts}
use piqo_server.Server.Supervisor.Processing.{Next, execute, process_next}
use piqo_server.Server.Supervisor.Processing.Starting.{process_next-OnlyRunning}
use piqo_server.Server.Supervisor.Finishing.{ExecutionResult, record_outcome}
use piqo_server.Server.Supervisor.Finishing.Refused.{IsElsewhere}
use piqo_server.Server.Supervisor.Finishing.Resumed.{resume_ready-refused}
use piqo_server.Server.Supervisor.Calls.{
  Call, queue_run, process_next as process_call, interrupt_remaining_runs, perform_all,
}
use piqo_server.Tests.{json_strings, a_call, a_run, a_request, a_session}

abbrev request : RunRequest String
request = record {
  provider = "local";
  model = "small";
  input = "hello";
  agent = none;
  variant = none;
  body = "{}";
}

abbrev outside : Outside String
outside = record {
  now = λ n. "now";
  uuid = λ n. "run";
  from_value = λ value. ok request;
  to_value = λ request. ok "{}";
  has_field = λ field value. false;
  permission_denied = "denied";
  turns_exceeded = λ turns. "maximum model turns exceeded";
  bytes = λ t. [];
  text_value = λ output. "text";
  result_value = λ result. ok "result";
  limits = record { max_pending_runs = 4; max_pending_runs_per_session = 2 };
  max_model_turns = ok 8;
  resolve_provider = λ name. ok tt;
}

abbrev server : SessionStore String → Supervisor String
server store = record {
  sessions = ("s", record { project_id = none; store = store }) ∷ [];
  rules = [];
  links = [];
  published = [];
  admission = Admission.new;
  cancellations = [];
  projects = [];
  deleting_projects = [];
  workers = [];
  ids = 0;
  is_shutting_down = false;
}

-- a session that was just created
abbrev fresh : Supervisor String
fresh = server (create_session "s" "now" none)

abbrev calls : List (Call String)
calls = queue_run "s" request ∷ process_call "s" ∷ interrupt_remaining_runs "stopped" ∷ []

fresh-AllConsistent : AllConsistent fresh
unfolding get
fresh-AllConsistent session_id session there = elim (Bool-cases (str_eq "s" session_id)) [
  | inl same ↦
      let here = rw same at there in
      let id_is : "s" ≡ session_id = (eq_iff "s" session_id).0 same in
      let session_is : (record { project_id = none; store = create_session "s" "now" none })
          ≡ session =
        cc in
      rw (← session_is, ← id_is) (create_session-IsConsistent "s" "now" none)
  | inr other ↦ absurd (cc (rw other at there))
]

perform_all-IsConsistent_example : AllConsistent (perform_all outside calls fresh)
perform_all-IsConsistent_example = perform_all-IsConsistent outside calls fresh fresh-AllConsistent

-- a session whose projection is cached
abbrev showing : SessionProjection String → Supervisor String
showing p = server (record {
  row = some (record { phase = p.state.phase; revision = 1; last_event_id = 8 });
  events = [];
  cached = some p;
})

-- a call that the client executes, and that was allowed
abbrev client_call : Option String → ToolCallProjection String
client_call result = record (a_call result) { native = false }

abbrev waiting : Option String → SessionProjection String
waiting result = record (a_session RunStatus.requires_action none) {
  state = record (a_session RunStatus.requires_action none).state {
    phase = SessionPhase.interrupted;
  };
  runs =
      (
        "run",
        record (a_run "run" RunStatus.requires_action none) {
          tool_calls = ("call", client_call result) ∷ [];
        },
      )
      ∷ [];
  pending_permissions = ("ask", record a_request { decision = some PermissionDecision.allow }) ∷ [];
}

submitted :
    (t : Supervisor String) × (submit_tool_result outside "s" "run" "call" "done"
        (showing (waiting none))
      ≡ (t, ok tt))
unfolding ◌>>=◌ continue read check pure lift when update attempt insert values get modify
    projection ensure_running ensure_session_mutable get_session refuse_deleting get_run
    parse_request new_id append append_many store_events publish_recorded publish_all publish_event
    store_of put_store spawn_worker release_terminal_admission current applied append_event
    append_all append_events SessionState.apply Apply.apply project_event put_runs edit_run
    json_strings submit_tool_result submit owns_transcript find_call ensure_allowed is_last_result
    result_events record_submitted edit_call record_result option_eq
submitted = (_, refl)

submit_tool_result-Accepts_example :
    ((showing (waiting none)).is_shutting_down ≡ false)
    × ((p : SessionProjection String) × ((projection "s" (showing (waiting none))).1 ≡ ok p)
        × Accepts p "run" "call" "done" [] submitted.0.published)
submit_tool_result-Accepts_example =
    submit_tool_result-Accepts outside "s" "run" "call" "done" (showing (waiting none)) submitted.1

began :
    (t : Supervisor String) × (run : RunProjection String) × (process_next outside "s"
        (showing (a_session RunStatus.queued none))
      ≡ (t, ok (execute run)))
unfolding ◌>>=◌ continue read check pure lift when update attempt insert values get modify
    projection ensure_running ensure_session_mutable get_session refuse_deleting get_run
    parse_request new_id append append_many store_events publish_recorded publish_all publish_event
    store_of put_store spawn_worker release_terminal_admission current applied append_event
    append_all append_events SessionState.apply Apply.apply project_event put_runs edit_run
    json_strings process_next active_run ready_action_run queued_runs sort_runs put_in_order
    take_next take_queued start_queued hold_token or_drop_token start_run
began = (_, _, refl)

process_next-OnlyRunning_example :
    (q : SessionProjection String) × Sees "s" began.0 q × OnlyRunning began.1.run_id q
process_next-OnlyRunning_example =
    process_next-OnlyRunning outside "s" (showing (a_session RunStatus.queued none)) began.2

resumed :
    (t : Supervisor String) × (next : Next String) × (resume_ready outside "s"
        (a_run "run" RunStatus.requires_action (some "done"))
        (showing (waiting (some "done")))
      ≡ (t, ok next))
unfolding ◌>>=◌ continue read check pure lift when update attempt insert values get modify
    projection ensure_running ensure_session_mutable get_session refuse_deleting get_run
    parse_request new_id append append_many store_events publish_recorded publish_all publish_event
    store_of put_store spawn_worker release_terminal_admission current applied append_event
    append_all append_events SessionState.apply Apply.apply project_event put_runs edit_run
    json_strings resume_ready max_model_turns child_budget hold_token start_run
resumed = (_, _, refl)

resumed-IsElsewhere : IsElsewhere outside "s" (showing (waiting (some "done")))
unfolding current store_of get
resumed-IsElsewhere = (waiting (some "done"), refl, refl)

abbrev run_broke : ExecutionResult String
run_broke = ExecutionResult.failed "broken" false

resume_ready-refused_example :
    ¬ (record_outcome outside "s" "run" run_broke resumed.0 ≡ (resumed.0, ok tt))
resume_ready-refused_example =
    resume_ready-refused outside "s" (a_run "run" RunStatus.requires_action (some "done")) run_broke
      (showing (waiting (some "done"))) refl resumed-IsElsewhere resumed.2
