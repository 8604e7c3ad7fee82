-- ===== src/Tests.antt =====
-- Runs of the model on concrete data, and the theorems applied to them. JSON values are strings here.
mod Projections
mod Queues
mod Logs
mod Permissions
mod Requests
mod Admission
mod Streams
mod Stores
mod Overlaps
mod Supervision
use piqo_server.Prelude.{String, List, [], ◌∷◌, Option, none, some, true, false, str_eq}
use piqo_server.Prelude.Int.{pos, negsuc}
use package.text.Mathlib.TextPositions.{eq_refl}
use piqo_server.Core.Json.{Json}
use piqo_server.Core.Context.{no_context}
use piqo_server.Core.Phases.{RunStatus, SessionPhase, MessageRole, MessageAuthor, text}
use piqo_server.Core.SessionState.{SessionState}
use piqo_server.Core.Projection.{
  SessionProjection, RunProjection, ToolCallProjection, PermissionProjection, MessageProjection,
}
use piqo_server.Core.Permissions.{PermissionDecision}

instance pub json_strings : Json String
json_strings = record { same = str_eq; same_refl = eq_refl }

abbrev pub a_call : Option String → ToolCallProjection String
a_call result = record {
  call_id = "call";
  assistant_message_id = "m2";
  agent_id = "assistant";
  tool_name = "read";
  arguments = "{}";
  raw_arguments = "{}";
  native = true;
  execution_id = none;
  result = result;
}

abbrev pub a_run : String → RunStatus → Option String → RunProjection String
a_run run_id status result = record {
  run_id = run_id;
  retry_of = none;
  provider = "local";
  model = "small";
  request = "{}";
  status = status;
  attempt_id = some "attempt";
  attempts = 1;
  error = none;
  usage = none;
  queue_priority = pos 0;
  tool_calls = ("call", a_call result) ∷ [];
}

abbrev pub a_request : PermissionProjection String
a_request = record {
  request_id = "ask";
  run_id = "run";
  call_id = some "call";
  agent_id = "assistant";
  tool_name = "read";
  arguments = "{}";
  decision = some PermissionDecision.deny;
}

abbrev pub a_message : MessageProjection String
a_message = record {
  message_id = "m1";
  role = MessageRole.user;
  agent_id = none;
  author = MessageAuthor.user;
  blocks = text "hello" ∷ [];
  completed = true;
  interrupted = false;
  first_event_id = 2;
  last_event_id = 4;
}

-- a running session with one run of the given status, whose call has the given result
abbrev pub a_session : RunStatus → Option String → SessionProjection String
a_session status result = record {
  state = record {
    session_id = "s";
    phase = SessionPhase.running;
    revision = 1;
    last_event_id = some 8;
  };
  messages = a_message ∷ [];
  agents = [];
  agent_instances = [];
  pending_permissions = ("ask", a_request) ∷ [];
  runs = ("run", a_run "run" status result) ∷ [];
  queue_paused = false;
  context = no_context;
}
