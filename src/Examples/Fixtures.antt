-- ===== src/Examples/Fixtures.antt =====
-- The values that the examples share.
use uprava.Prelude.{◌+◌, Option, none, some, List, [], ◌∷◌, ◌++◌, codes, decimal, pos}
use uprava.Protocol.Json.{Json, empty_object}
use uprava.Protocol.Reference.{ActorRef, ScopeRef, EventId, RuntimeSessionId, CommandId}
use uprava.Protocol.Domain.{CommandKind, EventKind}
use uprava.Protocol.Command.{CommandEnvelope, CommandPayload, CommandTarget}
use uprava.Protocol.Event.{EventEnvelope}
use uprava.Protocol.Payload.{Serde, from_json}
use uprava.Node.State.{NodeLocalState}
use uprava.Node.Outbox.{Host}

abbrev pub serde : Serde
serde = record {
  runtime_data = λ v. none;
  activity_data = λ v. none;
  uprava_refs = λ v. some [];
  uprava_ref = λ v. none;
  placement_state = λ v. none;
  resource_badges = λ v. some [];
  git_snapshot = λ v. none;
  task_run_state = λ v. none;
  task_cleanup_state = λ v. none;
  to_value = λ k. Json.null;
}

-- Every event is encoded in a hundred bytes; the clock stands at 1000 and the n-th draw adds n.
abbrev pub host : Host
host = record {
  serde = serde;
  to_vec_len = λ e. some 100;
  duration_from_std = λ d. some d;
  new_event_id = λ n. codes "drawn-" ++ decimal n;
  utc_now = λ n. 1_000 + n;
}

abbrev pub event_at :
    EventId → Option CommandId → Option RuntimeSessionId → EventKind → EventEnvelope
event_at id command runtime kind = record {
  event_id = id;
  command_id = command;
  correlation_id = none;
  actor_ref = ActorRef.system;
  scope_ref = ScopeRef.unknown [];
  node_id = some (codes "node");
  runtime_session_id = runtime;
  session_thread_id = none;
  turn_id = none;
  seq = pos 1;
  session_projection_seq = none;
  kind = kind;
  happened_at = 900;
  source_refs = [];
  evidence_refs = [];
  cause_refs = [];
  result_refs = [];
  payload = from_json serde kind empty_object;
}

abbrev pub first_event : EventEnvelope
first_event = event_at (codes "e1") (some (codes "c1")) (some (codes "r1")) EventKind.runtime_ready

abbrev pub second_event : EventEnvelope
second_event = event_at (codes "e2") none (some (codes "r2")) EventKind.runtime_running

abbrev pub third_event : EventEnvelope
third_event = event_at (codes "e3") none none EventKind.turn_started

abbrev pub outbox : List EventEnvelope
outbox = first_event ∷ second_event ∷ third_event ∷ []

abbrev pub empty_state : NodeLocalState
empty_state = record {
  state_slot = codes "default";
  schema_version = 1;
  daemon_installation_id = codes "daemon";
  node_id = some (codes "node");
  credential = some (codes "secret");
  enrollment_id = none;
  pairing_code = none;
  command_status = [];
  command_result_payloads = [];
  runtime_seqs = [];
  event_outbox = [];
  runtime_providers = [];
  runtime_workspace_paths = [];
  runtime_states = [];
  runtime_transcripts = [];
  runtime_provider_resume_refs = [];
  cancelled_deductions = [];
  tool_dependencies = [];
  task_runtime_mappings = [];
  placement_seqs = [];
  reconnect_attempts = 0;
  dropped_event_count = 0;
  heartbeat_failures = 0;
}

abbrev pub busy_state : NodeLocalState
busy_state = record empty_state { event_outbox = outbox; runtime_seqs = (codes "r1", pos 4) ∷ [] }

abbrev pub runtime_target : CommandTarget
runtime_target = CommandTarget.session_runtime (codes "node") (codes "p1") (codes "s1") (codes "r1")

abbrev pub command_of : CommandId → CommandKind → CommandPayload → CommandEnvelope
command_of id kind payload = record {
  command_id = id;
  kind = kind;
  target = runtime_target;
  actor_ref = ActorRef.system;
  source_refs = [];
  cause_refs = [];
  issued_at = 900;
  correlation_id = codes "k1";
  payload = payload;
}

abbrev pub start_command : CommandEnvelope
start_command =
    command_of (codes "c1") CommandKind.start_runtime
      (CommandPayload.start_runtime (codes "codex") (codes "/work"))

abbrev pub turn_command : CommandEnvelope
turn_command =
    command_of (codes "c2") CommandKind.send_turn
      (CommandPayload.send_turn (codes "hello") (codes "t1"))

abbrev pub interrupt_command : CommandEnvelope
interrupt_command =
    command_of (codes "c3") CommandKind.interrupt_runtime CommandPayload.interrupt_runtime
