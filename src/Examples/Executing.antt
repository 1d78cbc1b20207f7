-- ===== src/Examples/Executing.antt =====
-- A runtime is started, and the command is delivered again.
use uprava.Prelude.{
  ◌≡◌, refl, ◌≢◌, ◌↔◌, inl, inr, Bool, true, false, none, some, [], ◌∷◌, ◌++◌, codes, text_eq, trim,
  if◌then◌else◌, get, decimal,
}
use uprava.Protocol.Json.{Json, empty_object}
use uprava.Protocol.Domain.{CommandKind, CommandState, EventKind}
use uprava.Protocol.Command.{runtime_session_id, provider, workspace_path, matches_kind}
use uprava.Protocol.Event.{EventEnvelope}
use uprava.Protocol.Payload.{from_json, from_json-matches_kind}
use uprava.Protocol.Event
use uprava.Node.State.{NodeLocalState}
use uprava.Node.Outbox.{outbox_events_for_command}
use uprava.Node.Causal.{ResponseSerde}
use uprava.Node.Metadata.{
  Canonical, provider_for_command, workspace_path_for_command, remember_runtime_metadata,
  payload_provider, payload_workspace_path,
}
use uprava.Node.Execution.{
  Executors, CommandDispatchOutcome, CommandExecutionContext, Dispatched,
  prepare_command_dispatch_with_live_socket, provider_mcp_access_failure_outcome,
}
use uprava.Node.Execution.Records.{answer, dispatch-recorded}
use uprava.Node.Execution.Replay.{dispatch-replay, mcp_access_failure-replay}
use uprava.Node.Execution.Recall.{remember-recall}
use uprava.Examples.Fixtures.{serde, host, first_event, empty_state, start_command, turn_command}

abbrev decode : ResponseSerde
decode = record {
  file_write_response = λ v. none;
  command_run_response = λ v. none;
  diff_response = λ v. none;
  to_rfc3339 = λ t. decimal t;
}

abbrev done : CommandState × Json
done = (CommandState.completed, empty_object)

abbrev canonical : Canonical
canonical path = inr (codes "/srv" ++ path)

abbrev executors : Executors
executors = record {
  canonical_workspace_root = canonical;
  placement_snapshot_events = λ kind c seqs. (seqs, []);
  workspace_tree = λ c. done;
  workspace_file = λ c. done;
  workspace_file_write = λ c. done;
  workspace_command_run = λ c. done;
  workspace_diff = λ c. done;
  workspace_terminal_open = λ c. done;
  execute_deduction = λ p c w. done;
  execute_command = λ p c seqs w transcripts refs. record {
    seqs = seqs;
    transcripts = transcripts;
    resume_refs = refs;
    emitted = first_event ∷ [];
    events = first_event ∷ [];
  };
  task_command = λ c. (CommandState.completed, empty_object, []);
  tooling_command = λ s t. (s, CommandState.completed, empty_object);
  encode_failed_deduction = λ d p c m. inl empty_object;
  iter_next = λ s. none;
}

abbrev context : CommandExecutionContext
context = record { live_sender = true; cancellation = none }

start_matches : matches_kind start_command.payload start_command.kind ≡ true
unfolding matches_kind
start_matches = refl

turn_matches : matches_kind turn_command.payload turn_command.kind ≡ true
unfolding matches_kind
turn_matches = refl

start_is_new : get start_command.command_id empty_state.command_status ≡ none
unfolding get
start_is_new = refl

start_has_no_payload : get start_command.command_id empty_state.command_result_payloads ≡ none
unfolding get
start_has_no_payload = refl

turn_has_no_payload : get turn_command.command_id empty_state.command_result_payloads ≡ none
unfolding get
turn_has_no_payload = refl

dispatch-recorded_example :
    (d : Dispatched) × (prepare_command_dispatch_with_live_socket executors host decode context
        empty_state start_command
      ≡ some d)
    × (if d.1.state_changed
        then get start_command.command_id d.0.command_status ≡ some d.1.status
        else d.0 ≡ empty_state)
dispatch-recorded_example =
    dispatch-recorded executors host decode context empty_state start_command
      (λ h. start_has_no_payload)

dispatch-replay_example :
    (s1 : NodeLocalState) × (first again : CommandDispatchOutcome)
    × (prepare_command_dispatch_with_live_socket executors host decode context empty_state
          start_command
        ≡ some (s1, first))
    × (prepare_command_dispatch_with_live_socket executors host decode context s1 start_command
        ≡ some (s1, again))
    × (again.status ≡ first.status)
    × (again.result_payload ≡ answer CommandKind.start_runtime first.result_payload)
    × (again.events_to_send ≡ outbox_events_for_command s1.event_outbox (codes "c1"))
    × (again.state_changed ≡ false)
dispatch-replay_example =
    dispatch-replay executors executors host host decode decode context context empty_state
      start_command start_matches start_is_new start_has_no_payload

mcp_access_failure-replay_example :
    let (s1, first) =
      provider_mcp_access_failure_outcome executors host decode empty_state turn_command in
    (again : CommandDispatchOutcome) × (prepare_command_dispatch_with_live_socket executors host
        decode context s1 turn_command
      ≡ some (s1, again))
    × (again.status ≡ first.status)
    × (again.result_payload ≡ empty_object)
    × (first.result_payload ≢ empty_object)
mcp_access_failure-replay_example =
    mcp_access_failure-replay executors host decode context empty_state turn_command turn_matches
      turn_has_no_payload

start_provider : payload_provider start_command ≡ some (codes "codex")
unfolding payload_provider provider trim
start_provider = refl

start_workspace : payload_workspace_path start_command ≡ some (codes "/work")
unfolding payload_workspace_path workspace_path trim
start_workspace = refl

turn_provider : payload_provider turn_command ≡ none
unfolding payload_provider provider
turn_provider = refl

turn_workspace : payload_workspace_path turn_command ≡ none
unfolding payload_workspace_path workspace_path
turn_workspace = refl

start_runtime_id : runtime_session_id start_command.target ≡ some (codes "r1")
unfolding runtime_session_id
start_runtime_id = refl

remember-recall_example :
    (s' : NodeLocalState) × (changed : Bool) × (remember_runtime_metadata canonical empty_state
        start_command
      ≡ inr (s', changed))
    × (provider_for_command s' turn_command ≡ (
        if text_eq (codes "r1") (codes "r1")
        then some (codes "codex")
        else provider_for_command empty_state turn_command))
    × (workspace_path_for_command s' turn_command ≡ (
        if text_eq (codes "r1") (codes "r1")
        then some (codes "/srv/work")
        else workspace_path_for_command empty_state turn_command))
remember-recall_example =
    remember-recall canonical empty_state start_command turn_command (codes "r1") (codes "r1")
      (codes "codex") (codes "/work") (codes "/srv/work") refl start_runtime_id start_runtime_id
      start_provider start_workspace refl turn_provider turn_workspace

from_json-matches_kind_example :
    (uprava.Protocol.Event.matches_kind
        (from_json serde EventKind.turn_started empty_object).kind
        EventKind.turn_completed
      ≡ true)
    ↔ (EventKind.turn_completed ≡ EventKind.turn_started)
from_json-matches_kind_example =
    from_json-matches_kind serde EventKind.turn_started EventKind.turn_completed empty_object
