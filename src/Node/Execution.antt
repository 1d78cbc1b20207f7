-- ===== src/Node/Execution.antt =====
-- How Node carries out a command and records the result:
-- `prepare_command_dispatch_with_live_socket`, `provider_mcp_access_failure_outcome`,
-- `record_command_result_payload` and `workspace_command_outcome` of
-- crates/uprava-node/src/runtime/application/execution.rs, `deduction_error_payload` of provider.rs,
-- `durable_tooling_result_payload` of tool_runtime.rs.
pub mod Recall
pub mod Records
pub mod Replay
use uprava.Prelude.{
  ◌+◌, ◌-◌, ◌*◌, ◌/◌, ◌%◌, ◌^◌, ◌≤◌, ◌<◌, ℕ, zero, suc, max, min, compare, Ordering, ◌≡◌, refl, sym,
  ap, ◌∙◌, subst, ◌≢◌, ◌↔◌, ◌⊎◌, inl, inr, Bool, true, false, ◌&&◌, ◌||◌, not, Option, none, some,
  List, [], ◌∷◌, ◌++◌, map, arith, Text, codes, text_eq, text_lt, contains_char, contains_text,
  strip_prefix, trim, byte_len, utf8_len, text_eq_iff, text_eq_refl, ltb, leb, ◌==◌, if◌then◌else◌,
  Bool-cases, Option-cases, and_then, option_map, map_or, unwrap_or, or_else, is_some,
  option_filter, length, take, drop, is_empty, retain, any, all, count_if, Map, get, insert, remove,
  contains_key, keys, set_insert, set_remove, get-insert, get-remove, map_laws,
  contains_text-set_insert, contains_text-set_remove, i64_max, All, get_elem?, length-append,
  length-drop, length-take, length-retain, count_if-le-length, take-append-drop, any-append,
  retain-append, All-append, All-drop, strip_prefix-append, append-cancel_left, trim_start,
  is_whitespace, text_eq-sym, ==_iff, eqℤ-refl, maxℤ, ◌≤ℤ◌, ◌<ℤ◌, maxℤ-ge_left, maxℤ-ge_right, ℤ,
  pos, negsuc, i64_succ, eqℤ, leℤ, ltb→lt, lt→ltb, leb→le,
}
use uprava.Protocol.Json.{Json, JsonFields, object_of, empty_object, remove_field}
use uprava.Protocol.Reference.{DeductionId}
use uprava.Protocol.Domain.{CommandKind, CommandState, EventKind, RuntimeSessionState}
use uprava.Protocol.Command.{
  CommandEnvelope, CommandPayload, DeductionInputPackage, ToolingCommandV1, matches_kind,
}
use uprava.Protocol.Event.{EventEnvelope}
use uprava.Node.State.{NodeLocalState, ProviderTranscriptMessage, ProviderResumeRef}
use uprava.Node.Merge.{remember_cancelled_deduction}
use uprava.Node.Outbox.{
  Host, apply_runtime_state_projection, command_status_for_events, outbox_events_for_command,
  enforce_event_outbox_retention, max_event_outbox_events,
}
use uprava.Node.Events.{
  mcp_access_events, missing_provider_events_for_command, runtime_workspace_error_events,
  WorkspaceInspectError,
}
use uprava.Node.Causal.{ResponseSerde, causal_workspace_events}
use uprava.Node.Metadata.{
  Canonical, provider_for_command, workspace_path_for_command, remember_runtime_metadata,
}

-- What a provider's run leaves behind: the maps that it was lent, the events that it emitted while
-- it ran, and the events that it returns.
pub record RuntimeRun : Type 0 where
  pub seqs : Map ℤ
  pub transcripts : Map (List ProviderTranscriptMessage)
  pub resume_refs : Map ProviderResumeRef
  pub emitted : List EventEnvelope
  pub events : List EventEnvelope

-- The code that reaches the file system, the providers, the sandboxes and the tools, as it answers
-- during one dispatch, and the order in which the set of cancelled deductions iterates.
pub record Executors : Type 1 where
  pub canonical_workspace_root : Canonical
  pub placement_snapshot_events : EventKind → CommandEnvelope → Map ℤ → Map ℤ × List EventEnvelope
  pub workspace_tree : CommandEnvelope → CommandState × Json
  pub workspace_file : CommandEnvelope → CommandState × Json
  pub workspace_file_write : CommandEnvelope → CommandState × Json
  pub workspace_command_run : CommandEnvelope → CommandState × Json
  pub workspace_diff : CommandEnvelope → CommandState × Json
  pub workspace_terminal_open : CommandEnvelope → CommandState × Json
  pub execute_deduction : Text → CommandEnvelope → Option Text → CommandState × Json
  pub execute_command :
      Text
      → CommandEnvelope
      → Map ℤ
      → Option Text
      → Map (List ProviderTranscriptMessage)
      → Map ProviderResumeRef
      → RuntimeRun
  pub task_command : CommandEnvelope → CommandState × Json × List EventEnvelope
  pub tooling_command : NodeLocalState → ToolingCommandV1 → NodeLocalState × CommandState × Json
  pub encode_failed_deduction : DeductionInputPackage → Text → Text → Text → Json ⊎ Text
  pub iter_next : List Text → Option Text

pub record CommandDispatchOutcome : Type 0 where
  pub status : CommandState
  pub events_to_send : List EventEnvelope
  pub result_payload : Json
  pub state_changed : Bool

-- `CommandExecutionContext`: whether there is a live sender, and the value of the cancellation
-- receiver if there is one.
pub record CommandExecutionContext : Type 0 where
  pub live_sender : Bool
  pub cancellation : Option Bool

unfoldable pub record_command_result_payload :
    NodeLocalState → CommandEnvelope → CommandState → Json → NodeLocalState
record_command_result_payload s c status payload = record s {
  command_status = insert c.command_id status s.command_status;
  command_result_payloads = insert c.command_id payload s.command_result_payloads;
}

unfoldable pub durable_tooling_result_payload : Json → Json
durable_tooling_result_payload (Json.object fs) =
    Json.object (remove_field (codes "authorization_url") fs)
durable_tooling_result_payload v = v

-- The sink of live events projects each of them; without a sender there is no sink.
unfoldable pub live_states :
    Bool → Map RuntimeSessionState → List EventEnvelope → Map RuntimeSessionState
live_states false states emitted = states
live_states true states emitted = apply_runtime_state_projection states emitted

abbrev pub is_cancelled_now : Option Bool → Bool
is_cancelled_now none = false
is_cancelled_now (some b) = b

-- the draws that are left once a command's own event has been made
abbrev pub later : Host → Host
later host = record host {
  new_event_id = λ n. host.new_event_id (suc n);
  utc_now = λ n. host.utc_now (suc n);
}

mismatch_payload : Json
mismatch_payload = object_of (
    (codes "error_code", Json.string (codes "protocol.command_payload_mismatch"))
    ∷ (codes "message", Json.string (codes "Command payload does not match its command kind"))
    ∷ (codes "retryable", Json.bool false)
    ∷ [])

mcp_access_payload : Json
mcp_access_payload = object_of (
    (codes "error_code", Json.string (codes "provider.mcp_access_unavailable"))
    ∷ (codes "message", Json.string (codes "Uprava MCP access could not be issued for this turn"))
    ∷ (codes "retryable", Json.bool true)
    ∷ [])

abbrev pub Dispatched : Type 0
Dispatched = NodeLocalState × CommandDispatchOutcome

module _ (run : Executors) where
  abbrev encoded_or : Json ⊎ Text → Json
  encoded_or (inl v) = v
  encoded_or (inr error) = object_of (
      (codes "error_code", Json.string (codes "deduction.output_serialization_failed"))
      ∷ (codes "message", Json.string error)
      ∷ [])

  abbrev deduction_error_of : CommandPayload → Text → Text → Text → CommandState × Json
  deduction_error_of (CommandPayload.request_deduction input) provider code message =
      (CommandState.failed, encoded_or (run.encode_failed_deduction input provider code message))
  deduction_error_of _ provider code message = (
    CommandState.failed,
    object_of
        ((codes "error_code", Json.string code) ∷ (codes "message", Json.string message) ∷ []),
  )

  unfoldable pub deduction_error_payload :
      CommandEnvelope → Text → Text → Text → CommandState × Json
  deduction_error_payload c provider code message =
      deduction_error_of c.payload provider code message

  -- a result that is recorded and that comes without events
  unfoldable pub recorded_outcome :
      NodeLocalState → CommandEnvelope → CommandState × Json → Dispatched
  unfolding record_command_result_payload
  recorded_outcome s c (status, payload) = (
    record_command_result_payload s c status payload,
    record { status = status; events_to_send = []; result_payload = payload; state_changed = true },
  )

  -- `execute_deduction` unless the deduction was cancelled before
  unfoldable pub dispatch_deduction :
      CommandExecutionContext → NodeLocalState → CommandEnvelope → DeductionId → Dispatched
  unfolding deduction_error_payload recorded_outcome
  dispatch_deduction context s c id =
      let cancelled =
        deduction_error_payload c (codes "cancelled") (codes "deduction.cancelled")
          (codes "Deduction was cancelled before provider execution") in
      let provider = unwrap_or (provider_for_command s c) (codes "unknown") in
      let forget = record s { cancelled_deductions = set_remove id s.cancelled_deductions } in
      if contains_text s.cancelled_deductions id
      then recorded_outcome forget c cancelled
      else if is_cancelled_now context.cancellation
      then recorded_outcome s c cancelled
      else recorded_outcome s c (run.execute_deduction provider c (workspace_path_for_command s c))

  unfoldable pub dispatch_cancel_deduction :
      NodeLocalState → CommandEnvelope → DeductionId → Dispatched
  unfolding recorded_outcome
  dispatch_cancel_deduction s c id =
      recorded_outcome
        (record s {
          cancelled_deductions =
              remember_cancelled_deduction run.iter_next s.cancelled_deductions id;
        })
        c
        (
          CommandState.completed,
          object_of
              ((codes "deduction_id", Json.string id) ∷ (codes "cancelled", Json.bool true) ∷ []),
        )

  unfoldable pub dispatch_tooling : NodeLocalState → CommandEnvelope → ToolingCommandV1 → Dispatched
  dispatch_tooling s c tooling =
      let (s', status, payload) = run.tooling_command s tooling in
      (
        record_command_result_payload s' c status (durable_tooling_result_payload payload),
        record {
          status = status;
          events_to_send = [];
          result_payload = payload;
          state_changed = true;
        },
      )

  module _ (host : Host) (decode : ResponseSerde) where
    -- the extension of the outbox and the retention that follows it
    unfoldable pub extend_outbox :
        NodeLocalState → List EventEnvelope → NodeLocalState × List EventEnvelope
    extend_outbox s events =
        enforce_event_outbox_retention (later host)
          (record s { event_outbox = s.event_outbox ++ events }) max_event_outbox_events

    unfoldable pub workspace_command_outcome :
        NodeLocalState → CommandEnvelope → CommandState → Json → List EventEnvelope → Dispatched
    unfolding extend_outbox
    workspace_command_outcome s c status payload events =
        let (s', notices) =
          extend_outbox (record_command_result_payload s c status payload) events in
        (
          s',
          record {
            status = status;
            events_to_send = events ++ notices;
            result_payload = payload;
            state_changed = true;
          },
        )

    -- a workspace command, whose causal events take their numbers from the placement's counter
    unfoldable pub dispatch_workspace :
        NodeLocalState → CommandEnvelope → CommandState × Json → Dispatched
    unfolding workspace_command_outcome
    dispatch_workspace s c (status, payload) =
        let (seqs, events) =
          causal_workspace_events host decode c status payload s.placement_seqs in
        workspace_command_outcome (record s { placement_seqs = seqs }) c status payload events

    unfoldable pub dispatch_task : NodeLocalState → CommandEnvelope → Dispatched
    unfolding workspace_command_outcome
    dispatch_task s c =
        let (status, payload, events) = run.task_command c in
        workspace_command_outcome s c status payload events

    -- the end of the function, for the events of a runtime or of a placement
    unfoldable pub finish_events :
        NodeLocalState → CommandEnvelope → List EventEnvelope → Dispatched
    unfolding extend_outbox
    finish_events s c events =
        let states = apply_runtime_state_projection s.runtime_states events in
        let (s', notices) = extend_outbox (record s { runtime_states = states }) events in
        let status = command_status_for_events events in
        (
          record s' { command_status = insert c.command_id status s'.command_status },
          record {
            status = status;
            events_to_send = events ++ notices;
            result_payload = empty_object;
            state_changed = true;
          },
        )

    unfoldable pub dispatch_snapshot : EventKind → NodeLocalState → CommandEnvelope → Dispatched
    unfolding finish_events
    dispatch_snapshot kind s c =
        let (seqs, events) = run.placement_snapshot_events kind c s.placement_seqs in
        finish_events (record s { placement_seqs = seqs }) c events

    abbrev pub run_provider :
        CommandExecutionContext
        → NodeLocalState
        → CommandEnvelope
        → Option Text
        → NodeLocalState × List EventEnvelope
    unfolding live_states
    run_provider context s c none =
        let (seqs, events) = missing_provider_events_for_command host c s.runtime_seqs in
        (record s { runtime_seqs = seqs }, events)
    run_provider context s c (some provider) =
        let r =
          run.execute_command provider c s.runtime_seqs (workspace_path_for_command s c)
            s.runtime_transcripts s.runtime_provider_resume_refs in
        (
          record s {
            runtime_seqs = r.seqs;
            runtime_transcripts = r.transcripts;
            runtime_provider_resume_refs = r.resume_refs;
            runtime_states = live_states context.live_sender s.runtime_states r.emitted;
          },
          r.events,
        )

    abbrev pub with_metadata :
        CommandExecutionContext
        → NodeLocalState
        → CommandEnvelope
        → WorkspaceInspectError ⊎ (NodeLocalState × Bool)
        → NodeLocalState × List EventEnvelope
    with_metadata context s c (inl error) =
        let provider = unwrap_or (provider_for_command s c) (codes "unknown") in
        let (seqs, events) = runtime_workspace_error_events host provider c s.runtime_seqs error in
        (record s { runtime_seqs = seqs }, events)
    with_metadata context s c (inr (s', changed)) =
        run_provider context s' c (provider_for_command s' c)

    -- the last branch: a command for a provider
    unfoldable pub dispatch_runtime :
        CommandExecutionContext → NodeLocalState → CommandEnvelope → Dispatched
    unfolding finish_events run_provider
    dispatch_runtime context s c =
        let (s', events) =
          with_metadata context s c (remember_runtime_metadata run.canonical_workspace_root s c) in
        finish_events s' c events

    abbrev deduction_id_of : CommandPayload → DeductionId
    deduction_id_of (CommandPayload.request_deduction input) = input.deduction_id
    deduction_id_of _ = []

    -- The `match` on the kind; `none` stands for `unreachable!`.
    unfoldable pub dispatch_kind :
        CommandExecutionContext
        → NodeLocalState
        → CommandEnvelope
        → CommandKind
        → CommandPayload
        → Option Dispatched
    unfolding recorded_outcome dispatch_deduction dispatch_cancel_deduction dispatch_tooling
        dispatch_workspace dispatch_task dispatch_snapshot dispatch_runtime
    dispatch_kind context s c CommandKind.validate_workspace p =
        some (dispatch_snapshot EventKind.workspace_validated s c)
    dispatch_kind context s c CommandKind.refresh_resource_snapshot p =
        some (dispatch_snapshot EventKind.resource_snapshot_updated s c)
    dispatch_kind context s c CommandKind.list_workspace_tree p =
        some (recorded_outcome s c (run.workspace_tree c))
    dispatch_kind context s c CommandKind.read_workspace_file p =
        some (recorded_outcome s c (run.workspace_file c))
    dispatch_kind context s c CommandKind.write_workspace_file p =
        some (dispatch_workspace s c (run.workspace_file_write c))
    dispatch_kind context s c CommandKind.run_workspace_command p =
        some (dispatch_workspace s c (run.workspace_command_run c))
    dispatch_kind context s c CommandKind.read_workspace_diff p =
        some (dispatch_workspace s c (run.workspace_diff c))
    dispatch_kind context s c CommandKind.open_workspace_terminal p =
        some (recorded_outcome s c (run.workspace_terminal_open c))
    dispatch_kind context s c CommandKind.request_deduction p =
        some (dispatch_deduction context s c (deduction_id_of p))
    dispatch_kind context s c CommandKind.cancel_deduction (CommandPayload.cancel_deduction id) =
        some (dispatch_cancel_deduction s c id)
    dispatch_kind context s c CommandKind.cancel_deduction p = none
    dispatch_kind context s c CommandKind.run_task p = some (dispatch_task s c)
    dispatch_kind context s c CommandKind.cancel_task_run (CommandPayload.cancel_task_run id) =
        some (
          recorded_outcome s c (
            CommandState.completed,
            object_of (
                (codes "task_run_id", Json.string id)
                ∷ (codes "cancellation_requested", Json.bool true)
                ∷ []),
          ))
    dispatch_kind context s c CommandKind.cancel_task_run p = none
    dispatch_kind context s c CommandKind.tooling (CommandPayload.tooling tooling) =
        some (dispatch_tooling s c tooling)
    dispatch_kind context s c CommandKind.tooling p = none
    dispatch_kind context s c _ p = some (dispatch_runtime context s c)

    -- the answer to a command whose status is recorded
    unfoldable pub recall : NodeLocalState → CommandEnvelope → CommandState → Dispatched
    recall s c status = (
      s,
      record {
        status = status;
        events_to_send = outbox_events_for_command s.event_outbox c.command_id;
        result_payload = unwrap_or (get c.command_id s.command_result_payloads) empty_object;
        state_changed = false;
      },
    )

    abbrev rejected : NodeLocalState → Dispatched
    unfolding mismatch_payload
    rejected s = (
      s,
      record {
        status = CommandState.failed;
        events_to_send = [];
        result_payload = mismatch_payload;
        state_changed = false;
      },
    )

    abbrev dispatch_new :
        CommandExecutionContext
        → NodeLocalState
        → CommandEnvelope
        → Option CommandState
        → Option Dispatched
    unfolding recall dispatch_kind
    dispatch_new context s c (some status) = some (recall s c status)
    dispatch_new context s c none = dispatch_kind context s c c.kind c.payload

    unfoldable pub prepare_command_dispatch_with_live_socket :
        CommandExecutionContext → NodeLocalState → CommandEnvelope → Option Dispatched
    unfolding rejected dispatch_new
    prepare_command_dispatch_with_live_socket context s c =
        if matches_kind c.payload c.kind
        then dispatch_new context s c (get c.command_id s.command_status)
        else some (rejected s)

    unfoldable pub provider_mcp_access_failure_outcome :
        NodeLocalState → CommandEnvelope → Dispatched
    unfolding mcp_access_payload
    provider_mcp_access_failure_outcome s c =
        let provider = unwrap_or (provider_for_command s c) (codes "codex") in
        let (seqs, events) = mcp_access_events host provider c s.runtime_seqs in
        (
          record s {
            runtime_seqs = seqs;
            runtime_states = apply_runtime_state_projection s.runtime_states events;
            event_outbox = s.event_outbox ++ events;
            command_status = insert c.command_id CommandState.failed s.command_status;
          },
          record {
            status = CommandState.failed;
            events_to_send = events;
            result_payload = mcp_access_payload;
            state_changed = true;
          },
        )
