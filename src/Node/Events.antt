-- ===== src/Node/Events.antt =====
-- The events that a command produces: `event_for_command`, `runtime_error_event` and the error
-- events of crates/uprava-node/src/runtime/provider.rs, `placement_event_for_command` and
-- `WorkspaceInspectError` of workspace.rs.
use uprava.Prelude.{Option, none, some, List, [], ◌∷◌, Text, codes, Map, ℤ}
use uprava.Protocol.Json.{Json, object_of}
use uprava.Protocol.Reference.{RuntimeSessionId, ProjectPlacementId, TurnId, ActorRef, ScopeRef}
use uprava.Protocol.Domain.{EventKind}
use uprava.Protocol.Command.{
  CommandEnvelope, CommandPayload, target_node_id, session_thread_id, runtime_session_id,
}
use uprava.Protocol.Event.{EventEnvelope}
use uprava.Protocol.Payload.{from_json}
use uprava.Node.State.{next_runtime_seq, next_placement_seq}
use uprava.Node.Outbox.{Host}

pub record WorkspaceInspectError : Type 0 where
  pub code : Text
  pub message : Text

-- `WorkspaceInspectError::into_payload`
abbrev pub into_payload : WorkspaceInspectError → Json
into_payload e =
    object_of
      ((codes "error_code", Json.string e.code) ∷ (codes "message", Json.string e.message) ∷ [])

module _ (host : Host) where
  unfoldable pub event_for_command :
      Text
      → CommandEnvelope
      → Map ℤ
      → RuntimeSessionId
      → Option TurnId
      → EventKind
      → Json
      → Map ℤ × EventEnvelope
  event_for_command provider_key command runtime_seqs id turn kind payload =
      let (seqs, seq) = next_runtime_seq runtime_seqs id in
      (
        seqs,
        record {
          event_id = host.new_event_id 0;
          command_id = some command.command_id;
          correlation_id = some command.correlation_id;
          actor_ref = ActorRef.provider provider_key;
          scope_ref = ScopeRef.runtime id;
          node_id = some (target_node_id command.target);
          runtime_session_id = some id;
          session_thread_id = session_thread_id command.target;
          turn_id = turn;
          seq = seq;
          session_projection_seq = none;
          kind = kind;
          happened_at = host.utc_now 0;
          source_refs = [];
          evidence_refs = [];
          cause_refs = command.cause_refs;
          result_refs = [];
          payload = from_json host.serde kind payload;
        },
      )

  unfoldable pub placement_event_for_command :
      CommandEnvelope → Map ℤ → ProjectPlacementId → EventKind → Json → Map ℤ × EventEnvelope
  placement_event_for_command command placement_seqs id kind payload =
      let (seqs, seq) = next_placement_seq placement_seqs id in
      (
        seqs,
        record {
          event_id = host.new_event_id 0;
          command_id = some command.command_id;
          correlation_id = some command.correlation_id;
          actor_ref = ActorRef.node (target_node_id command.target);
          scope_ref = ScopeRef.placement id;
          node_id = some (target_node_id command.target);
          runtime_session_id = none;
          session_thread_id = none;
          turn_id = none;
          seq = seq;
          session_projection_seq = none;
          kind = kind;
          happened_at = host.utc_now 0;
          source_refs = command.source_refs;
          evidence_refs = [];
          cause_refs = command.cause_refs;
          result_refs = [];
          payload = from_json host.serde kind payload;
        },
      )

  unfoldable pub runtime_error_event :
      Text
      → CommandEnvelope
      → Map ℤ
      → RuntimeSessionId
      → Option TurnId
      → Text
      → Text
      → Map ℤ × EventEnvelope
  unfolding event_for_command
  runtime_error_event provider_key command seqs id turn code message =
      event_for_command provider_key command seqs id turn EventKind.runtime_error
        (object_of ((codes "code", Json.string code) ∷ (codes "message", Json.string message) ∷ []))

  -- the one event of a result, in the list that its caller returns
  abbrev pub single : Map ℤ × EventEnvelope → Map ℤ × List EventEnvelope
  single r = (r.0, r.1 ∷ [])

  abbrev pub error_events_at :
      Text
      → CommandEnvelope
      → Map ℤ
      → Option TurnId
      → Text
      → Text
      → Option RuntimeSessionId
      → Map ℤ × List EventEnvelope
  unfolding runtime_error_event
  error_events_at provider_key command seqs turn code message none = (seqs, [])
  error_events_at provider_key command seqs turn code message (some id) =
      single (runtime_error_event provider_key command seqs id turn code message)

  unfoldable pub missing_provider_events_for_command :
      CommandEnvelope → Map ℤ → Map ℤ × List EventEnvelope
  missing_provider_events_for_command command seqs =
      error_events_at (codes "unknown") command seqs none (codes "provider.missing")
        (codes "Runtime command is missing provider metadata") (runtime_session_id command.target)

  unfoldable pub runtime_workspace_error_events :
      Text → CommandEnvelope → Map ℤ → WorkspaceInspectError → Map ℤ × List EventEnvelope
  runtime_workspace_error_events provider_key command seqs error =
      error_events_at provider_key command seqs none error.code error.message
        (runtime_session_id command.target)

  abbrev turn_of : CommandPayload → Option TurnId
  turn_of (CommandPayload.send_turn _ turn) = some turn
  turn_of _ = none

  -- the events of `provider_mcp_access_failure_outcome`
  unfoldable pub mcp_access_events : Text → CommandEnvelope → Map ℤ → Map ℤ × List EventEnvelope
  mcp_access_events provider_key command seqs =
      error_events_at provider_key command seqs (turn_of command.payload)
        (codes "provider.mcp_access_unavailable")
        (codes "Uprava MCP access could not be issued for this turn")
        (runtime_session_id command.target)
