-- ===== src/Protocol/Event.antt =====
-- Event payloads and envelopes: crates/uprava-protocol/src/control.rs.
use uprava.Prelude.{ℕ, Bool, true, false, Option, List, Text, ℤ}
use uprava.Protocol.Json.{Json}
use uprava.Protocol.Reference.{
  DateTime, NodeId, ProjectPlacementId, SessionThreadId, RuntimeSessionId, TurnId, CommandId,
  EventId, ApprovalId, CorrelationId, DeductionId, TaskRunId, ActorRef, ScopeRef, UpravaRef,
}
use uprava.Protocol.Domain.{EventKind, PlacementState, TaskRunState, TaskCleanupState}
use uprava.Protocol.Workspace.{ResourceBadge, GitWorkspaceSnapshot}

pub record RuntimeStateEventData : Type 0 where
  pub provider : Option Text
  pub mode : Option Text
  pub resume_source : Option Text
  pub provider_resume_ref : Option Json
  pub transcript_messages : Option ℕ
  pub reason : Option Text
  pub code : Option Text
  pub message : Option Text
  pub expiry_seconds : Option ℤ

pub record ProviderActivityEventData : Type 0 where
  pub provider : Option Text
  pub source : Option Text
  pub provider_event_type : Option Text
  pub provider_item_id : Option Text
  pub provider_item_type : Option Text
  pub phase : Option Text
  pub status : Option Text
  pub summary : Option Text
  pub raw_event : Option Json
  pub raw_event_truncated : Option Bool
  pub raw_event_original_chars : Option ℕ
  pub raw_event_preview : Option Text
  pub dropped_count : Option ℕ
  pub stream : Option Text
  pub limit_bytes : Option ℕ
  pub stdout_truncated : Option Bool
  pub stderr_truncated : Option Bool
  pub dropped_activity_count : Option ℕ
  pub max_process_output_bytes : Option ℕ
  pub max_activity_events : Option ℕ
  pub extension : Option Json

pub data EventPayloadKind : Type 0 where
  runtime_starting : RuntimeStateEventData → EventPayloadKind
  runtime_ready : RuntimeStateEventData → EventPayloadKind
  runtime_running : RuntimeStateEventData → EventPayloadKind
  runtime_blocked : RuntimeStateEventData → EventPayloadKind
  runtime_expired : RuntimeStateEventData → EventPayloadKind
  runtime_resuming : RuntimeStateEventData → EventPayloadKind
  runtime_stopped : RuntimeStateEventData → EventPayloadKind
  runtime_error : Text → Text → EventPayloadKind
  turn_started : EventPayloadKind
  turn_completed : EventPayloadKind
  turn_interrupted : Option Text → Option Text → Option Text → EventPayloadKind
  provider_activity : ProviderActivityEventData → EventPayloadKind
  provider_output_delta : Text → EventPayloadKind
  provider_message_completed : Text → EventPayloadKind
  approval_requested :
      ApprovalId → Text → Option Text → Option Text → Option Text → EventPayloadKind
  approval_resolved : ApprovalId → Bool → Text → EventPayloadKind
  coordination_warning_acknowledged : Text → Option Text → List UpravaRef → EventPayloadKind
  workspace_validated :
      ProjectPlacementId
      → Text
      → Text
      → PlacementState
      → List ResourceBadge
      → Option GitWorkspaceSnapshot
      → EventPayloadKind
  resource_snapshot_updated :
      ProjectPlacementId
      → Text
      → Text
      → PlacementState
      → List ResourceBadge
      → Option GitWorkspaceSnapshot
      → EventPayloadKind
  workspace_file_written : ProjectPlacementId → Text → Text → EventPayloadKind
  workspace_command_completed :
      ProjectPlacementId → Text → Bool → Option ℤ → Bool → Bool → EventPayloadKind
  workspace_check_completed :
      ProjectPlacementId → Text → Bool → Option ℤ → Bool → Bool → EventPayloadKind
  workspace_diff_observed : ProjectPlacementId → Text → Bool → Bool → EventPayloadKind
  deduction_requested : DeductionId → UpravaRef → Text → EventPayloadKind
  deduction_completed : DeductionId → EventPayloadKind
  deduction_invalid : DeductionId → Text → Text → EventPayloadKind
  deduction_failed : DeductionId → Text → Text → EventPayloadKind
  deduction_cancelled : DeductionId → EventPayloadKind
  task_run_state_changed :
      TaskRunId → TaskRunState → TaskCleanupState → Option Text → EventPayloadKind
  extension : Text → Json → EventPayloadKind

pub record EventPayload : Type 0 where
  pub kind : EventPayloadKind
  pub json : Json

pub record EventEnvelope : Type 0 where
  pub event_id : EventId
  pub command_id : Option CommandId
  pub correlation_id : Option CorrelationId
  pub actor_ref : ActorRef
  pub scope_ref : ScopeRef
  pub node_id : Option NodeId
  pub runtime_session_id : Option RuntimeSessionId
  pub session_thread_id : Option SessionThreadId
  pub turn_id : Option TurnId
  pub seq : ℤ
  pub session_projection_seq : Option ℤ
  pub kind : EventKind
  pub happened_at : DateTime
  pub source_refs : List UpravaRef
  pub evidence_refs : List UpravaRef
  pub cause_refs : List UpravaRef
  pub result_refs : List UpravaRef
  pub payload : EventPayload

-- `EventPayload::matches_kind`
unfoldable pub matches_kind : EventPayloadKind → EventKind → Bool
matches_kind (EventPayloadKind.runtime_starting _) EventKind.runtime_starting = true
matches_kind (EventPayloadKind.runtime_ready _) EventKind.runtime_ready = true
matches_kind (EventPayloadKind.runtime_running _) EventKind.runtime_running = true
matches_kind (EventPayloadKind.runtime_blocked _) EventKind.runtime_blocked = true
matches_kind (EventPayloadKind.runtime_expired _) EventKind.runtime_expired = true
matches_kind (EventPayloadKind.runtime_resuming _) EventKind.runtime_resuming = true
matches_kind (EventPayloadKind.runtime_stopped _) EventKind.runtime_stopped = true
matches_kind (EventPayloadKind.runtime_error _ _) EventKind.runtime_error = true
matches_kind EventPayloadKind.turn_started EventKind.turn_started = true
matches_kind EventPayloadKind.turn_completed EventKind.turn_completed = true
matches_kind (EventPayloadKind.turn_interrupted _ _ _) EventKind.turn_interrupted = true
matches_kind (EventPayloadKind.provider_activity _) EventKind.provider_activity = true
matches_kind (EventPayloadKind.provider_output_delta _) EventKind.provider_output_delta = true
matches_kind (EventPayloadKind.provider_message_completed _) EventKind.provider_message_completed =
    true
matches_kind (EventPayloadKind.approval_requested _ _ _ _ _) EventKind.approval_requested = true
matches_kind (EventPayloadKind.approval_resolved _ _ _) EventKind.approval_resolved = true
matches_kind (EventPayloadKind.coordination_warning_acknowledged _ _ _)
      EventKind.coordination_warning_acknowledged =
    true
matches_kind (EventPayloadKind.workspace_validated _ _ _ _ _ _) EventKind.workspace_validated = true
matches_kind (EventPayloadKind.resource_snapshot_updated _ _ _ _ _ _)
      EventKind.resource_snapshot_updated =
    true
matches_kind (EventPayloadKind.workspace_file_written _ _ _) EventKind.workspace_file_written = true
matches_kind (EventPayloadKind.workspace_command_completed _ _ _ _ _ _)
      EventKind.workspace_command_completed =
    true
matches_kind (EventPayloadKind.workspace_check_completed _ _ _ _ _ _)
      EventKind.workspace_check_completed =
    true
matches_kind (EventPayloadKind.workspace_diff_observed _ _ _ _) EventKind.workspace_diff_observed =
    true
matches_kind (EventPayloadKind.deduction_requested _ _ _) EventKind.deduction_requested = true
matches_kind (EventPayloadKind.deduction_completed _) EventKind.deduction_completed = true
matches_kind (EventPayloadKind.deduction_invalid _ _ _) EventKind.deduction_invalid = true
matches_kind (EventPayloadKind.deduction_failed _ _ _) EventKind.deduction_failed = true
matches_kind (EventPayloadKind.deduction_cancelled _) EventKind.deduction_cancelled = true
matches_kind (EventPayloadKind.task_run_state_changed _ _ _ _) EventKind.task_run_state_changed =
    true
matches_kind (EventPayloadKind.extension _ _) EventKind.extension = true
matches_kind _ _ = false
