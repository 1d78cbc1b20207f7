-- ===== src/Protocol/Command.antt =====
-- Commands: crates/uprava-protocol/src/control.rs, with the tooling commands of tooling.rs and
-- the deduction package of projection.rs.
use uprava.Prelude.{ℕ, Bool, true, false, Option, none, some, List, Text}
use uprava.Protocol.Json.{Json}
use uprava.Protocol.Reference.{
  DateTime, NodeId, ProjectId, ProjectPlacementId, SessionThreadId, RuntimeSessionId, TurnId,
  CommandId, ApprovalId, CorrelationId, DeductionId, TaskRunId, ToolId, IntegrationId,
  McpDependencyInstanceId, ToolCallId, BlockId, ActorRef, UpravaRef, TracePrecision, CausalityLinks,
}
use uprava.Protocol.Domain.{CommandKind, EventKind}
use uprava.Protocol.Workspace.{
  WorkspaceFileWriteRequest, WorkspaceCommandRunRequest, WorkspaceDiffRequest,
  WorkspaceTerminalOpenRequest, WorkspaceTerminalAttachRequest, WorkspaceTerminalResizeRequest,
  WorkspaceTerminalWriteRequest, WorkspaceTerminalCloseRequest,
}
use uprava.Protocol.Task.{TaskRunSpec}

pub record TraceStep : Type 0 where
  pub block_id : BlockId
  pub title : Text
  pub summary : Text
  pub actor_ref : ActorRef
  pub started_at : DateTime
  pub completed_at : Option DateTime
  pub precision : TracePrecision
  pub primary_ref : UpravaRef
  pub links : CausalityLinks

pub record DeductionEvidenceEvent : Type 0 where
  pub event_ref : UpravaRef
  pub kind : EventKind
  pub summary : Text
  pub happened_at : DateTime
  pub links : CausalityLinks
  pub raw_excerpt : Option Text

pub record DeductionInputPackage : Type 0 where
  pub deduction_id : DeductionId
  pub session_thread_id : SessionThreadId
  pub scope_ref : UpravaRef
  pub question : Text
  pub evidence_snapshot_hash : Text
  pub trace_steps : List TraceStep
  pub events : List DeductionEvidenceEvent
  pub allowed_refs : List UpravaRef
  pub truncated : Bool
  pub generated_at : DateTime

pub record ToolScope : Type 0 where
  pub actor_ref : ActorRef
  pub node_id : Option NodeId
  pub project_id : Option ProjectId
  pub project_placement_id : Option ProjectPlacementId
  pub session_thread_id : Option SessionThreadId

pub data IntegrationDesiredState : Type 0 where
  enabled : IntegrationDesiredState
  disabled : IntegrationDesiredState

pub data ToolingCommandPayloadV1 : Type 0 where
  begin_integration_authorization :
      McpDependencyInstanceId → IntegrationId → Text → Text → Text → ToolingCommandPayloadV1
  execute_external_tool :
      ToolCallId
      → ToolId
      → Text
      → IntegrationId
      → McpDependencyInstanceId
      → ToolScope
      → Json
      → DateTime
      → ℕ
      → ToolingCommandPayloadV1
  cancel_tool_call : ToolCallId → Option Text → ToolingCommandPayloadV1
  update_dependency_desired_state :
      McpDependencyInstanceId
      → IntegrationId
      → IntegrationDesiredState
      → Option Text
      → Text
      → Text
      → Text
      → ToolingCommandPayloadV1

pub record ToolingCommandV1 : Type 0 where
  pub contract_version : ℕ
  pub payload : ToolingCommandPayloadV1

pub data CommandPayload : Type 0 where
  start_runtime : Text → Text → CommandPayload
  resume_runtime : Text → Text → Option Json → CommandPayload
  send_turn : Text → TurnId → CommandPayload
  resolve_approval : ApprovalId → Bool → Option Text → CommandPayload
  interrupt_runtime : CommandPayload
  stop_runtime : CommandPayload
  validate_workspace : Text → Text → CommandPayload
  refresh_resource_snapshot : Text → Text → CommandPayload
  list_workspace_tree : Text → Text → CommandPayload
  read_workspace_file : Text → Text → CommandPayload
  write_workspace_file : Text → WorkspaceFileWriteRequest → CommandPayload
  run_workspace_command : Text → WorkspaceCommandRunRequest → CommandPayload
  read_workspace_diff : Text → WorkspaceDiffRequest → CommandPayload
  open_workspace_terminal : Text → WorkspaceTerminalOpenRequest → CommandPayload
  attach_workspace_terminal : WorkspaceTerminalAttachRequest → CommandPayload
  resize_workspace_terminal : WorkspaceTerminalResizeRequest → CommandPayload
  write_workspace_terminal : WorkspaceTerminalWriteRequest → CommandPayload
  close_workspace_terminal : WorkspaceTerminalCloseRequest → CommandPayload
  request_deduction : DeductionInputPackage → CommandPayload
  cancel_deduction : DeductionId → CommandPayload
  run_task : Text → TaskRunSpec → CommandPayload
  cancel_task_run : TaskRunId → CommandPayload
  tooling : ToolingCommandV1 → CommandPayload
  extension : Text → Json → CommandPayload

pub data CommandTarget : Type 0 where
  node : NodeId → CommandTarget
  placement : NodeId → ProjectPlacementId → CommandTarget
  session_runtime : NodeId → ProjectPlacementId → SessionThreadId → RuntimeSessionId → CommandTarget
  task_run : NodeId → ProjectPlacementId → TaskRunId → CommandTarget

pub record CommandEnvelope : Type 0 where
  pub command_id : CommandId
  pub kind : CommandKind
  pub target : CommandTarget
  pub actor_ref : ActorRef
  pub source_refs : List UpravaRef
  pub cause_refs : List UpravaRef
  pub issued_at : DateTime
  pub correlation_id : CorrelationId
  pub payload : CommandPayload

-- `CommandPayload::matches_kind`
unfoldable pub matches_kind : CommandPayload → CommandKind → Bool
matches_kind (CommandPayload.start_runtime _ _) CommandKind.start_runtime = true
matches_kind (CommandPayload.resume_runtime _ _ _) CommandKind.resume_runtime = true
matches_kind (CommandPayload.send_turn _ _) CommandKind.send_turn = true
matches_kind (CommandPayload.resolve_approval _ _ _) CommandKind.resolve_approval = true
matches_kind CommandPayload.interrupt_runtime CommandKind.interrupt_runtime = true
matches_kind CommandPayload.stop_runtime CommandKind.stop_runtime = true
matches_kind (CommandPayload.validate_workspace _ _) CommandKind.validate_workspace = true
matches_kind (CommandPayload.refresh_resource_snapshot _ _) CommandKind.refresh_resource_snapshot =
    true
matches_kind (CommandPayload.list_workspace_tree _ _) CommandKind.list_workspace_tree = true
matches_kind (CommandPayload.read_workspace_file _ _) CommandKind.read_workspace_file = true
matches_kind (CommandPayload.write_workspace_file _ _) CommandKind.write_workspace_file = true
matches_kind (CommandPayload.run_workspace_command _ _) CommandKind.run_workspace_command = true
matches_kind (CommandPayload.read_workspace_diff _ _) CommandKind.read_workspace_diff = true
matches_kind (CommandPayload.open_workspace_terminal _ _) CommandKind.open_workspace_terminal = true
matches_kind (CommandPayload.attach_workspace_terminal _) CommandKind.attach_workspace_terminal =
    true
matches_kind (CommandPayload.resize_workspace_terminal _) CommandKind.resize_workspace_terminal =
    true
matches_kind (CommandPayload.write_workspace_terminal _) CommandKind.write_workspace_terminal = true
matches_kind (CommandPayload.close_workspace_terminal _) CommandKind.close_workspace_terminal = true
matches_kind (CommandPayload.request_deduction _) CommandKind.request_deduction = true
matches_kind (CommandPayload.cancel_deduction _) CommandKind.cancel_deduction = true
matches_kind (CommandPayload.run_task _ _) CommandKind.run_task = true
matches_kind (CommandPayload.cancel_task_run _) CommandKind.cancel_task_run = true
matches_kind (CommandPayload.tooling _) CommandKind.tooling = true
matches_kind (CommandPayload.extension _ _) CommandKind.extension = true
matches_kind _ _ = false

unfoldable pub provider : CommandPayload → Option Text
provider (CommandPayload.start_runtime p _) = some p
provider (CommandPayload.resume_runtime p _ _) = some p
provider _ = none

unfoldable pub workspace_path : CommandPayload → Option Text
workspace_path (CommandPayload.start_runtime _ p) = some p
workspace_path (CommandPayload.resume_runtime _ p _) = some p
workspace_path (CommandPayload.validate_workspace _ p) = some p
workspace_path (CommandPayload.refresh_resource_snapshot _ p) = some p
workspace_path (CommandPayload.list_workspace_tree p _) = some p
workspace_path (CommandPayload.read_workspace_file p _) = some p
workspace_path (CommandPayload.write_workspace_file p _) = some p
workspace_path (CommandPayload.run_workspace_command p _) = some p
workspace_path (CommandPayload.read_workspace_diff p _) = some p
workspace_path (CommandPayload.open_workspace_terminal p _) = some p
workspace_path (CommandPayload.run_task p _) = some p
workspace_path _ = none

unfoldable pub display_name : CommandPayload → Option Text
display_name (CommandPayload.validate_workspace p _) = some p
display_name (CommandPayload.refresh_resource_snapshot p _) = some p
display_name _ = none

unfoldable pub path : CommandPayload → Option Text
path (CommandPayload.list_workspace_tree _ p) = some p
path (CommandPayload.read_workspace_file _ p) = some p
path (CommandPayload.write_workspace_file _ r) = some r.path
path _ = none

unfoldable pub provider_resume_ref : CommandPayload → Option Json
provider_resume_ref (CommandPayload.resume_runtime _ _ r) = r
provider_resume_ref _ = none

-- `CommandTarget::node_id` and the other identifiers that a target may carry
unfoldable pub target_node_id : CommandTarget → NodeId
target_node_id (CommandTarget.node n) = n
target_node_id (CommandTarget.placement n _) = n
target_node_id (CommandTarget.session_runtime n _ _ _) = n
target_node_id (CommandTarget.task_run n _ _) = n

unfoldable pub project_placement_id : CommandTarget → Option ProjectPlacementId
project_placement_id (CommandTarget.node _) = none
project_placement_id (CommandTarget.placement _ p) = some p
project_placement_id (CommandTarget.session_runtime _ p _ _) = some p
project_placement_id (CommandTarget.task_run _ p _) = some p

unfoldable pub session_thread_id : CommandTarget → Option SessionThreadId
session_thread_id (CommandTarget.session_runtime _ _ s _) = some s
session_thread_id _ = none

unfoldable pub runtime_session_id : CommandTarget → Option RuntimeSessionId
runtime_session_id (CommandTarget.session_runtime _ _ _ r) = some r
runtime_session_id _ = none

unfoldable pub task_run_id : CommandTarget → Option TaskRunId
task_run_id (CommandTarget.task_run _ _ t) = some t
task_run_id _ = none
