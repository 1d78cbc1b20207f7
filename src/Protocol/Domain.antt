-- ===== src/Protocol/Domain.antt =====
-- The enumerations of crates/uprava-protocol/src/domain.rs.
pub data NodePresence : Type 0 where
  reachable : NodePresence
  stale : NodePresence
  offline : NodePresence
  revoked : NodePresence

pub data PlacementState : Type 0 where
  pending : PlacementState
  validated : PlacementState
  missing : PlacementState
  read_only : PlacementState
  error : PlacementState

pub data SessionThreadState : Type 0 where
  created : SessionThreadState
  active : SessionThreadState
  detached : SessionThreadState
  stopped : SessionThreadState
  degraded : SessionThreadState

pub data RuntimeSessionState : Type 0 where
  starting : RuntimeSessionState
  ready : RuntimeSessionState
  running : RuntimeSessionState
  blocked : RuntimeSessionState
  stopping : RuntimeSessionState
  stopped : RuntimeSessionState
  interrupted : RuntimeSessionState
  resuming : RuntimeSessionState
  stale : RuntimeSessionState
  error : RuntimeSessionState
  expired : RuntimeSessionState

pub data TurnState : Type 0 where
  created : TurnState
  dispatched : TurnState
  running : TurnState
  blocked_on_approval : TurnState
  completed : TurnState
  interrupted : TurnState
  failed : TurnState

pub data JobRunState : Type 0 where
  queued : JobRunState
  starting : JobRunState
  running : JobRunState
  succeeded : JobRunState
  failed : JobRunState
  cancelled : JobRunState
  timed_out : JobRunState
  skipped : JobRunState

pub data TaskRunState : Type 0 where
  queued : TaskRunState
  preparing_workspace : TaskRunState
  starting_runtime : TaskRunState
  running : TaskRunState
  checking : TaskRunState
  collecting_evidence : TaskRunState
  succeeded : TaskRunState
  failed : TaskRunState
  cancelling : TaskRunState
  cancelled : TaskRunState
  timed_out : TaskRunState

pub data TaskCleanupState : Type 0 where
  pending : TaskCleanupState
  completed : TaskCleanupState
  failed : TaskCleanupState

pub data CommandState : Type 0 where
  recorded : CommandState
  pending_dispatch : CommandState
  dispatched : CommandState
  acknowledged : CommandState
  completed : CommandState
  failed : CommandState
  blocked : CommandState
  expired : CommandState

pub data ApprovalState : Type 0 where
  requested : ApprovalState
  resolved : ApprovalState
  expired : ApprovalState
  cancelled : ApprovalState

pub data WarningSeverity : Type 0 where
  info : WarningSeverity
  warning : WarningSeverity
  hard_block : WarningSeverity

pub data CommandKind : Type 0 where
  start_runtime : CommandKind
  resume_runtime : CommandKind
  send_turn : CommandKind
  resolve_approval : CommandKind
  interrupt_runtime : CommandKind
  stop_runtime : CommandKind
  validate_workspace : CommandKind
  refresh_resource_snapshot : CommandKind
  list_workspace_tree : CommandKind
  read_workspace_file : CommandKind
  write_workspace_file : CommandKind
  run_workspace_command : CommandKind
  read_workspace_diff : CommandKind
  open_workspace_terminal : CommandKind
  attach_workspace_terminal : CommandKind
  resize_workspace_terminal : CommandKind
  write_workspace_terminal : CommandKind
  close_workspace_terminal : CommandKind
  request_deduction : CommandKind
  cancel_deduction : CommandKind
  run_task : CommandKind
  cancel_task_run : CommandKind
  tooling : CommandKind
  extension : CommandKind

pub data EventKind : Type 0 where
  runtime_starting : EventKind
  runtime_ready : EventKind
  runtime_running : EventKind
  runtime_blocked : EventKind
  runtime_expired : EventKind
  runtime_resuming : EventKind
  runtime_stopped : EventKind
  runtime_error : EventKind
  turn_started : EventKind
  turn_completed : EventKind
  turn_interrupted : EventKind
  provider_activity : EventKind
  provider_output_delta : EventKind
  provider_message_completed : EventKind
  approval_requested : EventKind
  approval_resolved : EventKind
  coordination_warning_acknowledged : EventKind
  workspace_validated : EventKind
  resource_snapshot_updated : EventKind
  workspace_file_written : EventKind
  workspace_command_completed : EventKind
  workspace_check_completed : EventKind
  workspace_diff_observed : EventKind
  deduction_requested : EventKind
  deduction_completed : EventKind
  deduction_invalid : EventKind
  deduction_failed : EventKind
  deduction_cancelled : EventKind
  task_run_state_changed : EventKind
  extension : EventKind
