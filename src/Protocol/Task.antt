-- ===== src/Protocol/Task.antt =====
-- The task contract of crates/uprava-protocol/src/task.rs.
use uprava.Prelude.{ℕ, ℤ, Bool, Option, List, Text}
use uprava.Protocol.Reference.{TaskRunId, ProjectPlacementId}
use uprava.Protocol.Domain.{TaskRunState, TaskCleanupState}

pub record ScheduledMessageFailure : Type 0 where
  pub code : Text
  pub message : Text

pub record TaskCheckSpec : Type 0 where
  pub label : Text
  pub command : Text
  pub args : List Text
  pub timeout_seconds : ℕ

pub record TaskResourceLimits : Type 0 where
  pub cpu : Text
  pub memory : Text

pub record CreateTaskRunRequest : Type 0 where
  pub project_placement_id : ProjectPlacementId
  pub prompt : Text
  pub base_revision : Option Text
  pub checks : List TaskCheckSpec
  pub artifact_paths : List Text
  pub timeout_seconds : ℕ
  pub ttl_seconds : ℕ
  pub resource_limits : TaskResourceLimits
  pub runtime_image : Option Text

pub record TaskRunSpec : Type 0 where
  pub task_run_id : TaskRunId
  pub project_placement_id : ProjectPlacementId
  pub provider : Text
  pub prompt : Text
  pub base_revision : Text
  pub branch : Text
  pub checks : List TaskCheckSpec
  pub artifact_paths : List Text
  pub timeout_seconds : ℕ
  pub ttl_seconds : ℕ
  pub resource_limits : TaskResourceLimits
  pub runtime_image : Text

pub record TaskCheckResult : Type 0 where
  pub label : Text
  pub command : Text
  pub success : Bool
  pub exit_code : Option ℤ
  pub stdout : Text
  pub stderr : Text
  pub stdout_truncated : Bool
  pub stderr_truncated : Bool
  pub duration_ms : ℕ

pub record TaskArtifactEvidence : Type 0 where
  pub path : Text
  pub size_bytes : ℕ
  pub sha256 : Text

pub record TaskRunResultPackage : Type 0 where
  pub task_run_id : TaskRunId
  pub state : TaskRunState
  pub cleanup_state : TaskCleanupState
  pub summary : Text
  pub base_revision : Text
  pub final_revision : Option Text
  pub branch : Text
  pub worktree_path : Text
  pub runtime_image : Text
  pub diff : Text
  pub diff_truncated : Bool
  pub checks : List TaskCheckResult
  pub artifacts : List TaskArtifactEvidence
  pub unresolved_risks : List Text
  pub terminal_reason : Option ScheduledMessageFailure
