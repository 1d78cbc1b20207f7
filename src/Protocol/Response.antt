-- ===== src/Protocol/Response.antt =====
-- What Node answers to workspace commands: the responses of crates/uprava-protocol/src/workspace.rs.
use uprava.Prelude.{ℕ, ℤ, Bool, Option, List, Text}
use uprava.Protocol.Reference.{DateTime, ProjectPlacementId}
use uprava.Protocol.Workspace.{
  GitWorkspaceSnapshot, GitChangedFile, WorkspaceCommandIntent, WorkspaceDiffScope,
  WorkspaceDiffHunk,
}

pub data WorkspaceEntryKind : Type 0 where
  directory : WorkspaceEntryKind
  file : WorkspaceEntryKind
  symlink : WorkspaceEntryKind
  other : WorkspaceEntryKind

pub data WorkspaceEntryStatus : Type 0 where
  readable : WorkspaceEntryStatus
  directory : WorkspaceEntryStatus
  large : WorkspaceEntryStatus
  binary : WorkspaceEntryStatus
  ignored : WorkspaceEntryStatus
  generated : WorkspaceEntryStatus
  permission_denied : WorkspaceEntryStatus
  outside_workspace : WorkspaceEntryStatus
  missing : WorkspaceEntryStatus
  not_file : WorkspaceEntryStatus
  not_directory : WorkspaceEntryStatus
  symlink : WorkspaceEntryStatus
  error : WorkspaceEntryStatus

pub data WorkspaceEntryClassification : Type 0 where
  normal : WorkspaceEntryClassification
  generated : WorkspaceEntryClassification
  ignored : WorkspaceEntryClassification

mutual
  -- the name, the path, the kind, the status, the classification, whether it can be expanded, the
  -- length, the time of the last change, and the children
  pub data WorkspaceEntry : Type 0 where
    workspace_entry :
        Text
        → Text
        → WorkspaceEntryKind
        → WorkspaceEntryStatus
        → WorkspaceEntryClassification
        → Bool
        → Option ℕ
        → Option DateTime
        → WorkspaceEntries
        → WorkspaceEntry

  pub data WorkspaceEntries : Type 0 where
    nil : WorkspaceEntries
    cons : WorkspaceEntry → WorkspaceEntries → WorkspaceEntries

-- the field `modified_at`
abbrev pub modified_at : WorkspaceEntry → Option DateTime
modified_at (workspace_entry _ _ _ _ _ _ _ t _) = t

pub record WorkspaceFileWriteResponse : Type 0 where
  pub placement_id : ProjectPlacementId
  pub path : Text
  pub metadata : WorkspaceEntry
  pub edit_id : Text
  pub written_at : DateTime

pub record WorkspaceCommandRunResponse : Type 0 where
  pub placement_id : ProjectPlacementId
  pub terminal_command_id : Text
  pub command : Text
  pub args : List Text
  pub intent : WorkspaceCommandIntent
  pub label : Option Text
  pub exit_code : Option ℤ
  pub success : Bool
  pub stdout : Text
  pub stderr : Text
  pub stdout_truncated : Bool
  pub stderr_truncated : Bool
  pub duration_ms : ℕ
  pub started_at : DateTime
  pub completed_at : DateTime

pub record WorkspaceDiffResponse : Type 0 where
  pub placement_id : ProjectPlacementId
  pub diff_id : Text
  pub git_snapshot : GitWorkspaceSnapshot
  pub summary : Text
  pub diff : Text
  pub scope : WorkspaceDiffScope
  pub path : Option Text
  pub changed_files : List GitChangedFile
  pub hunks : List WorkspaceDiffHunk
  pub original : Option Text
  pub modified : Option Text
  pub binary : Bool
  pub summary_truncated : Bool
  pub diff_truncated : Bool
  pub generated_at : DateTime
