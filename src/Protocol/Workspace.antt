-- ===== src/Protocol/Workspace.antt =====
-- The workspace and Git records of crates/uprava-protocol/src/workspace.rs and api.rs.
use uprava.Prelude.{ℕ, Bool, Option, List, Text}
use uprava.Protocol.Reference.{DateTime, TerminalId}
use uprava.Protocol.Domain.{WarningSeverity}

pub record ResourceBadge : Type 0 where
  pub kind : Text
  pub severity : WarningSeverity
  pub label : Text

pub data GitRepositoryState : Type 0 where
  ready : GitRepositoryState
  not_repository : GitRepositoryState
  unavailable : GitRepositoryState

pub data GitHeadState : Type 0 where
  branch : GitHeadState
  detached : GitHeadState
  unborn : GitHeadState

pub data GitWorktreeKind : Type 0 where
  primary : GitWorktreeKind
  linked : GitWorktreeKind

pub data GitOperation : Type 0 where
  merge : GitOperation
  rebase : GitOperation
  cherry_pick : GitOperation
  revert : GitOperation
  bisect : GitOperation

pub data GitChangeKind : Type 0 where
  added : GitChangeKind
  modified : GitChangeKind
  deleted : GitChangeKind
  renamed : GitChangeKind
  copied : GitChangeKind
  untracked : GitChangeKind
  unmerged : GitChangeKind
  type_changed : GitChangeKind
  unknown : GitChangeKind

pub record GitChangedFile : Type 0 where
  pub path : Text
  pub previous_path : Option Text
  pub index_status : Option GitChangeKind
  pub worktree_status : Option GitChangeKind
  pub conflicted : Bool
  pub binary : Bool

pub record GitWorkspaceSnapshot : Type 0 where
  pub state : GitRepositoryState
  pub repo_id : Option Text
  pub head_state : Option GitHeadState
  pub branch : Option Text
  pub commit : Option Text
  pub upstream : Option Text
  pub ahead : ℕ
  pub behind : ℕ
  pub worktree_kind : Option GitWorktreeKind
  pub operation : Option GitOperation
  pub changed_files : List GitChangedFile
  pub staged_count : ℕ
  pub unstaged_count : ℕ
  pub untracked_count : ℕ
  pub conflicted_count : ℕ
  pub truncated : Bool
  pub generated_at : DateTime

pub record WorkspaceFileWriteRequest : Type 0 where
  pub path : Text
  pub content : Text
  pub expected_content : Option Text

pub data WorkspaceCommandIntent : Type 0 where
  command : WorkspaceCommandIntent
  check : WorkspaceCommandIntent

pub record WorkspaceCommandRunRequest : Type 0 where
  pub command : Text
  pub args : List Text
  pub intent : WorkspaceCommandIntent
  pub label : Option Text
  pub timeout_seconds : Option ℕ

pub data WorkspaceDiffScope : Type 0 where
  all : WorkspaceDiffScope
  staged : WorkspaceDiffScope
  unstaged : WorkspaceDiffScope

pub record WorkspaceDiffRequest : Type 0 where
  pub scope : WorkspaceDiffScope
  pub path : Option Text

pub record WorkspaceDiffHunk : Type 0 where
  pub hunk_id : Text
  pub header : Text
  pub patch : Text

pub record WorkspaceTerminalOpenRequest : Type 0 where
  pub shell_profile : Option Text
  pub cols : ℕ
  pub rows : ℕ

pub record WorkspaceTerminalAttachRequest : Type 0 where
  pub terminal_id : TerminalId

pub record WorkspaceTerminalResizeRequest : Type 0 where
  pub terminal_id : TerminalId
  pub cols : ℕ
  pub rows : ℕ

pub record WorkspaceTerminalWriteRequest : Type 0 where
  pub terminal_id : TerminalId
  pub payload_data : Text

pub record WorkspaceTerminalCloseRequest : Type 0 where
  pub terminal_id : TerminalId
