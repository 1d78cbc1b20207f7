-- ===== src/Protocol/Reference.antt =====
-- crates/uprava-protocol/src/reference.rs and the references of projection.rs: identifiers are
-- newtypes of strings (`id_type!`), compared as strings.
use uprava.Prelude.{ℕ, ℤ, Option, List, Text}
use uprava.Protocol.Json.{Json}

-- `DateTime<Utc>`: nanoseconds since the earliest instant that the type can hold.
abbrev pub DateTime : Type 0
DateTime = ℕ

abbrev pub NodeId : Type 0
NodeId = Text

abbrev pub EnrollmentId : Type 0
EnrollmentId = Text

abbrev pub ProjectId : Type 0
ProjectId = Text

abbrev pub ProjectPlacementId : Type 0
ProjectPlacementId = Text

abbrev pub ActorId : Type 0
ActorId = Text

abbrev pub SessionThreadId : Type 0
SessionThreadId = Text

abbrev pub RuntimeSessionId : Type 0
RuntimeSessionId = Text

abbrev pub TurnId : Type 0
TurnId = Text

abbrev pub MessageId : Type 0
MessageId = Text

abbrev pub CommandId : Type 0
CommandId = Text

abbrev pub TerminalId : Type 0
TerminalId = Text

abbrev pub EventId : Type 0
EventId = Text

abbrev pub ApprovalId : Type 0
ApprovalId = Text

abbrev pub ArtifactId : Type 0
ArtifactId = Text

abbrev pub EvidenceId : Type 0
EvidenceId = Text

abbrev pub BlockId : Type 0
BlockId = Text

abbrev pub CorrelationId : Type 0
CorrelationId = Text

abbrev pub DeductionId : Type 0
DeductionId = Text

abbrev pub JobId : Type 0
JobId = Text

abbrev pub JobRunId : Type 0
JobRunId = Text

abbrev pub TaskRunId : Type 0
TaskRunId = Text

abbrev pub ToolId : Type 0
ToolId = Text

abbrev pub ToolSourceId : Type 0
ToolSourceId = Text

abbrev pub IntegrationId : Type 0
IntegrationId = Text

abbrev pub McpDependencyInstanceId : Type 0
McpDependencyInstanceId = Text

abbrev pub ToolCallId : Type 0
ToolCallId = Text

abbrev pub McpAccessLeaseId : Type 0
McpAccessLeaseId = Text

abbrev pub PluginId : Type 0
PluginId = Text

pub data ActorRef : Type 0 where
  local_user : Option ActorId → ActorRef
  system : ActorRef
  node : NodeId → ActorRef
  provider : Text → ActorRef
  unknown : ActorRef

pub data ScopeRef : Type 0 where
  runtime : RuntimeSessionId → ScopeRef
  session : SessionThreadId → ScopeRef
  node : NodeId → ScopeRef
  placement : ProjectPlacementId → ScopeRef
  task_run : TaskRunId → ScopeRef
  unknown : Text → ScopeRef

pub record TextRange : Type 0 where
  pub start_line : Option ℤ
  pub end_line : Option ℤ
  pub start_offset : Option ℤ
  pub end_offset : Option ℤ

pub data UpravaRef : Type 0 where
  node : NodeId → UpravaRef
  project : ProjectId → UpravaRef
  placement : ProjectPlacementId → UpravaRef
  workspace : ProjectPlacementId → UpravaRef
  session : SessionThreadId → UpravaRef
  runtime : RuntimeSessionId → UpravaRef
  task_run : TaskRunId → UpravaRef
  turn : TurnId → UpravaRef
  message : MessageId → UpravaRef
  message_range : MessageId → TextRange → UpravaRef
  block : BlockId → UpravaRef
  artifact : ArtifactId → UpravaRef
  artifact_version : ArtifactId → ℕ → UpravaRef
  deduction : DeductionId → UpravaRef
  event : EventId → ScopeRef → ℤ → UpravaRef
  command : CommandId → UpravaRef
  approval : ApprovalId → UpravaRef
  warning : Text → Option CommandId → UpravaRef
  tool_call : Text → UpravaRef
  file : ProjectPlacementId → Text → Option Text → UpravaRef
  file_range : ProjectPlacementId → Text → TextRange → Option Text → UpravaRef
  terminal : Text → ProjectPlacementId → UpravaRef
  terminal_command : Text → Option Text → UpravaRef
  terminal_output_range : Text → TextRange → UpravaRef
  diff_hunk : Text → Text → UpravaRef
  workspace_diff : Text → ProjectPlacementId → UpravaRef
  check_result : Text → Option Text → UpravaRef
  workspace_edit : Text → Option ProjectPlacementId → Option Text → UpravaRef
  trace_event : Text → UpravaRef
  external_entity : Text → Text → UpravaRef
  unknown : Text → Json → UpravaRef

pub data TracePrecision : Type 0 where
  exact : TracePrecision
  coarse : TracePrecision
  agent_authored : TracePrecision
  unknown : TracePrecision

pub record CausalityLinks : Type 0 where
  pub source_refs : List UpravaRef
  pub evidence_refs : List UpravaRef
  pub cause_refs : List UpravaRef
  pub result_refs : List UpravaRef
  pub raw_refs : List UpravaRef
