-- ===== src/Server/Tables.antt =====
-- The tables that events are projected into: crates/uprava-server/src/persistence/migrations.rs. A row
-- has the columns that the modelled statements read or write. A column of state names holds the
-- state, since the names are those of `format_*`, which `parse_*` reads back; columns that repeat
-- parts of `event_json` are left out.
use uprava.Prelude.{
  ℕ, Bool, false, Option, none, some, List, [], ◌∷◌, Text, text_eq, if◌then◌else◌, maxℤ, ℤ,
}
use uprava.Protocol.Reference.{
  DateTime, NodeId, ProjectPlacementId, SessionThreadId, RuntimeSessionId, TurnId, CommandId,
  EventId, ApprovalId, MessageId, TaskRunId,
}
use uprava.Protocol.Domain.{
  PlacementState, SessionThreadState, RuntimeSessionState, TurnState, ApprovalState,
}

-- whether `projection_state` is `projected`; the other value is `pending`
pub record EventRow : Type 0 where
  pub event_id : EventId
  pub scope : Text
  pub seq : ℤ
  pub session_thread_id : Option SessionThreadId
  pub session_projection_seq : Option ℤ
  pub event_json : Text
  pub is_projected : Bool
  pub projection_attempts : ℕ
  pub projected_at : Option DateTime

pub record PublicationRow : Type 0 where
  pub event_id : EventId
  pub event_json : Text
  pub attempts : ℕ
  pub enqueued_at : DateTime
  pub published_at : Option DateTime

pub data MessageRole : Type 0 where
  user : MessageRole
  assistant : MessageRole
  system : MessageRole
  runtime : MessageRole
  approval : MessageRole

pub record MessageRow : Type 0 where
  pub message_id : MessageId
  pub session_thread_id : SessionThreadId
  pub turn_id : Option TurnId
  pub role : MessageRole
  pub content : Text
  pub created_at : DateTime
  pub completed_at : Option DateTime
  pub source_event_id : Option EventId

pub record TurnRow : Type 0 where
  pub turn_id : TurnId
  pub state : TurnState
  pub blocked_approval_id : Option ApprovalId
  pub completed_at : Option DateTime
  pub updated_at : DateTime

pub record ApprovalRow : Type 0 where
  pub approval_id : ApprovalId
  pub session_thread_id : SessionThreadId
  pub runtime_session_id : Option RuntimeSessionId
  pub turn_id : Option TurnId
  pub state : ApprovalState
  pub request_payload_json : Text
  pub response_payload_json : Option Text
  pub request_command_id : Option CommandId
  pub resolve_command_id : Option CommandId
  pub requested_event_id : Option EventId
  pub resolved_event_id : Option EventId
  pub created_at : DateTime
  pub updated_at : DateTime
  pub resolved_at : Option DateTime

pub record RuntimeRow : Type 0 where
  pub runtime_session_id : RuntimeSessionId
  pub session_thread_id : SessionThreadId
  pub state : RuntimeSessionState
  pub provider_resume_ref_json : Option Text
  pub degraded_reason : Option Text
  pub last_runtime_step_at : Option DateTime
  pub updated_at : DateTime

pub record SessionRow : Type 0 where
  pub session_thread_id : SessionThreadId
  pub project_placement_id : ProjectPlacementId
  pub state : SessionThreadState
  pub updated_at : DateTime

pub record PlacementRow : Type 0 where
  pub project_placement_id : ProjectPlacementId
  pub node_id : NodeId
  pub display_name : Text
  pub workspace_path : Text
  pub state : PlacementState
  pub resource_badges_json : Text
  pub git_snapshot_json : Option Text
  pub last_validated_at : Option DateTime
  pub updated_at : DateTime

-- `state` and `cleanup_state` are texts that the table checks
pub record TaskRunRow : Type 0 where
  pub task_run_id : TaskRunId
  pub node_id : NodeId
  pub command_id : CommandId
  pub state : Text
  pub cleanup_state : Text
  pub started_at : Option DateTime
  pub updated_at : DateTime

pub record ActorRow : Type 0 where
  pub actor_key : Text
  pub actor_kind : Text
  pub display_name : Text
  pub first_seen_at : DateTime
  pub last_seen_at : DateTime

pub record CommandRow : Type 0 where
  pub command_id : CommandId
  pub target_node_id : NodeId
  pub session_thread_id : Option SessionThreadId
  pub runtime_session_id : Option RuntimeSessionId
  pub project_placement_id : Option ProjectPlacementId
  pub command_json : Text

pub record Db : Type 0 where
  pub events : List EventRow
  pub publications : List PublicationRow
  pub messages : List MessageRow
  pub turns : List TurnRow
  pub approvals : List ApprovalRow
  pub runtimes : List RuntimeRow
  pub sessions : List SessionRow
  pub placements : List PlacementRow
  pub task_runs : List TaskRunRow
  pub actors : List ActorRow
  pub commands : List CommandRow

-- `select .. where ..` of at most one row, and `update .. where ..`
module _ {ℓ} {A : Type ℓ} where
  unfoldable pub select_one : (A → Bool) → List A → Option A
  select_one p [] = none
  select_one p (x ∷ xs) = if p x then some x else select_one p xs

  unfoldable pub update_where : (A → Bool) → (A → A) → List A → List A
  update_where p f [] = []
  update_where p f (x ∷ xs) = (if p x then f x else x) ∷ update_where p f xs

abbrev pub greater : Option ℤ → Option ℤ → Option ℤ
greater none rest = rest
greater (some n) none = some n
greater (some n) (some m) = some (maxℤ n m)

-- `max(..)` over the rows that have a value
unfoldable pub max_value {ℓ} : {A : Type ℓ} → (A → Option ℤ) → List A → Option ℤ
max_value f [] = none
max_value f (x ∷ xs) = greater (f x) (max_value f xs)

-- comparison of an optional column with a text, which null does not equal
unfoldable pub column_is : Option Text → Text → Bool
column_is none value = false
column_is (some v) value = text_eq v value
