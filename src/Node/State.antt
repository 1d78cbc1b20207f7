-- ===== src/Node/State.antt =====
-- `NodeLocalState` and the records in it: crates/uprava-node/src/runtime/persistence/state.rs and
-- tool_runtime.rs.
use uprava.Prelude.{
  ◌+◌, ◌-◌, ◌^◌, ◌<◌, ℕ, min, ◌≡◌, Bool, false, ◌&&◌, Option, none, some, List, arith, Text,
  text_eq, text_eq_refl, is_some, Map, get, insert, get-insert, i64_max, ℤ, pos, i64_succ,
}
use native.Mathlib.Decide.{ℕ_discrete}
use uprava.Protocol.Json.{Json}
use uprava.Protocol.Reference.{
  DateTime, NodeId, EnrollmentId, TaskRunId, IntegrationId, McpDependencyInstanceId,
  RuntimeSessionId, ProjectPlacementId,
}
use uprava.Protocol.Domain.{CommandState, RuntimeSessionState}
use uprava.Protocol.Command.{IntegrationDesiredState}
use uprava.Protocol.Event.{EventEnvelope}

pub record ProviderTranscriptMessage : Type 0 where
  pub role : Text
  pub content : Text

pub record ProviderResumeRef : Type 0 where
  pub provider_session_id : Option Text
  pub resume_cursor : Option Text

pub record TaskRuntimeMapping : Type 0 where
  pub task_run_id : TaskRunId
  pub worktree_path : Text
  pub branch : Text
  pub sandbox_id : Option Text
  pub updated_at : DateTime

pub record ToolDependencyDesired : Type 0 where
  pub dependency_instance_id : McpDependencyInstanceId
  pub integration_id : IntegrationId
  pub desired_state : IntegrationDesiredState
  pub credential_ref : Option Text
  pub upstream_url : Text
  pub workload_name : Text
  pub tool_namespace : Text
  pub proxy_port : ℕ

pub record NodeLocalState : Type 0 where
  pub state_slot : Text
  pub schema_version : ℕ
  pub daemon_installation_id : Text
  pub node_id : Option NodeId
  pub credential : Option Text
  pub enrollment_id : Option EnrollmentId
  pub pairing_code : Option Text
  pub command_status : Map CommandState
  pub command_result_payloads : Map Json
  pub runtime_seqs : Map ℤ
  pub event_outbox : List EventEnvelope
  pub runtime_providers : Map Text
  pub runtime_workspace_paths : Map Text
  pub runtime_states : Map RuntimeSessionState
  pub runtime_transcripts : Map (List ProviderTranscriptMessage)
  pub runtime_provider_resume_refs : Map ProviderResumeRef
  pub cancelled_deductions : List Text
  pub tool_dependencies : Map ToolDependencyDesired
  pub task_runtime_mappings : Map TaskRuntimeMapping
  pub placement_seqs : Map ℤ
  pub reconnect_attempts : ℕ
  pub dropped_event_count : ℕ
  pub heartbeat_failures : ℕ

-- Equality of the values that the maps of the state hold, as `PartialEq` derives it.
pub Text-discrete : Discrete Text
Text-discrete = hlevel ℕ_discrete

pub CommandState-discrete : Discrete CommandState
CommandState-discrete = hlevel

pub RuntimeSessionState-discrete : Discrete RuntimeSessionState
RuntimeSessionState-discrete = hlevel

pub Json-discrete : Discrete Json
Json-discrete = hlevel ℕ_discrete

pub Transcript-discrete : Discrete (List ProviderTranscriptMessage)
Transcript-discrete = hlevel ℕ_discrete

pub ProviderResumeRef-discrete : Discrete ProviderResumeRef
ProviderResumeRef-discrete = hlevel ℕ_discrete

pub TaskRuntimeMapping-discrete : Discrete TaskRuntimeMapping
TaskRuntimeMapping-discrete = hlevel ℕ_discrete

pub ToolDependencyDesired-discrete : Discrete ToolDependencyDesired
ToolDependencyDesired-discrete = hlevel ℕ_discrete

-- The sequence number that `next_runtime_seq` and `next_placement_seq` give out.
unfoldable pub bumped : Option ℤ → ℤ
bumped none = pos 1
bumped (some seq) = i64_succ seq

unfoldable pub next_runtime_seq : Map ℤ → RuntimeSessionId → Map ℤ × ℤ
unfolding bumped
next_runtime_seq seqs id = let seq = bumped (get id seqs) in (insert id seq seqs, seq)

unfoldable pub next_placement_seq : Map ℤ → ProjectPlacementId → Map ℤ × ℤ
unfolding bumped
next_placement_seq seqs id = let seq = bumped (get id seqs) in (insert id seq seqs, seq)

unfoldable pub is_enrolled : NodeLocalState → Bool
is_enrolled s = is_some s.node_id && is_some s.credential

unfoldable pub clear_core_registration : NodeLocalState → NodeLocalState
clear_core_registration s = record s {
  node_id = none;
  credential = none;
  enrollment_id = none;
  pairing_code = none;
}

unfoldable pub clear_enrollment_attempt : NodeLocalState → NodeLocalState
clear_enrollment_attempt s = record s { enrollment_id = none; pairing_code = none }

-- `u64::saturating_add`
abbrev pub saturating_add_u64 : ℕ → ℕ → ℕ
saturating_add_u64 a b = min (a + b) (2 ^ 64 - 1)

-- Of two numbers that `next_runtime_seq` gives out in a row for one runtime the second is one
-- more, unless the counter stands at the largest `i64`; other runtimes keep their counters.
pub next_runtime_seq_lem :
    (seqs : Map ℤ) (id j : RuntimeSessionId) (n : ℕ)
    → (next_runtime_seq seqs id).1 ≡ pos n
    → n < i64_max
    → ((next_runtime_seq (next_runtime_seq seqs id).0 id).1 ≡ pos (n + 1))
      × (text_eq id j ≡ false → get j (next_runtime_seq seqs id).0 ≡ get j seqs)
unfolding next_runtime_seq
next_runtime_seq_lem seqs id j n h lt = ground (
  arith,
  get-insert id id (bumped (get id seqs)) seqs,
  get-insert id j (bumped (get id seqs)) seqs,
  text_eq_refl id,
)
