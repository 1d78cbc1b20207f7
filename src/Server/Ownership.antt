-- ===== src/Server/Ownership.antt =====
-- The check that an event belongs to the node that sends it: `validate_event_owner` of
-- crates/uprava-server/src/runtime/transport/node.rs.
use uprava.Prelude.{
  inl, inr, Bool, true, false, ◌&&◌, ◌||◌, not, Option, none, some, Text, codes, text_eq,
  if◌then◌else◌, and_then, option_map, is_some, any,
}
use uprava.Protocol.Reference.{
  NodeId, ProjectPlacementId, SessionThreadId, RuntimeSessionId, CommandId, TaskRunId, ActorRef,
  ScopeRef,
}
use uprava.Protocol.Event.{EventEnvelope}
use uprava.Server.Support.{AppError, Validated}
use uprava.Server.Tables.{
  RuntimeRow, SessionRow, PlacementRow, TaskRunRow, CommandRow, Db, select_one, column_is,
}

abbrev pub auth : Text → Text → Validated
auth code message = inl (AppError.auth code message)

abbrev pub allow : Bool → Text → Text → Validated
allow b code message = if b then inr tt else auth code message

-- equality of two optional identifiers
abbrev pub same_option : Option Text → Option Text → Bool
same_option none none = true
same_option (some a) (some b) = text_eq a b
same_option _ _ = false

unfoldable pub placement_owner : ProjectPlacementId → Db → Option NodeId
placement_owner id db =
    option_map (λ p. p.node_id)
      (select_one (λ (p : PlacementRow). text_eq p.project_placement_id id) db.placements)

unfoldable pub session_owner : SessionThreadId → Db → Option NodeId
unfolding placement_owner
session_owner id db =
    and_then (select_one (λ (s : SessionRow). text_eq s.session_thread_id id) db.sessions)
      (λ s. placement_owner s.project_placement_id db)

abbrev pub runtime_session : RuntimeSessionId → Db → Option SessionThreadId
runtime_session id db =
    option_map (λ r. r.session_thread_id)
      (select_one (λ (r : RuntimeRow). text_eq r.runtime_session_id id) db.runtimes)

unfoldable pub runtime_owner : RuntimeSessionId → Db → Option NodeId
unfolding session_owner
runtime_owner id db = and_then (runtime_session id db) (λ s. session_owner s db)

abbrev pub task_owner : TaskRunId → Db → Option NodeId
task_owner id db =
    option_map (λ t. t.node_id)
      (select_one (λ (t : TaskRunRow). text_eq t.task_run_id id) db.task_runs)

unfoldable pub validate_runtime_owner : NodeId → RuntimeSessionId → Db → Validated
unfolding runtime_owner
validate_runtime_owner node id db =
    allow (column_is (runtime_owner id db) node) (codes "control.event_runtime_mismatch")
      (codes "Event runtime belongs to another Node")

unfoldable pub validate_placement_owner : NodeId → ProjectPlacementId → Db → Validated
unfolding placement_owner
validate_placement_owner node id db =
    allow (column_is (placement_owner id db) node) (codes "control.event_placement_mismatch")
      (codes "Event Placement belongs to another Node")

abbrev pub event_scope_placement_id : ScopeRef → Option ProjectPlacementId
event_scope_placement_id (ScopeRef.placement id) = some id
event_scope_placement_id _ = none

abbrev pub is_task_run : ScopeRef → Bool
is_task_run (ScopeRef.task_run id) = true
is_task_run _ = false

abbrev pub task_scope_mismatch : ScopeRef → CommandId → Db → Bool
task_scope_mismatch (ScopeRef.task_run id) command_id db = not (
    any (λ (t : TaskRunRow). text_eq t.task_run_id id && text_eq t.command_id command_id)
      db.task_runs)
task_scope_mismatch _ command_id db = false

abbrev pub command_mismatch : NodeId → EventEnvelope → CommandId → CommandRow → Db → Bool
command_mismatch node event id c db =
    let placement_mismatch =
      not (is_some c.session_thread_id)
      && not (is_some c.runtime_session_id)
      && is_some c.project_placement_id
      && not (is_task_run event.scope_ref)
      && not (same_option (event_scope_placement_id event.scope_ref) c.project_placement_id) in
    not (text_eq c.target_node_id node)
    || not (same_option event.session_thread_id c.session_thread_id)
    || not (same_option event.runtime_session_id c.runtime_session_id)
    || placement_mismatch
    || task_scope_mismatch event.scope_ref id db

abbrev pub check_actor : NodeId → ActorRef → Validated
check_actor node (ActorRef.node actor) =
    allow (text_eq actor node) (codes "control.event_actor_mismatch")
      (codes "Event actor belongs to another Node")
check_actor node _ = inr tt

abbrev pub check_command_row :
    NodeId → EventEnvelope → CommandId → Option CommandRow → Db → Validated
check_command_row node event id none db =
    auth (codes "control.event_command_mismatch")
      (codes "Event command does not belong to the authenticated Node")
check_command_row node event id (some c) db =
    allow (not (command_mismatch node event id c db)) (codes "control.event_command_mismatch")
      (codes "Event command context does not match its durable target")

abbrev pub check_command : NodeId → EventEnvelope → Option CommandId → Db → Validated
check_command node event none db = inr tt
check_command node event (some id) db =
    check_command_row node event id
      (select_one (λ (c : CommandRow). text_eq c.command_id id) db.commands) db

abbrev pub check_context : Option RuntimeSessionId → Option SessionThreadId → Db → Validated
check_context (some runtime) (some session) db =
    allow (column_is (runtime_session runtime db) session) (codes "control.event_context_mismatch")
      (codes "Event runtime and session do not belong to the same aggregate")
check_context _ _ db = inr tt

abbrev pub check_runtime : NodeId → Option RuntimeSessionId → Db → Validated
check_runtime node none db = inr tt
check_runtime node (some id) db = validate_runtime_owner node id db

abbrev pub check_session : NodeId → Option SessionThreadId → Db → Validated
check_session node none db = inr tt
check_session node (some id) db =
    allow (column_is (session_owner id db) node) (codes "control.event_session_mismatch")
      (codes "Event session does not belong to the authenticated Node")

abbrev pub scope_mismatch : Text
scope_mismatch = codes "control.event_scope_mismatch"

abbrev pub check_scope : NodeId → EventEnvelope → ScopeRef → Db → Validated
check_scope node event (ScopeRef.node id) db =
    allow (text_eq id node) scope_mismatch (codes "Event scope belongs to another Node")
check_scope node event (ScopeRef.runtime id) db =
    if column_is event.runtime_session_id id
    then validate_runtime_owner node id db
    else auth scope_mismatch (codes "Event runtime scope does not match its envelope runtime")
check_scope node event (ScopeRef.session id) db =
    if column_is event.session_thread_id id
    then allow (column_is (session_owner id db) node) scope_mismatch
        (codes "Event scope belongs to another Node")
    else auth scope_mismatch (codes "Event session scope does not match its envelope session")
check_scope node event (ScopeRef.placement id) db = validate_placement_owner node id db
check_scope node event (ScopeRef.task_run id) db =
    allow (column_is (task_owner id db) node) scope_mismatch
      (codes "Task Run event scope belongs to another Node")
check_scope node event (ScopeRef.unknown scope) db = inr tt

-- the early returns, one after the other
abbrev pub ◌then_check◌ : Validated → Validated → Validated
inl e then_check next = inl e
inr ok then_check next = next

infixr 5 ◌then_check◌
unfoldable pub validate_event_owner : NodeId → EventEnvelope → Db → Validated
validate_event_owner node event db =
    allow (column_is event.node_id node) (codes "control.event_node_mismatch")
      (codes "Event node id does not match the authenticated Node")
    then_check check_actor node event.actor_ref
    then_check check_command node event event.command_id db
    then_check check_context event.runtime_session_id event.session_thread_id db
    then_check check_runtime node event.runtime_session_id db
    then_check check_session node event.session_thread_id db
    then_check check_scope node event event.scope_ref db
