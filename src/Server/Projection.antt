-- ===== src/Server/Projection.antt =====
-- What an event does to turns and approvals, and the codecs and errors that the projections share:
-- crates/uprava-server/src/persistence/event.rs.
use uprava.Prelude.{
  ◌≡◌, inl, inr, Bool, true, false, ◌&&◌, not, Option, none, some, List, [], ◌∷◌, ◌++◌, Text, codes,
  text_eq, if◌then◌else◌, option_map, map_or, or_else, is_some, any,
}
use uprava.Protocol.Json.{Json}
use uprava.Protocol.Reference.{DateTime, SessionThreadId, RuntimeSessionId, ApprovalId, MessageId}
use uprava.Protocol.Domain.{EventKind, TurnState, ApprovalState}
use uprava.Protocol.Workspace.{ResourceBadge, GitWorkspaceSnapshot}
use uprava.Protocol.Command.{CommandEnvelope}
use uprava.Protocol.Event.{EventEnvelope, EventPayload}
use uprava.Server.Support.{AppError, Outcome, event_approval_id}
use uprava.Server.Tables.{TurnRow, ApprovalRow, Db, select_one, update_where, column_is}

-- The codecs that serde derives, and the fresh identifiers. Encoding does not fail for these types,
-- and what was encoded is decoded again, of which the identifier of an event is used.
pub record Codecs : Type 0 where
  pub event_to_string : EventEnvelope → Text
  pub event_from_str : Text → Option EventEnvelope
  pub event_from_str-event_to_string :
      (e : EventEnvelope)
      → option_map (λ d. d.event_id) (event_from_str (event_to_string e)) ≡ some e.event_id
  pub payload_to_string : EventPayload → Text
  pub json_to_string : Json → Text
  pub command_from_str : Text → Option CommandEnvelope
  pub badges_from_value : Json → Option (List ResourceBadge)
  pub badges_to_string : List ResourceBadge → Text
  pub git_snapshot_from_value : Json → Option (Option GitWorkspaceSnapshot)
  pub git_snapshot_to_string : GitWorkspaceSnapshot → Text
  -- the identifier of the message for an event
  pub new_message_id : EventEnvelope → MessageId

abbrev pub foreign_key_failed : AppError
foreign_key_failed = AppError.database (codes "FOREIGN KEY constraint failed")

abbrev pub unique_failed : AppError
unique_failed = AppError.database (codes "UNIQUE constraint failed")

abbrev pub check_failed : AppError
check_failed = AppError.database (codes "CHECK constraint failed")

abbrev pub serde_failed : AppError
serde_failed = AppError.serialization (codes "invalid JSON value")

-- `touch_runtime_step_on_connection`
unfoldable pub touch_runtime_step : RuntimeSessionId → DateTime → Db → Db
touch_runtime_step id happened_at db = record db {
  runtimes =
      update_where (λ r. text_eq r.runtime_session_id id)
        (λ r. record r { last_runtime_step_at = some happened_at; updated_at = happened_at })
        db.runtimes;
}

abbrev pub kind_turn_state : EventKind → Option TurnState
kind_turn_state EventKind.turn_started = some TurnState.running
kind_turn_state EventKind.turn_completed = some TurnState.completed
kind_turn_state EventKind.turn_interrupted = some TurnState.interrupted
kind_turn_state EventKind.approval_requested = some TurnState.blocked_on_approval
kind_turn_state EventKind.runtime_error = some TurnState.failed
kind_turn_state _ = none

unfoldable pub turn_state_for_event : EventEnvelope → Option TurnState
turn_state_for_event event = kind_turn_state event.kind

abbrev pub is_ended : TurnState → Bool
is_ended TurnState.completed = true
is_ended TurnState.interrupted = true
is_ended TurnState.failed = true
is_ended _ = false

abbrev pub is_blocked : TurnState → Bool
is_blocked TurnState.blocked_on_approval = true
is_blocked _ = false

abbrev pub turn_update : EventEnvelope → TurnState → TurnRow → TurnRow
turn_update event state row = record row {
  state = state;
  blocked_approval_id = if is_blocked state then event_approval_id event else none;
  completed_at = if is_ended state then some event.happened_at else row.completed_at;
  updated_at = event.happened_at;
}

abbrev pub update_turn : EventEnvelope → Option TurnState → Option Text → Db → Db
update_turn event (some state) (some turn_id) db = record db {
  turns = update_where (λ r. text_eq r.turn_id turn_id) (turn_update event state) db.turns;
}
update_turn event _ _ db = db

-- `update_turn_from_event_on_connection`
unfoldable pub update_turn_from_event : EventEnvelope → Db → Db
unfolding turn_state_for_event
update_turn_from_event event db = update_turn event (turn_state_for_event event) event.turn_id db

abbrev pub has_session : SessionThreadId → Db → Bool
has_session id db = is_some (select_one (λ s. text_eq s.session_thread_id id) db.sessions)

-- The unique index `approvals_turn_idx`: another approval has the turn of this one. Null is no turn.
unfoldable pub turn_taken : List ApprovalRow → ApprovalRow → Bool
turn_taken rows row =
    any
      (λ r.
        not (text_eq r.approval_id row.approval_id)
        && map_or false (column_is r.turn_id) row.turn_id)
      rows

-- `insert into approvals .. on conflict(approval_id) do update`, whose reference to the session the
-- database checks. The clause resolves the conflict on the identifier alone, so the row as it is to
-- stand must not have the turn of another approval.
unfoldable pub upsert_approval : ApprovalRow → (ApprovalRow → ApprovalRow) → Db → Outcome Db
unfolding turn_taken
upsert_approval row update db =
    let same = λ (r : ApprovalRow). text_eq r.approval_id row.approval_id in
    let written = map_or row update (select_one same db.approvals) in
    if turn_taken db.approvals written
    then inl unique_failed
    else if has_session row.session_thread_id db
    then inr (record db {
      approvals =
          if is_some (select_one same db.approvals)
          then update_where same update db.approvals
          else db.approvals ++ row ∷ [];
    })
    else inl foreign_key_failed

module _ (codecs : Codecs) where
  abbrev pub approval_request : EventEnvelope → ApprovalId → SessionThreadId → ApprovalRow
  approval_request event id session = record {
    approval_id = id;
    session_thread_id = session;
    runtime_session_id = event.runtime_session_id;
    turn_id = event.turn_id;
    state = ApprovalState.requested;
    request_payload_json = codecs.payload_to_string event.payload;
    response_payload_json = none;
    request_command_id = event.command_id;
    resolve_command_id = none;
    requested_event_id = some event.event_id;
    resolved_event_id = none;
    created_at = event.happened_at;
    updated_at = event.happened_at;
    resolved_at = none;
  }

  abbrev pub approval_resolution : EventEnvelope → ApprovalId → SessionThreadId → ApprovalRow
  approval_resolution event id session = record {
    approval_id = id;
    session_thread_id = session;
    runtime_session_id = event.runtime_session_id;
    turn_id = event.turn_id;
    state = ApprovalState.resolved;
    request_payload_json = codes "{}";
    response_payload_json = some (codecs.payload_to_string event.payload);
    request_command_id = none;
    resolve_command_id = event.command_id;
    requested_event_id = none;
    resolved_event_id = some event.event_id;
    created_at = event.happened_at;
    updated_at = event.happened_at;
    resolved_at = some event.happened_at;
  }

  abbrev pub request_again : ApprovalRow → ApprovalRow → ApprovalRow
  request_again new old = record old {
    session_thread_id = new.session_thread_id;
    runtime_session_id = new.runtime_session_id;
    turn_id = new.turn_id;
    state = new.state;
    request_payload_json = new.request_payload_json;
    request_command_id = new.request_command_id;
    requested_event_id = new.requested_event_id;
    updated_at = new.updated_at;
  }

  abbrev pub resolve_known : ApprovalRow → ApprovalRow → ApprovalRow
  resolve_known new old = record old {
    session_thread_id = new.session_thread_id;
    runtime_session_id = new.runtime_session_id;
    turn_id = or_else new.turn_id old.turn_id;
    state = new.state;
    response_payload_json = new.response_payload_json;
    resolve_command_id = new.resolve_command_id;
    resolved_event_id = new.resolved_event_id;
    resolved_at = new.resolved_at;
    updated_at = new.updated_at;
  }

  unfoldable pub approval_of_kind :
      EventKind → EventEnvelope → ApprovalId → SessionThreadId → Db → Outcome Db
  unfolding upsert_approval
  approval_of_kind EventKind.approval_requested event id session db =
      let row = approval_request event id session in upsert_approval row (request_again row) db
  approval_of_kind EventKind.approval_resolved event id session db =
      let row = approval_resolution event id session in upsert_approval row (resolve_known row) db
  approval_of_kind _ event id session db = inr db

  unfoldable pub update_approval :
      EventEnvelope → Option ApprovalId → Option SessionThreadId → Db → Outcome Db
  unfolding approval_of_kind
  update_approval event (some id) (some session) db =
      approval_of_kind event.kind event id session db
  update_approval event _ _ db = inr db

  -- `update_approval_from_event_on_connection`; an event without an approval or a session does
  -- nothing
  unfoldable pub update_approval_from_event : EventEnvelope → Db → Outcome Db
  unfolding update_approval
  update_approval_from_event event db =
      update_approval event (event_approval_id event) event.session_thread_id db
