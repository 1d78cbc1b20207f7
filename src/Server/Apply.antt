-- ===== src/Server/Apply.antt =====
-- The updates for each kind of event, and `apply_event_projection_on_connection`, which puts them
-- together: crates/uprava-server/src/runtime/application/coordination.rs.
pub mod Frame
pub mod Kept
pub mod Spared
pub mod States
pub mod Agreement
use uprava.Prelude.{
  ◌+◌, ◌-◌, ◌*◌, ◌/◌, ◌%◌, ◌^◌, ◌≤◌, ◌<◌, ℕ, zero, suc, max, min, compare, Ordering, ◌≡◌, refl, sym,
  ap, ◌∙◌, subst, ◌≢◌, ◌↔◌, ◌⊎◌, inl, inr, Bool, true, false, ◌&&◌, ◌||◌, not, Option, none, some,
  List, [], ◌∷◌, ◌++◌, map, arith, Text, codes, text_eq, text_lt, contains_char, contains_text,
  strip_prefix, trim, byte_len, utf8_len, text_eq_iff, text_eq_refl, ltb, leb, ◌==◌, if◌then◌else◌,
  Bool-cases, Option-cases, and_then, option_map, map_or, unwrap_or, or_else, is_some,
  option_filter, length, take, drop, is_empty, retain, any, all, count_if, Map, get, insert, remove,
  contains_key, keys, set_insert, set_remove, get-insert, get-insert_self, get-remove, map_laws,
  split_once, split, splitn, split_whitespace, parse_u64, decimal, splitn-append, splitn-absent,
  contains_text-set_insert, contains_text-set_remove, i64_max, All, get_elem?, length-append,
  length-drop, length-take, length-retain, count_if-le-length, take-append-drop, count_if-append,
  take-append_one, any-append, retain-append, All-append, All-drop, strip_prefix-append,
  append-cancel_left, trim_start, is_whitespace, text_eq-sym, ==_iff, eqℤ-refl, maxℤ, ◌≤ℤ◌, ◌<ℤ◌,
  maxℤ-ge_left, maxℤ-ge_right, ℤ, pos, negsuc, i64_succ, eqℤ, leℤ, ltb→lt, lt→ltb, leb→le,
}
use uprava.Protocol.Json.{Json, json_get, as_str, object_of}
use uprava.Protocol.Reference.{
  DateTime, SessionThreadId, RuntimeSessionId, ProjectPlacementId, ScopeRef,
}
use uprava.Protocol.Domain.{EventKind, PlacementState, SessionThreadState, RuntimeSessionState}
use uprava.Protocol.Workspace.{ResourceBadge, GitWorkspaceSnapshot}
use uprava.Protocol.Event.{EventEnvelope}
use uprava.Server.Support.{AppError, Outcome, ◌>>=◌, payload_str, snippet}
use uprava.Server.Tables.{
  RuntimeRow, SessionRow, PlacementRow, TaskRunRow, Db, select_one, update_where,
}
use uprava.Server.Projection.{
  Codecs, touch_runtime_step, update_turn_from_event, update_approval_from_event, check_failed,
  serde_failed,
}
use uprava.Server.Updates.{
  terminal_task_states, started_task_states, task_states, cleanup_states, task_moves, task_update,
  update_task, required, is_task_event, task_event, project_task_event, clears_degraded_reason,
  update_runtime_state, is_detached, is_active, load_session_state, set_session_state,
  update_session_state_from_event, non_empty_str, resume_fields, not_null, provider_resume_ref_json,
  update_runtime_provider_resume_ref, decoded, scope_placement, placement_state_of,
  placement_update, update_placement_from_workspace_event,
}

module _ (codecs : Codecs) where
  -- `if let Some(runtime_session_id) = &event.runtime_session_id { update_runtime_state(..) }`
  abbrev pub set_runtime : RuntimeSessionState → EventEnvelope → Db → Db
  set_runtime state event db =
      map_or db (λ id. update_runtime_state id state event.happened_at db) event.runtime_session_id

  abbrev pub set_resume_ref : EventEnvelope → Db → Db
  set_resume_ref event db =
      map_or db (λ id. update_runtime_provider_resume_ref codecs id event db)
        event.runtime_session_id

  abbrev pub moves : RuntimeSessionState → SessionThreadState → EventEnvelope → Db → Outcome Db
  moves runtime session event db =
      inr (update_session_state_from_event event session (set_runtime runtime event db))

  -- the `match` on the kind
  unfoldable pub project_kind : EventKind → EventEnvelope → Db → Outcome Db
  project_kind EventKind.runtime_starting event db =
      moves RuntimeSessionState.starting SessionThreadState.active event db
  project_kind EventKind.runtime_ready event db = inr (
      update_session_state_from_event event SessionThreadState.active
        (set_resume_ref event (set_runtime RuntimeSessionState.ready event db)))
  project_kind EventKind.runtime_resuming event db =
      moves RuntimeSessionState.resuming SessionThreadState.active event db
  project_kind EventKind.runtime_running event db =
      moves RuntimeSessionState.running SessionThreadState.active event db
  project_kind EventKind.runtime_blocked event db =
      moves RuntimeSessionState.blocked SessionThreadState.active event db
  project_kind EventKind.runtime_expired event db =
      moves RuntimeSessionState.expired SessionThreadState.degraded event db
  project_kind EventKind.runtime_stopped event db =
      moves RuntimeSessionState.stopped SessionThreadState.stopped event db
  project_kind EventKind.runtime_error event db =
      moves RuntimeSessionState.error SessionThreadState.degraded event db
  project_kind EventKind.turn_interrupted event db =
      moves RuntimeSessionState.interrupted SessionThreadState.active event db
  project_kind EventKind.approval_requested event db =
      moves RuntimeSessionState.blocked SessionThreadState.active event db
  project_kind EventKind.workspace_validated event db =
      update_placement_from_workspace_event codecs event db
  project_kind EventKind.resource_snapshot_updated event db =
      update_placement_from_workspace_event codecs event db
  project_kind _ event db = inr db

  -- `apply_event_projection_on_connection`
  unfoldable pub apply_event_projection : EventEnvelope → Db → Outcome Db
  apply_event_projection event db = do
    let touched =
        map_or db (λ id. touch_runtime_step id event.happened_at db) event.runtime_session_id
    let turned = update_turn_from_event event touched
    approved ← update_approval_from_event codecs event turned
    tasked ← project_task_event event approved
    project_kind event.kind event tasked
