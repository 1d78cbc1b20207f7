-- ===== src/Server/Updates.antt =====
-- The updates that a projection is made of: of task runs, runtimes, sessions and placements. From
-- crates/uprava-server/src/persistence/event.rs, and
-- crates/uprava-server/src/runtime/application/task.rs and coordination.rs.
use uprava.Prelude.{
  ◌⊎◌, inl, inr, Bool, true, false, ◌&&◌, ◌||◌, not, Option, none, some, List, [], ◌∷◌, ◌++◌, Text,
  codes, text_eq, contains_text, trim, if◌then◌else◌, option_map, map_or, unwrap_or, or_else,
  option_filter, is_empty, any,
}
use uprava.Protocol.Json.{Json, json_get, object_of}
use uprava.Protocol.Reference.{
  DateTime, SessionThreadId, RuntimeSessionId, ProjectPlacementId, ScopeRef,
}
use uprava.Protocol.Domain.{EventKind, PlacementState, SessionThreadState, RuntimeSessionState}
use uprava.Protocol.Workspace.{ResourceBadge, GitWorkspaceSnapshot}
use uprava.Protocol.Event.{EventEnvelope}
use uprava.Server.Support.{AppError, Outcome, ◌>>=◌, payload_str, snippet}
use uprava.Server.Tables.{PlacementRow, TaskRunRow, Db, select_one, update_where}
use uprava.Server.Projection.{Codecs, unique_failed, check_failed, serde_failed}

abbrev pub terminal_task_states : List Text
terminal_task_states =
    codes "succeeded" ∷ codes "failed" ∷ codes "cancelled" ∷ codes "timed_out" ∷ []

abbrev pub started_task_states : List Text
started_task_states =
    codes "preparing_workspace"
    ∷ codes "starting_runtime"
    ∷ codes "running"
    ∷ codes "checking"
    ∷ codes "collecting_evidence"
    ∷ []

-- the states and the cleanup states that the table allows
abbrev pub task_states : List Text
task_states = codes "queued" ∷ codes "cancelling" ∷ started_task_states ++ terminal_task_states

abbrev pub cleanup_states : List Text
cleanup_states = codes "pending" ∷ codes "completed" ∷ codes "failed" ∷ []

-- the `where` of the statement
abbrev pub task_moves : Text → Text → TaskRunRow → Bool
task_moves id state row =
    text_eq row.task_run_id id
    && not (contains_text terminal_task_states row.state)
    && (not (text_eq row.state (codes "cancelling")) || contains_text terminal_task_states state)

abbrev pub task_update : Text → Text → DateTime → TaskRunRow → TaskRunRow
task_update state cleanup_state happened_at row = record row {
  state = state;
  cleanup_state = cleanup_state;
  started_at =
      if contains_text started_task_states state
      then or_else row.started_at (some happened_at)
      else row.started_at;
  updated_at = happened_at;
}

abbrev pub update_task : Text → Text → Text → DateTime → Db → Outcome Db
update_task id state cleanup_state happened_at db =
    if any (task_moves id state) db.task_runs
      && not (contains_text task_states state && contains_text cleanup_states cleanup_state)
    then inl check_failed
    else inr (record db {
      task_runs =
          update_where (task_moves id state) (task_update state cleanup_state happened_at)
            db.task_runs;
    })

abbrev pub required : Option Text → Text → Text → Outcome Text
required none code message = inl (AppError.bad_request code message)
required (some value) code message = inr value

abbrev pub is_task_event : EventKind → Bool
is_task_event EventKind.task_run_state_changed = true
is_task_event _ = false

abbrev pub task_event : EventEnvelope → Db → Outcome Db
task_event event db = do
  id ←
      required (payload_str (codes "task_run_id") event) (codes "task_run.event_missing_id")
        (codes "Task Run state event is missing task_run_id")
  state ←
      required (payload_str (codes "state") event) (codes "task_run.event_missing_state")
        (codes "Task Run state event is missing state")
  update_task id state (unwrap_or (payload_str (codes "cleanup_state") event) (codes "pending"))
      event.happened_at db

-- `project_task_event_on_connection`
unfoldable pub project_task_event : EventEnvelope → Db → Outcome Db
project_task_event event db = if is_task_event event.kind then task_event event db else inr db

abbrev pub clears_degraded_reason : RuntimeSessionState → Bool
clears_degraded_reason RuntimeSessionState.starting = true
clears_degraded_reason RuntimeSessionState.ready = true
clears_degraded_reason RuntimeSessionState.running = true
clears_degraded_reason RuntimeSessionState.resuming = true
clears_degraded_reason _ = false

-- `update_runtime_state_on_connection`
unfoldable pub update_runtime_state : RuntimeSessionId → RuntimeSessionState → DateTime → Db → Db
update_runtime_state id state updated_at db = record db {
  runtimes =
      update_where (λ r. text_eq r.runtime_session_id id)
        (λ r. record r {
          state = state;
          degraded_reason = if clears_degraded_reason state then none else r.degraded_reason;
          updated_at = updated_at;
        })
        db.runtimes;
}

abbrev pub is_detached : SessionThreadState → Bool
is_detached SessionThreadState.detached = true
is_detached _ = false

abbrev pub is_active : SessionThreadState → Bool
is_active SessionThreadState.active = true
is_active _ = false

-- `load_session_state_on_connection`
unfoldable pub load_session_state : SessionThreadId → Db → Option SessionThreadState
load_session_state id db =
    option_map (λ s. s.state) (select_one (λ s. text_eq s.session_thread_id id) db.sessions)

abbrev pub set_session_state : SessionThreadId → SessionThreadState → DateTime → Db → Db
set_session_state id state updated_at db = record db {
  sessions =
      update_where (λ s. text_eq s.session_thread_id id)
        (λ s. record s { state = state; updated_at = updated_at }) db.sessions;
}

-- `update_session_state_from_event_on_connection`
unfoldable pub update_session_state_from_event : EventEnvelope → SessionThreadState → Db → Db
unfolding load_session_state
update_session_state_from_event event state db =
    map_or db
      (λ id.
        if is_active state && map_or false is_detached (load_session_state id db)
        then db
        else set_session_state id state event.happened_at db)
      event.session_thread_id

abbrev pub non_empty_str : Text → EventEnvelope → Option Text
non_empty_str key event =
    option_filter (λ s. not (is_empty s)) (option_map trim (payload_str key event))

abbrev pub resume_fields : Text → EventEnvelope → List (Text × Json)
resume_fields key event =
    map_or [] (λ s. (key, Json.string (snippet s 512)) ∷ []) (non_empty_str key event)

abbrev pub not_null : Json → Bool
not_null Json.null = false
not_null _ = true

-- The unique index `project_placements_identity_idx`: another placement has the node and the path
-- of this one.
unfoldable pub identity_taken : List PlacementRow → PlacementRow → Bool
identity_taken rows row =
    any
      (λ p.
        not (text_eq p.project_placement_id row.project_placement_id)
        && text_eq p.node_id row.node_id
        && text_eq p.workspace_path row.workspace_path)
      rows

-- the statement, whose result must have no two placements of one identity
unfoldable pub update_placement :
    ProjectPlacementId → (PlacementRow → PlacementRow) → Db → Outcome Db
unfolding identity_taken
update_placement id update db =
    let same = λ (p : PlacementRow). text_eq p.project_placement_id id in
    let placements = update_where same update db.placements in
    if any (λ p. same p && identity_taken db.placements p) placements
    then inl unique_failed
    else inr (record db { placements = placements })

module _ (codecs : Codecs) where
  -- A map of serde_json keeps its keys in order, as these are.
  unfoldable pub provider_resume_ref_json : EventEnvelope → Option Text
  provider_resume_ref_json event =
      let fields =
        resume_fields (codes "provider_session_id") event
        ++ resume_fields (codes "resume_cursor") event in
      map_or (if is_empty fields then none else some (codecs.json_to_string (object_of fields)))
        (λ value. some (codecs.json_to_string value))
        (option_filter not_null (json_get (codes "provider_resume_ref") event.payload.json))

  -- `update_runtime_provider_resume_ref_on_connection`
  unfoldable pub update_runtime_provider_resume_ref : RuntimeSessionId → EventEnvelope → Db → Db
  update_runtime_provider_resume_ref id event db =
      map_or db
        (λ ref. record db {
          runtimes =
              update_where (λ r. text_eq r.runtime_session_id id)
                (λ r. record r {
                  provider_resume_ref_json = some ref;
                  updated_at = event.happened_at;
                })
                db.runtimes;
        })
        (provider_resume_ref_json event)

  abbrev pub decoded {ℓ} : {A : Type ℓ} → A → (Json → Option A) → Option Json → AppError ⊎ A
  decoded default decode none = inr default
  decoded default decode (some value) = map_or (inl serde_failed) (λ a. inr a) (decode value)

  abbrev pub scope_placement : ScopeRef → Option ProjectPlacementId
  scope_placement (ScopeRef.placement id) = some id
  scope_placement _ = none

  abbrev pub placement_state_of : Text → PlacementState
  placement_state_of s =
      if text_eq s (codes "validated")
      then PlacementState.validated
      else if text_eq s (codes "missing")
      then PlacementState.missing
      else if text_eq s (codes "read_only")
      then PlacementState.read_only
      else if text_eq s (codes "error")
      then PlacementState.error
      else PlacementState.pending

  abbrev pub placement_update :
      EventEnvelope → List ResourceBadge → Option GitWorkspaceSnapshot → PlacementRow → PlacementRow
  placement_update event badges git row = record row {
    display_name = unwrap_or (payload_str (codes "display_name") event) row.display_name;
    workspace_path = unwrap_or (payload_str (codes "workspace_path") event) row.workspace_path;
    state = map_or PlacementState.validated placement_state_of (payload_str (codes "state") event);
    resource_badges_json = codecs.badges_to_string badges;
    git_snapshot_json = option_map codecs.git_snapshot_to_string git;
    last_validated_at = some event.happened_at;
    updated_at = event.happened_at;
  }

  -- `update_placement_from_workspace_event_on_connection`
  unfoldable pub update_placement_from_workspace_event : EventEnvelope → Db → Outcome Db
  unfolding update_placement
  update_placement_from_workspace_event event db = do
    id ←
        required
          (or_else (scope_placement event.scope_ref) (payload_str (codes "placement_id") event))
          (codes "placement.missing_ref")
          (codes "Workspace validation event is missing placement ref")
    badges ←
        decoded [] codecs.badges_from_value (json_get (codes "resource_badges") event.payload.json)
    git ←
        decoded none codecs.git_snapshot_from_value
          (json_get (codes "git_snapshot") event.payload.json)
    update_placement id (placement_update event badges git) db
