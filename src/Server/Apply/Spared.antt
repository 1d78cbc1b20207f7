-- ===== src/Server/Apply/Spared.antt =====
-- A projection leaves the runtimes and the sessions that its event does not name.
use uprava.Server.Rows.{map-update_where, select_one-update_where}
use uprava.Prelude.{
  ℕ, ◌≡◌, refl, inl, inr, Bool, true, false, ◌&&◌, not, Option, none, some, List, [], Text, codes,
  text_eq, contains_text, Bool-cases, Option-cases, map_or, or_else, any,
}
use uprava.Protocol.Domain.{EventKind, SessionThreadState, RuntimeSessionState}
use uprava.Protocol.Json.{Json, json_get}
use uprava.Protocol.Workspace.{ResourceBadge, GitWorkspaceSnapshot}
use uprava.Protocol.Event.{EventEnvelope}
use uprava.Server.Support.{Outcome, ◌>>=◌, event_approval_id, payload_str}
use uprava.Server.Tables.{TaskRunRow, PlacementRow, Db, update_where}
use uprava.Server.Projection.{
  Codecs, touch_runtime_step, turn_state_for_event, update_turn_from_event,
  update_approval_from_event,
}
use uprava.Server.Apply.{set_runtime, set_resume_ref, project_kind, apply_event_projection}
use uprava.Server.Updates.{
  required, update_task, task_update, terminal_task_states, task_moves, task_states, cleanup_states,
  scope_placement, task_event, is_task_event, project_task_event, decoded, placement_update,
  identity_taken, update_placement, update_placement_from_workspace_event,
}
use uprava.Server.Apply.Frame.{
  IfOk, IfOk-bind, IfOk-if, Frame, Spares, Frame-refl, Frame-trans, Frame-tables, placement_key,
}
use uprava.Server.Apply.Kept.{
  Same, onward, touched-Same, update_turn-Same, set_runtime-Same, set_resume_ref-Same,
  update_session_state_from_event-Same, moves-Same, update_approval-Same,
}

module _ (runtime session : Text → Bool) (event : EventEnvelope)
    (spares : Spares runtime session event) where
  task_moves-ended :
      (id state : Text) (row : TaskRunRow)
      → contains_text terminal_task_states row.state ≡ true
      → task_moves id state row ≡ false
  task_moves-ended id state row h = elim (Bool-cases (text_eq row.task_run_id id)) [
    | inl e ↦ rw (e, h) refl
    | inr e ↦ rw e refl
  ]

  update_task-Same :
      (id state cleanup : Text) (at : ℕ) (db : Db)
      → IfOk ((Same runtime session) db) (update_task id state cleanup at db)
  update_task-Same id state cleanup at db =
      IfOk-if ((Same runtime session) db)
        (any (task_moves id state) db.task_runs
          && not (contains_text task_states state && contains_text cleanup_states cleanup))
        _ _ tt
        (Frame-tables runtime session db _ _ _ _ refl (λ other row t h.
          select_one-update_where _ _ (task_update state cleanup at) db.task_runs row (λ r. refl)
            (task_moves-ended id state row t) h))

  required-Same :
      (db : Db) (o : Option Text) (code message : Text) (f : Text → Outcome Db)
      → ((id : Text) → IfOk ((Same runtime session) db) (f id))
      → IfOk ((Same runtime session) db) (required o code message >>= f)
  required-Same db none code message f h = tt
  required-Same db (some id) code message f h = h id

  project_task_event-Same :
      (db : Db) → IfOk ((Same runtime session) db) (project_task_event event db)
  unfolding project_task_event
  project_task_event-Same db =
      IfOk-if ((Same runtime session) db) (is_task_event event.kind) (task_event event db) (inr db)
        (required-Same db (payload_str (codes "task_run_id") event) _ _ _ (λ id.
          required-Same db (payload_str (codes "state") event) _ _ _
            (λ state. update_task-Same id state _ _ db)))
        (Frame-refl runtime session db)

  decoded-Same :
      (codecs : Codecs) (db : Db) (A : Type 0) (default : A) (decode : Json → Option A)
      (o : Option Json) (f : A → Outcome Db)
      → ((a : A) → IfOk ((Same runtime session) db) (f a))
      → IfOk ((Same runtime session) db) (decoded codecs default decode o >>= f)
  decoded-Same codecs db A default decode none f h = h default
  decoded-Same codecs db A default decode (some value) f h = elim (Option-cases (decode value)) [
    | inl n ↦ rw n tt
    | inr (a, e) ↦ rw e (h a)
  ]

  row_update-Same :
      (db : Db) (id : Text) (update : PlacementRow → PlacementRow)
      → ((p : PlacementRow) → placement_key (update p) ≡ placement_key p)
      → IfOk ((Same runtime session) db) (update_placement id update db)
  unfolding update_placement
  row_update-Same db id update h =
      let same = λ (p : PlacementRow). text_eq p.project_placement_id id in
      let placements = update_where same update db.placements in
      IfOk-if ((Same runtime session) db)
        (any (λ p. same p && identity_taken db.placements p) placements) _ _ tt
        (Frame-tables runtime session db _ _ _ _
          (map-update_where placement_key same update db.placements h) (λ other row t h. h))

  update_placement-Same :
      (codecs : Codecs) (db : Db)
      → IfOk ((Same runtime session) db) (update_placement_from_workspace_event codecs event db)
  unfolding update_placement_from_workspace_event
  update_placement-Same codecs db =
      required-Same db
        (or_else (scope_placement codecs event.scope_ref)
          (payload_str (codes "placement_id") event))
        _ _ _
        (λ id.
          decoded-Same codecs db (List ResourceBadge) [] codecs.badges_from_value
            (json_get (codes "resource_badges") event.payload.json) _
            (λ badges.
              decoded-Same codecs db (Option GitWorkspaceSnapshot) none
                codecs.git_snapshot_from_value (json_get (codes "git_snapshot") event.payload.json)
                _
                (λ git.
                  row_update-Same db id (placement_update codecs event badges git) (λ p. refl))))

  ready-Same :
      (codecs : Codecs) (db : Db)
      → IfOk ((Same runtime session) db) (project_kind codecs EventKind.runtime_ready event db)
  unfolding project_kind
  ready-Same codecs db =
      let one = set_runtime codecs RuntimeSessionState.ready event db in
      let two = set_resume_ref codecs event one in
      Frame-trans runtime session db one _
        (set_runtime-Same runtime session event spares codecs RuntimeSessionState.ready db)
        (Frame-trans runtime session one two _
          (set_resume_ref-Same runtime session event spares codecs one)
          (update_session_state_from_event-Same runtime session event spares
            SessionThreadState.active two))

  project_kind-Same :
      (codecs : Codecs) (kind : EventKind) (db : Db)
      → IfOk ((Same runtime session) db) (project_kind codecs kind event db)
  unfolding project_kind
  project_kind-Same codecs EventKind.runtime_starting db =
      moves-Same runtime session event spares codecs _ _ db
  project_kind-Same codecs EventKind.runtime_ready db = ready-Same codecs db
  project_kind-Same codecs EventKind.runtime_resuming db =
      moves-Same runtime session event spares codecs _ _ db
  project_kind-Same codecs EventKind.runtime_running db =
      moves-Same runtime session event spares codecs _ _ db
  project_kind-Same codecs EventKind.runtime_blocked db =
      moves-Same runtime session event spares codecs _ _ db
  project_kind-Same codecs EventKind.runtime_expired db =
      moves-Same runtime session event spares codecs _ _ db
  project_kind-Same codecs EventKind.runtime_stopped db =
      moves-Same runtime session event spares codecs _ _ db
  project_kind-Same codecs EventKind.runtime_error db =
      moves-Same runtime session event spares codecs _ _ db
  project_kind-Same codecs EventKind.turn_interrupted db =
      moves-Same runtime session event spares codecs _ _ db
  project_kind-Same codecs EventKind.approval_requested db =
      moves-Same runtime session event spares codecs _ _ db
  project_kind-Same codecs EventKind.workspace_validated db = update_placement-Same codecs db
  project_kind-Same codecs EventKind.resource_snapshot_updated db = update_placement-Same codecs db
  project_kind-Same codecs _ db = Frame-refl runtime session db

  pub apply_event_projection-Frame :
      (codecs : Codecs) (db : Db)
      → IfOk (Frame runtime session db) (apply_event_projection codecs event db)
  unfolding apply_event_projection update_turn_from_event update_approval_from_event
  apply_event_projection-Frame codecs db =
      let touched =
        map_or db (λ id. touch_runtime_step id event.happened_at db) event.runtime_session_id in
      let turned = update_turn_from_event event touched in
      let first =
        Frame-trans runtime session db touched turned (touched-Same runtime session event spares db)
          (update_turn-Same runtime session event spares (turn_state_for_event event) event.turn_id
            touched) in
      IfOk-bind ((Same runtime session) turned) ((Same runtime session) db)
        (update_approval_from_event codecs event turned)
        (λ approved. project_task_event event approved >>= project_kind codecs event.kind event)
        (update_approval-Same runtime session event spares codecs (event_approval_id event)
          event.session_thread_id turned)
        (λ approved f.
          IfOk-bind ((Same runtime session) approved) ((Same runtime session) db)
            (project_task_event event approved) (project_kind codecs event.kind event)
            (project_task_event-Same approved)
            (λ tasked g.
              onward runtime session db tasked (project_kind codecs event.kind event tasked)
                (Frame-trans runtime session db turned tasked first
                  (Frame-trans runtime session turned approved tasked f g))
                (project_kind-Same codecs event.kind tasked)))
