-- ===== src/Server/Apply/Agreement.antt =====
-- The state of a runtime that Core projects, and the one that the node projects.
use uprava.Prelude.{
  false-true, some_value, ◌≡◌, refl, ap, subst, inr, false, Option, none, some, map_or, is_some,
}
use uprava.Protocol.Reference.{RuntimeSessionId, SessionThreadId, ApprovalId}
use uprava.Protocol.Domain.{EventKind, SessionThreadState, RuntimeSessionState}
use uprava.Protocol.Event.{EventEnvelope}
use uprava.Server.Support.{event_approval_id}
use uprava.Server.Tables.{Db}
use uprava.Server.Projection.{
  Codecs, touch_runtime_step, update_turn_from_event, approval_of_kind, update_approval,
  update_approval_from_event,
}
use uprava.Server.Apply.{set_runtime, set_resume_ref, moves, project_kind, apply_event_projection}
use uprava.Server.Updates.{is_task_event, project_task_event, update_session_state_from_event}
use uprava.Node.Outbox.{runtime_state_for_event}
use uprava.Server.Apply.States.{
  States, set_runtime-States, set_resume_ref-States, update_session_state_from_event-States,
}

module _ (codecs : Codecs) (event : EventEnvelope) (id : RuntimeSessionId) where
  -- The projection of the kind succeeds and leaves the runtime in the state.
  abbrev Reaches : EventKind → RuntimeSessionState → Db → Type 0
  Reaches kind target db =
      (db' : Db) × (project_kind codecs kind event db ≡ inr db') × States id target db'

  moves-Reaches :
      (r target : RuntimeSessionState) (s : SessionThreadState) (db : Db)
      → event.runtime_session_id ≡ some id
      → r ≡ target
      → (db' : Db) × (moves codecs r s event db ≡ inr db') × States id target db'
  moves-Reaches r target s db named h = (
    _,
    refl,
    subst
        (λ t. States id t (update_session_state_from_event event s (set_runtime codecs r event db)))
        h
        (update_session_state_from_event-States codecs event id r s _
          (set_runtime-States codecs event id r db event.runtime_session_id named)),
  )

  project_kind-Reaches :
      (kind : EventKind) (target : RuntimeSessionState) (db : Db)
      → event.runtime_session_id ≡ some id
      → runtime_state_for_event kind ≡ some target
      → Reaches kind target db
  unfolding project_kind runtime_state_for_event
  project_kind-Reaches EventKind.runtime_starting target db named h =
      moves-Reaches _ target _ db named (some_value _ _ h)
  project_kind-Reaches EventKind.runtime_ready target db named h =
      let ready = RuntimeSessionState.ready in
      (
        _,
        refl,
        subst
            (λ t. States id t (
              update_session_state_from_event event SessionThreadState.active
                (set_resume_ref codecs event (set_runtime codecs ready event db))))
            (some_value _ _ h)
            (update_session_state_from_event-States codecs event id ready SessionThreadState.active
              _
              (set_resume_ref-States codecs event id ready _ event.runtime_session_id
                (set_runtime-States codecs event id ready db event.runtime_session_id named))),
      )
  project_kind-Reaches EventKind.runtime_running target db named h =
      moves-Reaches _ target _ db named (some_value _ _ h)
  project_kind-Reaches EventKind.runtime_blocked target db named h =
      moves-Reaches _ target _ db named (some_value _ _ h)
  project_kind-Reaches EventKind.runtime_expired target db named h =
      moves-Reaches _ target _ db named (some_value _ _ h)
  project_kind-Reaches EventKind.runtime_resuming target db named h =
      moves-Reaches _ target _ db named (some_value _ _ h)
  project_kind-Reaches EventKind.runtime_stopped target db named h =
      moves-Reaches _ target _ db named (some_value _ _ h)
  project_kind-Reaches EventKind.runtime_error target db named h =
      moves-Reaches _ target _ db named (some_value _ _ h)
  project_kind-Reaches EventKind.turn_interrupted target db named h =
      moves-Reaches _ target _ db named (some_value _ _ h)
  project_kind-Reaches _ target db named h = absurd (false-true (ap is_some h))

  approval_of_kind_none :
      (kind : EventKind) (target : RuntimeSessionState) (a : ApprovalId) (s : SessionThreadId)
      (db : Db)
      → runtime_state_for_event kind ≡ some target
      → approval_of_kind codecs kind event a s db ≡ inr db
  unfolding approval_of_kind runtime_state_for_event
  approval_of_kind_none EventKind.approval_requested target a s db h =
      absurd (false-true (ap is_some h))
  approval_of_kind_none EventKind.approval_resolved target a s db h =
      absurd (false-true (ap is_some h))
  approval_of_kind_none _ target a s db h = refl

  update_approval_none :
      (target : RuntimeSessionState) (a : Option ApprovalId) (s : Option SessionThreadId) (db : Db)
      → runtime_state_for_event event.kind ≡ some target
      → update_approval codecs event a s db ≡ inr db
  unfolding update_approval
  update_approval_none target (some a) (some s) db h =
      approval_of_kind_none event.kind target a s db h
  update_approval_none target (some a) none db h = refl
  update_approval_none target none (some s) db h = refl
  update_approval_none target none none db h = refl

  not_task :
      (kind : EventKind) (target : RuntimeSessionState)
      → runtime_state_for_event kind ≡ some target
      → is_task_event kind ≡ false
  unfolding runtime_state_for_event
  not_task EventKind.task_run_state_changed target h = absurd (false-true (ap is_some h))
  not_task _ target h = refl

  -- For an event that names a runtime and moves it to a state where the node keeps track of it,
  -- the projection of Core succeeds too, and every row of the runtime is then in the same state.
  pub apply_event_projection-agrees :
      (target : RuntimeSessionState) (db : Db)
      → event.runtime_session_id ≡ some id
      → runtime_state_for_event event.kind ≡ some target
      → (db' : Db) × (apply_event_projection codecs event db ≡ inr db') × States id target db'
  unfolding apply_event_projection update_approval_from_event project_task_event
  apply_event_projection-agrees target db named h =
      let touched =
        map_or db (λ id. touch_runtime_step id event.happened_at db) event.runtime_session_id in
      let turned = update_turn_from_event event touched in
      let (db', e, s) = project_kind-Reaches event.kind target turned named h in
      (
        db',
        rw
            (
              update_approval_none target (event_approval_id event) event.session_thread_id turned
                  h,
              not_task event.kind target h,
            )
            e,
        s,
      )
