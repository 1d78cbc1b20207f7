-- ===== src/Server/Apply/Kept.antt =====
-- What the updates of turns, approvals, runtimes and sessions leave as it was.
use uprava.Prelude.{
  ◌≡◌, refl, inl, inr, Bool, true, false, ◌&&◌, Option, none, some, Text, text_eq, if◌then◌else◌,
  map_or,
}
use uprava.Protocol.Reference.{SessionThreadId, ApprovalId}
use uprava.Protocol.Domain.{EventKind, SessionThreadState, RuntimeSessionState, TurnState}
use uprava.Protocol.Event.{EventEnvelope}
use uprava.Server.Support.{Outcome}
use uprava.Server.Tables.{ApprovalRow, Db, select_one, update_where}
use uprava.Server.Projection.{
  Codecs, touch_runtime_step, update_turn, turn_taken, upsert_approval, has_session,
  approval_of_kind, update_approval,
}
use uprava.Server.Apply.{set_runtime, set_resume_ref, moves}
use uprava.Server.Updates.{
  update_runtime_state, set_session_state, is_active, is_detached, load_session_state,
  update_session_state_from_event, provider_resume_ref_json, update_runtime_provider_resume_ref,
}
use uprava.Server.Apply.Frame.{
  IfOk, IfOk-if, Frame, Spares, Frame-refl, Frame-trans, Frame-runtime, Frame-session, Frame-tables,
}

module _ (runtime session : Text → Bool) where
  abbrev pub Same : Db → Db → Type 0
  Same db db' = Frame runtime session db db'

  pub Same-map_or :
      (db : Db) (f : Text → Db) (o : Option Text)
      → ((id : Text) → o ≡ some id → Same db (f id))
      → Same db (map_or db f o)
  Same-map_or db f none h = Frame-refl runtime session db
  Same-map_or db f (some id) h = h id refl

  pub onward : (a b : Db) (m : Outcome Db) → Same a b → IfOk (Same b) m → IfOk (Same a) m
  onward a b (inl e) f g = tt
  onward a b (inr c) f g = Frame-trans runtime session a b c f g

  module _ (event : EventEnvelope) (spares : Spares runtime session event) where
    pub touched-Same :
        (db : Db)
        → Same db
            (map_or db (λ id. touch_runtime_step id event.happened_at db) event.runtime_session_id)
    unfolding touch_runtime_step
    touched-Same db =
        Same-map_or db _ event.runtime_session_id
          (λ id e. Frame-runtime runtime session db id _ (spares.runtime_spared id e) (λ r. refl))

    pub update_turn-Same :
        (state : Option TurnState) (id : Option Text) (db : Db)
        → Same db (update_turn event state id db)
    update_turn-Same (some state) (some id) db =
        Frame-tables runtime session db _ _ _ _ refl (λ other row t h. h)
    update_turn-Same (some state) none db = Frame-refl runtime session db
    update_turn-Same none (some id) db = Frame-refl runtime session db
    update_turn-Same none none db = Frame-refl runtime session db

    upsert_approval-Same :
        (row : ApprovalRow) (update : ApprovalRow → ApprovalRow) (db : Db)
        → IfOk (Same db) (upsert_approval row update db)
    unfolding upsert_approval
    upsert_approval-Same row update db =
        let same = λ (r : ApprovalRow). text_eq r.approval_id row.approval_id in
        IfOk-if (Same db)
          (turn_taken db.approvals (map_or row update (select_one same db.approvals))) _ _ tt
          (IfOk-if (Same db) (has_session row.session_thread_id db) _ _
            (Frame-tables runtime session db _ _ _ _ refl (λ other row t h. h)) tt)

    pub set_runtime-Same :
        (codecs : Codecs) (target : RuntimeSessionState) (db : Db)
        → Same db (set_runtime codecs target event db)
    unfolding update_runtime_state
    set_runtime-Same codecs target db =
        Same-map_or db _ event.runtime_session_id
          (λ id e. Frame-runtime runtime session db id _ (spares.runtime_spared id e) (λ r. refl))

    resume_ref-Same :
        (codecs : Codecs) (db : Db) (id : Text) (ref : Option Text)
        → runtime id ≡ false
        → Same db (
            map_or db
              (λ ref. record db {
                runtimes =
                    update_where
                      (λ r. text_eq r.runtime_session_id id)
                      (λ r. record r {
                        provider_resume_ref_json = some ref;
                        updated_at = event.happened_at;
                      })
                      db.runtimes;
              })
              ref)
    resume_ref-Same codecs db id none h = Frame-refl runtime session db
    resume_ref-Same codecs db id (some ref) h = Frame-runtime runtime session db id _ h (λ r. refl)

    pub set_resume_ref-Same : (codecs : Codecs) (db : Db) → Same db (set_resume_ref codecs event db)
    unfolding update_runtime_provider_resume_ref
    set_resume_ref-Same codecs db = Same-map_or db _ event.runtime_session_id (λ id e.
        resume_ref-Same codecs db id (provider_resume_ref_json codecs event)
          (spares.runtime_spared id e))

    session_if-Same :
        (b : Bool) (db : Db) (id : Text) (state : SessionThreadState)
        → session id ≡ false
        → Same db (if b then db else set_session_state id state event.happened_at db)
    session_if-Same true db id state h = Frame-refl runtime session db
    session_if-Same false db id state h = Frame-session runtime session db id _ h (λ s. refl)

    pub update_session_state_from_event-Same :
        (state : SessionThreadState) (db : Db)
        → Same db (update_session_state_from_event event state db)
    unfolding update_session_state_from_event
    update_session_state_from_event-Same state db =
        Same-map_or db _ event.session_thread_id (λ id e.
          session_if-Same (is_active state && map_or false is_detached (load_session_state id db))
            db id state (spares.session_spared id e))

    pub moves-Same :
        (codecs : Codecs) (r : RuntimeSessionState) (s : SessionThreadState) (db : Db)
        → IfOk (Same db) (moves codecs r s event db)
    moves-Same codecs r s db =
        Frame-trans runtime session db (set_runtime codecs r event db) _
          (set_runtime-Same codecs r db)
          (update_session_state_from_event-Same s (set_runtime codecs r event db))

    approval_of_kind-Same :
        (codecs : Codecs) (kind : EventKind) (id : ApprovalId) (s : SessionThreadId) (db : Db)
        → IfOk (Same db) (approval_of_kind codecs kind event id s db)
    unfolding approval_of_kind
    approval_of_kind-Same codecs kind id s db = kinds kind
      where
        kinds : (kind : EventKind) → IfOk (Same db) (approval_of_kind codecs kind event id s db)
        kinds EventKind.approval_requested = upsert_approval-Same _ _ db
        kinds EventKind.approval_resolved = upsert_approval-Same _ _ db
        kinds EventKind.runtime_ready = Frame-refl runtime session db
        kinds _ = Frame-refl runtime session db

    pub update_approval-Same :
        (codecs : Codecs) (id : Option ApprovalId) (s : Option SessionThreadId) (db : Db)
        → IfOk (Same db) (update_approval codecs event id s db)
    unfolding update_approval
    update_approval-Same codecs (some id) (some s) db =
        approval_of_kind-Same codecs event.kind id s db
    update_approval-Same codecs (some id) none db = Frame-refl runtime session db
    update_approval-Same codecs none (some s) db = Frame-refl runtime session db
    update_approval-Same codecs none none db = Frame-refl runtime session db
