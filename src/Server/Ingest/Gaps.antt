-- ===== src/Server/Ingest/Gaps.antt =====
-- What Core makes of an event behind others that it has not seen.
use uprava.Prelude.{
  ◌⊎◌, inl, inr, Bool, true, false, Bool-cases, false-true, some_value, ◌≡◌, refl, sym, ap, ◌∙◌,
  subst, Option, none, some, Text, text_eq, is_some, retain, any, All, ℤ,
}
use uprava.Protocol.Reference.{DateTime, RuntimeSessionId, SessionThreadId}
use uprava.Protocol.Domain.{EventKind, SessionThreadState, RuntimeSessionState}
use uprava.Protocol.Event.{EventEnvelope}
use uprava.Server.Tables.{MessageRole, Db}
use uprava.Server.Projection.{Codecs, has_session}
use uprava.Server.Apply.{apply_event_projection}
use uprava.Server.Apply.Frame.{IfOk, IfOk-bind, IfOk-if, IfOk-trivial, IfOk-inr}
use uprava.Server.Apply.States.{States}
use uprava.Server.Apply.Agreement.{apply_event_projection-agrees}
use uprava.Node.Outbox.{runtime_state_for_event}
use uprava.Server.Support.{scope_key}
use uprava.Server.Publication.Values.{values, Below}
use uprava.Server.Ingest.Missed.{is_behind_gap, stream_gap-is_behind_gap}
use uprava.Server.Rows.{All-retain-update_where}
use uprava.Server.Ingest.{in_scope, stream_gap, correlated, stored, ingest_new}
use uprava.Server.Records.{
  upsert_actor, stale_runtime, degrade_session, mark_event_stream_gap, durable_message,
  message_conflicts, insert_message, message_for, complete_message, complete_event_projection,
  enqueue_event_publication, insert_event_record,
}

-- The rows of the session are degraded.
abbrev pub Degraded : SessionThreadId → Db → Type 0
Degraded id db =
    All (λ s. s.state ≡ SessionThreadState.degraded)
      (retain (λ s. text_eq s.session_thread_id id) db.sessions)

-- The state in which an event leaves its runtime, if it changes the state: behind a gap the runtime
-- is stale, and otherwise it is where the node has it.
unfoldable pub state_left : Bool → EventKind → Option RuntimeSessionState
unfolding runtime_state_for_event
state_left true kind = some RuntimeSessionState.stale
state_left false kind = runtime_state_for_event kind

unfoldable pub Leaves : RuntimeSessionId → Option RuntimeSessionState → Db → Type 0
Leaves runtime none db = Unit
Leaves runtime (some target) db = States runtime target db

-- The tables hold these rows of runtimes and sessions.
abbrev Shows : RuntimeSessionId → SessionThreadId → Db → Type 0
Shows runtime session db = States runtime RuntimeSessionState.stale db × Degraded session db

module _ (codecs : Codecs) (runtime : RuntimeSessionId) (session : SessionThreadId) where
  stale_runtime-States :
      (o : Option RuntimeSessionId) (reason : Text) (at : DateTime) (db : Db)
      → o ≡ some runtime
      → States runtime RuntimeSessionState.stale (stale_runtime o reason at db)
  stale_runtime-States none reason at db h = absurd (false-true (ap is_some h))
  stale_runtime-States (some id) reason at db h =
      subst (λ i. States i RuntimeSessionState.stale (stale_runtime (some id) reason at db))
        (some_value id runtime h)
        (All-retain-update_where (λ r. r.state ≡ RuntimeSessionState.stale)
          (λ r. text_eq r.runtime_session_id id) (λ r. text_eq r.runtime_session_id id) _
          db.runtimes (λ r. refl) (λ r c e. absurd (false-true (sym e ∙ c))) (λ r e. refl))

  degrade_session-Shows :
      (o : Option SessionThreadId) (at : DateTime) (db : Db)
      → o ≡ some session
      → States runtime RuntimeSessionState.stale db
      → Shows runtime session (degrade_session o at db)
  degrade_session-Shows none at db h stale = absurd (false-true (ap is_some h))
  degrade_session-Shows (some id) at db h stale = (
    stale,
    subst (λ i. Degraded i (degrade_session (some id) at db)) (some_value id session h)
        (All-retain-update_where (λ s. s.state ≡ SessionThreadState.degraded)
          (λ s. text_eq s.session_thread_id id) (λ s. text_eq s.session_thread_id id) _ db.sessions
          (λ s. refl) (λ s c e. absurd (false-true (sym e ∙ c))) (λ s e. refl)),
  )

  complete_message-Shows :
      (event : EventEnvelope) (message : Option (MessageRole × Text)) (s : Option SessionThreadId)
      (db : Db)
      → Shows runtime session db
      → IfOk (Shows runtime session) (complete_message codecs event message s db)
  unfolding insert_message
  complete_message-Shows event (some message) (some s) db h =
      IfOk-if (Shows runtime session)
        (any (message_conflicts (message_for codecs event message s)) db.messages) _ _ h
        (IfOk-if (Shows runtime session) (has_session s db) _ _ h tt)
  complete_message-Shows event (some message) none db h = h
  complete_message-Shows event none (some s) db h = h
  complete_message-Shows event none none db h = h

  ingest_new-Shows :
      (event : EventEnvelope) (expected : ℤ) (db : Db)
      → event.runtime_session_id ≡ some runtime
      → event.session_thread_id ≡ some session
      → stream_gap event db ≡ some expected
      → IfOk (Shows runtime session) (ingest_new codecs event db)
  unfolding ingest_new mark_event_stream_gap complete_event_projection enqueue_event_publication
  ingest_new-Shows event expected db of_runtime of_session gap =
      IfOk-bind (λ c. Unit) (Shows runtime session) (correlated codecs event db) _
        (IfOk-trivial (correlated codecs event db))
        (λ c u.
          let event' = stored codecs event c db in
          IfOk-bind (λ d. Unit) (Shows runtime session)
            (insert_event_record codecs event' (upsert_actor event.actor_ref event.happened_at db))
            _ (IfOk-trivial _)
            (λ inserted u.
              IfOk-bind (λ d. Unit) (Shows runtime session)
                (apply_event_projection codecs event' inserted) _ (IfOk-trivial _)
                (λ applied u. rw gap (
                  complete_message-Shows event' (durable_message event.kind event')
                    event.session_thread_id _
                    (degrade_session-Shows event.session_thread_id event.happened_at _ of_session (
                      stale_runtime-States event.runtime_session_id _ event.happened_at applied
                        of_runtime))))))

  complete_message-States :
      (event : EventEnvelope) (target : RuntimeSessionState) (message : Option (MessageRole × Text))
      (s : Option SessionThreadId) (db : Db)
      → States runtime target db
      → IfOk (States runtime target) (complete_message codecs event message s db)
  unfolding insert_message
  complete_message-States event target (some message) (some s) db h =
      IfOk-if (States runtime target)
        (any (message_conflicts (message_for codecs event message s)) db.messages) _ _ h
        (IfOk-if (States runtime target) (has_session s db) _ _ h tt)
  complete_message-States event target (some message) none db h = h
  complete_message-States event target none (some s) db h = h
  complete_message-States event target none none db h = h

  projected-States :
      (event : EventEnvelope) (target : RuntimeSessionState) (db : Db)
      → event.runtime_session_id ≡ some runtime
      → runtime_state_for_event event.kind ≡ some target
      → IfOk (States runtime target) (apply_event_projection codecs event db)
  projected-States event target db of_runtime moves =
      let (db', e, states) =
        apply_event_projection-agrees codecs event runtime target db of_runtime moves in
      rw e states

  ingest_new-States :
      (event : EventEnvelope) (target : RuntimeSessionState) (db : Db)
      → event.runtime_session_id ≡ some runtime
      → runtime_state_for_event event.kind ≡ some target
      → stream_gap event db ≡ none
      → IfOk (States runtime target) (ingest_new codecs event db)
  unfolding ingest_new complete_event_projection enqueue_event_publication
  ingest_new-States event target db of_runtime moves gap =
      IfOk-bind (λ c. Unit) (States runtime target) (correlated codecs event db) _
        (IfOk-trivial (correlated codecs event db))
        (λ c u.
          let event' = stored codecs event c db in
          IfOk-bind (λ d. Unit) (States runtime target)
            (insert_event_record codecs event' (upsert_actor event.actor_ref event.happened_at db))
            _ (IfOk-trivial _)
            (λ inserted u.
              IfOk-bind (States runtime target) (States runtime target)
                (apply_event_projection codecs event' inserted) _
                (projected-States event' target inserted of_runtime moves)
                (λ applied h. rw gap (
                  complete_message-States event' target (durable_message event.kind event')
                    event.session_thread_id _ h))))

  -- what an event leaves, behind a gap or not
  abbrev Left : Bool → EventKind → Db → Type 0
  Left gap kind after =
      Leaves runtime (state_left gap kind) after × ((gap ≡ false) ⊎ Degraded session after)

  in_order-Left :
      (event : EventEnvelope) (o : Option RuntimeSessionState) (db after : Db)
      → event.runtime_session_id ≡ some runtime
      → runtime_state_for_event event.kind ≡ o
      → stream_gap event db ≡ none
      → ingest_new codecs event db ≡ inr after
      → Leaves runtime o after
  unfolding Leaves
  in_order-Left event none db after of_runtime moves gap ok = tt
  in_order-Left event (some target) db after of_runtime moves gap ok =
      IfOk-inr (States runtime target) (ingest_new codecs event db) after
        (ingest_new-States event target db of_runtime moves gap) ok

  -- A new event of a runtime and a session that is taken in, when the numbers that Core has of the
  -- scope are below the maximum of an `i64`. If its number is past the successor of every number of
  -- the scope, or past 1 where there is none, and the scope is not a task run, every row of the
  -- runtime is left stale and every row of the session degraded, whatever its kind projects.
  -- Otherwise every row of the runtime is left in the state where the node keeps the runtime after
  -- this event, for the kinds of event that change this state.
  pub ingest_new-gap :
      (event : EventEnvelope) (db after : Db)
      → event.runtime_session_id ≡ some runtime
      → event.session_thread_id ≡ some session
      → All Below (values (in_scope (scope_key event.scope_ref)) db.events)
      → ingest_new codecs event db ≡ inr after
      → let gap = is_behind_gap event db in
        Leaves runtime (state_left gap event.kind) after × ((gap ≡ false) ⊎ Degraded session after)
  unfolding state_left Leaves
  ingest_new-gap event db after of_runtime of_session below ok =
      let test = stream_gap-is_behind_gap event db below in
      elim (Bool-cases (is_behind_gap event db)) [
        | inl e ↦
            let (stale, degraded) =
              IfOk-inr (Shows runtime session) (ingest_new codecs event db) after
                (ingest_new-Shows event _ db of_runtime of_session (rw e at test)) ok in
            rw e (stale, inr degraded)
        | inr e ↦ rw e (
          in_order-Left event (runtime_state_for_event event.kind) db after of_runtime refl
              (rw e at test) ok,
          inl refl,
        )
      ]
