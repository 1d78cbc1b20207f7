-- ===== src/Server/Control/Isolation.antt =====
-- What a batch of a node leaves of the rows of other nodes.
use uprava.Prelude.{
  ◌≡◌, refl, sym, subst, inl, inr, Bool, false, Option, none, some, [], ◌∷◌, ◌++◌, Text, text_eq,
  Bool-cases, any, ℤ,
}
use uprava.Protocol.Reference.{DateTime, RuntimeSessionId, SessionThreadId, CorrelationId}
use uprava.Protocol.Event.{EventEnvelope, matches_kind}
use uprava.Server.Support.{Outcome, ◌>>=◌}
use uprava.Server.Tables.{EventRow, MessageRole, Db, select_one}
use uprava.Server.Projection.{Codecs, has_session}
use uprava.Server.Apply.{apply_event_projection}
use uprava.Server.Apply.Frame.{
  IfOk, IfOk-bind, IfOk-if, IfOk-trivial, Frame, Spares, Frame-runtime, Frame-session,
}
use uprava.Server.Apply.Spared.{apply_event_projection-Frame}
use uprava.Server.Ingest.{
  stream_gap, correlated, stored, gap_marked, ingest_new, seq_conflict, looked_up,
  accept_transaction,
}
use uprava.Server.Records.{
  upsert_actor, stale_runtime, degrade_session, mark_event_stream_gap, durable_message,
  message_conflicts, insert_message, message_for, complete_message, complete_event_projection,
  enqueue_event_publication, enqueued, mark_projected, event_row, event_conflicts,
  insert_event_record,
}
use uprava.Server.Publication.{Publisher, committed, accept_node_event}
use uprava.Server.Publication.Sound.{Sound, Taken, known_event-Sound, accept_transaction-Taken}
use uprava.Server.Publication.Drained.{OnlyPublished, drain_event_publication_outbox-Drained}
use uprava.Server.Control.Isolated.{From, Isolated-refl, Isolated-trans, other_rows, Frame-Isolated}

module _ (runtime session : Text → Bool) (codecs : Codecs) where
  staled-Isolated :
      (o : Option RuntimeSessionId) (reason : Text) (at : DateTime) (db : Db)
      → ((id : RuntimeSessionId) → o ≡ some id → runtime id ≡ false)
      → (From runtime session) db (stale_runtime o reason at db)
  staled-Isolated none reason at db h = Isolated-refl runtime session db
  staled-Isolated (some id) reason at db h =
      Frame-Isolated runtime session db _
        (Frame-runtime runtime session db id _ (h id refl) (λ r. refl))

  degraded-Isolated :
      (o : Option SessionThreadId) (at : DateTime) (db : Db)
      → ((id : SessionThreadId) → o ≡ some id → session id ≡ false)
      → (From runtime session) db (degrade_session o at db)
  degraded-Isolated none at db h = Isolated-refl runtime session db
  degraded-Isolated (some id) at db h =
      Frame-Isolated runtime session db _
        (Frame-session runtime session db id _ (h id refl) (λ r. refl))

  gap_marked-Isolated :
      (event : EventEnvelope) (gap : Option ℤ) (db : Db)
      → Spares runtime session event
      → (From runtime session) db (gap_marked codecs event gap db)
  unfolding mark_event_stream_gap
  gap_marked-Isolated event none db spares = Isolated-refl runtime session db
  gap_marked-Isolated event (some n) db spares =
      Isolated-trans runtime session db _ _
        (staled-Isolated event.runtime_session_id _ event.happened_at db spares.runtime_spared)
        (degraded-Isolated event.session_thread_id event.happened_at _ spares.session_spared)

  complete_message-Isolated :
      (event : EventEnvelope) (message : Option (MessageRole × Text)) (s : Option SessionThreadId)
      (start db : Db)
      → (From runtime session) start db
      → IfOk ((From runtime session) start) (complete_message codecs event message s db)
  unfolding insert_message
  complete_message-Isolated event (some message) (some s) start db h =
      let row = message_for codecs event message s in
      IfOk-if ((From runtime session) start) (any (message_conflicts row) db.messages) _ _ h (
        IfOk-if ((From runtime session) start) (has_session s db) _ _
          (other_rows runtime session start db db.events db.publications (db.messages ++ row ∷ [])
            db.actors h)
          tt)
  complete_message-Isolated event (some message) none start db h = h
  complete_message-Isolated event none (some s) start db h = h
  complete_message-Isolated event none none start db h = h

  complete-Isolated :
      (event : EventEnvelope) (start db : Db)
      → (From runtime session) start db
      → IfOk ((From runtime session) start) (complete_event_projection codecs event db)
  unfolding complete_event_projection enqueue_event_publication
  complete-Isolated event start db h =
      complete_message-Isolated event (durable_message event.kind event) event.session_thread_id
        start _
        (other_rows runtime session start db (mark_projected codecs event db).events
          (enqueued codecs event db.publications) db.messages db.actors h)

  inserted-Isolated :
      (event : EventEnvelope) (gap : Option ℤ) (start db : Db)
      → Spares runtime session event
      → (From runtime session) start db
      → IfOk ((From runtime session) start) (
          apply_event_projection codecs event db >>= λ applied.
          complete_event_projection codecs event (gap_marked codecs event gap applied))
  inserted-Isolated event gap start db spares h =
      IfOk-bind (Frame runtime session db) ((From runtime session) start)
        (apply_event_projection codecs event db) _
        (apply_event_projection-Frame runtime session event spares codecs db)
        (λ applied f. complete-Isolated event start (gap_marked codecs event gap applied) (
          Isolated-trans runtime session start applied _
            (Isolated-trans runtime session start db applied h
              (Frame-Isolated runtime session db applied f))
            (gap_marked-Isolated event gap applied spares)))

  stored-Spares :
      (event : EventEnvelope) (c : Option CorrelationId) (db : Db)
      → Spares runtime session event
      → Spares runtime session (stored codecs event c db)
  stored-Spares event c db spares = record {
    runtime_spared = spares.runtime_spared;
    session_spared = spares.session_spared;
  }

  insert_event_record-Isolated :
      (event : EventEnvelope) (start db : Db)
      → (From runtime session) start db
      → IfOk ((From runtime session) start) (insert_event_record codecs event db)
  unfolding insert_event_record
  insert_event_record-Isolated event start db h =
      IfOk-if ((From runtime session) start)
        (any (event_conflicts codecs (event_row codecs event)) db.events) _ _ tt
        (other_rows runtime session start db (db.events ++ event_row codecs event ∷ [])
          db.publications db.messages db.actors h)

  ingest_new-Isolated :
      (event : EventEnvelope) (db : Db)
      → Spares runtime session event
      → IfOk ((From runtime session) db) (ingest_new codecs event db)
  unfolding ingest_new upsert_actor
  ingest_new-Isolated event db spares =
      IfOk-bind (λ c. Unit) ((From runtime session) db) (correlated codecs event db) _
        (IfOk-trivial (correlated codecs event db))
        (λ c u.
          let event' = stored codecs event c db in
          let seen = upsert_actor event.actor_ref event.happened_at db in
          IfOk-bind ((From runtime session) db) ((From runtime session) db)
            (insert_event_record codecs event' seen) _
            (insert_event_record-Isolated event' db seen (
              other_rows runtime session db db db.events db.publications db.messages seen.actors
                (Isolated-refl runtime session db)))
            (λ inserted h.
              inserted-Isolated event' (stream_gap event db) db inserted
                (stored-Spares event c db spares) h))

  looked_up-Isolated :
      (event : EventEnvelope) (db : Db) (o : Option EventRow)
      → Sound codecs db
      → Spares runtime session event
      → select_one (λ r. text_eq r.event_id event.event_id) db.events ≡ o
      → IfOk ((From runtime session) db) (looked_up codecs event db o)
  looked_up-Isolated event db (some row) sound spares e =
      rw (known_event-Sound codecs event.event_id row db sound e) (Isolated-refl runtime session db)
  looked_up-Isolated event db none sound spares e = free _
    where
      free :
          (o : Option EventRow)
          → IfOk ((From runtime session) db) (seq_conflict codecs o (ingest_new codecs event db))
      free none = ingest_new-Isolated event db spares
      free (some row) = tt

  drained-Isolated :
      (start db db' : Db)
      → OnlyPublished db db'
      → (From runtime session) start db
      → (From runtime session) start db'
  drained-Isolated start db db' o h =
      other_rows runtime session start (record db' { publications = db.publications }) db'.events
        db'.publications db'.messages db'.actors (subst ((From runtime session) start) (sym o) h)

  committed-Isolated :
      (publisher : Publisher) (event : EventEnvelope) (db : Db) (outcome : Outcome Db)
      → IfOk (Taken codecs event.event_id db) outcome
      → IfOk ((From runtime session) db) outcome
      → (From runtime session) db (committed codecs publisher db outcome).db
  committed-Isolated publisher event db (inl e) taken h = Isolated-refl runtime session db
  committed-Isolated publisher event db (inr db') taken h =
      drained-Isolated db db' _
        (drain_event_publication_outbox-Drained codecs publisher db' taken.0).1 h

  pub accept_node_event-Isolated :
      (publisher : Publisher) (event : EventEnvelope) (db : Db)
      → Sound codecs db
      → Spares runtime session event
      → (From runtime session) db (accept_node_event codecs publisher event db).db
  unfolding accept_node_event accept_transaction
  accept_node_event-Isolated publisher event db sound spares =
      elim (Bool-cases (matches_kind event.payload.kind event.kind)) [
        | inl e ↦ rw e (
            committed-Isolated publisher event db (accept_transaction codecs event db)
              (accept_transaction-Taken codecs event db sound)
              (looked_up-Isolated event db _ sound spares refl))
        | inr e ↦ rw e (Isolated-refl runtime session db)
      ]
