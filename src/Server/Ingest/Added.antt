-- ===== src/Server/Ingest/Added.antt =====
-- What a new event adds to the tables.
use uprava.Prelude.{
  ◌≡◌, refl, ap, ◌∙◌, inl, inr, Bool, true, false, ◌&&◌, not, Option, none, some, List, [], ◌∷◌,
  ◌++◌, Text, text_eq, text_eq_refl, Bool-cases, any, All, ℤ,
}
use uprava.Protocol.Reference.{DateTime, RuntimeSessionId, CorrelationId, SessionThreadId}
use uprava.Protocol.Event.{EventEnvelope}
use uprava.Server.Support.{◌>>=◌}
use uprava.Server.Tables.{EventRow, PublicationRow, MessageRole, Db, update_where}
use uprava.Server.Projection.{Codecs, has_session}
use uprava.Server.Apply.{apply_event_projection}
use uprava.Server.Apply.Frame.{IfOk, IfOk-bind, IfOk-if, IfOk-trivial, IfOk-map, Frame, Spares}
use uprava.Server.Apply.Spared.{apply_event_projection-Frame}
use uprava.Server.Ingest.{stream_gap, correlated, stored, gap_marked, ingest_new}
use uprava.Server.Records.{
  upsert_actor, mark_event_stream_gap, durable_message, message_conflicts, insert_message,
  enqueue_event_publication, message_for, complete_message, complete_event_projection, event_row,
  event_conflicts, insert_event_record, enqueued, stale_runtime, degrade_session,
}

abbrev pub nothing : Text → Bool
nothing id = false

pub Spares-nothing : (event : EventEnvelope) → Spares nothing nothing event
Spares-nothing event = record { runtime_spared = λ id e. refl; session_spared = λ id e. refl }

-- The row of an event whose projection is complete.
abbrev pub projected_row : Codecs → EventEnvelope → EventRow
projected_row codecs event = record (event_row codecs event) {
  is_projected = true;
  projected_at = some event.happened_at;
}

abbrev pub Projected : EventRow → Type 0
Projected r = r.is_projected ≡ true

-- The tables of events and of publications hold these rows.
abbrev Holds : List EventRow → List PublicationRow → Db → Type 0
Holds events publications db = (db.events ≡ events) × (db.publications ≡ publications)

module _ (codecs : Codecs) where
  degraded-Holds :
      (id : Option SessionThreadId) (at : DateTime) (es : List EventRow) (ps : List PublicationRow)
      (db : Db)
      → Holds es ps db
      → Holds es ps (degrade_session id at db)
  degraded-Holds none at es ps db h = h
  degraded-Holds (some id) at es ps db h = h

  staled-Holds :
      (id : Option RuntimeSessionId) (reason : Text) (at : DateTime) (es : List EventRow)
      (ps : List PublicationRow) (db : Db)
      → Holds es ps db
      → Holds es ps (stale_runtime id reason at db)
  staled-Holds none reason at es ps db h = h
  staled-Holds (some id) reason at es ps db h = h

  gap_marked-Holds :
      (event : EventEnvelope) (gap : Option ℤ) (es : List EventRow) (ps : List PublicationRow)
      (db : Db)
      → Holds es ps db
      → Holds es ps (gap_marked codecs event gap db)
  unfolding mark_event_stream_gap
  gap_marked-Holds event none es ps db h = h
  gap_marked-Holds event (some n) es ps db h =
      degraded-Holds event.session_thread_id event.happened_at es ps _
        (staled-Holds event.runtime_session_id _ event.happened_at es ps db h)

  complete_message-Holds :
      (event : EventEnvelope) (message : Option (MessageRole × Text)) (s : Option SessionThreadId)
      (es : List EventRow) (ps : List PublicationRow) (db : Db)
      → Holds es ps db
      → IfOk (Holds es ps) (complete_message codecs event message s db)
  unfolding insert_message
  complete_message-Holds event (some message) (some s) es ps db h =
      let row = message_for codecs event message s in
      IfOk-if (Holds es ps) (any (message_conflicts row) db.messages) _ _ h
        (IfOk-if (Holds es ps) (has_session s db) _ _ h tt)
  complete_message-Holds event (some message) none es ps db h = h
  complete_message-Holds event none (some s) es ps db h = h
  complete_message-Holds event none none es ps db h = h

  -- Rows that are projected are left alone, and the new row is marked.
  mark_rows :
      (event : EventEnvelope) (rows : List EventRow)
      → All Projected rows
      → update_where
          (λ r. text_eq r.event_id event.event_id && not r.is_projected)
          (λ r. record r { is_projected = true; projected_at = some event.happened_at })
          (rows ++ event_row codecs event ∷ [])
        ≡ rows ++ projected_row codecs event ∷ []
  unfolding update_where
  mark_rows event [] h = rw (text_eq_refl event.event_id) refl
  mark_rows event (r ∷ rows) (p, h) = elim (Bool-cases (text_eq r.event_id event.event_id)) [
    | inl e ↦ rw (e, p, mark_rows event rows h) refl
    | inr e ↦ rw (e, mark_rows event rows h) refl
  ]

  complete_event_projection-Holds :
      (event : EventEnvelope) (es : List EventRow) (ps : List PublicationRow) (db : Db)
      → All Projected es
      → Holds (es ++ event_row codecs event ∷ []) ps db
      → IfOk
          (Holds (es ++ projected_row codecs event ∷ []) (enqueued codecs event ps))
          (complete_event_projection codecs event db)
  unfolding complete_event_projection enqueue_event_publication
  complete_event_projection-Holds event es ps db projected (e, p) =
      complete_message-Holds event (durable_message event.kind event) event.session_thread_id _ _ _
        (
          ap
                (update_where (λ r. text_eq r.event_id event.event_id && not r.is_projected)
                  (λ r. record r { is_projected = true; projected_at = some event.happened_at }))
                e
              ∙ mark_rows event es projected,
          ap (enqueued codecs event) p,
        )

  -- The event is stored and projected, in a row behind the others, and waits to be published.
  abbrev pub Added : Db → EventEnvelope → Db → Type 0
  Added db event db' =
      (db'.events ≡ db.events ++ projected_row codecs event ∷ [])
      × (db'.publications ≡ enqueued codecs event db.publications)

  inserted-Added :
      (event : EventEnvelope) (gap : Option ℤ) (db inserted : Db)
      → All Projected db.events
      → Holds (db.events ++ event_row codecs event ∷ []) db.publications inserted
      → IfOk (Added db event) (
          apply_event_projection codecs event inserted >>= λ applied.
          complete_event_projection codecs event (gap_marked codecs event gap applied))
  inserted-Added event gap db inserted projected h =
      IfOk-bind (Frame nothing nothing inserted) (Added db event)
        (apply_event_projection codecs event inserted) _
        (apply_event_projection-Frame nothing nothing event (Spares-nothing event) codecs inserted)
        (λ applied f.
          complete_event_projection-Holds event db.events db.publications _ projected
            (gap_marked-Holds event gap _ _ applied (f.events ∙ h.0, f.publications ∙ h.1)))

  insert_event_record-Holds :
      (event : EventEnvelope) (db : Db)
      → IfOk
          (Holds (db.events ++ event_row codecs event ∷ []) db.publications)
          (insert_event_record codecs event db)
  unfolding insert_event_record
  insert_event_record-Holds event db =
      IfOk-if (Holds (db.events ++ event_row codecs event ∷ []) db.publications)
        (any (event_conflicts codecs (event_row codecs event)) db.events) _ _ tt (refl, refl)

  -- What is stored of a new event, the command's correlation known.
  pub ingest_new-Added :
      (event : EventEnvelope) (db : Db)
      → All Projected db.events
      → IfOk
          (λ db'. (c : Option CorrelationId) × Added db (stored codecs event c db) db')
          (ingest_new codecs event db)
  unfolding ingest_new upsert_actor
  ingest_new-Added event db projected =
      IfOk-bind (λ c. Unit)
        (λ db'. (c : Option CorrelationId) × Added db (stored codecs event c db) db')
        (correlated codecs event db) _ (IfOk-trivial (correlated codecs event db))
        (λ c u.
          let event' = stored codecs event c db in
          let seen = upsert_actor event.actor_ref event.happened_at db in
          IfOk-bind (Holds (db.events ++ event_row codecs event' ∷ []) db.publications) _
            (insert_event_record codecs event' seen) _ (insert_event_record-Holds event' seen)
            (λ inserted h.
              IfOk-map (Added db event') _ _ (λ db' added. (c, added))
                (inserted-Added event' (stream_gap event db) db inserted projected h)))
