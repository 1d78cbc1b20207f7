-- ===== src/Server/Publication/Numbers.antt =====
-- The numbers that Core gives to the events of a session.
use uprava.Prelude.{
  false-true, ◌≡◌, refl, sym, ap, subst, ◌⊎◌, inl, inr, Option, none, some, List, [], ◌∷◌, ◌++◌,
  text_eq, text_eq_iff, if◌then◌else◌, Bool-cases, option_map, is_some, i64_max, All, ◌<ℤ◌, ℤ, pos,
}
use uprava.Protocol.Reference.{SessionThreadId, CorrelationId}
use uprava.Protocol.Event.{EventEnvelope, matches_kind}
use uprava.Server.Support.{Outcome}
use uprava.Server.Tables.{EventRow, Db, select_one, column_is}
use uprava.Server.Projection.{Codecs}
use uprava.Server.Apply.Frame.{IfOk, IfOk-map}
use uprava.Server.Ingest.{
  next_session_projection_seq, stored, seq_conflict, ingest_new, looked_up, accept_transaction,
}
use uprava.Server.Ingest.Added.{projected_row, ingest_new-Added}
use uprava.Server.Publication.Values.{
  with_value, values, Ascending, Ascending-append_one, values-append, values-max_value,
  next-greater, Below, max_value-Below, All-append_left, ++-nil,
}
use uprava.Server.Publication.{Publisher, committed, accept_node_event}
use uprava.Server.Publication.Sound.{Sound, Taken, known_event-Sound, accept_transaction-Taken}
use uprava.Server.Rows.{All-weaken}
use uprava.Server.Publication.Drained.{drain_event_publication_outbox-Drained}
use uprava.Server.Publication.Redelivery.{Accepts, start, accept, publish, Accepts-Sound}

abbrev pub session_number : SessionThreadId → EventRow → Option ℤ
session_number id r = if column_is r.session_thread_id id then r.session_projection_seq else none

-- The numbers of the events of a session, in the order in which the events were stored.
abbrev pub numbers : SessionThreadId → Db → List ℤ
numbers id db = values (session_number id) db.events

-- An event adds no row, or the row of the event as it is stored.
abbrev Grown : Codecs → EventEnvelope → Db → List EventRow → Type 0
Grown codecs event db rows =
    (rows ≡ db.events)
    ⊎ ((c : Option CorrelationId) × (rows
          ≡ db.events ++ projected_row codecs (stored codecs event c db) ∷ []))

module _ (codecs : Codecs) (publisher : Publisher) where
  looked_up-Grown :
      (event : EventEnvelope) (db : Db) (o : Option EventRow)
      → Sound codecs db
      → select_one (λ r. text_eq r.event_id event.event_id) db.events ≡ o
      → IfOk (λ db'. Grown codecs event db db'.events) (looked_up codecs event db o)
  looked_up-Grown event db (some row) sound e =
      rw (known_event-Sound codecs event.event_id row db sound e) (inl refl)
  looked_up-Grown event db none sound e = free _
    where
      free :
          (o : Option EventRow)
          → IfOk
              (λ db'. Grown codecs event db db'.events)
              (seq_conflict codecs o (ingest_new codecs event db))
      free none =
          IfOk-map _ (λ db'. Grown codecs event db db'.events) (ingest_new codecs event db)
            (λ db' (c, added). inr (c, added.0))
            (ingest_new-Added codecs event db (All-weaken db.events (λ row h. h.0) sound.rows))
      free (some row) = tt

  committed-Grown :
      (event : EventEnvelope) (db : Db) (outcome : Outcome Db)
      → IfOk (Taken codecs event.event_id db) outcome
      → IfOk (λ db'. Grown codecs event db db'.events) outcome
      → Grown codecs event db (committed codecs publisher db outcome).db.events
  committed-Grown event db (inl e) taken h = inl refl
  committed-Grown event db (inr db') taken h =
      let (s, o, r) = drain_event_publication_outbox-Drained codecs publisher db' taken.0 in
      subst (Grown codecs event db) (sym (ap (λ d. d.events) o)) h

  accept_node_event-Grown :
      (event : EventEnvelope) (db : Db)
      → Sound codecs db
      → Grown codecs event db (accept_node_event codecs publisher event db).db.events
  unfolding accept_node_event accept_transaction
  accept_node_event-Grown event db sound =
      elim (Bool-cases (matches_kind event.payload.kind event.kind)) [
        | inl e ↦ rw e (
            committed-Grown event db (accept_transaction codecs event db)
              (accept_transaction-Taken codecs event db sound)
              (looked_up-Grown event db _ sound refl))
        | inr e ↦ rw e (inl refl)
      ]

  new_number :
      (id : SessionThreadId) (db : Db) (s : Option SessionThreadId)
      → ((if column_is s id then option_map (λ a. next_session_projection_seq a db) s else none)
          ≡ none)
        ⊎ ((if column_is s id then option_map (λ a. next_session_projection_seq a db) s else none)
            ≡ some (next_session_projection_seq id db))
  unfolding column_is
  new_number id db none = inl refl
  new_number id db (some s) = elim (Bool-cases (text_eq s id)) [
    | inl b ↦
        inr (rw b (ap (λ a. some (next_session_projection_seq a db)) ((text_eq_iff s id).0 b)))
    | inr b ↦ inl (rw b refl)
  ]

  appended-Ascending :
      (ns : List ℤ) (o : Option ℤ) (n : ℤ)
      → (o ≡ none) ⊎ (o ≡ some n)
      → Ascending ns
      → All (λ m. m <ℤ n) ns
      → Ascending (ns ++ with_value o [])
  appended-Ascending ns none n e h k = subst Ascending (sym (++-nil ns)) h
  appended-Ascending ns (some m) n (inl e) h k = absurd (false-true (ap is_some (sym e)))
  appended-Ascending ns (some m) n (inr e) h k =
      subst (λ o. Ascending (ns ++ with_value o [])) (sym e) (Ascending-append_one ns n h k)

  -- A new row of the session has a number above the others.
  stored-Ascending :
      (id : SessionThreadId) (event : EventEnvelope) (c : Option CorrelationId) (db : Db)
      → All Below (numbers id db)
      → Ascending (numbers id db)
      → Ascending (
          values
            (session_number id)
            (db.events ++ projected_row codecs (stored codecs event c db) ∷ []))
  unfolding next_session_projection_seq values
  stored-Ascending id event c db below h =
      let row = projected_row codecs (stored codecs event c db) in
      subst Ascending (sym (values-append (session_number id) db.events (row ∷ []))) (
        appended-Ascending (numbers id db) (session_number id row)
          (next_session_projection_seq id db) (new_number id db event.session_thread_id) h
          (next-greater (numbers id db) _ (values-max_value (session_number id) db.events (pos 0))
            (max_value-Below (session_number id) db.events below)))

  -- what a step does to the numbers of a session
  Grown-Ascending :
      (id : SessionThreadId) (event : EventEnvelope) (db : Db) (rows : List EventRow)
      → Grown codecs event db rows
      → All Below (values (session_number id) rows)
      → (All Below (numbers id db) → Ascending (numbers id db))
      → Ascending (values (session_number id) rows)
  Grown-Ascending id event db rows (inl e) below h =
      subst (λ r. Ascending (values (session_number id) r)) (sym e)
        (h (subst (λ r. All Below (values (session_number id) r)) e below))
  Grown-Ascending id event db rows (inr (c, e)) below h =
      let before = All-append_left (numbers id db) _ (
        subst (All Below) (values-append (session_number id) db.events _)
          (subst (λ r. All Below (values (session_number id) r)) e below)) in
      subst (λ r. Ascending (values (session_number id) r)) (sym e)
        (stored-Ascending id event c db before (h before))

  -- From sound tables where the numbers of a session ascend in the order in which its events were
  -- stored, they still do however many events are taken in or refused, and however often what
  -- waits is published, as long as no number has reached the greatest of an `i64`.
  pub Accepts-Ascending :
      (id : SessionThreadId) {before db : Db}
      → Accepts codecs publisher before db
      → Sound codecs before
      → Ascending (numbers id before)
      → All (λ n. n <ℤ pos i64_max) (numbers id db)
      → Ascending (numbers id db)
  Accepts-Ascending id start sound h below = h
  Accepts-Ascending id (accept {db = db} steps event) sound h below =
      Grown-Ascending id event db _
        (accept_node_event-Grown event db (Accepts-Sound codecs publisher steps sound)) below
        (Accepts-Ascending id steps sound h)
  Accepts-Ascending id (publish {db = db} steps) sound h below =
      let same =
        ap (λ (d : Db). d.events)
          (drain_event_publication_outbox-Drained codecs publisher db
            (Accepts-Sound codecs publisher steps sound)).1 in
      subst (λ r. Ascending (values (session_number id) r)) (sym same)
        (Accepts-Ascending id steps sound h
          (subst (λ r. All Below (values (session_number id) r)) same below))
