-- ===== src/Server/Publication/Sound.antt =====
-- The tables of events and of publications as Core keeps them between two transactions.
use uprava.Server.Rows.{All-weaken, select_one-any, select_one-All}
use uprava.Prelude.{
  false-true, or_true, some_value, ◌≡◌, refl, sym, ap, ◌∙◌, subst, inl, inr, true, Option, none,
  some, List, arith, Text, text_eq, text_eq_refl, Bool-cases, Option-cases, option_map, is_some,
  any, All, any-append, All-append,
}
use uprava.Protocol.Reference.{EventId}
use uprava.Protocol.Event.{EventEnvelope}
use uprava.Server.Tables.{EventRow, PublicationRow, Db, select_one}
use uprava.Server.Projection.{Codecs}
use uprava.Server.Apply.Frame.{IfOk, IfOk-map}
use uprava.Server.Ingest.{
  stored, seq_conflict, ingest_new, known_event, looked_up, accept_transaction,
}
use uprava.Server.Records.{enqueued, enqueue_event_publication}
use uprava.Server.Ingest.Added.{Added, ingest_new-Added}

module _ (codecs : Codecs) where
  abbrev pub Decodes : Text → EventId → Type 0
  Decodes json id = option_map (λ d. d.event_id) (codecs.event_from_str json) ≡ some id

abbrev pub Publishes : List PublicationRow → EventId → Type 0
Publishes rows id = any (λ r. text_eq r.event_id id) rows ≡ true

abbrev pub Known : EventId → Db → Type 0
Known id db = any (λ r. text_eq r.event_id id) db.events ≡ true

-- An event that is stored is projected and has a publication, which may have been made.
abbrev pub RowSound : Codecs → List PublicationRow → EventRow → Type 0
RowSound codecs publications row =
    (row.is_projected ≡ true)
    × Decodes codecs row.event_json row.event_id
    × Publishes publications row.event_id

pub record Sound (codecs : Codecs) (db : Db) : Type 0 where
  pub rows : All (RowSound codecs db.publications) db.events
  pub decodes : All (λ p. Decodes codecs p.event_json p.event_id) db.publications

module _ (codecs : Codecs) where
  enqueued-grows :
      (event : EventEnvelope) (rows : List PublicationRow) (id : EventId)
      → Publishes rows id
      → Publishes (enqueued codecs event rows) id
  enqueued-grows event rows id h =
      elim (Bool-cases (any (λ r. text_eq r.event_id event.event_id) rows)) [
        | inl e ↦ rw e h
        | inr e ↦ rw (e, any-append (λ r. text_eq r.event_id id) rows _, h) refl
      ]

  enqueued-has :
      (event : EventEnvelope) (rows : List PublicationRow)
      → Publishes (enqueued codecs event rows) event.event_id
  enqueued-has event rows = elim (Bool-cases (any (λ r. text_eq r.event_id event.event_id) rows)) [
    | inl e ↦ rw e e
    | inr e ↦
        rw
          (
            e,
            any-append (λ r. text_eq r.event_id event.event_id) rows _,
            text_eq_refl event.event_id,
            e,
          )
          refl
  ]

  enqueued-again :
      (event : EventEnvelope) (rows : List PublicationRow)
      → Publishes rows event.event_id
      → enqueued codecs event rows ≡ rows
  enqueued-again event rows h = rw h refl

  enqueued-Decodes :
      (event : EventEnvelope) (rows : List PublicationRow)
      → All (λ p. Decodes codecs p.event_json p.event_id) rows
      → All (λ p. Decodes codecs p.event_json p.event_id) (enqueued codecs event rows)
  enqueued-Decodes event rows h =
      elim (Bool-cases (any (λ r. text_eq r.event_id event.event_id) rows)) [
        | inl e ↦ rw e h
        | inr e ↦ rw e (All-append _ rows _ h (codecs.event_from_str-event_to_string event, tt))
      ]

  Sound-Added :
      (event : EventEnvelope) (db db' : Db)
      → Sound codecs db
      → Added codecs db event db'
      → Sound codecs db'
  Sound-Added event db db' sound (e, p) = record {
    rows =
        rw (e, p)
          (All-append (RowSound codecs (enqueued codecs event db.publications)) db.events _
            (All-weaken db.events
              (λ row (a, b, c). (a, b, enqueued-grows event db.publications row.event_id c))
              sound.rows)
            (
              (
                refl,
                codecs.event_from_str-event_to_string event,
                enqueued-has event db.publications,
              ),
              tt,
            ));
    decodes = rw p (enqueued-Decodes event db.publications sound.decodes);
  }

  -- A row that was found is left as it is.
  pub known_event-Sound :
      (id : EventId) (row : EventRow) (db : Db)
      → Sound codecs db
      → select_one (λ r. text_eq r.event_id id) db.events ≡ some row
      → known_event codecs row db ≡ inr db
  unfolding enqueue_event_publication
  known_event-Sound id row db sound e =
      let (a, b, c) =
        select_one-All (RowSound codecs db.publications) _ db.events row sound.rows e in
      elim (Option-cases (codecs.event_from_str row.event_json)) [
        | inl n ↦ absurd (false-true (ap is_some (ap (option_map (λ d. d.event_id)) (sym n) ∙ b)))
        | inr (d, n) ↦
            let same =
              some_value d.event_id row.event_id (ap (option_map (λ d. d.event_id)) (sym n) ∙ b) in
            rw (n, a)
              (ap (λ ps. inr (record db { publications = ps }))
                (enqueued-again d db.publications (subst (Publishes db.publications) (sym same) c)))
      ]

  -- What a transaction that takes an event in gives.
  abbrev pub Taken : EventId → Db → Db → Type 0
  Taken id db db' =
      Sound codecs db' × Known id db' × ((other : EventId) → Known other db → Known other db')

  Added-Taken :
      (event : EventEnvelope) (db db' : Db)
      → Sound codecs db
      → Added codecs db event db'
      → Taken event.event_id db db'
  Added-Taken event db db' sound added = (
    Sound-Added event db db' sound added,
    rw
        (
          added.0,
          any-append (λ r. text_eq r.event_id event.event_id) db.events _,
          text_eq_refl event.event_id,
        )
        (or_true (any (λ r. text_eq r.event_id event.event_id) db.events)),
    λ other h. rw (added.0, any-append (λ r. text_eq r.event_id other) db.events _, h) refl,
  )

  ingest_new-Taken :
      (event : EventEnvelope) (db : Db)
      → Sound codecs db
      → IfOk (Taken event.event_id db) (ingest_new codecs event db)
  ingest_new-Taken event db sound =
      IfOk-map _ (Taken event.event_id db) (ingest_new codecs event db)
        (λ db' (c, added). Added-Taken (stored codecs event c db) db db' sound added)
        (ingest_new-Added codecs event db (All-weaken db.events (λ row h. h.0) sound.rows))

  looked_up-Taken :
      (event : EventEnvelope) (db : Db) (o : Option EventRow)
      → Sound codecs db
      → select_one (λ r. text_eq r.event_id event.event_id) db.events ≡ o
      → IfOk (Taken event.event_id db) (looked_up codecs event db o)
  looked_up-Taken event db (some row) sound e =
      rw (known_event-Sound event.event_id row db sound e) (
        sound,
        select_one-any (λ r. text_eq r.event_id event.event_id) db.events ∙ ap is_some e,
        λ other h. h,
      )
  looked_up-Taken event db none sound e = free (select_one _ db.events)
    where
      free :
          (o : Option EventRow)
          → IfOk (Taken event.event_id db) (seq_conflict codecs o (ingest_new codecs event db))
      free none = ingest_new-Taken event db sound
      free (some row) = tt

  pub accept_transaction-Taken :
      (event : EventEnvelope) (db : Db)
      → Sound codecs db
      → IfOk (Taken event.event_id db) (accept_transaction codecs event db)
  unfolding accept_transaction
  accept_transaction-Taken event db sound = looked_up-Taken event db _ sound refl

  looked_up_again :
      (event : EventEnvelope) (db : Db) (o : Option EventRow)
      → Sound codecs db
      → select_one (λ r. text_eq r.event_id event.event_id) db.events ≡ o
      → is_some o ≡ true
      → looked_up codecs event db o ≡ inr db
  looked_up_again event db (some row) sound e k = known_event-Sound event.event_id row db sound e
  looked_up_again event db none sound e k = grind arith

  -- An event that is known changes nothing.
  pub accept_transaction_again :
      (event : EventEnvelope) (db : Db)
      → Sound codecs db
      → Known event.event_id db
      → accept_transaction codecs event db ≡ inr db
  unfolding accept_transaction
  accept_transaction_again event db sound known =
      looked_up_again event db _ sound refl
        (sym (select_one-any (λ r. text_eq r.event_id event.event_id) db.events) ∙ known)
