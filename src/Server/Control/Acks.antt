-- ===== src/Server/Control/Acks.antt =====
-- What the acknowledgement of a batch of events promises.
use uprava.Prelude.{
  true, any, text_eq, false-true, ◌≡◌, refl, sym, ap, ◌∙◌, subst, ◌⊎◌, inl, inr, Option, none, some,
  List, [], ◌∷◌, map, ltb, Bool-cases, unwrap_or, is_some, length, All,
}
use uprava.Protocol.Reference.{NodeId, EventId}
use uprava.Protocol.Event.{EventEnvelope}
use uprava.Server.Support.{AppError, Validated}
use uprava.Server.Tables.{Db}
use uprava.Server.Projection.{Codecs}
use uprava.Server.Publication.{Publisher, Ingested}
use uprava.Server.Publication.Sound.{Known, Sound}
use uprava.Server.Publication.Redelivery.{Accepted, accept_node_event-Accepted}
use uprava.Server.Control.{
  BatchHandled, acked, next_event, validated, accept_events, batch_bytes, max_event_batch_items,
  max_control_frame_bytes, handle_event_batch,
}
use uprava.Server.Ownership.{validate_event_owner}

abbrev ids_or_none : AppError ⊎ List EventId → Option (List EventId)
ids_or_none (inl e) = none
ids_or_none (inr ids) = some ids

-- The tables are sound, no known event is forgotten, and if the batch is acknowledged, then with
-- the identifiers of all its events, which are known.
pub record Handled (codecs : Codecs) (events : List EventEnvelope) (db : Db) (b : BatchHandled)
    : Type 0 where
  pub sound : Sound codecs b.db
  pub keeps_known : (id : EventId) → Known id db → Known id b.db
  pub acknowledged :
      (ids : List EventId)
      → b.result ≡ inr ids
      → (ids ≡ map (λ e. e.event_id) events) × All (λ id. Known id b.db) ids

module _ (codecs : Codecs) (publisher : Publisher) where
  stopped-Handled :
      (events : List EventEnvelope) (db db' : Db) (sent : List EventEnvelope) (e : AppError)
      → Sound codecs db'
      → ((id : EventId) → Known id db → Known id db')
      → Handled codecs events db (record { db = db'; broadcast = sent; result = inl e })
  stopped-Handled events db db' sent e sound keeps = record {
    sound = sound;
    keeps_known = keeps;
    acknowledged = λ ids ok. absurd (false-true (ap is_some (ap ids_or_none ok)));
  }

  acked-inr :
      (id : EventId) (result : AppError ⊎ List EventId) (ids : List EventId)
      → acked codecs publisher id result ≡ inr ids
      → (rest : List EventId) × (result ≡ inr rest) × (ids ≡ id ∷ rest)
  acked-inr id (inl e) ids h = absurd (false-true (ap is_some (ap ids_or_none h)))
  acked-inr id (inr rest) ids h = (rest, refl, sym (ap (λ o. unwrap_or o ids) (ap ids_or_none h)))

  next_event-Handled :
      (event : EventEnvelope) (events : List EventEnvelope) (db : Db) (i : Ingested) (v : Validated)
      (rest : BatchHandled)
      → i.result ≡ v
      → Accepted codecs publisher event db i
      → Handled codecs events i.db rest
      → Handled codecs (event ∷ events) db (next_event codecs publisher event i v rest)
  next_event-Handled event events db i (inl e) rest r a h =
      stopped-Handled (event ∷ events) db i.db i.broadcast e a.sound a.keeps_known
  next_event-Handled event events db i (inr ok) rest r a h = record {
    sound = h.sound;
    keeps_known = λ id k. h.keeps_known id (a.keeps_known id k);
    acknowledged = λ ids e.
        let (more, f, g) = acked-inr event.event_id rest.result ids e in
        let (same, known) = h.acknowledged more f in
        (
          g ∙ ap (λ l. event.event_id ∷ l) same,
          subst (All (λ id. Known id rest.db)) (sym g)
              (h.keeps_known event.event_id (a.then_known r), known),
        );
  }

  validated-Handled :
      (event : EventEnvelope) (events : List EventEnvelope) (db : Db) (i : Ingested) (v : Validated)
      (rest : BatchHandled)
      → Sound codecs db
      → Accepted codecs publisher event db i
      → Handled codecs events i.db rest
      → Handled codecs (event ∷ events) db (validated codecs publisher event v db i rest)
  validated-Handled event events db i (inl e) rest sound a h =
      stopped-Handled (event ∷ events) db db [] e sound (λ id k. k)
  validated-Handled event events db i (inr ok) rest sound a h =
      next_event-Handled event events db i i.result rest refl a h

  accept_events-Handled :
      (node : NodeId) (events : List EventEnvelope) (db : Db)
      → Sound codecs db
      → Handled codecs events db (accept_events codecs publisher node events db)
  unfolding accept_events
  accept_events-Handled node [] db sound = record {
    sound = sound;
    keeps_known = λ id k. k;
    acknowledged = λ ids e.
        let none_left = ap (λ o. unwrap_or o ids) (ap ids_or_none e) in
        (sym none_left, subst (All (λ id. Known id db)) none_left tt);
  }
  accept_events-Handled node (event ∷ events) db sound =
      let a = accept_node_event-Accepted codecs publisher event db sound in
      validated-Handled event events db _ (validate_event_owner node event db) _ sound a
        (accept_events-Handled node events _ a.sound)

  pub handle_event_batch-Handled :
      (node : NodeId) (events : List EventEnvelope) (db : Db)
      → Sound codecs db
      → Handled codecs events db (handle_event_batch codecs publisher node events db)
  unfolding handle_event_batch
  handle_event_batch-Handled node events db sound =
      elim (Bool-cases (ltb max_event_batch_items (length events))) [
        | inl e ↦ rw e (stopped-Handled events db db [] _ sound (λ id k. k))
        | inr e ↦
            elim (Bool-cases (ltb max_control_frame_bytes (batch_bytes codecs publisher events))) [
              | inl f ↦ rw (e, f) (stopped-Handled events db db [] _ sound (λ id k. k))
              | inr f ↦ rw (e, f) (accept_events-Handled node events db sound)
            ]
      ]

  -- If a batch is acknowledged, from sound tables, then the tables are sound again, the
  -- acknowledgement has the identifiers of all the events of the batch in their order, and each is
  -- that of an event that Core has stored.
  pub handle_event_batch-acks :
      (node : NodeId) (events : List EventEnvelope) (db : Db) (ids : List EventId)
      → Sound codecs db
      → (handle_event_batch codecs publisher node events db).result ≡ inr ids
      → let after = (handle_event_batch codecs publisher node events db).db in
        Sound codecs after
        × (ids ≡ map (λ e. e.event_id) events)
        × All (λ id. any (λ r. text_eq r.event_id id) after.events ≡ true) ids
  handle_event_batch-acks node events db ids sound ok =
      let h = handle_event_batch-Handled node events db sound in
      let (same, known) = h.acknowledged ids ok in (h.sound, same, known)
