-- ===== src/Server/Publication/Redelivery.antt =====
-- What taking an event in twice does: the second time nothing is added.
use uprava.Prelude.{
  false-true, ◌≡◌, refl, sym, ap, subst, inl, inr, Bool, true, false, [], if◌then◌else◌, Bool-cases,
}
use uprava.Protocol.Reference.{EventId}
use uprava.Protocol.Event.{EventEnvelope, matches_kind}
use uprava.Server.Support.{AppError, Validated, Outcome}
use uprava.Server.Tables.{Db}
use uprava.Server.Projection.{Codecs}
use uprava.Server.Apply.Frame.{IfOk}
use uprava.Server.Publication.{
  Publisher, Ingested, drain_event_publication_outbox, payload_mismatch, committed,
  accept_node_event,
}
use uprava.Server.Publication.Sound.{
  Known, Sound, Taken, accept_transaction-Taken, accept_transaction_again,
}
use uprava.Server.Publication.Drained.{
  OnlyPublished, drain_event_publication_outbox-Drained, drained-Known,
}

abbrev is_ok : Validated → Bool
is_ok (inl e) = false
is_ok (inr ok) = true

module _ (codecs : Codecs) (publisher : Publisher) where
  -- What `accept_node_event` does to the tables, whatever its result.
  pub record Accepted (event : EventEnvelope) (db : Db) (i : Ingested) : Type 0 where
    pub sound : Sound codecs i.db
    pub keeps_known : (other : EventId) → Known other db → Known other i.db
    pub then_known : i.result ≡ inr tt → Known event.event_id i.db

  refused-Accepted :
      (event : EventEnvelope) (db : Db) (e : AppError)
      → Sound codecs db
      → Accepted event db (record { db = db; broadcast = []; result = inl e })
  refused-Accepted event db e sound = record {
    sound = sound;
    keeps_known = λ other known. known;
    then_known = λ ok. absurd (false-true (ap is_ok ok));
  }

  committed-Accepted :
      (event : EventEnvelope) (db : Db) (outcome : Outcome Db)
      → Sound codecs db
      → IfOk (Taken codecs event.event_id db) outcome
      → Accepted event db (committed codecs publisher db outcome)
  committed-Accepted event db (inl e) sound h = refused-Accepted event db e sound
  committed-Accepted event db (inr db') sound (s, k, keeps) =
      let drained = drain_event_publication_outbox codecs publisher db' in
      let (d, o, r) = drain_event_publication_outbox-Drained codecs publisher db' s in
      record {
        sound = d;
        keeps_known = λ other known.
            drained-Known codecs publisher other db' drained.db o (keeps other known);
        then_known = λ ok. drained-Known codecs publisher event.event_id db' drained.db o k;
      }

  pub accept_node_event-Accepted :
      (event : EventEnvelope) (db : Db)
      → Sound codecs db
      → Accepted event db (accept_node_event codecs publisher event db)
  unfolding accept_node_event
  accept_node_event-Accepted event db sound =
      elim (Bool-cases (matches_kind event.payload.kind event.kind)) [
        | inl e ↦
            rw e
              (committed-Accepted event db _ sound (accept_transaction-Taken codecs event db sound))
        | inr e ↦ rw e (refused-Accepted event db (payload_mismatch codecs publisher) sound)
      ]

  -- Events are taken in, each with its result, and waiting publications are made.
  pub data Accepts : Db → Db → Type 0 where
    start : {db : Db} → Accepts db db
    accept :
        {before db : Db}
        → Accepts before db
        → (event : EventEnvelope) → Accepts before (accept_node_event codecs publisher event db).db
    publish :
        {before db : Db}
        → Accepts before db
        → Accepts before (drain_event_publication_outbox codecs publisher db).db

  pub Accepts-Sound : {before db : Db} → Accepts before db → Sound codecs before → Sound codecs db
  Accepts-Sound start s = s
  Accepts-Sound (accept steps event) s =
      (accept_node_event-Accepted event _ (Accepts-Sound steps s)).sound
  Accepts-Sound (publish steps) s =
      (drain_event_publication_outbox-Drained codecs publisher _ (Accepts-Sound steps s)).0

  pub Accepts-Known :
      {before db : Db} (id : EventId)
      → Accepts before db
      → Sound codecs before
      → Known id before
      → Known id db
  Accepts-Known id start s k = k
  Accepts-Known id (accept steps event) s k =
      (accept_node_event-Accepted event _ (Accepts-Sound steps s)).keeps_known id
        (Accepts-Known id steps s k)
  Accepts-Known id (publish {db = db} steps) s k =
      drained-Known codecs publisher id db (drain_event_publication_outbox codecs publisher db).db
        (drain_event_publication_outbox-Drained codecs publisher db (Accepts-Sound steps s)).1
        (Accepts-Known id steps s k)

  -- The tables but that of the publications are as they were, and only the payload decides the
  -- result.
  abbrev pub Unchanged : EventEnvelope → Db → Ingested → Type 0
  Unchanged event db i =
      OnlyPublished db i.db
      × (i.result ≡ (
          if matches_kind event.payload.kind event.kind
          then inr tt
          else inl (payload_mismatch codecs publisher)))

  Known-Unchanged :
      (event : EventEnvelope) (db : Db)
      → Sound codecs db
      → Known event.event_id db
      → Unchanged event db (accept_node_event codecs publisher event db)
  unfolding accept_node_event
  Known-Unchanged event db sound known =
      let (s, o, r) = drain_event_publication_outbox-Drained codecs publisher db sound in
      elim (Bool-cases (matches_kind event.payload.kind event.kind)) [
        | inl e ↦ rw (e, accept_transaction_again codecs event db sound known) (o, r)
        | inr e ↦ rw e (refl, refl)
      ]

  -- Once an event was taken in, then however many events were taken in or refused since, an event
  -- with its identifier changes no table but that of the publications, and it is acknowledged
  -- again unless its payload does not match its kind.
  pub accept_node_event-once :
      (event again : EventEnvelope) (db later : Db)
      → Sound codecs db
      → (accept_node_event codecs publisher event db).result ≡ inr tt
      → Accepts (accept_node_event codecs publisher event db).db later
      → again.event_id ≡ event.event_id
      → Unchanged again later (accept_node_event codecs publisher again later)
  accept_node_event-once event again db later sound ok steps same =
      let first = accept_node_event-Accepted event db sound in
      Known-Unchanged again later (Accepts-Sound steps first.sound) (
        subst (λ id. Known id later) (sym same)
          (Accepts-Known event.event_id steps first.sound (first.then_known ok)))
