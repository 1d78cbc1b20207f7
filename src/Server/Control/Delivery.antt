-- ===== src/Server/Control/Delivery.antt =====
-- The outbox of a node and the tables of Core, for the events that Core acknowledges.
use uprava.Prelude.{
  or_true, ◌≡◌, refl, subst, inl, inr, true, ◌||◌, List, [], ◌∷◌, arith, text_eq, contains_text,
  text_eq_iff, Bool-cases, any, All,
}
use uprava.Protocol.Reference.{NodeId, EventId}
use uprava.Protocol.Event.{EventEnvelope}
use uprava.Server.Tables.{Db}
use uprava.Server.Projection.{Codecs}
use uprava.Server.Publication.{Publisher}
use uprava.Server.Publication.Sound.{Sound}
use uprava.Server.Control.{handle_event_batch}
use uprava.Server.Control.Acks.{handle_event_batch-acks}
use uprava.Node.Merge.{has_event}
use uprava.Node.Outbox.{remove_acked_events}
use uprava.Node.Outbox.Acks.{remove_acked_events_lem}

contains-All :
    (P : EventId → Type 0) (ids : List EventId) (id : EventId)
    → All P ids
    → contains_text ids id ≡ true
    → P id
unfolding contains_text
contains-All P [] id h e = grind arith
contains-All P (x ∷ xs) id h e = elim (Bool-cases (text_eq x id)) [
  | inl b ↦ subst P ((text_eq_iff x id).0 b) h.0
  | inr b ↦ contains-All P xs id h.1 (subst (λ c. (c || contains_text xs id) ≡ true) b e)
]

-- If Core acknowledges a batch, then of any outbox a node can lose, by the acknowledgement, only
-- events that Core has stored: what was in the outbox is still there or known.
pub handle_event_batch-delivers :
    (codecs : Codecs) (publisher : Publisher) (node : NodeId) (events : List EventEnvelope)
    (db : Db) (ids : List EventId) (outbox : List EventEnvelope) (id : EventId)
    → Sound codecs db
    → (handle_event_batch codecs publisher node events db).result ≡ inr ids
    → has_event id outbox ≡ true
    → (has_event id (remove_acked_events outbox ids).0
        || any
            (λ r. text_eq r.event_id id)
            (handle_event_batch codecs publisher node events db).db.events)
      ≡ true
handle_event_batch-delivers codecs publisher node events db ids outbox id sound ok present =
    let known = (handle_event_batch-acks codecs publisher node events db ids sound ok).2 in
    elim (Bool-cases (contains_text ids id)) [
      | inl c ↦ rw (contains-All _ ids id known c) (or_true _)
      | inr c ↦ rw ((remove_acked_events_lem outbox ids id).0, present, c) refl
    ]
