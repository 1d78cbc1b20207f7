-- ===== src/Node/Outbox/Acks.antt =====
-- Acknowledgements: which events leave the outbox.
use uprava.Prelude.{
  ◌+◌, ◌≤◌, ◌≡◌, refl, Bool, true, false, ◌&&◌, not, List, [], ◌∷◌, arith, Text, contains_text,
  text_eq_iff, length, is_empty, retain,
}
use uprava.Protocol.Reference.{EventId}
use uprava.Protocol.Event.{EventEnvelope}
use uprava.Node.Merge.{has_event}
use uprava.Node.Outbox.{remove_acked_events}

has_event-retain :
    (id : EventId) (ids : List EventId) (xs : List EventEnvelope)
    → has_event id (retain (λ e. not (contains_text ids e.event_id)) xs)
      ≡ (has_event id xs && not (contains_text ids id))
unfolding has_event
has_event-retain id ids [] = refl
has_event-retain id ids (x ∷ xs) =
    ground (arith, has_event-retain id ids xs, text_eq_iff x.event_id id)

length-retain-le :
    (p : EventEnvelope → Bool) (xs : List EventEnvelope) → length (retain p xs) ≤ length xs
length-retain-le p [] = omega arith
length-retain-le p (x ∷ xs) = ground (arith, length-retain-le p xs)

has_event-nil :
    (id : EventId) (xs : List EventEnvelope) → is_empty xs ≡ true → has_event id xs ≡ false
unfolding has_event
has_event-nil id [] h = refl
has_event-nil id (x ∷ xs) h = cc

contains_text-nil : (k : Text) (xs : List Text) → is_empty xs ≡ true → contains_text xs k ≡ false
unfolding contains_text
contains_text-nil k [] h = refl
contains_text-nil k (x ∷ xs) h = cc

-- After an acknowledgement the outbox holds exactly the events that it held before and that were
-- not acknowledged, and the number returned is that of the events that left.
pub remove_acked_events_lem :
    (outbox : List EventEnvelope) (ids : List EventId) (id : EventId)
    → let (kept, removed) = remove_acked_events outbox ids in
      (has_event id kept ≡ (has_event id outbox && not (contains_text ids id)))
      × (removed + length kept ≡ length outbox)
unfolding remove_acked_events
remove_acked_events_lem outbox ids id = ground (
  arith,
  has_event-retain id ids outbox,
  length-retain-le (λ e. not (contains_text ids e.event_id)) outbox,
  has_event-nil id outbox,
  contains_text-nil id ids,
)
