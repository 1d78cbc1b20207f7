-- ===== src/Server/Control/Foreign.antt =====
-- A batch of a node and the aggregates of the other nodes.
use uprava.Prelude.{retain, ◌≡◌, refl, inl, inr, List, [], ◌∷◌, ltb, Bool-cases, length}
use uprava.Protocol.Reference.{NodeId}
use uprava.Protocol.Event.{EventEnvelope}
use uprava.Server.Support.{Validated}
use uprava.Server.Tables.{Db}
use uprava.Server.Projection.{Codecs}
use uprava.Server.Publication.{Publisher, Ingested, accept_node_event}
use uprava.Server.Publication.Sound.{Sound}
use uprava.Server.Publication.Redelivery.{accept_node_event-Accepted}
use uprava.Server.Control.{
  BatchHandled, next_event, validated, accept_events, max_event_batch_items,
  max_control_frame_bytes, batch_bytes, handle_event_batch,
}
use uprava.Server.Ownership.{validate_event_owner}
use uprava.Server.Control.Owners.{
  SameKeys, foreign_runtime, foreign_session, validate_event_owner-Spares,
}
use uprava.Server.Control.Isolation.{accept_node_event-Isolated}
use uprava.Server.Control.Isolated.{Isolated, Isolated-refl, Isolated-trans}

-- The rows of the runtimes and of the sessions that are not the node's are as they were, every row
-- of a runtime, a session or a placement belongs to whom it belonged, and a task run that has ended
-- is as it was.
abbrev pub Foreign : NodeId → Db → Db → Type 0
Foreign node db db' = Isolated (foreign_runtime node db) (foreign_session node db) db db'

module _ (codecs : Codecs) (publisher : Publisher) (node : NodeId) (start : Db) where
  next_event-Foreign :
      (event : EventEnvelope) (i : Ingested) (v : Validated) (rest : BatchHandled)
      → Foreign node start i.db
      → Foreign node start rest.db
      → Foreign node start (next_event codecs publisher event i v rest).db
  next_event-Foreign event i (inl e) rest h k = h
  next_event-Foreign event i (inr ok) rest h k = k

  validated-Foreign :
      (event : EventEnvelope) (v : Validated) (db : Db) (i : Ingested) (rest : BatchHandled)
      → Foreign node start db
      → (v ≡ inr tt → Foreign node start i.db)
      → (v ≡ inr tt → Foreign node start rest.db)
      → Foreign node start (validated codecs publisher event v db i rest).db
  validated-Foreign event (inl e) db i rest h f g = h
  validated-Foreign event (inr ok) db i rest h f g =
      next_event-Foreign event i i.result rest (f refl) (g refl)

  accept_events-Foreign :
      (events : List EventEnvelope) (db : Db)
      → Sound codecs db
      → Foreign node start db
      → Foreign node start (accept_events codecs publisher node events db).db
  unfolding accept_events
  accept_events-Foreign [] db sound h = h
  accept_events-Foreign (event ∷ events) db sound h =
      let i = accept_node_event codecs publisher event db in
      let next = λ (ok : validate_event_owner node event db ≡ inr tt).
        Isolated-trans (foreign_runtime node start) (foreign_session node start) start db i.db h (
          accept_node_event-Isolated (foreign_runtime node start) (foreign_session node start)
            codecs publisher event db sound
            (validate_event_owner-Spares node start event db h.keys ok)) in
      validated-Foreign event (validate_event_owner node event db) db i
        (accept_events codecs publisher node events i.db) h next
        (λ ok.
          accept_events-Foreign events i.db
            (accept_node_event-Accepted codecs publisher event db sound).sound (next ok))

batch-Foreign :
    (codecs : Codecs) (publisher : Publisher) (node : NodeId) (events : List EventEnvelope)
    (db : Db)
    → Sound codecs db
    → Foreign node db (handle_event_batch codecs publisher node events db).db
unfolding handle_event_batch
batch-Foreign codecs publisher node events db sound =
    let same = Isolated-refl (foreign_runtime node db) (foreign_session node db) db in
    elim (Bool-cases (ltb max_event_batch_items (length events))) [
      | inl e ↦ rw e same
      | inr e ↦
          elim (Bool-cases (ltb max_control_frame_bytes (batch_bytes codecs publisher events))) [
            | inl f ↦ rw (e, f) same
            | inr f ↦
                rw (e, f) (accept_events-Foreign codecs publisher node db events db sound same)
          ]
    ]

-- From sound tables, whatever a node sends in a batch, and whether or not the batch is
-- acknowledged, the rows of the runtimes and of the sessions of other nodes are as they were, and
-- no runtime, session or placement changes its owner.
pub handle_event_batch-spares :
    (codecs : Codecs) (publisher : Publisher) (node : NodeId) (events : List EventEnvelope)
    (db : Db)
    → Sound codecs db
    → let after = (handle_event_batch codecs publisher node events db).db in
      let others = foreign_runtime node db in
      let other_sessions = foreign_session node db in
      (retain (λ r. others r.runtime_session_id) after.runtimes
        ≡ retain (λ r. others r.runtime_session_id) db.runtimes)
      × (retain (λ s. other_sessions s.session_thread_id) after.sessions
          ≡ retain (λ s. other_sessions s.session_thread_id) db.sessions)
      × SameKeys db after
handle_event_batch-spares codecs publisher node events db sound =
    let f = batch-Foreign codecs publisher node events db sound in (f.runtimes, f.sessions, f.keys)
