-- ===== src/Server/Records.antt =====
-- What is written for an event besides its projection: the actor, the mark of a gap, the message, the
-- record of the event and its publication. From
-- crates/uprava-server/src/runtime/application/coordination.rs and projection.rs, and
-- crates/uprava-server/src/persistence/event.rs.
use uprava.Prelude.{
  inl, inr, Bool, true, false, ◌&&◌, ◌||◌, not, Option, none, some, List, [], ◌∷◌, ◌++◌, Text,
  codes, text_eq, if◌then◌else◌, map_or, unwrap_or, is_some, any, eqℤ,
}
use uprava.Protocol.Reference.{DateTime, SessionThreadId, RuntimeSessionId, ActorRef}
use uprava.Protocol.Domain.{EventKind, SessionThreadState, RuntimeSessionState}
use uprava.Protocol.Event.{EventEnvelope}
use uprava.Server.Support.{Outcome, scope_key, actor_identity, payload_str}
use uprava.Server.Tables.{
  EventRow, PublicationRow, MessageRow, MessageRole, ActorRow, Db, select_one, update_where,
  column_is,
}
use uprava.Server.Projection.{Codecs, foreign_key_failed, unique_failed, has_session}
use uprava.Server.Updates.{set_session_state}

-- `upsert_actor_on_connection`, but for the column `actor_ref_json`
unfoldable pub upsert_actor : ActorRef → DateTime → Db → Db
upsert_actor actor seen_at db =
    let (key, kind, name) = actor_identity actor in
    let same = λ (a : ActorRow). text_eq a.actor_key key in
    record db {
      actors =
          if is_some (select_one same db.actors)
          then update_where same (λ a. record a { display_name = name; last_seen_at = seen_at })
              db.actors
          else db.actors
            ++ record {
              actor_key = key;
              actor_kind = kind;
              display_name = name;
              first_seen_at = seen_at;
              last_seen_at = seen_at;
            }
              ∷ [];
    }

abbrev pub stale_runtime : Option RuntimeSessionId → Text → DateTime → Db → Db
stale_runtime none reason happened_at db = db
stale_runtime (some id) reason happened_at db = record db {
  runtimes =
      update_where (λ r. text_eq r.runtime_session_id id)
        (λ r. record r {
          state = RuntimeSessionState.stale;
          degraded_reason = some reason;
          updated_at = happened_at;
        })
        db.runtimes;
}

abbrev pub degrade_session : Option SessionThreadId → DateTime → Db → Db
degrade_session none happened_at db = db
degrade_session (some id) happened_at db =
    set_session_state id SessionThreadState.degraded happened_at db

-- `mark_event_stream_gap_on_connection`
unfoldable pub mark_event_stream_gap : EventEnvelope → Text → Db → Db
mark_event_stream_gap event reason db =
    degrade_session event.session_thread_id event.happened_at
      (stale_runtime event.runtime_session_id reason event.happened_at db)

abbrev pub durable_message : EventKind → EventEnvelope → Option (MessageRole × Text)
durable_message EventKind.provider_message_completed event = some (
  MessageRole.assistant,
  unwrap_or (payload_str (codes "content") event) (codes "Provider completed a message"),
)
durable_message EventKind.runtime_error event =
    some
      (MessageRole.runtime, unwrap_or (payload_str (codes "message") event) (codes "Runtime error"))
durable_message EventKind.approval_requested event = some (
  MessageRole.approval,
  unwrap_or (payload_str (codes "prompt") event) (codes "Approval requested"),
)
durable_message EventKind.approval_resolved event = some (
  MessageRole.approval,
  unwrap_or (payload_str (codes "message") event) (codes "Approval resolved"),
)
durable_message _ event = none

-- the same message, or another message for the same event
abbrev pub message_conflicts : MessageRow → MessageRow → Bool
message_conflicts new old =
    text_eq old.message_id new.message_id
    || map_or false (λ id. column_is old.source_event_id id) new.source_event_id

-- `insert into messages .. on conflict do nothing`
unfoldable pub insert_message : MessageRow → Db → Outcome Db
insert_message row db =
    if any (message_conflicts row) db.messages
    then inr db
    else if has_session row.session_thread_id db
    then inr (record db { messages = db.messages ++ row ∷ [] })
    else inl foreign_key_failed

module _ (codecs : Codecs) where
  -- `insert into event_publication_outbox .. on conflict(event_id) do nothing`
  abbrev pub enqueued : EventEnvelope → List PublicationRow → List PublicationRow
  enqueued event rows =
      if any (λ r. text_eq r.event_id event.event_id) rows
      then rows
      else rows
        ++ record {
          event_id = event.event_id;
          event_json = codecs.event_to_string event;
          attempts = 0;
          enqueued_at = event.happened_at;
          published_at = none;
        }
          ∷ []

  -- `enqueue_event_publication_on_connection`
  unfoldable pub enqueue_event_publication : EventEnvelope → Db → Db
  enqueue_event_publication event db = record db { publications = enqueued event db.publications }

  abbrev pub message_for : EventEnvelope → MessageRole × Text → SessionThreadId → MessageRow
  message_for event (role, content) session = record {
    message_id = codecs.new_message_id event;
    session_thread_id = session;
    turn_id = event.turn_id;
    role = role;
    content = content;
    created_at = event.happened_at;
    completed_at = some event.happened_at;
    source_event_id = some event.event_id;
  }

  abbrev pub complete_message :
      EventEnvelope → Option (MessageRole × Text) → Option SessionThreadId → Db → Outcome Db
  complete_message event (some message) (some session) db =
      insert_message (message_for event message session) db
  complete_message event _ _ db = inr db

  abbrev pub mark_projected : EventEnvelope → Db → Db
  mark_projected event db = record db {
    events =
        update_where (λ r. text_eq r.event_id event.event_id && not r.is_projected)
          (λ r. record r { is_projected = true; projected_at = some event.happened_at }) db.events;
  }

  -- `complete_event_projection_on_connection`
  unfoldable pub complete_event_projection : EventEnvelope → Db → Outcome Db
  unfolding enqueue_event_publication
  complete_event_projection event db =
      complete_message event (durable_message event.kind event) event.session_thread_id
        (enqueue_event_publication event (mark_projected event db))

  abbrev pub event_row : EventEnvelope → EventRow
  event_row event = record {
    event_id = event.event_id;
    scope = scope_key event.scope_ref;
    seq = event.seq;
    session_thread_id = event.session_thread_id;
    session_projection_seq = event.session_projection_seq;
    event_json = codecs.event_to_string event;
    is_projected = false;
    projection_attempts = 0;
    projected_at = none;
  }

  abbrev pub same_projection : EventRow → EventRow → Bool
  same_projection new old =
      map_or false
        (λ session.
          column_is old.session_thread_id session
          && map_or false (λ n. map_or false (λ m. eqℤ m n) old.session_projection_seq)
              new.session_projection_seq)
        new.session_thread_id

  abbrev pub event_conflicts : EventRow → EventRow → Bool
  event_conflicts new old =
      text_eq old.event_id new.event_id
      || text_eq old.scope new.scope && eqℤ old.seq new.seq
      || same_projection new old

  -- `insert_event_record_on_connection`, with the unique keys of the table
  unfoldable pub insert_event_record : EventEnvelope → Db → Outcome Db
  insert_event_record event db =
      if any (event_conflicts (event_row event)) db.events
      then inl unique_failed
      else inr (record db { events = db.events ++ event_row event ∷ [] })
