-- ===== src/Server/Ingest.antt =====
-- The transaction of `accept_node_event`: crates/uprava-server/src/runtime/application/coordination.rs.
-- A transaction that fails leaves the tables as they were; the counters of metrics in memory are left
-- out.
pub mod Added
pub mod Gaps
pub mod Missed
use uprava.Prelude.{
  ◌+◌, ◌-◌, ◌*◌, ◌/◌, ◌%◌, ◌^◌, ◌≤◌, ◌<◌, ℕ, zero, suc, max, min, compare, Ordering, ◌≡◌, refl, sym,
  ap, ◌∙◌, subst, ◌≢◌, ◌↔◌, ◌⊎◌, inl, inr, Bool, true, false, ◌&&◌, ◌||◌, not, Option, none, some,
  List, [], ◌∷◌, ◌++◌, map, arith, Text, codes, text_eq, text_lt, contains_char, contains_text,
  strip_prefix, trim, byte_len, utf8_len, text_eq_iff, text_eq_refl, ltb, leb, ◌==◌, if◌then◌else◌,
  Bool-cases, Option-cases, and_then, option_map, map_or, unwrap_or, or_else, is_some,
  option_filter, length, take, drop, is_empty, retain, any, all, count_if, Map, get, insert, remove,
  contains_key, keys, set_insert, set_remove, get-insert, get-insert_self, get-remove, map_laws,
  split_once, split, splitn, split_whitespace, parse_u64, decimal, splitn-append, splitn-absent,
  contains_text-set_insert, contains_text-set_remove, i64_max, All, get_elem?, length-append,
  length-drop, length-take, length-retain, count_if-le-length, take-append-drop, count_if-append,
  take-append_one, any-append, retain-append, All-append, All-drop, strip_prefix-append,
  append-cancel_left, trim_start, is_whitespace, text_eq-sym, ==_iff, eqℤ-refl, maxℤ, ◌≤ℤ◌, ◌<ℤ◌,
  maxℤ-ge_left, maxℤ-ge_right, ℤ, pos, negsuc, i64_succ, eqℤ, leℤ, ltb→lt, lt→ltb, leb→le,
}
use uprava.Protocol.Reference.{
  DateTime, SessionThreadId, RuntimeSessionId, EventId, CommandId, CorrelationId, ActorRef,
  ScopeRef,
}
use uprava.Protocol.Domain.{EventKind, SessionThreadState, RuntimeSessionState}
use uprava.Protocol.Command.{CommandEnvelope}
use uprava.Protocol.Event.{EventEnvelope, matches_kind}
use uprava.Server.Support.{
  AppError, Validated, Outcome, ◌>>=◌, scope_key, actor_identity, payload_str, decimal_i64,
}
use uprava.Server.Tables.{
  EventRow, PublicationRow, MessageRow, MessageRole, RuntimeRow, SessionRow, ActorRow, CommandRow,
  Db, select_one, update_where, max_value, column_is,
}
use uprava.Server.Projection.{Codecs, foreign_key_failed, unique_failed, serde_failed, has_session}
use uprava.Server.Apply.{apply_event_projection}
use uprava.Server.Updates.{set_session_state}
use uprava.Server.Records.{
  upsert_actor, stale_runtime, degrade_session, mark_event_stream_gap, durable_message,
  message_conflicts, insert_message, enqueued, enqueue_event_publication, message_for,
  complete_message, mark_projected, complete_event_projection, event_row, same_projection,
  event_conflicts, insert_event_record,
}

abbrev pub ltℤ : ℤ → ℤ → Bool
ltℤ a b = not (leℤ b a)

unfoldable pub next_session_projection_seq : SessionThreadId → Db → ℤ
next_session_projection_seq id db = i64_succ (
    unwrap_or
      (max_value
        (λ (r : EventRow).
          if column_is r.session_thread_id id then r.session_projection_seq else none)
        db.events)
      (pos 0))

abbrev pub in_scope : Text → EventRow → Option ℤ
in_scope key r = if text_eq r.scope key then some r.seq else none

-- the sequence number that an event of the scope should have
unfoldable pub expected_seq : Text → Db → ℤ
expected_seq key db = i64_succ (unwrap_or (max_value (in_scope key) db.events) (pos 0))

abbrev pub is_task_scope : ScopeRef → Bool
is_task_scope (ScopeRef.task_run id) = true
is_task_scope _ = false

unfoldable pub stream_gap : EventEnvelope → Db → Option ℤ
unfolding expected_seq
stream_gap event db =
    let expected = expected_seq (scope_key event.scope_ref) db in
    if not (is_task_scope event.scope_ref) && ltℤ expected event.seq then some expected else none

module _ (codecs : Codecs) where
  abbrev pub correlation_of : Option CommandRow → Outcome (Option CorrelationId)
  correlation_of none = inr none
  correlation_of (some row) =
      map_or (inl serde_failed) (λ (c : CommandEnvelope). inr (some c.correlation_id))
        (codecs.command_from_str row.command_json)

  -- `command_correlation_id_on_connection`
  unfoldable pub command_correlation_id : Option CommandId → Db → Outcome (Option CorrelationId)
  command_correlation_id none db = inr none
  command_correlation_id (some id) db =
      correlation_of (select_one (λ r. text_eq r.command_id id) db.commands)

  abbrev pub correlated : EventEnvelope → Db → Outcome (Option CorrelationId)
  correlated event db =
      if is_some event.correlation_id
      then inr event.correlation_id
      else command_correlation_id event.command_id db

  -- the event as it is stored
  abbrev pub stored : EventEnvelope → Option CorrelationId → Db → EventEnvelope
  stored event correlation_id db = record event {
    correlation_id = correlation_id;
    session_projection_seq =
        option_map (λ id. next_session_projection_seq id db) event.session_thread_id;
  }

  abbrev pub gap_marked : EventEnvelope → Option ℤ → Db → Db
  gap_marked event none db = db
  gap_marked event (some expected) db =
      mark_event_stream_gap event
        (codes "event sequence gap: expected "
          ++ decimal_i64 expected
          ++ codes ", received "
          ++ decimal_i64 event.seq)
        db

  -- the part behind the look-up of the event and of its number
  unfoldable pub ingest_new : EventEnvelope → Db → Outcome Db
  ingest_new event db = do
    let gap = stream_gap event db
    correlation_id ← correlated event db
    let event = stored event correlation_id db
    inserted ← insert_event_record codecs event (upsert_actor event.actor_ref event.happened_at db)
    applied ← apply_event_projection codecs event inserted
    complete_event_projection codecs event (gap_marked event gap applied)

  abbrev pub seq_conflict : Option EventRow → Outcome Db → Outcome Db
  seq_conflict none rest = rest
  seq_conflict (some row) rest = inl (
      AppError.bad_request (codes "event.seq_conflict")
        (codes "Event seq conflicts with " ++ row.event_id))

  abbrev pub decode_event : Text → Outcome EventEnvelope
  decode_event json = map_or (inl serde_failed) (λ e. inr e) (codecs.event_from_str json)

  -- a row whose projection was not completed
  abbrev pub project_again : EventRow → EventEnvelope → Db → Outcome Db
  project_again row persisted db = do
    let counted = record db {
      events =
          update_where (λ r. text_eq r.event_id row.event_id)
            (λ r. record r { projection_attempts = r.projection_attempts + 1 }) db.events;
    }
    applied ← apply_event_projection codecs persisted counted
    complete_event_projection codecs persisted applied

  abbrev pub known_event : EventRow → Db → Outcome Db
  known_event row db = do
    persisted ← decode_event row.event_json
    if row.is_projected
        then inr (enqueue_event_publication codecs persisted db)
        else project_again row persisted db

  -- the row with the identifier, or the look-up of a row with the number
  abbrev pub looked_up : EventEnvelope → Db → Option EventRow → Outcome Db
  looked_up event db (some row) = known_event row db
  looked_up event db none =
      seq_conflict
        (select_one
          (λ (r : EventRow). text_eq r.scope (scope_key event.scope_ref) && eqℤ r.seq event.seq)
          db.events)
        (ingest_new event db)

  -- The transaction. Behind the look-up of the row the source counts the rows with the identifier
  -- once more, of which there is none then.
  unfoldable pub accept_transaction : EventEnvelope → Db → Outcome Db
  accept_transaction event db =
      looked_up event db (select_one (λ r. text_eq r.event_id event.event_id) db.events)
