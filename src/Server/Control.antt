-- ===== src/Server/Control.antt =====
-- The batch of events of a control frame: `handle_node_control_frame` of
-- crates/uprava-server/src/runtime/transport/node.rs.
pub mod Acks
pub mod Delivery
pub mod Owners
pub mod Isolated
pub mod Isolation
pub mod Foreign
pub mod Ended
use uprava.Prelude.{
  ◌+◌, ◌-◌, ◌*◌, ◌/◌, ◌%◌, ◌^◌, ◌≤◌, ◌<◌, ℕ, zero, suc, max, min, compare, Ordering, ◌≡◌, refl, sym,
  ap, ◌∙◌, subst, ◌≢◌, ◌↔◌, ◌⊎◌, inl, inr, Bool, true, false, ◌&&◌, ◌||◌, not, Option, none, some,
  List, [], ◌∷◌, ◌++◌, map, arith, Text, codes, text_eq, text_lt, contains_char, contains_text,
  strip_prefix, trim, byte_len, utf8_len, text_eq_iff, text_eq_refl, ltb, leb, ◌==◌, if◌then◌else◌,
  Bool-cases, Option-cases, and_then, option_map, map_or, unwrap_or, or_else, is_some,
  option_filter, length, take, drop, is_empty, retain, any, all, count_if, Map, get, insert, remove,
  contains_key, keys, set_insert, set_remove, get-insert, get-insert_self, get-remove, map_laws,
  split_once, split, splitn, split_whitespace, parse_u64, decimal, splitn-append, splitn-absent,
  contains_text-set_insert, contains_text-set_remove, i64_max, All, get_elem?, length-append,
  length-drop, length-take, length-retain, count_if-le-length, take-append-drop, count_if-append,
  take-append_one, any-append, retain-append, All-append, All-drop, strip_prefix-append,
  append-cancel_left, trim_start, is_whitespace, text_eq-sym, ==_iff, eqℤ-refl, maxℤ, ◌≤ℤ◌, ◌<ℤ◌,
  maxℤ-ge_left, maxℤ-ge_right, ℤ, pos, negsuc, i64_succ, eqℤ, leℤ, ltb→lt, lt→ltb, leb→le,
}
use uprava.Protocol.Reference.{
  NodeId, ProjectPlacementId, SessionThreadId, RuntimeSessionId, EventId, CommandId, TaskRunId,
  ActorRef, ScopeRef,
}
use uprava.Protocol.Event.{EventEnvelope}
use uprava.Server.Support.{AppError, Validated, Outcome, ◌>>=◌}
use uprava.Server.Tables.{
  RuntimeRow, SessionRow, PlacementRow, TaskRunRow, CommandRow, Db, select_one, column_is,
}
use uprava.Server.Projection.{Codecs}
use uprava.Server.Publication.{Publisher, Ingested, accept_node_event}
use uprava.Server.Ownership.{
  auth, allow, same_option, placement_owner, session_owner, runtime_session, runtime_owner,
  task_owner, validate_runtime_owner, validate_placement_owner, event_scope_placement_id,
  is_task_run, task_scope_mismatch, command_mismatch, check_actor, check_command_row, check_command,
  check_context, check_runtime, check_session, scope_mismatch, check_scope, ◌then_check◌,
  validate_event_owner,
}

abbrev pub max_event_batch_items : ℕ
max_event_batch_items = 128

abbrev pub max_control_frame_bytes : ℕ
max_control_frame_bytes = 1024 * 1024

-- The tables, the broadcast events, and the acknowledged identifiers if the batch was accepted.
pub record BatchHandled : Type 0 where
  pub db : Db
  pub broadcast : List EventEnvelope
  pub result : AppError ⊎ List EventId

module _ (codecs : Codecs) (publisher : Publisher) where
  abbrev pub acked : EventId → AppError ⊎ List EventId → AppError ⊎ List EventId
  acked id (inl e) = inl e
  acked id (inr ids) = inr (id ∷ ids)

  abbrev pub next_event : EventEnvelope → Ingested → Validated → BatchHandled → BatchHandled
  next_event event i (inl e) rest = record { db = i.db; broadcast = i.broadcast; result = inl e }
  next_event event i (inr ok) rest = record rest {
    broadcast = i.broadcast ++ rest.broadcast;
    result = acked event.event_id rest.result;
  }

  abbrev pub validated : EventEnvelope → Validated → Db → Ingested → BatchHandled → BatchHandled
  validated event (inl e) db i rest = record { db = db; broadcast = []; result = inl e }
  validated event (inr ok) db i rest = next_event event i i.result rest

  -- the `for` loop over the events of the batch
  unfoldable pub accept_events : NodeId → List EventEnvelope → Db → BatchHandled
  accept_events node [] db = record { db = db; broadcast = []; result = inr [] }
  accept_events node (event ∷ events) db =
      let i = accept_node_event codecs publisher event db in
      validated event (validate_event_owner node event db) db i (accept_events node events i.db)

  abbrev pub too_large : Text → Text → Db → BatchHandled
  too_large code message db = record {
    db = db;
    broadcast = [];
    result = inl (AppError.bad_request code message);
  }

  abbrev pub batch_bytes : List EventEnvelope → ℕ
  batch_bytes [] = 0
  batch_bytes (e ∷ es) = byte_len (codecs.event_to_string e) + batch_bytes es

  -- the arm of `handle_node_control_frame` for a batch of events of the active connection
  unfoldable pub handle_event_batch : NodeId → List EventEnvelope → Db → BatchHandled
  handle_event_batch node events db =
      if ltb max_event_batch_items (length events)
      then too_large (codes "control.event_batch_too_large")
          (codes "Control event batch exceeds the item limit") db
      else if ltb max_control_frame_bytes (batch_bytes events)
      then too_large (codes "control.event_batch_bytes_too_large")
          (codes "Control event batch exceeds the byte limit") db
      else accept_events node events db
