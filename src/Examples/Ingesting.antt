-- ===== src/Examples/Ingesting.antt =====
-- Core with two nodes, each with a placement, a session and a runtime, and a batch of the first.
use uprava.Prelude.{
  retain, All, map, inl, ◌≡◌, ◌⊎◌, refl, inr, true, false, ◌||◌, none, some, [], ◌∷◌, ◌++◌, arith,
  codes, text_eq, contains_text, byte_len, utf8_len, any, pos,
}
use uprava.Protocol.Json.{Json, object_of, json_get}
use uprava.Protocol.Payload.{from_json}
use uprava.Protocol.Reference.{NodeId, ScopeRef}
use uprava.Protocol.Domain.{EventKind, PlacementState, SessionThreadState, RuntimeSessionState}
use uprava.Protocol.Event.{EventEnvelope, matches_kind}
use uprava.Server.Support.{Outcome, scope_key, actor_identity, payload_str, event_approval_id}
use uprava.Server.Tables.{
  RuntimeRow, SessionRow, PlacementRow, TaskRunRow, Db, select_one, max_value, update_where,
  column_is,
}
use uprava.Server.Projection.{
  Codecs, touch_runtime_step, update_turn_from_event, turn_state_for_event,
  update_approval_from_event,
}
use uprava.Server.Apply.{apply_event_projection, project_kind}
use uprava.Server.Updates.{
  project_task_event, update_runtime_state, update_runtime_provider_resume_ref,
  provider_resume_ref_json, update_session_state_from_event, load_session_state,
}
use uprava.Server.Ingest.{
  accept_transaction, in_scope, ingest_new, stream_gap, expected_seq, command_correlation_id,
  next_session_projection_seq,
}
use uprava.Server.Records.{
  upsert_actor, insert_event_record, mark_event_stream_gap, complete_event_projection,
  enqueue_event_publication, insert_message,
}
use uprava.Server.Publication.{
  Publisher, accept_node_event, drain_event_publication_outbox, drain_rows, sort_rows, insert_row,
}
use uprava.Server.Publication.Sound.{Sound}
use uprava.Server.Publication.Redelivery.{start, accept, publish, Unchanged, accept_node_event-once}
use uprava.Server.Control.{handle_event_batch, accept_events}
use uprava.Server.Ownership.{
  validate_event_owner, validate_runtime_owner, runtime_owner, session_owner, placement_owner,
}
use uprava.Server.Control.Acks.{handle_event_batch-acks}
use uprava.Server.Control.Delivery.{handle_event_batch-delivers}
use uprava.Server.Control.Foreign.{handle_event_batch-spares}
use uprava.Server.Control.Owners.{SameKeys, foreign_runtime, foreign_session}
use uprava.Server.Apply.Agreement.{apply_event_projection-agrees}
use uprava.Server.Apply.States.{States}
use uprava.Server.Ingest.Gaps.{Degraded, Leaves, state_left, ingest_new-gap}
use uprava.Server.Ingest.Missed.{is_behind_gap, skips}
use uprava.Server.Publication.Values.{Ascending, values, Below}
use uprava.Server.Publication.Numbers.{numbers, Accepts-Ascending}
use uprava.Server.Control.Ended.{Accepts-select_one}
use uprava.Node.Merge.{has_event}
use uprava.Node.Outbox.{remove_acked_events, runtime_state_for_event}
use uprava.Examples.Fixtures.{event_at, serde}

-- An event is encoded as its identifier.
abbrev codecs : Codecs
codecs = record {
  event_to_string = λ e. e.event_id;
  event_from_str = λ t. some (event_at t none none EventKind.turn_started);
  event_from_str-event_to_string = λ e. refl;
  payload_to_string = λ p. codes "{}";
  json_to_string = λ j. codes "{}";
  command_from_str = λ t. none;
  badges_from_value = λ j. some [];
  badges_to_string = λ b. codes "[]";
  git_snapshot_from_value = λ j. some none;
  git_snapshot_to_string = λ g. codes "{}";
  new_message_id = λ e. codes "m" ++ e.event_id;
}

abbrev publisher : Publisher
publisher = record { has_receivers = true; utc_now = 1_000 }

abbrev placement_of : NodeId → PlacementRow
placement_of node = record {
  project_placement_id = codes "p" ++ node;
  node_id = node;
  display_name = codes "work";
  workspace_path = codes "/work";
  state = PlacementState.pending;
  resource_badges_json = codes "[]";
  git_snapshot_json = none;
  last_validated_at = none;
  updated_at = 1;
}

abbrev session_of : NodeId → SessionRow
session_of node = record {
  session_thread_id = codes "s" ++ node;
  project_placement_id = codes "p" ++ node;
  state = SessionThreadState.active;
  updated_at = 1;
}

abbrev runtime_of : NodeId → RuntimeRow
runtime_of node = record {
  runtime_session_id = codes "r" ++ node;
  session_thread_id = codes "s" ++ node;
  state = RuntimeSessionState.starting;
  provider_resume_ref_json = none;
  degraded_reason = none;
  last_runtime_step_at = none;
  updated_at = 1;
}

abbrev two_nodes : Db
two_nodes = record {
  events = [];
  publications = [];
  messages = [];
  turns = [];
  approvals = [];
  runtimes = runtime_of (codes "1") ∷ runtime_of (codes "2") ∷ [];
  sessions = session_of (codes "1") ∷ session_of (codes "2") ∷ [];
  placements = placement_of (codes "1") ∷ placement_of (codes "2") ∷ [];
  task_runs = [];
  actors = [];
  commands = [];
}

abbrev ready : EventEnvelope
ready = record (event_at (codes "e1") none (some (codes "r1")) EventKind.runtime_ready) {
  scope_ref = ScopeRef.runtime (codes "r1");
  node_id = some (codes "1");
  session_thread_id = some (codes "s1");
}

-- the event behind one that was lost
abbrev running : EventEnvelope
running = record (event_at (codes "e3") none (some (codes "r1")) EventKind.runtime_running) {
  scope_ref = ScopeRef.runtime (codes "r1");
  node_id = some (codes "1");
  session_thread_id = some (codes "s1");
  seq = pos 3;
}

-- an event of the first node about the runtime of the second
abbrev intruding : EventEnvelope
intruding = record running { event_id = codes "e4"; runtime_session_id = some (codes "r2") }

two_nodes-Sound : Sound codecs two_nodes
two_nodes-Sound = record { rows = tt; decodes = tt }

ready_taken : (accept_node_event codecs publisher ready two_nodes).result ≡ inr tt
unfolding accept_node_event matches_kind accept_transaction select_one ingest_new stream_gap
    expected_seq max_value command_correlation_id next_session_projection_seq upsert_actor
    actor_identity insert_event_record apply_event_projection touch_runtime_step
    update_turn_from_event turn_state_for_event update_approval_from_event event_approval_id
    payload_str project_task_event project_kind update_runtime_state
    update_runtime_provider_resume_ref provider_resume_ref_json update_session_state_from_event
    load_session_state mark_event_stream_gap complete_event_projection enqueue_event_publication
    insert_message update_where scope_key column_is drain_event_publication_outbox drain_rows
    sort_rows insert_row text_eq from_json json_get
ready_taken = refl

batch_taken :
    (handle_event_batch codecs publisher (codes "1") (ready ∷ running ∷ []) two_nodes).result
    ≡ inr (codes "e1" ∷ codes "e3" ∷ [])
unfolding accept_node_event matches_kind accept_transaction select_one ingest_new stream_gap
    expected_seq max_value command_correlation_id next_session_projection_seq upsert_actor
    actor_identity insert_event_record apply_event_projection touch_runtime_step
    update_turn_from_event turn_state_for_event update_approval_from_event event_approval_id
    payload_str project_task_event project_kind update_runtime_state
    update_runtime_provider_resume_ref provider_resume_ref_json update_session_state_from_event
    load_session_state mark_event_stream_gap complete_event_projection enqueue_event_publication
    insert_message update_where scope_key column_is drain_event_publication_outbox drain_rows
    sort_rows insert_row text_eq from_json json_get handle_event_batch accept_events
    validate_event_owner validate_runtime_owner runtime_owner session_owner placement_owner byte_len
    utf8_len
batch_taken = refl

abbrev after_ready : Db
after_ready = (accept_node_event codecs publisher ready two_nodes).db

abbrev later : Db
later =
    (drain_event_publication_outbox codecs publisher
      (accept_node_event codecs publisher running after_ready).db).db

accept_node_event-once_example :
    Unchanged codecs publisher ready later (accept_node_event codecs publisher ready later)
accept_node_event-once_example =
    accept_node_event-once codecs publisher ready ready two_nodes later two_nodes-Sound ready_taken
      (publish (accept start running)) refl

handle_event_batch-acks_example :
    let after =
      (handle_event_batch codecs publisher (codes "1") (ready ∷ running ∷ []) two_nodes).db in
    Sound codecs after
    × ((codes "e1" ∷ codes "e3" ∷ [])
        ≡ map (λ (e : EventEnvelope). e.event_id) (ready ∷ running ∷ []))
    × All
        (λ id. any (λ r. text_eq r.event_id id) after.events ≡ true)
        (codes "e1" ∷ codes "e3" ∷ [])
handle_event_batch-acks_example =
    handle_event_batch-acks codecs publisher (codes "1") (ready ∷ running ∷ []) two_nodes
      (codes "e1" ∷ codes "e3" ∷ []) two_nodes-Sound batch_taken

handle_event_batch-delivers_example :
    (has_event
        (codes "e3")
        (remove_acked_events (ready ∷ running ∷ intruding ∷ []) (codes "e1" ∷ codes "e3" ∷ [])).0
      || any
          (λ r. text_eq r.event_id (codes "e3"))
          (handle_event_batch codecs publisher
            (codes "1")
            (ready ∷ running ∷ [])
            two_nodes).db.events)
    ≡ true
unfolding has_event text_eq
handle_event_batch-delivers_example =
    handle_event_batch-delivers codecs publisher (codes "1") (ready ∷ running ∷ []) two_nodes
      (codes "e1" ∷ codes "e3" ∷ []) (ready ∷ running ∷ intruding ∷ []) (codes "e3") two_nodes-Sound
      batch_taken refl

handle_event_batch-spares_example :
    let after =
      (handle_event_batch codecs publisher (codes "1") (ready ∷ intruding ∷ []) two_nodes).db in
    let others = foreign_runtime (codes "1") two_nodes in
    let other_sessions = foreign_session (codes "1") two_nodes in
    (retain (λ r. others r.runtime_session_id) after.runtimes
      ≡ retain (λ r. others r.runtime_session_id) two_nodes.runtimes)
    × (retain (λ s. other_sessions s.session_thread_id) after.sessions
        ≡ retain (λ s. other_sessions s.session_thread_id) two_nodes.sessions)
    × SameKeys two_nodes after
handle_event_batch-spares_example =
    handle_event_batch-spares codecs publisher (codes "1") (ready ∷ intruding ∷ []) two_nodes
      two_nodes-Sound

apply_event_projection-agrees_example :
    (db' : Db) × (apply_event_projection codecs ready two_nodes ≡ inr db')
    × States (codes "r1") RuntimeSessionState.ready db'
unfolding runtime_state_for_event
apply_event_projection-agrees_example =
    apply_event_projection-agrees codecs ready (codes "r1") RuntimeSessionState.ready two_nodes refl
      refl

abbrev done_run : TaskRunRow
done_run = record {
  task_run_id = codes "t1";
  node_id = codes "1";
  command_id = codes "c1";
  state = codes "failed";
  cleanup_state = codes "completed";
  started_at = some 5;
  updated_at = 9;
}

abbrev with_run : Db
with_run = record two_nodes { task_runs = done_run ∷ [] }

with_run-Sound : Sound codecs with_run
with_run-Sound = record { rows = tt; decodes = tt }

-- an event that reports the run as running again
abbrev resumed_run : EventEnvelope
resumed_run = record (event_at (codes "e5") none none EventKind.task_run_state_changed) {
  scope_ref = ScopeRef.task_run (codes "t1");
  payload = from_json serde EventKind.task_run_state_changed (
      object_of (
        (codes "task_run_id", Json.string (codes "t1"))
        ∷ (codes "state", Json.string (codes "running"))
        ∷ []));
}

Accepts-select_one_example :
    select_one
      (λ t. text_eq t.task_run_id (codes "t1"))
      (accept_node_event codecs publisher resumed_run with_run).db.task_runs
    ≡ some done_run
unfolding select_one text_eq contains_text
Accepts-select_one_example =
    Accepts-select_one codecs publisher (codes "t1") done_run (accept start resumed_run)
      with_run-Sound refl refl

Accepts-Ascending_example : Ascending (numbers (codes "s1") later)
unfolding accept_node_event matches_kind accept_transaction select_one ingest_new stream_gap
    expected_seq max_value command_correlation_id next_session_projection_seq upsert_actor
    actor_identity insert_event_record apply_event_projection touch_runtime_step
    update_turn_from_event turn_state_for_event update_approval_from_event event_approval_id
    payload_str project_task_event project_kind update_runtime_state
    update_runtime_provider_resume_ref provider_resume_ref_json update_session_state_from_event
    load_session_state mark_event_stream_gap complete_event_projection enqueue_event_publication
    insert_message update_where scope_key column_is drain_event_publication_outbox drain_rows
    sort_rows insert_row text_eq from_json json_get values
Accepts-Ascending_example =
    Accepts-Ascending codecs publisher (codes "s1") (publish (accept (accept start ready) running))
      two_nodes-Sound tt (omega arith, (omega arith, tt))

gap_seen : is_behind_gap running after_ready ≡ true
unfolding accept_node_event matches_kind accept_transaction select_one ingest_new stream_gap
    expected_seq max_value command_correlation_id next_session_projection_seq upsert_actor
    actor_identity insert_event_record apply_event_projection touch_runtime_step
    update_turn_from_event turn_state_for_event update_approval_from_event event_approval_id
    payload_str project_task_event project_kind update_runtime_state
    update_runtime_provider_resume_ref provider_resume_ref_json update_session_state_from_event
    load_session_state mark_event_stream_gap complete_event_projection enqueue_event_publication
    insert_message update_where scope_key column_is drain_event_publication_outbox drain_rows
    sort_rows insert_row text_eq from_json json_get is_behind_gap skips values
gap_seen = refl

after_ready-Below : All Below (values (in_scope (scope_key running.scope_ref)) after_ready.events)
unfolding accept_node_event matches_kind accept_transaction select_one ingest_new stream_gap
    expected_seq max_value command_correlation_id next_session_projection_seq upsert_actor
    actor_identity insert_event_record apply_event_projection touch_runtime_step
    update_turn_from_event turn_state_for_event update_approval_from_event event_approval_id
    payload_str project_task_event project_kind update_runtime_state
    update_runtime_provider_resume_ref provider_resume_ref_json update_session_state_from_event
    load_session_state mark_event_stream_gap complete_event_projection enqueue_event_publication
    insert_message update_where scope_key column_is drain_event_publication_outbox drain_rows
    sort_rows insert_row text_eq from_json json_get values
after_ready-Below = (omega arith, tt)

abbrev db_or : Outcome Db → Db → Db
db_or (inl e) db = db
db_or (inr db') db = db'

abbrev after_gap : Db
after_gap = db_or (ingest_new codecs running after_ready) two_nodes

gap_taken : ingest_new codecs running after_ready ≡ inr after_gap
unfolding accept_node_event matches_kind accept_transaction select_one ingest_new stream_gap
    expected_seq max_value command_correlation_id next_session_projection_seq upsert_actor
    actor_identity insert_event_record apply_event_projection touch_runtime_step
    update_turn_from_event turn_state_for_event update_approval_from_event event_approval_id
    payload_str project_task_event project_kind update_runtime_state
    update_runtime_provider_resume_ref provider_resume_ref_json update_session_state_from_event
    load_session_state mark_event_stream_gap complete_event_projection enqueue_event_publication
    insert_message update_where scope_key column_is drain_event_publication_outbox drain_rows
    sort_rows insert_row text_eq from_json json_get
gap_taken = refl

ingest_new-gap_example :
    let gap = is_behind_gap running after_ready in
    Leaves (codes "r1") (state_left gap EventKind.runtime_running) after_gap
    × ((gap ≡ false) ⊎ Degraded (codes "s1") after_gap)
ingest_new-gap_example =
    ingest_new-gap codecs (codes "r1") (codes "s1") running after_ready after_gap refl refl
      after_ready-Below gap_taken
