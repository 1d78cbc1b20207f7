-- ===== src/Node/Outbox.antt =====
-- The outbox of events that Core has not acknowledged, and its retention limits: the functions from
-- `command_status_for_events` to `runtime_outbox_retention_event` and the runtime states of
-- crates/uprava-node/src/runtime/application/execution.rs.
pub mod Cut
pub mod Acks
pub mod Notices
pub mod Retention
use uprava.Prelude.{
  ◌+◌, ◌-◌, ◌*◌, ◌/◌, ◌%◌, ◌^◌, ◌≤◌, ◌<◌, ℕ, zero, suc, max, min, compare, Ordering, ◌≡◌, refl, sym,
  ap, ◌∙◌, subst, ◌≢◌, ◌↔◌, ◌⊎◌, inl, inr, Bool, true, false, ◌&&◌, ◌||◌, not, Option, none, some,
  List, [], ◌∷◌, ◌++◌, map, arith, Text, codes, text_eq, text_lt, contains_char, contains_text,
  strip_prefix, trim, byte_len, utf8_len, text_eq_iff, text_eq_refl, ltb, leb, ◌==◌, if◌then◌else◌,
  Bool-cases, Option-cases, and_then, option_map, map_or, unwrap_or, or_else, is_some,
  option_filter, length, take, drop, is_empty, retain, any, all, count_if, Map, get, insert, remove,
  contains_key, keys, set_insert, set_remove, get-insert, get-remove, map_laws,
  contains_text-set_insert, contains_text-set_remove, i64_max, maxℤ, ◌≤ℤ◌, ◌<ℤ◌, maxℤ-ge_left,
  maxℤ-ge_right, ℤ, pos, negsuc, i64_succ, eqℤ, leℤ, ltb→lt, lt→ltb, leb→le,
}
use uprava.Protocol.Json.{Json, JsonFields}
use uprava.Protocol.Reference.{
  DateTime, CommandId, EventId, NodeId, RuntimeSessionId, SessionThreadId, ActorRef, ScopeRef,
}
use uprava.Protocol.Domain.{CommandState, EventKind, RuntimeSessionState}
use uprava.Protocol.Event.{EventEnvelope}
use uprava.Protocol.Payload.{Serde, from_json}
use uprava.Node.State.{NodeLocalState, next_runtime_seq, saturating_add_u64}

-- What the functions take from elsewhere: the derived codecs, the length of an event's JSON
-- encoding if it can be encoded, chrono's conversion of a duration, and the identifiers and the
-- times that are drawn while one call runs, in order.
pub record Host : Type 0 where
  pub serde : Serde
  pub to_vec_len : EventEnvelope → Option ℕ
  pub duration_from_std : ℕ → Option ℕ
  pub new_event_id : ℕ → EventId
  pub utc_now : ℕ → DateTime

abbrev pub max_event_outbox_events : ℕ
max_event_outbox_events = 1024

abbrev pub max_event_outbox_bytes : ℕ
max_event_outbox_bytes = 4 * 1024 * 1024

-- seven days in nanoseconds
abbrev pub max_event_outbox_age : ℕ
max_event_outbox_age = 7 * 24 * 60 * 60 * 1_000_000_000

is_failure_kind : EventKind → Bool
is_failure_kind EventKind.runtime_error = true
is_failure_kind EventKind.turn_interrupted = true
is_failure_kind _ = false

unfoldable pub command_status_for_events : List EventEnvelope → CommandState
unfolding is_failure_kind
command_status_for_events events =
    if is_empty events
    then CommandState.failed
    else if any (λ e. is_failure_kind e.kind) events
    then CommandState.failed
    else CommandState.completed

unfoldable pub outbox_events_for_command : List EventEnvelope → CommandId → List EventEnvelope
outbox_events_for_command outbox id =
    retain (λ e. map_or false (λ c. text_eq c id) e.command_id) outbox

unfoldable pub remove_acked_events : List EventEnvelope → List EventId → List EventEnvelope × ℕ
remove_acked_events outbox ids =
    if is_empty outbox || is_empty ids
    then (outbox, 0)
    else let kept = retain (λ e. not (contains_text ids e.event_id)) outbox in
      (kept, length outbox - length kept)

unfoldable pub runtime_state_for_event : EventKind → Option RuntimeSessionState
runtime_state_for_event EventKind.runtime_starting = some RuntimeSessionState.starting
runtime_state_for_event EventKind.runtime_ready = some RuntimeSessionState.ready
runtime_state_for_event EventKind.runtime_running = some RuntimeSessionState.running
runtime_state_for_event EventKind.runtime_blocked = some RuntimeSessionState.blocked
runtime_state_for_event EventKind.runtime_expired = some RuntimeSessionState.expired
runtime_state_for_event EventKind.runtime_resuming = some RuntimeSessionState.resuming
runtime_state_for_event EventKind.runtime_stopped = some RuntimeSessionState.stopped
runtime_state_for_event EventKind.runtime_error = some RuntimeSessionState.error
runtime_state_for_event EventKind.turn_interrupted = some RuntimeSessionState.interrupted
runtime_state_for_event _ = none

abbrev set_state :
    Option RuntimeSessionId
    → Option RuntimeSessionState
    → Map RuntimeSessionState
    → Map RuntimeSessionState
set_state (some id) (some state) states = insert id state states
set_state _ _ states = states

unfoldable pub apply_runtime_state_projection_for_event :
    Map RuntimeSessionState → EventEnvelope → Map RuntimeSessionState
unfolding runtime_state_for_event
apply_runtime_state_projection_for_event states e =
    set_state e.runtime_session_id (runtime_state_for_event e.kind) states

-- `apply_runtime_state_projection`, on the field that it changes
unfoldable pub apply_runtime_state_projection :
    Map RuntimeSessionState → List EventEnvelope → Map RuntimeSessionState
unfolding apply_runtime_state_projection_for_event
apply_runtime_state_projection states [] = states
apply_runtime_state_projection states (e ∷ es) =
    apply_runtime_state_projection (apply_runtime_state_projection_for_event states e) es

abbrev pub usize_max : ℕ
usize_max = 2 ^ 64 - 1

-- `now - age` where the age limit is on
abbrev pub cutoff_of : DateTime → Option ℕ → Option DateTime
cutoff_of now none = none
cutoff_of now (some age) = some (now - age)

abbrev pub too_old : Option DateTime → EventEnvelope → Bool
too_old none e = false
too_old (some cutoff) e = ltb e.happened_at cutoff

-- the runtimes that lost events, ordered by key: `BTreeMap::entry(key).or_insert_with(..)`
abbrev pub Affected : Type 0
Affected = List (Text × (RuntimeSessionId × Option SessionThreadId × Option NodeId))

unfoldable pub or_insert :
    Text → RuntimeSessionId × Option SessionThreadId × Option NodeId → Affected → Affected
or_insert k v [] = (k, v) ∷ []
or_insert k v ((j, w) ∷ m) =
    let rest = or_insert k v m in
    if text_eq j k then (j, w) ∷ m else if text_lt k j then (k, v) ∷ (j, w) ∷ m else (j, w) ∷ rest

abbrev affect : Option RuntimeSessionId → EventEnvelope → Affected → Affected
affect none e m = m
affect (some id) e m = or_insert id (id, e.session_thread_id, e.node_id) m

unfoldable pub affected_runtimes : List EventEnvelope → Affected → Affected
unfolding or_insert
affected_runtimes [] m = m
affected_runtimes (e ∷ es) m = affected_runtimes es (affect e.runtime_session_id e m)

abbrev actor_of : Option NodeId → ActorRef
actor_of none = ActorRef.unknown
actor_of (some n) = ActorRef.node n

retention_payload : Json
retention_payload = Json.object (
    JsonFields.field (codes "code") (Json.string (codes "node.event_outbox_retention_exceeded")) (
      JsonFields.field (codes "message")
        (Json.string (
          codes
            "Node dropped unacknowledged runtime events because local outbox retention was exceeded"))
        JsonFields.end))

module _ (host : Host) where
  unfoldable pub serialized_event_len : EventEnvelope → ℕ
  serialized_event_len e = unwrap_or (host.to_vec_len e) usize_max

  -- `iter().sum::<usize>()`, on a word of 64 bits
  unfoldable pub sum_event_sizes : List EventEnvelope → ℕ
  unfolding serialized_event_len
  sum_event_sizes [] = 0
  sum_event_sizes (e ∷ es) = (serialized_event_len e + sum_event_sizes es) % 2 ^ 64

  -- The `while` of `event_outbox_retention_drop_count`: the events that are left, and
  -- `retained_bytes`. The result counts the rounds.
  unfoldable pub drop_loop : ℕ → Option DateTime → ℕ → List EventEnvelope → ℕ → ℕ
  unfolding serialized_event_len
  drop_loop max_events cutoff max_bytes [] retained = 0
  drop_loop max_events cutoff max_bytes (e ∷ es) retained =
      let more = drop_loop max_events cutoff max_bytes es (retained - serialized_event_len e) in
      let count_exceeded = ltb 0 max_events && ltb max_events (length (e ∷ es)) in
      let bytes_exceeded = ltb 0 max_bytes && ltb max_bytes retained in
      if count_exceeded || too_old cutoff e || bytes_exceeded then suc more else 0

  unfoldable pub event_outbox_retention_drop_count : List EventEnvelope → ℕ → ℕ → ℕ → ℕ
  unfolding drop_loop sum_event_sizes
  event_outbox_retention_drop_count outbox max_events max_age max_bytes =
      let age = if max_age == 0 then none else host.duration_from_std max_age in
      let cutoff = cutoff_of (host.utc_now 0) age in
      drop_loop max_events cutoff max_bytes outbox (sum_event_sizes outbox)

  -- The `loop` of `trim_event_outbox_to_limits`, which removes the first event in each round.
  unfoldable pub trim_event_outbox_to_limits : ℕ → ℕ → List EventEnvelope → List EventEnvelope
  unfolding sum_event_sizes
  trim_event_outbox_to_limits max_events max_bytes [] = []
  trim_event_outbox_to_limits max_events max_bytes (e ∷ es) =
      let rest = trim_event_outbox_to_limits max_events max_bytes es in
      let count_exceeded = ltb 0 max_events && ltb max_events (length (e ∷ es)) in
      let bytes_exceeded = ltb 0 max_bytes && ltb max_bytes (sum_event_sizes (e ∷ es)) in
      if count_exceeded || bytes_exceeded then rest else e ∷ es

  -- `runtime_outbox_retention_event`, for the `n`-th notice of a call
  unfoldable pub runtime_outbox_retention_event :
      ℕ
      → NodeLocalState
      → RuntimeSessionId
      → Option SessionThreadId
      → Option NodeId
      → NodeLocalState × EventEnvelope
  unfolding retention_payload
  runtime_outbox_retention_event n s id thread event_node =
      let (seqs, seq) = next_runtime_seq s.runtime_seqs id in
      let node = or_else s.node_id event_node in
      (
        record s { runtime_seqs = seqs },
        record {
          event_id = host.new_event_id n;
          command_id = none;
          correlation_id = none;
          actor_ref = actor_of node;
          scope_ref = ScopeRef.runtime id;
          node_id = node;
          runtime_session_id = some id;
          session_thread_id = thread;
          turn_id = none;
          seq = seq;
          session_projection_seq = none;
          kind = EventKind.runtime_error;
          happened_at = host.utc_now (suc n);
          source_refs = [];
          evidence_refs = [];
          cause_refs = [];
          result_refs = [];
          payload = from_json host.serde EventKind.runtime_error retention_payload;
        },
      )

  -- the `map` over `affected_runtimes.into_values()`
  unfoldable pub retention_notices :
      ℕ → NodeLocalState → Affected → NodeLocalState × List EventEnvelope
  unfolding runtime_outbox_retention_event
  retention_notices n s [] = (s, [])
  retention_notices n s ((k, (id, thread, origin)) ∷ m) =
      let (s', notice) = runtime_outbox_retention_event n s id thread origin in
      let (s'', notices) = retention_notices (suc n) s' m in (s'', notice ∷ notices)

  -- the part of the retention that follows the count, once something has to go
  unfoldable pub drop_and_notify : ℕ → ℕ → ℕ → NodeLocalState → NodeLocalState × List EventEnvelope
  unfolding affected_runtimes retention_notices apply_runtime_state_projection
  drop_and_notify drop_count max_events max_bytes s =
      let dropped = take drop_count s.event_outbox in
      let s1 = record s {
        dropped_event_count = saturating_add_u64 s.dropped_event_count drop_count;
        event_outbox = drop drop_count s.event_outbox;
      } in
      let (s2, notices) = retention_notices 0 s1 (affected_runtimes dropped []) in
      (
        record s2 {
          runtime_states = apply_runtime_state_projection s2.runtime_states notices;
          event_outbox =
              trim_event_outbox_to_limits max_events max_bytes (s2.event_outbox ++ notices);
        },
        notices,
      )

  unfoldable pub enforce_event_outbox_retention_with_limits :
      NodeLocalState → ℕ → ℕ → ℕ → NodeLocalState × List EventEnvelope
  unfolding drop_and_notify event_outbox_retention_drop_count
  enforce_event_outbox_retention_with_limits s max_events max_age max_bytes =
      let n = event_outbox_retention_drop_count s.event_outbox max_events max_age max_bytes in
      if n == 0 then (s, []) else drop_and_notify n max_events max_bytes s

  unfoldable pub enforce_event_outbox_retention :
      NodeLocalState → ℕ → NodeLocalState × List EventEnvelope
  enforce_event_outbox_retention s max_events =
      enforce_event_outbox_retention_with_limits s max_events max_event_outbox_age
        max_event_outbox_bytes
