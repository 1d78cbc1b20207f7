-- ===== src/Node/Store.antt =====
-- The task that owns the state of the node, and what it writes: `NodeStateRequest`,
-- `run_node_state_store`, `apply_node_state_mutation`, `compact_for_persistence`,
-- `sqlite_compatibility_seed` and the names of the command states of
-- crates/uprava-node/src/runtime/persistence/state.rs.
pub mod Compaction
pub mod Forgotten
pub mod Requests
use uprava.Prelude.{
  ◌+◌, ◌-◌, ◌*◌, ◌/◌, ◌%◌, ◌^◌, ◌≤◌, ◌<◌, ℕ, zero, suc, max, min, compare, Ordering, ◌≡◌, refl, sym,
  ap, ◌∙◌, subst, ◌≢◌, ◌↔◌, ◌⊎◌, inl, inr, Bool, true, false, ◌&&◌, ◌||◌, not, Option, none, some,
  List, [], ◌∷◌, ◌++◌, map, arith, Text, codes, text_eq, text_lt, contains_char, contains_text,
  strip_prefix, trim, byte_len, utf8_len, text_eq_iff, text_eq_refl, ltb, leb, ◌==◌, if◌then◌else◌,
  Bool-cases, Option-cases, and_then, option_map, map_or, unwrap_or, or_else, is_some,
  option_filter, length, take, drop, is_empty, retain, any, all, count_if, Map, get, insert, remove,
  contains_key, keys, set_insert, set_remove, get-insert, get-insert_self, get-remove, map_laws,
  split_once, split, splitn, split_whitespace, parse_u64, decimal, splitn-append, splitn-absent,
  contains_text-set_insert, contains_text-set_remove, i64_max, All, get_elem?, length-append,
  length-drop, length-take, length-retain, count_if-le-length, take-append-drop, count_if-append,
  take-append_one, any-append, retain-append, All-append, All-drop, strip_prefix-append,
  append-cancel_left, trim_start, is_whitespace, text_eq-sym, ==_iff, eqℤ-refl, maxℤ, ◌≤ℤ◌, ◌<ℤ◌,
  maxℤ-ge_left, maxℤ-ge_right, ℤ, pos, negsuc, i64_succ, eqℤ, leℤ, ltb→lt, lt→ltb, leb→le,
}
use uprava.Protocol.Json.{Json}
use uprava.Protocol.Reference.{NodeId, EnrollmentId, EventId, TaskRunId}
use uprava.Protocol.Domain.{CommandState}
use uprava.Node.State.{
  NodeLocalState, TaskRuntimeMapping, saturating_add_u64, is_enrolled as enrolled_in,
  clear_core_registration as without_registration, clear_enrollment_attempt as without_attempt,
}
use uprava.Node.Merge.{merge_command_state_from}
use uprava.Node.Outbox.{remove_acked_events}

abbrev pub max_retained_commands : ℕ
max_retained_commands = 1024

-- The states after which a command is done.
unfoldable pub is_removable : CommandState → Bool
is_removable CommandState.completed = true
is_removable CommandState.failed = true
is_removable CommandState.blocked = true
is_removable CommandState.expired = true
is_removable _ = false

-- `command_status.iter().filter(..).map(..)`, in the order of the hash map
unfoldable pub removable : Map CommandState → List Text
unfolding is_removable
removable [] = []
removable ((k, status) ∷ m) =
    let rest = removable m in if is_removable status then k ∷ rest else rest

unfoldable pub remove_each {ℓ} : {V : Type ℓ} → List Text → Map V → Map V
remove_each [] m = m
remove_each (k ∷ ks) m = remove_each ks (remove k m)

-- `retain(|command_id, _| command_status.contains_key(command_id))`
unfoldable pub retain_known : Map CommandState → Map Json → Map Json
retain_known status [] = []
retain_known status ((k, v) ∷ m) =
    let rest = retain_known status m in if contains_key k status then (k, v) ∷ rest else rest

unfoldable pub compact_with_limit : ℕ → NodeLocalState → NodeLocalState
unfolding removable remove_each retain_known
compact_with_limit max_commands s =
    let n = length s.command_status - max_commands in
    let gone =
      if ltb max_commands (length s.command_status)
      then take n (removable s.command_status)
      else [] in
    let status = remove_each gone s.command_status in
    record s {
      command_status = status;
      command_result_payloads = retain_known status (remove_each gone s.command_result_payloads);
    }

unfoldable pub compact_for_persistence : NodeLocalState → NodeLocalState
unfolding compact_with_limit
compact_for_persistence s = compact_with_limit max_retained_commands s

unfoldable pub command_state_storage : CommandState → Text
command_state_storage CommandState.recorded = codes "recorded"
command_state_storage CommandState.pending_dispatch = codes "pending_dispatch"
command_state_storage CommandState.dispatched = codes "dispatched"
command_state_storage CommandState.acknowledged = codes "acknowledged"
command_state_storage CommandState.completed = codes "completed"
command_state_storage CommandState.failed = codes "failed"
command_state_storage CommandState.blocked = codes "blocked"
command_state_storage CommandState.expired = codes "expired"

unfoldable pub command_state_from_storage : Text → Option CommandState
command_state_from_storage value =
    if text_eq value (codes "recorded")
    then some CommandState.recorded
    else if text_eq value (codes "pending_dispatch")
    then some CommandState.pending_dispatch
    else if text_eq value (codes "dispatched")
    then some CommandState.dispatched
    else if text_eq value (codes "acknowledged")
    then some CommandState.acknowledged
    else if text_eq value (codes "completed")
    then some CommandState.completed
    else if text_eq value (codes "failed")
    then some CommandState.failed
    else if text_eq value (codes "blocked")
    then some CommandState.blocked
    else if text_eq value (codes "expired")
    then some CommandState.expired
    else none

pub data NodeStateMutation : Type 0 where
  persist_enrollment_attempt : EnrollmentId → Text → NodeStateMutation
  clear_enrollment_attempt : NodeStateMutation
  persist_enrollment_identity : NodeId → Text → NodeStateMutation
  clear_core_registration : NodeStateMutation
  persist_reconnect_attempt : NodeStateMutation
  persist_heartbeat_failure : NodeStateMutation
  persist_event_ack : List EventId → NodeStateMutation
  merge_command_state : NodeLocalState → NodeLocalState → NodeStateMutation
  upsert_task_runtime_mapping : TaskRuntimeMapping → NodeStateMutation
  remove_task_runtime_mapping : TaskRunId → NodeStateMutation

pub data NodeStateMutationResult : Type 0 where
  unit : NodeStateMutationResult
  removed_events : ℕ → NodeStateMutationResult

pub data NodeStateRequest : Type 0 where
  snapshot : NodeStateRequest
  is_enrolled : NodeStateRequest
  mutate : NodeStateMutation → NodeStateRequest
  shutdown : NodeStateRequest

-- What a request is answered, an error with its message.
pub data Answer : Type 0 where
  state : NodeLocalState → Answer
  enrolled : Bool → Answer
  result : Text ⊎ NodeStateMutationResult → Answer
  stopped : Answer

-- The file that `save_async` writes: the database, and the error that a write may run into. `write` is given
-- the compacted snapshot.
pub record Disk : Type 1 where
  pub Store : Type 0
  pub write : NodeLocalState → Store → Option Text × Store

module _ (disk : Disk) (iter_next : List Text → Option Text) where
  open disk use {Store, write}

  -- `save_async`, up to what is written to the tables
  unfoldable pub save_async : NodeLocalState → Store → Option Text × Store
  unfolding compact_for_persistence
  save_async s store = write (compact_for_persistence s) store

  abbrev pub Applied : Type 0
  Applied = NodeLocalState × (Text ⊎ NodeStateMutationResult) × Store

  abbrev saved_as : NodeLocalState → NodeStateMutationResult → Option Text × Store → Applied
  saved_as s r (some error, store) = (s, inl error, store)
  saved_as s r (none, store) = (s, inr r, store)

  -- `state.save_async(path).await?; Ok(result)`
  unfoldable pub saved : NodeLocalState → NodeStateMutationResult → Store → Applied
  unfolding save_async
  saved s r store = saved_as s r (save_async s store)

  -- What a mutation makes of the state.
  unfoldable pub mutated : NodeStateMutation → NodeLocalState → NodeLocalState
  mutated (persist_enrollment_attempt id code) s = record s {
    enrollment_id = some id;
    pairing_code = some code;
  }
  mutated NodeStateMutation.clear_enrollment_attempt s = without_attempt s
  mutated (persist_enrollment_identity id credential) s = record s {
    node_id = some id;
    credential = some credential;
    enrollment_id = none;
    pairing_code = none;
  }
  mutated NodeStateMutation.clear_core_registration s = without_registration s
  mutated persist_reconnect_attempt s = record s {
    reconnect_attempts = saturating_add_u64 s.reconnect_attempts 1;
  }
  mutated persist_heartbeat_failure s = record s {
    heartbeat_failures = saturating_add_u64 s.heartbeat_failures 1;
  }
  mutated (persist_event_ack ids) s = record s {
    event_outbox = (remove_acked_events s.event_outbox ids).0;
  }
  mutated (merge_command_state baseline command_state) s =
      merge_command_state_from iter_next s baseline command_state
  mutated (upsert_task_runtime_mapping mapping) s = record s {
    task_runtime_mappings = insert mapping.task_run_id mapping s.task_runtime_mappings;
  }
  mutated (remove_task_runtime_mapping id) s = record s {
    task_runtime_mappings = remove id s.task_runtime_mappings;
  }

  unfoldable pub apply_node_state_mutation : NodeStateMutation → NodeLocalState → Store → Applied
  unfolding saved mutated
  apply_node_state_mutation (persist_event_ack ids) s store =
      let removed = (remove_acked_events s.event_outbox ids).1 in
      let s' = mutated (persist_event_ack ids) s in
      let r = removed_events removed in
      if ltb 0 removed then saved s' r store else (s', inr r, store)
  apply_node_state_mutation m s store = saved (mutated m s) NodeStateMutationResult.unit store

  -- One round of the loop: the state, the store, the answer, and whether the loop goes on.
  unfoldable pub handle_request :
      NodeStateRequest → NodeLocalState → Store → NodeLocalState × Store × Answer × Bool
  unfolding apply_node_state_mutation
  handle_request snapshot s store = (s, store, Answer.state s, true)
  handle_request NodeStateRequest.is_enrolled s store =
      (s, store, Answer.enrolled (enrolled_in s), true)
  handle_request (mutate m) s store =
      let (s', r, store') = apply_node_state_mutation m s store in
      (s', store', Answer.result r, true)
  handle_request shutdown s store = (s, store, Answer.stopped, false)

  -- The requests that the queue holds, in order: the state at the end, the store, and the answers.
  -- Requests behind a shutdown are not answered.
  unfoldable pub run_node_state_store :
      List NodeStateRequest → NodeLocalState → Store → NodeLocalState × Store × List Answer
  unfolding handle_request
  run_node_state_store [] s store = (s, store, [])
  run_node_state_store (r ∷ rs) s store =
      let (s', store', answer, more) = handle_request r s store in
      let (s'', store'', answers) = run_node_state_store rs s' store' in
      if more then (s'', store'', answer ∷ answers) else (s', store', answer ∷ [])
