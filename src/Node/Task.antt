-- ===== src/Node/Task.antt =====
-- Parts of a task's execution in a sandbox: bounded output, shell quoting, the stream of the
-- sandbox's daemon, and the events of the task's states, of crates/uprava-node/src/runtime/task.rs.
pub mod Output
pub mod Quoting
pub mod States
pub mod Stream
pub mod Frames
pub mod Chunks
pub mod Captured
use uprava.Prelude.{
  ◌+◌, ◌-◌, ◌*◌, ◌/◌, ◌%◌, ◌^◌, ◌≤◌, ◌<◌, ℕ, zero, suc, max, min, compare, Ordering, ◌≡◌, refl, sym,
  ap, ◌∙◌, subst, ◌≢◌, ◌↔◌, ◌⊎◌, inl, inr, Bool, true, false, ◌&&◌, ◌||◌, not, Option, none, some,
  List, [], ◌∷◌, ◌++◌, map, arith, Text, codes, text_eq, text_lt, contains_char, contains_text,
  strip_prefix, trim, byte_len, utf8_len, text_eq_iff, text_eq_refl, ltb, leb, ◌==◌, if◌then◌else◌,
  Bool-cases, Option-cases, and_then, option_map, map_or, unwrap_or, or_else, is_some,
  option_filter, length, take, drop, is_empty, retain, any, all, count_if, Map, get, insert, remove,
  contains_key, keys, set_insert, set_remove, get-insert, get-insert_self, get-remove, map_laws,
  split_once, split, splitn, split_whitespace, parse_u64, decimal, splitn-append, splitn-absent,
  contains_text-set_insert, contains_text-set_remove, i64_max, All, get_elem?, length-append,
  length-drop, length-take, length-retain, count_if-le-length, take-append-drop, count_if-append,
  take-append_one, any-append, retain-append, All-append, All-drop, strip_prefix-append,
  append-cancel_left, trim_start, is_whitespace, text_eq-sym, ==_iff, eqℤ-refl, maxℤ, ◌≤ℤ◌, ◌<ℤ◌,
  maxℤ-ge_left, maxℤ-ge_right, ℤ, pos, negsuc, i64_succ, eqℤ, leℤ, ltb→lt, lt→ltb, leb→le,
}
use uprava.Protocol.Json.{Json, json_get, as_str, as_i64, object_of}
use uprava.Protocol.Reference.{TaskRunId, ActorRef, ScopeRef, UpravaRef}
use uprava.Protocol.Domain.{EventKind, TaskRunState, TaskCleanupState}
use uprava.Protocol.Command.{CommandEnvelope, task_run_id, target_node_id}
use uprava.Protocol.Event.{EventEnvelope}
use uprava.Protocol.Payload.{from_json, to_i32}
use uprava.Node.Outbox.{Host}
use uprava.Node.Workspace.{lines}

-- The longest prefix of whole characters within a number of bytes: the boundary that `char_indices`
-- finds.
unfoldable pub prefix_within : ℕ → Text → Text
prefix_within max [] = []
prefix_within max (c ∷ s) =
    let rest = prefix_within (max - utf8_len c) s in if leb (utf8_len c) max then c ∷ rest else []

-- `append_capped`: the target and the mark
unfoldable pub append_capped : Text → Text → ℕ → Bool → Text × Bool
unfolding prefix_within
append_capped target value max truncated =
    let remaining = max - byte_len target in
    if leb max (byte_len target)
    then (target, true)
    else if leb (byte_len value) remaining
    then (target ++ value, truncated)
    else (target ++ prefix_within remaining value, true)

unfoldable pub cap_string : Text → ℕ → Text × Bool
unfolding prefix_within
cap_string value max =
    if leb (byte_len value) max then (value, false) else (prefix_within max value, true)

-- `value.replace('\'', "'\\''")`
unfoldable pub escape_quotes : Text → Text
escape_quotes [] = []
escape_quotes (c ∷ s) =
    let rest = escape_quotes s in if c == 39 then 39 ∷ 92 ∷ 39 ∷ 39 ∷ rest else c ∷ rest

unfoldable pub shell_quote : Text → Text
unfolding escape_quotes
shell_quote value = 39 ∷ escape_quotes value ++ 39 ∷ []

unfoldable pub task_state_seq : TaskRunState → ℕ
task_state_seq TaskRunState.queued = 10
task_state_seq TaskRunState.preparing_workspace = 20
task_state_seq TaskRunState.starting_runtime = 30
task_state_seq TaskRunState.running = 40
task_state_seq TaskRunState.checking = 50
task_state_seq TaskRunState.collecting_evidence = 60
task_state_seq TaskRunState.succeeded = 70
task_state_seq TaskRunState.failed = 80
task_state_seq TaskRunState.cancelling = 90
task_state_seq TaskRunState.cancelled = 100
task_state_seq TaskRunState.timed_out = 110

-- `format!("task-run:{}:{}", task_run_id, task_state_seq(state))`
unfoldable pub task_event_id : TaskRunId → TaskRunState → Text
unfolding task_state_seq
task_event_id id state = codes "task-run:" ++ id ++ codes ":" ++ decimal (task_state_seq state)

-- The output of the sandbox's daemon for one command.
pub record ExecdOutcome : Type 0 where
  pub command_id : Option Text
  pub exit_code : Option ℤ
  pub stdout : Text
  pub stderr : Text
  pub stdout_truncated : Bool
  pub stderr_truncated : Bool
  pub cancelled : Bool
  pub stream_error : Option Text

abbrev pub task_output_bytes : ℕ
task_output_bytes = 64 * 1024

abbrev pub with_stdout : Text → ExecdOutcome → ExecdOutcome
unfolding append_capped
with_stdout text o =
    let (stdout, truncated) = append_capped o.stdout text task_output_bytes o.stdout_truncated in
    record o { stdout = stdout; stdout_truncated = truncated }

abbrev pub with_stderr : Text → ExecdOutcome → ExecdOutcome
unfolding append_capped
with_stderr text o =
    let (stderr, truncated) = append_capped o.stderr text task_output_bytes o.stderr_truncated in
    record o { stderr = stderr; stderr_truncated = truncated }

unfoldable pub reported_exit_code : Json → Option ℤ
reported_exit_code value =
    and_then
      (and_then
        (or_else (json_get (codes "exit_code") value)
          (or_else (json_get (codes "exitCode") value) (json_get (codes "code") value)))
        as_i64)
      to_i32

-- the `match` of `parse_execd_frame` on the type of the event
unfoldable pub apply_execd_event : Json → ExecdOutcome → ExecdOutcome
unfolding with_stdout with_stderr reported_exit_code
apply_execd_event value o =
    let event_type = unwrap_or (and_then (json_get (codes "type") value) as_str) [] in
    let text = unwrap_or (and_then (json_get (codes "text") value) as_str) [] in
    if text_eq event_type (codes "init")
    then if is_empty text then o else record o { command_id = some text }
    else if text_eq event_type (codes "stdout")
    then with_stdout text o
    else if text_eq event_type (codes "stderr") || text_eq event_type (codes "error")
    then with_stderr text o
    else if text_eq event_type (codes "execution_complete") || text_eq event_type (codes "status")
    then record o { exit_code = or_else (reported_exit_code value) o.exit_code }
    else o

-- the lines that begin with `data:`, without that and the white space behind it
unfoldable pub data_lines : List Text → List Text
data_lines [] = []
data_lines (line ∷ rest) =
    let others = data_lines rest in
    map_or others (λ d. trim_start d ∷ others) (strip_prefix (codes "data:") line)

-- `join("\n")`
unfoldable pub join_lines : List Text → Text
join_lines [] = []
join_lines (line ∷ []) = line
join_lines (line ∷ next ∷ rest) = line ++ 10 ∷ join_lines (next ∷ rest)

-- `parse_execd_frame`, given the text of the frame; `from_str` is serde's parser of JSON.
unfoldable pub parse_execd_frame : (Text → Option Json) → Text → ExecdOutcome → ExecdOutcome
unfolding apply_execd_event data_lines join_lines
parse_execd_frame from_str text o =
    let events = data_lines (lines text) in
    let payload = if is_empty events then trim text else trim (join_lines events) in
    if is_empty payload then o else map_or o (λ value. apply_execd_event value o) (from_str payload)

module _ (host : Host) where
  -- The derived encoders of the two states.
  module _ (state_value : TaskRunState → Json) (cleanup_value : TaskCleanupState → Json) where
    abbrev optional_string : Option Text → Json
    optional_string none = Json.null
    optional_string (some s) = Json.string s

    abbrev task_state_event :
        CommandEnvelope → TaskRunState → TaskCleanupState → Option Text → TaskRunId → EventEnvelope
    unfolding task_event_id
    task_state_event command state cleanup_state message id = record {
      event_id = task_event_id id state;
      command_id = some command.command_id;
      correlation_id = some command.correlation_id;
      actor_ref = ActorRef.node (target_node_id command.target);
      scope_ref = ScopeRef.task_run id;
      node_id = some (target_node_id command.target);
      runtime_session_id = none;
      session_thread_id = none;
      turn_id = none;
      seq = pos (task_state_seq state);
      session_projection_seq = none;
      kind = EventKind.task_run_state_changed;
      happened_at = host.utc_now 0;
      source_refs = UpravaRef.command command.command_id ∷ [];
      evidence_refs = [];
      cause_refs = [];
      result_refs = UpravaRef.task_run id ∷ [];
      payload = from_json host.serde EventKind.task_run_state_changed (
          object_of (
            (codes "task_run_id", Json.string id)
            ∷ (codes "state", state_value state)
            ∷ (codes "cleanup_state", cleanup_value cleanup_state)
            ∷ (codes "message", optional_string message)
            ∷ []));
    }

    -- `push_task_state`, without the live frame, which is sent beside the durable event
    unfoldable pub push_task_state :
        CommandEnvelope
        → TaskRunState
        → TaskCleanupState
        → Option Text
        → List EventEnvelope
        → List EventEnvelope
    unfolding task_state_event
    push_task_state command state cleanup_state message events =
        map_or events (λ id. events ++ task_state_event command state cleanup_state message id ∷ [])
          (task_run_id command.target)
