-- ===== src/Node/Cancellation.antt =====
-- The registry of running executions and the keys under which commands find them:
-- `ExecutionCancellationRegistry` and the key functions of
-- crates/uprava-node/src/runtime/application/dispatch.rs, `tool_call_cancellation_key` of
-- crates/uprava-node/src/runtime/tool_runtime.rs.
pub mod Keys
pub mod Registry
use uprava.Prelude.{
  ◌+◌, ◌-◌, ◌*◌, ◌/◌, ◌%◌, ◌^◌, ◌≤◌, ◌<◌, ℕ, zero, suc, max, min, compare, Ordering, ◌≡◌, refl, sym,
  ap, ◌∙◌, subst, ◌≢◌, ◌↔◌, ◌⊎◌, inl, inr, Bool, true, false, ◌&&◌, ◌||◌, not, Option, none, some,
  List, [], ◌∷◌, ◌++◌, map, arith, Text, codes, text_eq, text_lt, contains_char, contains_text,
  strip_prefix, trim, byte_len, utf8_len, text_eq_iff, text_eq_refl, ltb, leb, ◌==◌, if◌then◌else◌,
  Bool-cases, Option-cases, and_then, option_map, map_or, unwrap_or, or_else, is_some,
  option_filter, length, take, drop, is_empty, retain, any, all, count_if, Map, get, insert, remove,
  contains_key, keys, set_insert, set_remove, get-insert, get-remove, map_laws,
  contains_text-set_insert, contains_text-set_remove, i64_max, All, get_elem?, length-append,
  length-drop, length-take, length-retain, count_if-le-length, take-append-drop, any-append,
  retain-append, All-append, All-drop, strip_prefix-append, append-cancel_left, trim_start,
  is_whitespace, text_eq-sym, ==_iff, eqℤ-refl, maxℤ, ◌≤ℤ◌, ◌<ℤ◌, maxℤ-ge_left, maxℤ-ge_right, ℤ,
  pos, negsuc, i64_succ, eqℤ, leℤ, ltb→lt, lt→ltb, leb→le,
}
use uprava.Protocol.Reference.{
  RuntimeSessionId, DeductionId, TaskRunId, ToolCallId, McpDependencyInstanceId,
}
use uprava.Protocol.Domain.{CommandKind}
use uprava.Protocol.Command.{
  CommandEnvelope, CommandPayload, CommandTarget, ToolingCommandPayloadV1, ToolingCommandV1,
  runtime_session_id, task_run_id, project_placement_id,
}

-- `tokio::sync::watch` as the registry uses it: `channel` makes a sender with one receiver, which
-- holds the initial value; `send` stores a value if some receiver is alive, and is refused without
-- effect if none is; a receiver reads the value that was stored last.
pub record Watch : Type 1 where
  pub Store : Type 0
  pub channel : Bool → Store → ℕ × Store
  pub send : ℕ → Bool → Store → Bool × Store
  pub drop_receivers : ℕ → Store → Store
  pub borrow : ℕ → Store → Bool
  pub is_open : ℕ → Store → Bool
  pub known : ℕ → Store → Bool
  pub channel-fresh : (b : Bool) (s : Store) → known (channel b s).0 s ≡ false
  pub channel-known :
      (b : Bool) (s : Store) (c : ℕ) → known c s ≡ true → known c (channel b s).1 ≡ true
  pub channel-known_self : (b : Bool) (s : Store) → known (channel b s).0 (channel b s).1 ≡ true
  pub channel-borrow : (b : Bool) (s : Store) → borrow (channel b s).0 (channel b s).1 ≡ b
  pub channel-open : (b : Bool) (s : Store) → is_open (channel b s).0 (channel b s).1 ≡ true
  pub send-open :
      (c : ℕ) (b : Bool) (s : Store)
      → is_open c s ≡ true
      → ((send c b s).0 ≡ true) × (borrow c (send c b s).1 ≡ b)
  pub send-closed : (c : ℕ) (b : Bool) (s : Store) → is_open c s ≡ false → send c b s ≡ (false, s)
  pub drop-closed : (c : ℕ) (s : Store) → is_open c (drop_receivers c s) ≡ false

pub record ExecutionCancellationState : Type 0 where
  pub senders : Map ℕ
  pub pending : List Text

pub record ExecutionCancellationGuard : Type 0 where
  pub key : Text
  pub sender : ℕ

module _ (watch : Watch) where
  open watch use {Store, channel, send}

  -- The registry beside the channels. Each operation holds the registry's lock throughout.
  pub record ExecutionCancellationRegistry : Type 0 where
    pub state : ExecutionCancellationState
    pub store : Store

  -- The guard's sender stands for its receiver too: they belong to one channel.
  unfoldable pub begin :
      Text
      → ExecutionCancellationRegistry
      → ExecutionCancellationRegistry × ExecutionCancellationGuard
  begin key r =
      let initially_cancelled = contains_text r.state.pending key in
      let (sender, store) = channel initially_cancelled r.store in
      (
        record {
          state = record {
            senders = insert key sender r.state.senders;
            pending = set_remove key r.state.pending;
          };
          store = store;
        },
        record { key = key; sender = sender },
      )

  abbrev cancel_at :
      Option ℕ → Text → Bool → ExecutionCancellationRegistry → ExecutionCancellationRegistry × Bool
  cancel_at (some sender) key remember r =
      let (ok, store) = send sender true r.store in (record r { store = store }, ok)
  cancel_at none key true r =
      (record r { state = record r.state { pending = set_insert key r.state.pending } }, false)
  cancel_at none key false r = (r, false)

  unfoldable pub cancel :
      Text → Bool → ExecutionCancellationRegistry → ExecutionCancellationRegistry × Bool
  cancel key remember_if_pending r = cancel_at (get key r.state.senders) key remember_if_pending r

  -- `sender.same_channel(&guard.sender)`
  unfoldable pub finish :
      ExecutionCancellationGuard → ExecutionCancellationRegistry → ExecutionCancellationRegistry
  finish guard r =
      if map_or false (λ sender. sender == guard.sender) (get guard.key r.state.senders)
      then record r { state = record r.state { senders = remove guard.key r.state.senders } }
      else r

  -- The early return of a dispatch task that cannot load its state snapshot: the guard goes out of
  -- scope, and `finish` is not called.
  unfoldable pub abandon :
      ExecutionCancellationGuard → ExecutionCancellationRegistry → ExecutionCancellationRegistry
  abandon guard r = record r { store = watch.drop_receivers guard.sender r.store }

unfoldable pub runtime_cancellation_key : RuntimeSessionId → Text
runtime_cancellation_key id = codes "runtime:" ++ id

unfoldable pub deduction_cancellation_key : DeductionId → Text
deduction_cancellation_key id = codes "deduction:" ++ id

unfoldable pub task_cancellation_key : TaskRunId → Text
task_cancellation_key id = codes "task:" ++ id

unfoldable pub tool_call_cancellation_key : ToolCallId → Text
tool_call_cancellation_key id = codes "tool-call:" ++ id

abbrev tool_execution_key : ToolingCommandPayloadV1 → Option Text
tool_execution_key (ToolingCommandPayloadV1.execute_external_tool id _ _ _ _ _ _ _ _) =
    some (tool_call_cancellation_key id)
tool_execution_key _ = none

unfoldable pub execution_key_of : CommandKind → CommandPayload → CommandTarget → Option Text
execution_key_of CommandKind.send_turn _ t =
    option_map runtime_cancellation_key (runtime_session_id t)
execution_key_of CommandKind.request_deduction (CommandPayload.request_deduction p) t =
    some (deduction_cancellation_key p.deduction_id)
execution_key_of CommandKind.run_task (CommandPayload.run_task _ spec) t =
    some (task_cancellation_key spec.task_run_id)
execution_key_of CommandKind.tooling (CommandPayload.tooling c) t = tool_execution_key c.payload
execution_key_of _ _ t = none

unfoldable pub execution_cancellation_key : CommandEnvelope → Option Text
unfolding execution_key_of
execution_cancellation_key c = execution_key_of c.kind c.payload c.target

abbrev tool_signal : ToolingCommandPayloadV1 → Option (Text × Bool)
tool_signal (ToolingCommandPayloadV1.cancel_tool_call id _) =
    some (tool_call_cancellation_key id, true)
tool_signal _ = none

unfoldable pub signal_of : CommandKind → CommandPayload → CommandTarget → Option (Text × Bool)
signal_of CommandKind.interrupt_runtime _ t =
    option_map (λ id. (runtime_cancellation_key id, false)) (runtime_session_id t)
signal_of CommandKind.stop_runtime _ t =
    option_map (λ id. (runtime_cancellation_key id, false)) (runtime_session_id t)
signal_of CommandKind.cancel_deduction (CommandPayload.cancel_deduction id) t =
    some (deduction_cancellation_key id, true)
signal_of CommandKind.cancel_task_run (CommandPayload.cancel_task_run id) t =
    some (task_cancellation_key id, true)
signal_of CommandKind.tooling (CommandPayload.tooling c) t = tool_signal c.payload
signal_of _ _ t = none

unfoldable pub cancellation_signal : CommandEnvelope → Option (Text × Bool)
unfolding signal_of
cancellation_signal c = signal_of c.kind c.payload c.target

is_cancel_kind : CommandKind → Bool
is_cancel_kind CommandKind.interrupt_runtime = true
is_cancel_kind CommandKind.stop_runtime = true
is_cancel_kind CommandKind.cancel_deduction = true
is_cancel_kind CommandKind.cancel_task_run = true
is_cancel_kind _ = false

is_cancel_tool : ToolingCommandPayloadV1 → Bool
is_cancel_tool (ToolingCommandPayloadV1.cancel_tool_call _ _) = true
is_cancel_tool _ = false

is_cancel_payload : CommandPayload → Bool
unfolding is_cancel_tool
is_cancel_payload (CommandPayload.tooling c) = is_cancel_tool c.payload
is_cancel_payload _ = false

unfoldable pub is_priority_cancellation_command : CommandEnvelope → Bool
unfolding is_cancel_kind is_cancel_payload
is_priority_cancellation_command c = is_cancel_kind c.kind || is_cancel_payload c.payload

dependency_key : McpDependencyInstanceId → Text
dependency_key id = codes "tool-dependency:" ++ id

tooling_key : ToolingCommandPayloadV1 → Text
unfolding dependency_key
tooling_key (ToolingCommandPayloadV1.begin_integration_authorization d _ _ _ _) = dependency_key d
tooling_key (ToolingCommandPayloadV1.update_dependency_desired_state d _ _ _ _ _ _) =
    dependency_key d
tooling_key (ToolingCommandPayloadV1.execute_external_tool _ _ _ _ d _ _ _ _) = dependency_key d
tooling_key (ToolingCommandPayloadV1.cancel_tool_call id _) = tool_call_cancellation_key id

key_by_target : CommandTarget → Text → Text
key_by_target t command_id =
    unwrap_or
      (or_else (option_map (λ id. codes "runtime:" ++ id) (runtime_session_id t))
        (option_map (λ id. codes "placement:" ++ id) (project_placement_id t)))
      (codes "command:" ++ command_id)

key_by_payload : CommandPayload → CommandTarget → Text → Text
unfolding tooling_key key_by_target
key_by_payload (CommandPayload.tooling c) t command_id = tooling_key c.payload
key_by_payload _ t command_id = key_by_target t command_id

key_by_task : Option TaskRunId → CommandPayload → CommandTarget → Text → Text
unfolding key_by_payload
key_by_task (some id) p t command_id = task_cancellation_key id
key_by_task none p t command_id = key_by_payload p t command_id

-- The key of the lock that orders the execution of commands.
unfoldable pub command_execution_key : CommandEnvelope → Text
unfolding key_by_task
command_execution_key c = key_by_task (task_run_id c.target) c.payload c.target c.command_id
