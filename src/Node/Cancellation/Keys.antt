-- ===== src/Node/Cancellation/Keys.antt =====
-- A cancellation reaches the execution that it names, and no other.
use uprava.Prelude.{
  ◌≡◌, sym, ap, ◌∙◌, ◌↔◌, Bool, true, false, Option, none, some, arith, Text, option_map, map_or,
}
use uprava.Protocol.Reference.{RuntimeSessionId, DeductionId, TaskRunId, ToolCallId}
use uprava.Protocol.Domain.{CommandKind}
use uprava.Protocol.Command.{
  CommandEnvelope, CommandPayload, CommandTarget, ToolingCommandPayloadV1, runtime_session_id,
}
use uprava.Node.Cancellation.{
  runtime_cancellation_key, deduction_cancellation_key, task_cancellation_key,
  tool_call_cancellation_key, execution_key_of, execution_cancellation_key, signal_of,
  cancellation_signal, is_priority_cancellation_command,
}

-- What a command can run or cancel.
pub data Cancellable : Type 0 where
  turn : RuntimeSessionId → Cancellable
  deduction : DeductionId → Cancellable
  task : TaskRunId → Cancellable
  tool_call : ToolCallId → Cancellable

unfoldable pub key_of : Cancellable → Text
unfolding runtime_cancellation_key deduction_cancellation_key task_cancellation_key
    tool_call_cancellation_key
key_of (turn id) = runtime_cancellation_key id
key_of (deduction id) = deduction_cancellation_key id
key_of (task id) = task_cancellation_key id
key_of (tool_call id) = tool_call_cancellation_key id

-- No two things share a key.
key_of-injective : (x y : Cancellable) → key_of x ≡ key_of y → x ≡ y
unfolding key_of
key_of-injective x y h = ground arith

tool_runs : ToolingCommandPayloadV1 → Option Cancellable
tool_runs (ToolingCommandPayloadV1.execute_external_tool id _ _ _ _ _ _ _ _) = some (tool_call id)
tool_runs _ = none

tool_cancels : ToolingCommandPayloadV1 → Option Cancellable
tool_cancels (ToolingCommandPayloadV1.cancel_tool_call id _) = some (tool_call id)
tool_cancels _ = none

runs_by : CommandKind → CommandPayload → CommandTarget → Option Cancellable
runs_by CommandKind.send_turn _ t = option_map turn (runtime_session_id t)
runs_by CommandKind.request_deduction (CommandPayload.request_deduction p) t =
    some (deduction p.deduction_id)
runs_by CommandKind.run_task (CommandPayload.run_task _ spec) t = some (task spec.task_run_id)
runs_by CommandKind.tooling (CommandPayload.tooling c) t = tool_runs c.payload
runs_by _ _ t = none

cancels_by : CommandKind → CommandPayload → CommandTarget → Option Cancellable
cancels_by CommandKind.interrupt_runtime _ t = option_map turn (runtime_session_id t)
cancels_by CommandKind.stop_runtime _ t = option_map turn (runtime_session_id t)
cancels_by CommandKind.cancel_deduction (CommandPayload.cancel_deduction id) t = some (deduction id)
cancels_by CommandKind.cancel_task_run (CommandPayload.cancel_task_run id) t = some (task id)
cancels_by CommandKind.tooling (CommandPayload.tooling c) t = tool_cancels c.payload
cancels_by _ _ t = none

-- What a command runs, and what it cancels.
pub runs : CommandEnvelope → Option Cancellable
runs c = runs_by c.kind c.payload c.target

pub cancels : CommandEnvelope → Option Cancellable
cancels c = cancels_by c.kind c.payload c.target

-- Only a cancellation of something that may not have begun is remembered: that of a turn is not.
pub remembered : Cancellable → Bool
remembered (turn _) = false
remembered _ = true

execution_key_of-runs_by :
    (k : CommandKind) (p : CommandPayload) (t : CommandTarget)
    → execution_key_of k p t ≡ option_map key_of (runs_by k p t)
unfolding execution_key_of runs_by key_of tool_runs
execution_key_of-runs_by k p t = ground arith

signal_of-cancels_by :
    (k : CommandKind) (p : CommandPayload) (t : CommandTarget)
    → signal_of k p t
      ≡ option_map {B = Text × Bool} (λ x. (key_of x, remembered x)) (cancels_by k p t)
unfolding signal_of cancels_by key_of tool_cancels remembered
signal_of-cancels_by k p t = ground arith

meets :
    (x y : Option Cancellable) (k l : Text) (b : Bool)
    → option_map {B = Text × Bool} (λ x. (key_of x, remembered x)) x ≡ some (k, b)
    → option_map key_of y ≡ some l
    → ((k ≡ l) ↔ (x ≡ y)) × (b ≡ map_or false remembered x)
meets none y k l b h h' = cc
meets (some x) none k l b h h' = cc
meets (some x) (some y) k l b h h' =
    ((λ e. ap some (key_of-injective x y (ground arith)), λ e. ground (arith, e)), ground arith)

-- A command that signals a cancellation and a command that registers an execution use the same key
-- exactly when the first cancels what the second runs. The signal is remembered for a later start
-- unless it is for a turn.
pub cancellation_meets_execution :
    (c d : CommandEnvelope) (k l : Text) (b : Bool)
    → cancellation_signal c ≡ some (k, b)
    → execution_cancellation_key d ≡ some l
    → ((k ≡ l) ↔ (cancels c ≡ runs d)) × (b ≡ map_or false remembered (cancels c))
unfolding cancellation_signal execution_cancellation_key cancels runs
cancellation_meets_execution c d k l b h h' =
    meets (cancels_by c.kind c.payload c.target) (runs_by d.kind d.payload d.target) k l b
      (sym (signal_of-cancels_by c.kind c.payload c.target) ∙ h)
      (sym (execution_key_of-runs_by d.kind d.payload d.target) ∙ h')

-- Every command that signals a cancellation is dispatched through the priority queue.
pub cancellation_signal-priority :
    (c : CommandEnvelope) (s : Text × Bool)
    → cancellation_signal c ≡ some s
    → is_priority_cancellation_command c ≡ true
unfolding cancellation_signal is_priority_cancellation_command
cancellation_signal-priority c s h = ground arith
