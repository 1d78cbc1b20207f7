-- ===== src/Node/Execution/Records.antt =====
-- Every command that is carried out is recorded.
use uprava.Prelude.{
  ℕ, ◌≡◌, refl, sym, ap, ◌∙◌, ◌⊎◌, inl, inr, true, Option, none, some, List, [], ◌++◌, arith, Text,
  contains_text, ◌==◌, if◌then◌else◌, Bool-cases, Option-cases, unwrap_or, take, drop, get,
  get-insert_self,
}
use uprava.Protocol.Json.{Json, empty_object}
use uprava.Protocol.Reference.{DeductionId, RuntimeSessionId}
use uprava.Protocol.Domain.{CommandKind, CommandState}
use uprava.Protocol.Command.{CommandEnvelope, CommandPayload, ToolingCommandV1, matches_kind}
use uprava.Protocol.Event.{EventEnvelope}
use uprava.Node.State.{NodeLocalState}
use uprava.Node.Outbox.{
  Host, affected_runtimes, event_outbox_retention_drop_count, apply_runtime_state_projection,
  drop_and_notify, enforce_event_outbox_retention, enforce_event_outbox_retention_with_limits,
}
use uprava.Node.Outbox.Notices.{retention_notices-state}
use uprava.Node.Causal.{ResponseSerde}
use uprava.Node.Events.{WorkspaceInspectError}
use uprava.Node.Metadata.{remember_runtime_metadata, remember_at, remember_all_of, remember_path}
use uprava.Node.Execution.{
  Executors, CommandExecutionContext, Dispatched, recorded_outcome, record_command_result_payload,
  durable_tooling_result_payload, extend_outbox, later, workspace_command_outcome, finish_events,
  dispatch_snapshot, dispatch_runtime, dispatch_kind, dispatch_workspace, dispatch_task,
  dispatch_deduction, dispatch_cancel_deduction, dispatch_tooling, recall, run_provider,
  with_metadata, is_cancelled_now, prepare_command_dispatch_with_live_socket,
}

-- A pass of the retention leaves the records of the commands alone.
module _ (host : Host) (s : NodeLocalState) (max_events max_age max_bytes : ℕ) where
  abbrev KeptStatus : NodeLocalState × List EventEnvelope → Type 0
  KeptStatus r =
      (r.0.command_status ≡ s.command_status)
      × (r.0.command_result_payloads ≡ s.command_result_payloads)

  drop_and_notify-kept : (n : ℕ) → KeptStatus (drop_and_notify host n max_events max_bytes s)
  unfolding drop_and_notify
  drop_and_notify-kept n =
      let s1 : NodeLocalState = record s {
        dropped_event_count = _;
        event_outbox = drop n s.event_outbox;
      } in
      let e = retention_notices-state host 0 s1 (affected_runtimes (take n s.event_outbox) []) in
      (ap (λ t. t.command_status) e, ap (λ t. t.command_result_payloads) e)

  pub enforce_event_outbox_retention-kept :
      KeptStatus (enforce_event_outbox_retention_with_limits host s max_events max_age max_bytes)
  unfolding enforce_event_outbox_retention_with_limits
  enforce_event_outbox_retention-kept =
      let n = event_outbox_retention_drop_count host s.event_outbox max_events max_age max_bytes in
      elim (Bool-cases (n == 0)) [
        | inl z ↦ rw z (refl, refl)
        | inr nz ↦ rw nz (drop_and_notify-kept n)
      ]

-- What a redelivery answers in place of a result: the tooling results lose their secret.
abbrev pub answer : CommandKind → Json → Json
unfolding durable_tooling_result_payload
answer CommandKind.tooling payload = durable_tooling_result_payload payload
answer _ payload = payload

-- The command is recorded with the status and the answer of the outcome.
pub record Settled (c : CommandEnvelope) (d : Dispatched) : Type 0 where
  pub changed : d.1.state_changed ≡ true
  pub status : get c.command_id d.0.command_status ≡ some d.1.status
  pub payload :
      unwrap_or (get c.command_id d.0.command_result_payloads) empty_object
      ≡ answer c.kind d.1.result_payload

-- Every kind but `tooling` answers a redelivery with the payload itself.
abbrev Plain : CommandKind → Type 0
Plain k = (v : Json) → answer k v ≡ v

module _ (c : CommandEnvelope) where
  recorded_outcome-Settled :
      (run : Executors) (s : NodeLocalState) (r : CommandState × Json)
      → Plain c.kind
      → Settled c (recorded_outcome run s c r)
  unfolding recorded_outcome record_command_result_payload
  recorded_outcome-Settled run s (status, payload) h = record {
    changed = refl;
    status = get-insert_self c.command_id status s.command_status;
    payload =
        ap (λ o. unwrap_or o empty_object)
          (get-insert_self c.command_id payload s.command_result_payloads)
        ∙ sym (h payload);
  }

  module _ (run : Executors) (host : Host) (decode : ResponseSerde) where
    extend_outbox-kept :
        (s : NodeLocalState) (events : List EventEnvelope)
        → ((extend_outbox run host decode s events).0.command_status ≡ s.command_status)
          × ((extend_outbox run host decode s events).0.command_result_payloads
              ≡ s.command_result_payloads)
    unfolding extend_outbox enforce_event_outbox_retention
    extend_outbox-kept s events =
        enforce_event_outbox_retention-kept (later host)
          (record s { event_outbox = s.event_outbox ++ events }) _ _ _

    workspace_command_outcome-Settled :
        (s : NodeLocalState) (status : CommandState) (payload : Json) (events : List EventEnvelope)
        → Plain c.kind
        → Settled c (workspace_command_outcome run host decode s c status payload events)
    unfolding workspace_command_outcome record_command_result_payload
    workspace_command_outcome-Settled s status payload events h =
        let s1 = record_command_result_payload s c status payload in
        let (a, b) = extend_outbox-kept s1 events in
        record {
          changed = refl;
          status =
              ap (λ m. get c.command_id m) a ∙ get-insert_self c.command_id status s.command_status;
          payload =
              ap (λ m. unwrap_or (get c.command_id m) empty_object) b
              ∙ ap (λ o. unwrap_or o empty_object)
                  (get-insert_self c.command_id payload s.command_result_payloads)
              ∙ sym (h payload);
        }

    finish_events-Settled :
        (s : NodeLocalState) (events : List EventEnvelope)
        → get c.command_id s.command_result_payloads ≡ none
        → Plain c.kind
        → Settled c (finish_events run host decode s c events)
    unfolding finish_events
    finish_events-Settled s events fresh h =
        let states = apply_runtime_state_projection s.runtime_states events in
        let (a, b) = extend_outbox-kept (record s { runtime_states = states }) events in
        record {
          changed = refl;
          status = get-insert_self c.command_id _ _;
          payload =
              ap (λ m. unwrap_or (get c.command_id m) empty_object) b
              ∙ ap (λ o. unwrap_or o empty_object) fresh
              ∙ sym (h empty_object);
        }

    dispatch_deduction-Settled :
        (context : CommandExecutionContext) (s : NodeLocalState) (id : DeductionId)
        → Plain c.kind
        → Settled c (dispatch_deduction run context s c id)
    unfolding dispatch_deduction
    dispatch_deduction-Settled context s id h =
        elim (Bool-cases (contains_text s.cancelled_deductions id)) [
          | inl e ↦ rw e (recorded_outcome-Settled run _ _ h)
          | inr e ↦ elim (Bool-cases (is_cancelled_now context.cancellation)) [
            | inl e' ↦ rw (e, e') (recorded_outcome-Settled run s _ h)
            | inr e' ↦ rw (e, e') (recorded_outcome-Settled run s _ h)
          ]
        ]

    dispatch_tooling-Settled :
        (s : NodeLocalState) (tooling : ToolingCommandV1)
        → c.kind ≡ CommandKind.tooling
        → Settled c (dispatch_tooling run s c tooling)
    unfolding dispatch_tooling record_command_result_payload answer
    dispatch_tooling-Settled s tooling k =
        let (s', status, payload) = run.tooling_command s tooling in
        record {
          changed = refl;
          status = get-insert_self c.command_id status s'.command_status;
          payload =
              ap (λ o. unwrap_or o empty_object)
                (get-insert_self c.command_id (durable_tooling_result_payload payload)
                  s'.command_result_payloads)
              ∙ rw k refl;
        }

    run_provider-payloads :
        (context : CommandExecutionContext) (s : NodeLocalState) (p : Option Text)
        → (run_provider run host decode context s c p).0.command_result_payloads
          ≡ s.command_result_payloads
    unfolding run_provider
    run_provider-payloads context s none = refl
    run_provider-payloads context s (some p) = refl

    with_metadata-payloads_path :
        (context : CommandExecutionContext) (s : NodeLocalState) (id : RuntimeSessionId)
        (r : WorkspaceInspectError ⊎ Option Text)
        → (with_metadata run host decode context s c
            (remember_path s c id r)).0.command_result_payloads
          ≡ s.command_result_payloads
    with_metadata-payloads_path context s id (inl e) = refl
    with_metadata-payloads_path context s id (inr q) =
        run_provider-payloads context (remember_all_of s c id q).0 _

    with_metadata-payloads_at :
        (context : CommandExecutionContext) (s : NodeLocalState) (o : Option RuntimeSessionId)
        → (with_metadata run host decode context s c
            (remember_at run.canonical_workspace_root s c o)).0.command_result_payloads
          ≡ s.command_result_payloads
    with_metadata-payloads_at context s none = run_provider-payloads context s _
    with_metadata-payloads_at context s (some id) = with_metadata-payloads_path context s id _

    with_metadata-payloads :
        (context : CommandExecutionContext) (s : NodeLocalState)
        → (with_metadata run host decode context s c
            (remember_runtime_metadata run.canonical_workspace_root s c)).0.command_result_payloads
          ≡ s.command_result_payloads
    unfolding remember_runtime_metadata
    with_metadata-payloads context s = with_metadata-payloads_at context s _

    dispatch_runtime-Settled :
        (context : CommandExecutionContext) (s : NodeLocalState)
        → get c.command_id s.command_result_payloads ≡ none
        → Plain c.kind
        → Settled c (dispatch_runtime run host decode context s c)
    unfolding dispatch_runtime
    dispatch_runtime-Settled context s fresh h =
        finish_events-Settled _ _
          (ap (λ m. get c.command_id m) (with_metadata-payloads context s) ∙ fresh) h

    -- The match on the kind meets no `unreachable!` if the payload is of the kind.
    pub dispatch_kind-Settled :
        (context : CommandExecutionContext) (s : NodeLocalState) (k : CommandKind)
        (p : CommandPayload)
        → c.kind ≡ k
        → matches_kind p k ≡ true
        → get c.command_id s.command_result_payloads ≡ none
        → (d : Dispatched) × (dispatch_kind run host decode context s c k p ≡ some d) × Settled c d
    unfolding dispatch_kind dispatch_snapshot dispatch_workspace dispatch_task matches_kind answer
        dispatch_cancel_deduction
    dispatch_kind-Settled context s CommandKind.validate_workspace p k h fresh =
        (_, refl, finish_events-Settled _ _ fresh (rw k (λ v. refl)))
    dispatch_kind-Settled context s CommandKind.refresh_resource_snapshot p k h fresh =
        (_, refl, finish_events-Settled _ _ fresh (rw k (λ v. refl)))
    dispatch_kind-Settled context s CommandKind.list_workspace_tree p k h fresh =
        (_, refl, recorded_outcome-Settled run s _ (rw k (λ v. refl)))
    dispatch_kind-Settled context s CommandKind.read_workspace_file p k h fresh =
        (_, refl, recorded_outcome-Settled run s _ (rw k (λ v. refl)))
    dispatch_kind-Settled context s CommandKind.write_workspace_file p k h fresh =
        (_, refl, workspace_command_outcome-Settled _ _ _ _ (rw k (λ v. refl)))
    dispatch_kind-Settled context s CommandKind.run_workspace_command p k h fresh =
        (_, refl, workspace_command_outcome-Settled _ _ _ _ (rw k (λ v. refl)))
    dispatch_kind-Settled context s CommandKind.read_workspace_diff p k h fresh =
        (_, refl, workspace_command_outcome-Settled _ _ _ _ (rw k (λ v. refl)))
    dispatch_kind-Settled context s CommandKind.open_workspace_terminal p k h fresh =
        (_, refl, recorded_outcome-Settled run s _ (rw k (λ v. refl)))
    dispatch_kind-Settled context s CommandKind.request_deduction p k h fresh =
        (_, refl, dispatch_deduction-Settled context s _ (rw k (λ v. refl)))
    dispatch_kind-Settled context s CommandKind.cancel_deduction
          (CommandPayload.cancel_deduction id) k h fresh =
        (_, refl, recorded_outcome-Settled run _ _ (rw k (λ v. refl)))
    dispatch_kind-Settled context s CommandKind.cancel_deduction p k h fresh = ground (arith, h)
    dispatch_kind-Settled context s CommandKind.run_task p k h fresh =
        (_, refl, workspace_command_outcome-Settled _ _ _ _ (rw k (λ v. refl)))
    dispatch_kind-Settled context s CommandKind.cancel_task_run (CommandPayload.cancel_task_run id)
          k h fresh =
        (_, refl, recorded_outcome-Settled run _ _ (rw k (λ v. refl)))
    dispatch_kind-Settled context s CommandKind.cancel_task_run p k h fresh = ground (arith, h)
    dispatch_kind-Settled context s CommandKind.tooling (CommandPayload.tooling tooling) k h fresh =
        (_, refl, dispatch_tooling-Settled s tooling k)
    dispatch_kind-Settled context s CommandKind.tooling p k h fresh = ground (arith, h)
    dispatch_kind-Settled context s _ p k h fresh =
        (_, refl, dispatch_runtime-Settled context s fresh (rw k (λ v. refl)))

-- A dispatch always has an outcome, whatever the command, the state and what the executors answer:
-- no `unreachable!` is met. If the outcome says that the state has changed, the state it leaves holds
-- the outcome's status for the command, so the command is not carried out again; if not, the state is
-- left as it was. The condition is that no payload is stored for a command whose status is unknown.
pub dispatch-recorded :
    (run : Executors) (host : Host) (decode : ResponseSerde) (context : CommandExecutionContext)
    (s : NodeLocalState) (c : CommandEnvelope)
    → (get c.command_id s.command_status ≡ none → get c.command_id s.command_result_payloads ≡ none)
    → (d : Dispatched) × (prepare_command_dispatch_with_live_socket run host decode context s c
        ≡ some d)
      × (if d.1.state_changed
          then get c.command_id d.0.command_status ≡ some d.1.status
          else d.0 ≡ s)
unfolding prepare_command_dispatch_with_live_socket recall
dispatch-recorded run host decode context s c tidy =
    elim (Bool-cases (matches_kind c.payload c.kind)) [
      | inr m ↦ rw m (_, refl, refl)
      | inl m ↦ elim (Option-cases (get c.command_id s.command_status)) [
        | inr (status, e) ↦ rw (m, e) (_, refl, refl)
        | inl e ↦
            let (d, eq, done) =
              dispatch_kind-Settled c run host decode context s c.kind c.payload refl m (tidy e) in
            rw (m, e) (d, eq, rw done.changed done.status)
      ]
    ]
