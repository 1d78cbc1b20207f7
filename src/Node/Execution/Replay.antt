-- ===== src/Node/Execution/Replay.antt =====
-- Redelivered commands.
use uprava.Prelude.{
  ◌≡◌, refl, ap, ◌≢◌, true, false, none, some, arith, unwrap_or, get, get-insert_self,
}
use uprava.Protocol.Json.{empty_object}
use uprava.Protocol.Domain.{CommandState}
use uprava.Protocol.Command.{CommandEnvelope, matches_kind}
use uprava.Node.State.{NodeLocalState}
use uprava.Node.Outbox.{Host, outbox_events_for_command}
use uprava.Node.Causal.{ResponseSerde}
use uprava.Node.Execution.{
  Executors, CommandDispatchOutcome, CommandExecutionContext, recall,
  prepare_command_dispatch_with_live_socket, provider_mcp_access_failure_outcome,
}
use uprava.Node.Execution.Records.{answer, dispatch_kind-Settled}

-- A well-formed command that is new to the state is carried out, and when it is delivered again to
-- the state that this leaves, then whatever executors, context and clock it meets there, it is not
-- carried out again: the state stays as it is, the status is that of the first outcome, the payload
-- is that of the first outcome, without the authorization URL if it is a tooling command, and the
-- events are those of the command that are still in the outbox.
pub dispatch-replay :
    (run run' : Executors) (host host' : Host) (decode decode' : ResponseSerde)
    (context context' : CommandExecutionContext) (s : NodeLocalState) (c : CommandEnvelope)
    → matches_kind c.payload c.kind ≡ true
    → get c.command_id s.command_status ≡ none
    → get c.command_id s.command_result_payloads ≡ none
    → (s1 : NodeLocalState) × (first again : CommandDispatchOutcome)
      × (prepare_command_dispatch_with_live_socket run host decode context s c ≡ some (s1, first))
      × (prepare_command_dispatch_with_live_socket run' host' decode' context' s1 c
          ≡ some (s1, again))
      × (again.status ≡ first.status)
      × (again.result_payload ≡ answer c.kind first.result_payload)
      × (again.events_to_send ≡ outbox_events_for_command s1.event_outbox c.command_id)
      × (again.state_changed ≡ false)
unfolding prepare_command_dispatch_with_live_socket recall
dispatch-replay run run' host host' decode decode' context context' s c m fresh fresh' =
    let ((s1, first), eq, done) =
      dispatch_kind-Settled c run host decode context s c.kind c.payload refl m fresh' in
    let (s2, again) = recall run' host' decode' s1 c first.status in
    (s1, first, again, rw (m, fresh) eq, rw (m, done.status) refl, refl, done.payload, refl, refl)

-- A well-formed command whose access to the tools could not be issued is recorded as failed, but its
-- error is not stored: if the state holds no payload for the command, a redelivery is answered with
-- the status `failed` and an empty object, which is not the payload of the first outcome.
pub mcp_access_failure-replay :
    (run : Executors) (host : Host) (decode : ResponseSerde) (context : CommandExecutionContext)
    (s : NodeLocalState) (c : CommandEnvelope)
    → matches_kind c.payload c.kind ≡ true
    → get c.command_id s.command_result_payloads ≡ none
    → let (s1, first) = provider_mcp_access_failure_outcome run host decode s c in
      (again : CommandDispatchOutcome) × (prepare_command_dispatch_with_live_socket run host decode
          context s1 c
        ≡ some (s1, again))
      × (again.status ≡ first.status)
      × (again.result_payload ≡ empty_object)
      × (first.result_payload ≢ empty_object)
unfolding prepare_command_dispatch_with_live_socket recall provider_mcp_access_failure_outcome
mcp_access_failure-replay run host decode context s c m fresh =
    let (s1, first) = provider_mcp_access_failure_outcome run host decode s c in
    let recorded = get-insert_self c.command_id CommandState.failed s.command_status in
    (
      (recall run host decode s1 c CommandState.failed).1,
      rw (m, recorded) refl,
      refl,
      ap (λ o. unwrap_or o empty_object) fresh,
      λ e. ground (arith, e),
    )
