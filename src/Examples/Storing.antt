-- ===== src/Examples/Storing.antt =====
-- The owner of the state with a disk that keeps the last write.
use uprava.Prelude.{
  ◌≡◌, refl, ◌⊎◌, true, false, not, Option, none, some, List, [], ◌∷◌, Text, codes, text_eq, map_or,
  all, get, min, max, length, contains_key, if◌then◌else◌,
}
use uprava.Protocol.Json.{empty_object}
use uprava.Protocol.Domain.{CommandState}
use uprava.Node.State.{NodeLocalState, is_enrolled}
use uprava.Node.Store.{
  Disk, NodeStateMutation, NodeStateRequest, apply_node_state_mutation, run_node_state_store,
  is_removable, compact_with_limit, saved, save_async,
}
use uprava.Node.Store.Requests.{
  is_ok, Durable, says_enrolled, keeps_enrollment, apply_node_state_mutation-Durable,
  run_node_state_store-enrolled,
}
use uprava.Node.Store.Forgotten.{Distinct, open_commands}
use uprava.Node.Store.Compaction.{compact_with_limit_lem}
use uprava.Examples.Fixtures.{empty_state, busy_state}

abbrev disk : Disk
disk = record { Store = Option NodeLocalState; write = λ s old. (none, some s) }

abbrev no_next : List Text → Option Text
no_next s = none

reconnected_ok :
    is_ok disk no_next
      (apply_node_state_mutation disk no_next NodeStateMutation.persist_reconnect_attempt busy_state
        none).1
    ≡ true
unfolding is_ok apply_node_state_mutation saved save_async
reconnected_ok = refl

apply_node_state_mutation-Durable_example :
    Durable disk no_next NodeStateMutation.persist_reconnect_attempt busy_state none (
      apply_node_state_mutation disk no_next NodeStateMutation.persist_reconnect_attempt busy_state
        none)
apply_node_state_mutation-Durable_example =
    apply_node_state_mutation-Durable disk no_next NodeStateMutation.persist_reconnect_attempt
      busy_state none reconnected_ok

abbrev requests : List NodeStateRequest
requests =
    NodeStateRequest.mutate NodeStateMutation.clear_enrollment_attempt
    ∷ NodeStateRequest.is_enrolled
    ∷ NodeStateRequest.shutdown
    ∷ NodeStateRequest.mutate NodeStateMutation.persist_heartbeat_failure
    ∷ []

requests_keep : all (keeps_enrollment disk no_next) requests ≡ true
unfolding keeps_enrollment
requests_keep = refl

enrolled : is_enrolled busy_state ≡ true
unfolding is_enrolled
enrolled = refl

run_node_state_store-enrolled_example :
    (is_enrolled (run_node_state_store disk no_next requests busy_state none).0 ≡ true)
    × (all
          (says_enrolled disk no_next)
          (run_node_state_store disk no_next requests busy_state none).2
        ≡ true)
run_node_state_store-enrolled_example =
    run_node_state_store-enrolled disk no_next requests busy_state none requests_keep enrolled

abbrev two_commands : NodeLocalState
two_commands = record empty_state {
  command_status =
      (codes "c1", CommandState.completed) ∷ (codes "c2", CommandState.dispatched) ∷ [];
  command_result_payloads = (codes "c1", empty_object) ∷ [];
}

two_commands-Distinct : Distinct two_commands.command_status
unfolding Distinct get text_eq
two_commands-Distinct = (refl, (refl, tt))

compact_with_limit_lem_example :
    let s' = compact_with_limit 1 two_commands in
    (map_or false (λ t. not (is_removable t)) (get (codes "c2") two_commands.command_status) ≡ true
      → (get (codes "c2") s'.command_status ≡ get (codes "c2") two_commands.command_status)
        × (get (codes "c2") s'.command_result_payloads
            ≡ get (codes "c2") two_commands.command_result_payloads))
    × ((get (codes "c2") s'.command_status ≡ none)
        ⊎ (get (codes "c2") s'.command_status ≡ get (codes "c2") two_commands.command_status))
    × (get (codes "c2") s'.command_result_payloads ≡ (
        if contains_key (codes "c2") s'.command_status
        then get (codes "c2") two_commands.command_result_payloads
        else none))
    × (length s'.command_status ≡ max (min 1 2) (open_commands two_commands.command_status))
compact_with_limit_lem_example =
    compact_with_limit_lem 1 two_commands (codes "c2") two_commands-Distinct
