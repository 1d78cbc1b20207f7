-- ===== src/Examples/Cancelling.antt =====
-- Cancellations of a turn and of a deduction.
use uprava.Prelude.{
  ◌≡◌, refl, ◌↔◌, true, false, none, some, List, [], ◌∷◌, codes, text_eq, contains_text, map_or,
  get,
}
use uprava.Protocol.Command.{runtime_session_id}
use uprava.Node.Cancellation.{
  begin, cancel, finish, abandon, cancellation_signal, execution_cancellation_key,
  runtime_cancellation_key, signal_of, execution_key_of,
}
use uprava.Node.Cancellation.Keys.{runs, cancels, remembered, cancellation_meets_execution}
use uprava.Node.Cancellation.Registry.{
  is_cancelled, perform_all, Operation, operation_key, Elsewhere, cancel-before-begin,
  cancel-finish_stale, cancel-abandon_lost,
}
use uprava.Examples.Fixtures.{turn_command, interrupt_command}
use uprava.Examples.Channels.{watch, idle_registry}

abbrev others : List (Operation watch)
others = Operation.starts (codes "deduction:d2") ∷ Operation.cancels (codes "task:t1") true ∷ []

others-Elsewhere : Elsewhere watch (codes "deduction:d1") others
unfolding Elsewhere text_eq operation_key
others-Elsewhere = (refl, (refl, tt))

idle : get (codes "deduction:d1") idle_registry.state.senders ≡ none
unfolding get
idle = refl

cancel-before-begin_example :
    let r1 = (cancel watch (codes "deduction:d1") true idle_registry).0 in
    let (r2, guard) = begin watch (codes "deduction:d1") (perform_all watch others r1) in
    (is_cancelled watch guard r2 ≡ true)
    × (contains_text r2.state.pending (codes "deduction:d1") ≡ false)
cancel-before-begin_example =
    cancel-before-begin watch (codes "deduction:d1") others idle_registry idle others-Elsewhere

cancel-finish_stale_example :
    let (r1, earlier) = begin watch (codes "task:t1") idle_registry in
    let (r2, later) = begin watch (codes "task:t1") r1 in
    let (r4, delivered) = cancel watch (codes "task:t1") true (finish watch earlier r2) in
    (delivered ≡ true) × (is_cancelled watch later r4 ≡ true)
cancel-finish_stale_example = cancel-finish_stale watch (codes "task:t1") true idle_registry

cancel-abandon_lost_example :
    let (r1, guard) = begin watch (codes "deduction:d1") idle_registry in
    let (r2, delivered) = cancel watch (codes "deduction:d1") true (abandon watch guard r1) in
    let (r3, next) = begin watch (codes "deduction:d1") r2 in
    (delivered ≡ false) × (is_cancelled watch next r3 ≡ false)
cancel-abandon_lost_example = cancel-abandon_lost watch (codes "deduction:d1") idle_registry

interrupt_signal : cancellation_signal interrupt_command ≡ some (codes "runtime:r1", false)
unfolding cancellation_signal runtime_cancellation_key signal_of runtime_session_id
interrupt_signal = refl

turn_key : execution_cancellation_key turn_command ≡ some (codes "runtime:r1")
unfolding execution_cancellation_key runtime_cancellation_key execution_key_of runtime_session_id
turn_key = refl

cancellation_meets_execution_example :
    ((codes "runtime:r1" ≡ codes "runtime:r1") ↔ (cancels interrupt_command ≡ runs turn_command))
    × (false ≡ map_or false remembered (cancels interrupt_command))
cancellation_meets_execution_example =
    cancellation_meets_execution interrupt_command turn_command (codes "runtime:r1")
      (codes "runtime:r1") false interrupt_signal turn_key
