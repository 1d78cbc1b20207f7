-- ===== src/Node/Store/Requests.antt =====
-- The requests that the owner of the state serves.
use uprava.Prelude.{
  ◌-◌, ◌≡◌, refl, ap, ◌∙◌, ◌⊎◌, inl, inr, Bool, true, false, ◌||◌, not, Option, none, some, List,
  [], ◌∷◌, arith, Text, contains_text, ltb, Bool-cases, length, is_empty, retain, all, any,
  length-retain, count_if-le-length,
}
use uprava.Protocol.Reference.{EventId}
use uprava.Protocol.Event.{EventEnvelope}
use uprava.Node.State.{
  NodeLocalState, is_enrolled as enrolled_in, clear_enrollment_attempt as without_attempt,
}
use uprava.Node.Merge.{merge_command_state_from}
use uprava.Node.Outbox.{remove_acked_events}
use uprava.Node.Store.{
  Disk, Applied, NodeStateMutation, NodeStateMutationResult, NodeStateRequest, Answer, saved_as,
  saved, mutated, save_async, compact_for_persistence, apply_node_state_mutation, handle_request,
  run_node_state_store,
}

merge-enrolled :
    (iter_next : List Text → Option Text) (s b c : NodeLocalState)
    → enrolled_in (merge_command_state_from iter_next s b c) ≡ enrolled_in s
unfolding merge_command_state_from enrolled_in
merge-enrolled iter_next s b c = refl

module _ (disk : Disk) (iter_next : List Text → Option Text) where
  open disk use {Store, write}

  -- The answer is no error.
  unfoldable pub is_ok : Text ⊎ NodeStateMutationResult → Bool
  is_ok (inl error) = false
  is_ok (inr r) = true

  saved_as-durable :
      (s : NodeLocalState) (r : NodeStateMutationResult) (w : Option Text × Store)
      → is_ok (saved_as disk iter_next s r w).1 ≡ true
      → w ≡ (none, (saved_as disk iter_next s r w).2)
  unfolding is_ok
  saved_as-durable s r (some error, store) h = ground (arith, h)
  saved_as-durable s r (none, store) h = refl

  saved_as-state :
      (s : NodeLocalState) (r : NodeStateMutationResult) (w : Option Text × Store)
      → (saved_as disk iter_next s r w).0 ≡ s
  saved_as-state s r (some error, store) = refl
  saved_as-state s r (none, store) = refl

  saved-durable :
      (s : NodeLocalState) (r : NodeStateMutationResult) (store : Store)
      → is_ok (saved disk iter_next s r store).1 ≡ true
      → write (compact_for_persistence (saved disk iter_next s r store).0) store
        ≡ (none, (saved disk iter_next s r store).2)
  unfolding saved save_async
  saved-durable s r store h =
      let w = write (compact_for_persistence s) store in
      rw (saved_as-state s r w) (saved_as-durable s r w h)

  retain-whole :
      {A : Type 0} (p : A → Bool) (xs : List A)
      → length xs - length (retain p xs) ≡ 0
      → retain p xs ≡ xs
  retain-whole p [] h = refl
  retain-whole p (x ∷ xs) h = elim (Bool-cases (p x)) [
    | inl e ↦ rw e (ap (λ t. x ∷ t) (retain-whole p xs (ground (arith, h, e))))
    | inr e ↦ ground (arith, h, e, length-retain p xs, count_if-le-length p xs)
  ]

  remove_acked_events-none :
      (outbox : List EventEnvelope) (ids : List EventId)
      → ltb 0 (remove_acked_events outbox ids).1 ≡ false
      → (remove_acked_events outbox ids).0 ≡ outbox
  unfolding remove_acked_events
  remove_acked_events-none outbox ids h = elim (Bool-cases (is_empty outbox || is_empty ids)) [
    | inl e ↦ rw e refl
    | inr e ↦
        rw e (retain-whole (λ t. not (contains_text ids t.event_id)) outbox (ground (arith, h, e)))
  ]

  any-kept :
      {A : Type 0} (q : A → Bool) (xs : List A)
      → length xs - length (retain (λ x. not (q x)) xs) ≡ 0
      → any q xs ≡ false
  any-kept q [] h = refl
  any-kept q (x ∷ xs) h = elim (Bool-cases (q x)) [
    | inl e ↦
        ground
          (arith, h, e, length-retain (λ x. not (q x)) xs, count_if-le-length (λ x. not (q x)) xs)
    | inr e ↦ rw e (any-kept q xs (ground (arith, h, e)))
  ]

  any-none : (outbox : List EventEnvelope) → any (λ e. contains_text [] e.event_id) outbox ≡ false
  unfolding contains_text
  any-none [] = refl
  any-none (e ∷ outbox) = any-none outbox

  remove_acked_events-any :
      (outbox : List EventEnvelope) (ids : List EventId)
      → ltb 0 (remove_acked_events outbox ids).1 ≡ false
      → any (λ e. contains_text ids e.event_id) outbox ≡ false
  unfolding remove_acked_events
  remove_acked_events-any [] ids h = refl
  remove_acked_events-any (e ∷ outbox) [] h = any-none (e ∷ outbox)
  remove_acked_events-any (e ∷ outbox) (id ∷ ids) h =
      any-kept (λ t. contains_text (id ∷ ids) t.event_id) (e ∷ outbox) (ground (arith, h))

  -- An acknowledgement of no event of the outbox.
  unfoldable pub Idle : NodeStateMutation → NodeLocalState → Type 0
  Idle m s =
      (ids : List EventId) × (m ≡ NodeStateMutation.persist_event_ack ids)
      × (any (λ e. contains_text ids e.event_id) s.event_outbox ≡ false)

  -- What it means that an answered mutation is on disk: the state was written in its compacted form
  -- and without an error, or it was an acknowledgement of no event of the outbox, for which nothing
  -- is written and nothing changes.
  pub Durable : NodeStateMutation → NodeLocalState → Store → Applied disk iter_next → Type 0
  Durable m s store (s', r, store') =
      (write (compact_for_persistence s') store ≡ (none, store'))
      ⊎ Idle m s × (s' ≡ s) × (store' ≡ store)

  -- A mutation that is answered without an error has been written, in the compacted form of the
  -- state that it leaves, by a write without an error. The one exception is an acknowledgement that
  -- names no event of the outbox: it leaves the state and the disk as they are, whatever the disk
  -- holds.
  pub apply_node_state_mutation-Durable :
      (m : NodeStateMutation) (s : NodeLocalState) (store : Store)
      → is_ok (apply_node_state_mutation disk iter_next m s store).1 ≡ true
      → Durable m s store (apply_node_state_mutation disk iter_next m s store)
  unfolding apply_node_state_mutation mutated Durable Idle
  apply_node_state_mutation-Durable (NodeStateMutation.persist_event_ack ids) s store h =
      let r = remove_acked_events s.event_outbox ids in
      elim (Bool-cases (ltb 0 r.1)) [
        | inl e ↦ rw e (
            inl (
              saved-durable (mutated disk iter_next (NodeStateMutation.persist_event_ack ids) s)
                (NodeStateMutationResult.removed_events r.1) store (rw e at h)))
        | inr e ↦ rw e (
            inr (
              (ids, refl, remove_acked_events-any s.event_outbox ids e),
              ap (λ o. record s { event_outbox = o })
                  (remove_acked_events-none s.event_outbox ids e),
              refl,
            ))
      ]
  apply_node_state_mutation-Durable m s store h =
      inl (saved-durable (mutated disk iter_next m s) NodeStateMutationResult.unit store h)

  apply_node_state_mutation-state :
      (m : NodeStateMutation) (s : NodeLocalState) (store : Store)
      → (apply_node_state_mutation disk iter_next m s store).0 ≡ mutated disk iter_next m s
  unfolding apply_node_state_mutation mutated saved
  apply_node_state_mutation-state (NodeStateMutation.persist_event_ack ids) s store =
      elim (Bool-cases (ltb 0 (remove_acked_events s.event_outbox ids).1)) [
        | inl e ↦ rw e (
            saved_as-state (mutated disk iter_next (NodeStateMutation.persist_event_ack ids) s) _ _)
        | inr e ↦ rw e refl
      ]
  apply_node_state_mutation-state m s store = saved_as-state (mutated disk iter_next m s) _ _

  -- A request that does not clear the registration.
  unfoldable pub keeps_enrollment : NodeStateRequest → Bool
  keeps_enrollment (NodeStateRequest.mutate NodeStateMutation.clear_core_registration) = false
  keeps_enrollment _ = true

  mutated-enrolled :
      (m : NodeStateMutation) (s : NodeLocalState)
      → keeps_enrollment (NodeStateRequest.mutate m) ≡ true
      → enrolled_in s ≡ true
      → enrolled_in (mutated disk iter_next m s) ≡ true
  unfolding mutated keeps_enrollment enrolled_in without_attempt
  mutated-enrolled NodeStateMutation.clear_core_registration s k h = ground (arith, k)
  mutated-enrolled (NodeStateMutation.persist_enrollment_identity id c) s k h = refl
  mutated-enrolled (NodeStateMutation.merge_command_state b c) s k h =
      merge-enrolled iter_next s b c ∙ h
  mutated-enrolled _ s k h = h

  handle_request-enrolled :
      (q : NodeStateRequest) (s : NodeLocalState) (store : Store)
      → keeps_enrollment q ≡ true
      → enrolled_in s ≡ true
      → enrolled_in (handle_request disk iter_next q s store).0 ≡ true
  unfolding handle_request
  handle_request-enrolled (NodeStateRequest.mutate m) s store k h =
      ap enrolled_in (apply_node_state_mutation-state m s store) ∙ mutated-enrolled m s k h
  handle_request-enrolled NodeStateRequest.snapshot s store k h = h
  handle_request-enrolled NodeStateRequest.is_enrolled s store k h = h
  handle_request-enrolled NodeStateRequest.shutdown s store k h = h

  -- The answer is not that the node is not enrolled.
  pub says_enrolled : Answer → Bool
  says_enrolled (Answer.enrolled b) = b
  says_enrolled _ = true

  handle_request-says :
      (q : NodeStateRequest) (s : NodeLocalState) (store : Store)
      → enrolled_in s ≡ true
      → says_enrolled (handle_request disk iter_next q s store).2 ≡ true
  unfolding handle_request says_enrolled
  handle_request-says (NodeStateRequest.mutate m) s store h = refl
  handle_request-says NodeStateRequest.snapshot s store h = refl
  handle_request-says NodeStateRequest.is_enrolled s store h = h
  handle_request-says NodeStateRequest.shutdown s store h = refl

  -- Once the node is enrolled, it stays enrolled through any sequence of requests that does not clear
  -- the registration, whatever the writes to the disk answer, and no question in between is answered
  -- that it is not enrolled.
  pub run_node_state_store-enrolled :
      (qs : List NodeStateRequest) (s : NodeLocalState) (store : Store)
      → all keeps_enrollment qs ≡ true
      → enrolled_in s ≡ true
      → (enrolled_in (run_node_state_store disk iter_next qs s store).0 ≡ true)
        × (all says_enrolled (run_node_state_store disk iter_next qs s store).2 ≡ true)
  unfolding run_node_state_store
  run_node_state_store-enrolled [] s store k h = (h, refl)
  run_node_state_store-enrolled (q ∷ qs) s store k h =
      let (s', store', answer, more) = handle_request disk iter_next q s store in
      let h' = handle_request-enrolled q s store (ground (arith, k)) h in
      let says = handle_request-says q s store h in
      let (a, b) = run_node_state_store-enrolled qs s' store' (ground (arith, k)) h' in
      elim (Bool-cases more) [ inl e ↦ rw (e, says) (a, b) | inr e ↦ rw (e, says) (h', refl) ]
