-- ===== src/Node/Cancellation/Registry.antt =====
-- Cancellations that race with the start and the end of an execution.
use uprava.Prelude.{
  ℕ, ◌≡◌, refl, sym, ◌∙◌, subst, inl, inr, Bool, true, false, none, some, List, [], ◌∷◌, arith,
  Text, text_eq, contains_text, text_eq_refl, ◌==◌, Bool-cases, get, get-insert, get-remove,
  contains_text-set_insert, contains_text-set_remove, All, ==_iff,
}
use uprava.Node.Cancellation.{
  Watch, ExecutionCancellationGuard, ExecutionCancellationRegistry, begin, cancel, finish, abandon,
}

module _ (watch : Watch) where
  open watch use {
    Store, channel, send, borrow, is_open, known, drop_receivers, channel-fresh, channel-known,
    channel-known_self, channel-borrow, channel-open, send-open, send-closed, drop-closed,
  }

  -- What a receiver of the guard reads.
  pub is_cancelled : ExecutionCancellationGuard → ExecutionCancellationRegistry watch → Bool
  is_cancelled g r = borrow g.sender r.store

  -- A cancellation that arrives while an execution is registered is seen by it.
  pub cancel-begin :
      (key : Text) (remember : Bool) (r : ExecutionCancellationRegistry watch)
      → let (r1, guard) = begin watch key r in
        let (r2, delivered) = cancel watch key remember r1 in
        (delivered ≡ true) × (is_cancelled guard r2 ≡ true)
  unfolding begin cancel is_cancelled
  cancel-begin key remember r =
      let b = contains_text r.state.pending key in
      let (sender, store) = channel b r.store in
      let (ok, seen) = send-open sender true store (channel-open b r.store) in
      rw (get-insert key key sender r.state.senders, text_eq_refl key) (ok, seen)

  cancel-registered :
      (key : Text) (remember : Bool) (r : ExecutionCancellationRegistry watch) (c : ℕ)
      → get key r.state.senders ≡ some c
      → is_open c r.store ≡ true
      → ((cancel watch key remember r).1 ≡ true)
        × (borrow c (cancel watch key remember r).0.store ≡ true)
  unfolding cancel
  cancel-registered key remember r c h o = rw h (send-open c true r.store o)

  cancel-unreceived :
      (key : Text) (remember : Bool) (r : ExecutionCancellationRegistry watch) (c : ℕ)
      → get key r.state.senders ≡ some c
      → is_open c r.store ≡ false
      → cancel watch key remember r ≡ (r, false)
  unfolding cancel
  cancel-unreceived key remember r c h o = rw (h, send-closed c true r.store o) refl

  begin-registers :
      (key : Text) (r : ExecutionCancellationRegistry watch)
      → let (r1, guard) = begin watch key r in get key r1.state.senders ≡ some guard.sender
  unfolding begin
  begin-registers key r =
      let c = (channel (contains_text r.state.pending key) r.store).0 in
      ground (arith, get-insert key key c r.state.senders, text_eq_refl key)

  begin-open :
      (key : Text) (r : ExecutionCancellationRegistry watch)
      → let (r1, guard) = begin watch key r in is_open guard.sender r1.store ≡ true
  unfolding begin
  begin-open key r = channel-open (contains_text r.state.pending key) r.store

  begin-fresh :
      (key : Text) (r : ExecutionCancellationRegistry watch) (c : ℕ)
      → known c r.store ≡ true
      → (begin watch key r).1.sender == c ≡ false
  unfolding begin
  begin-fresh key r c h =
      let d = (channel (contains_text r.state.pending key) r.store).0 in
      elim (Bool-cases (d == c)) [
        | inl e ↦
            let same : d ≡ c = (==_iff d c).0 e in
            let k = subst (λ x. known x r.store ≡ true) (sym same) h in
            ground (arith, k, channel-fresh (contains_text r.state.pending key) r.store)
        | inr e ↦ e
      ]

  begin-known :
      (key : Text) (r : ExecutionCancellationRegistry watch)
      → let (r1, guard) = begin watch key r in known guard.sender r1.store ≡ true
  unfolding begin
  begin-known key r = channel-known_self (contains_text r.state.pending key) r.store

  begin-pending :
      (key : Text) (r : ExecutionCancellationRegistry watch)
      → contains_text (begin watch key r).0.state.pending key ≡ false
  unfolding begin
  begin-pending key r =
      ground (arith, contains_text-set_remove key key r.state.pending, text_eq_refl key)

  begin-cancelled :
      (key : Text) (r : ExecutionCancellationRegistry watch)
      → let (r1, guard) = begin watch key r in
        is_cancelled guard r1 ≡ contains_text r.state.pending key
  unfolding begin is_cancelled
  begin-cancelled key r = channel-borrow (contains_text r.state.pending key) r.store

  begin-key :
      (key : Text) (r : ExecutionCancellationRegistry watch) → (begin watch key r).1.key ≡ key
  unfolding begin
  begin-key key r = refl

  finish-stale :
      (key : Text) (g : ExecutionCancellationGuard) (r : ExecutionCancellationRegistry watch)
      → let (r1, guard) = begin watch key r in
        (g.key ≡ key) → (guard.sender == g.sender ≡ false) → finish watch g r1 ≡ r1
  unfolding finish
  finish-stale key g r k d = rw (k, begin-registers key r, d) refl

  -- What other tasks do meanwhile.
  pub data Operation : Type 0 where
    starts : Text → Operation
    cancels : Text → Bool → Operation
    ends : ExecutionCancellationGuard → Operation
    fails : ExecutionCancellationGuard → Operation

  unfoldable pub operation_key : Operation → Text
  operation_key (starts k) = k
  operation_key (cancels k _) = k
  operation_key (ends g) = g.key
  operation_key (fails g) = g.key

  perform : Operation → ExecutionCancellationRegistry watch → ExecutionCancellationRegistry watch
  perform (starts k) r = (begin watch k r).0
  perform (cancels k remember) r = (cancel watch k remember r).0
  perform (ends g) r = finish watch g r
  perform (fails g) r = abandon watch g r

  pub perform_all :
      List Operation → ExecutionCancellationRegistry watch → ExecutionCancellationRegistry watch
  perform_all [] r = r
  perform_all (o ∷ os) r = perform_all os (perform o r)

  -- No operation of the list is about the key.
  unfoldable pub Elsewhere : Text → List Operation → Type 0
  Elsewhere key = All (λ o. text_eq (operation_key o) key ≡ false)

  perform-elsewhere :
      (key : Text) (o : Operation) (r : ExecutionCancellationRegistry watch)
      → text_eq (operation_key o) key ≡ false
      → (get key (perform o r).state.senders ≡ get key r.state.senders)
        × (contains_text (perform o r).state.pending key ≡ contains_text r.state.pending key)
  unfolding perform operation_key begin cancel finish abandon
  perform-elsewhere key (starts k) r h = ground (
    arith,
    get-insert k key (channel (contains_text r.state.pending k) r.store).0 r.state.senders,
    contains_text-set_remove k key r.state.pending,
  )
  perform-elsewhere key (cancels k remember) r h =
      ground (arith, contains_text-set_insert k key r.state.pending)
  perform-elsewhere key (ends g) r h = ground (arith, get-remove g.key key r.state.senders)
  perform-elsewhere key (fails g) r h = (refl, refl)

  perform_all-Elsewhere :
      (key : Text) (os : List Operation) (r : ExecutionCancellationRegistry watch)
      → Elsewhere key os
      → (get key (perform_all os r).state.senders ≡ get key r.state.senders)
        × (contains_text (perform_all os r).state.pending key ≡ contains_text r.state.pending key)
  unfolding perform_all Elsewhere
  perform_all-Elsewhere key [] r h = (refl, refl)
  perform_all-Elsewhere key (o ∷ os) r h =
      let (a, b) = perform-elsewhere key o r h.0 in
      let (a', b') = perform_all-Elsewhere key os (perform o r) h.1 in (a' ∙ a, b' ∙ b)

  -- A remembered cancellation that arrives while no execution of its key is registered reaches the
  -- next one that starts, whatever other executions do in between, and it reaches only that one: it
  -- is no longer pending afterwards.
  pub cancel-before-begin :
      (key : Text) (os : List Operation) (r : ExecutionCancellationRegistry watch)
      → get key r.state.senders ≡ none
      → Elsewhere key os
      → let r1 = (cancel watch key true r).0 in
        let (r2, guard) = begin watch key (perform_all os r1) in
        (is_cancelled guard r2 ≡ true) × (contains_text r2.state.pending key ≡ false)
  unfolding begin cancel is_cancelled
  cancel-before-begin key os r idle h =
      let r1 = (cancel watch key true r).0 in
      let r2 = perform_all os r1 in
      let kept = (perform_all-Elsewhere key os r1 h).1 in
      let noted : contains_text r1.state.pending key ≡ true =
        ground (arith, idle, contains_text-set_insert key key r.state.pending, text_eq_refl key) in
      (
        channel-borrow (contains_text r2.state.pending key) r2.store ∙ kept ∙ noted,
        ground (arith, contains_text-set_remove key key r2.state.pending, text_eq_refl key),
      )

  -- When an execution of a key starts while an earlier one is registered, the end of the earlier one
  -- leaves the later one registered: a cancellation still reaches it.
  pub cancel-finish_stale :
      (key : Text) (remember : Bool) (r : ExecutionCancellationRegistry watch)
      → let (r1, earlier) = begin watch key r in
        let (r2, later) = begin watch key r1 in
        let (r4, delivered) = cancel watch key remember (finish watch earlier r2) in
        (delivered ≡ true) × (is_cancelled later r4 ≡ true)
  unfolding is_cancelled
  cancel-finish_stale key remember r =
      let (r1, earlier) = begin watch key r in
      let (r2, later) = begin watch key r1 in
      let apart = begin-fresh key r1 earlier.sender (begin-known key r) in
      rw (finish-stale key earlier r1 (begin-key key r) apart) (
        cancel-registered key remember r2 later.sender (begin-registers key r1) (begin-open key r1))

  -- After an execution has been abandoned its sender stays registered with no receiver. A
  -- cancellation of its key is then neither delivered nor remembered, even if it asks to be
  -- remembered: the next execution of the key starts uncancelled.
  pub cancel-abandon_lost :
      (key : Text) (r : ExecutionCancellationRegistry watch)
      → let (r1, guard) = begin watch key r in
        let (r2, delivered) = cancel watch key true (abandon watch guard r1) in
        let (r3, next) = begin watch key r2 in (delivered ≡ false) × (is_cancelled next r3 ≡ false)
  unfolding abandon
  cancel-abandon_lost key r =
      let (r1, guard) = begin watch key r in
      let r2 = abandon watch guard r1 in
      let lost =
        cancel-unreceived key true r2 guard.sender (begin-registers key r)
          (drop-closed guard.sender r1.store) in
      rw lost (refl, begin-cancelled key r2 ∙ begin-pending key r)
