-- ===== src/Node/Merge/Events.antt =====
-- What the merge does to the outbox and to the counters.
use uprava.Prelude.{
  ◌+◌, ◌≤◌, ℕ, ◌≡◌, refl, inl, inr, true, false, ◌&&◌, ◌||◌, not, some, List, [], ◌∷◌, ◌++◌, arith,
  Text, text_eq, text_eq_iff, if◌then◌else◌, Bool-cases, unwrap_or, count_if, Map, get, insert,
  get-insert, maxℤ, ◌≤ℤ◌, maxℤ-ge_left, maxℤ-ge_right, ℤ, pos,
}
use uprava.Protocol.Reference.{EventId}
use uprava.Protocol.Event.{EventEnvelope}
use uprava.Node.Merge.{has_event, merge_events, changed_seq, merge_seqs}

has_event-append :
    (id : EventId) (xs ys : List EventEnvelope)
    → has_event id (xs ++ ys) ≡ (has_event id xs || has_event id ys)
unfolding has_event
has_event-append id [] ys = refl
has_event-append id (x ∷ xs) ys = ground (arith, has_event-append id xs ys)

-- An event is in the merged outbox exactly when the owner has it, or the command added it: an event
-- that was acknowledged and dropped from the owner since the snapshot does not come back.
pub has_event-merge_events :
    (id : EventId) (owner baseline candidate : List EventEnvelope)
    → has_event id (merge_events owner baseline candidate)
      ≡ (has_event id owner || (not (has_event id baseline) && has_event id candidate))
unfolding merge_events has_event
has_event-merge_events id owner baseline [] = ground arith
has_event-merge_events id owner baseline (e ∷ es) =
    let known = has_event e.event_id baseline || has_event e.event_id owner in
    let owner' = if known then owner else owner ++ e ∷ [] in
    ground (
      arith,
      has_event-merge_events id owner' baseline es,
      has_event-append id owner (e ∷ []),
      text_eq_iff e.event_id id,
    )

-- How often an event id stands in an outbox.
abbrev pub copies : EventId → List EventEnvelope → ℕ
copies id = count_if (λ e. text_eq e.event_id id)

copies-append :
    (id : EventId) (xs ys : List EventEnvelope) → copies id (xs ++ ys) ≡ copies id xs + copies id ys
copies-append id [] ys = omega arith
copies-append id (x ∷ xs) ys = ground (arith, copies-append id xs ys)

copies-eq-zero :
    (id : EventId) (xs : List EventEnvelope) → has_event id xs ≡ false → copies id xs ≡ 0
unfolding has_event
copies-eq-zero id [] h = refl
copies-eq-zero id (x ∷ xs) h = ground (arith, copies-eq-zero id xs)

-- The merge makes no second copy of an event: an id that stood at most once in the owner's outbox
-- stands at most once in the merged one.
pub copies-merge_events :
    (id : EventId) (owner baseline candidate : List EventEnvelope)
    → copies id owner ≤ 1
    → copies id (merge_events owner baseline candidate) ≤ 1
unfolding merge_events
copies-merge_events id owner baseline [] h = h
copies-merge_events id owner baseline (e ∷ es) h =
    let known = has_event e.event_id baseline || has_event e.event_id owner in
    let owner' = if known then owner else owner ++ e ∷ [] in
    copies-merge_events id owner' baseline es (
      ground (
        arith,
        copies-append id owner (e ∷ []),
        copies-eq-zero id owner,
        text_eq_iff e.event_id id,
      ))

-- The value of a counter that has not been set is 0.
abbrev pub counter : Text → Map ℤ → ℤ
counter id m = unwrap_or (get id m) (pos 0)

le_trans : (a b c : ℤ) → a ≤ℤ b → b ≤ℤ c → a ≤ℤ c
le_trans a b c h k = omega arith

-- No merge lowers a counter of the owner.
pub counter-le-merge_seqs :
    (id : Text) (owner baseline candidate : Map ℤ)
    → counter id owner ≤ℤ counter id (merge_seqs owner baseline candidate)
unfolding merge_seqs
counter-le-merge_seqs id owner baseline [] = omega arith
counter-le-merge_seqs id owner baseline ((j, seq) ∷ rest) =
    let raised = maxℤ (counter j owner) seq in
    let owner' = if changed_seq (get j baseline) seq then insert j raised owner else owner in
    le_trans (counter id owner) (counter id owner') (counter id (merge_seqs owner' baseline rest))
      (ground
        (arith, get-insert j id raised owner, text_eq_iff j id, maxℤ-ge_left (counter j owner) seq))
      (counter-le-merge_seqs id owner' baseline rest)

-- A counter that the command moved is at least where the command left it.
pub merge_seqs-ge-candidate :
    (id : Text) (seq : ℤ) (owner baseline candidate : Map ℤ)
    → get id candidate ≡ some seq
    → changed_seq (get id baseline) seq ≡ true
    → seq ≤ℤ counter id (merge_seqs owner baseline candidate)
unfolding merge_seqs get
merge_seqs-ge-candidate id seq owner baseline [] h c = cc
merge_seqs-ge-candidate id seq owner baseline ((j, s) ∷ rest) h c =
    let raised = maxℤ (counter j owner) s in
    let owner' = if changed_seq (get j baseline) s then insert j raised owner else owner in
    elim (Bool-cases (text_eq j id)) [
      | inl here ↦
          le_trans seq (counter id owner') (counter id (merge_seqs owner' baseline rest))
            (ground (
              arith,
              get-insert j id raised owner,
              text_eq_iff j id,
              maxℤ-ge_right (counter j owner) s,
            ))
            (counter-le-merge_seqs id owner' baseline rest)
      | inr there ↦ merge_seqs-ge-candidate id seq owner' baseline rest (ground arith) c
    ]
