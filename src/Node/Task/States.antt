-- ===== src/Node/Task/States.antt =====
-- The identifiers of the events of a task's states.
use uprava.Prelude.{
  ℕ, ◌≡◌, refl, sym, ap, ◌∙◌, true, false, [], ◌∷◌, ◌++◌, arith, Text, codes, contains_char, ◌==◌,
  if◌then◌else◌, unwrap_or, parse_u64, decimal, decimal_from, append-cancel_left,
}
use uprava.Protocol.Reference.{TaskRunId}
use uprava.Protocol.Domain.{TaskRunState}
use uprava.Node.Task.{task_state_seq, task_event_id}

append_assoc : (a b c : Text) → (a ++ b) ++ c ≡ a ++ (b ++ c)
append_assoc [] b c = refl
append_assoc (x ∷ a) b c = ap (λ t. x ∷ t) (append_assoc a b c)

contains_char-append : (c : ℕ) (s t : Text) → contains_char c (s ++ c ∷ t) ≡ true
unfolding contains_char
contains_char-append c [] t = ground arith
contains_char-append c (d ∷ s) t = ground (arith, contains_char-append c s t)

-- Two texts that end in a separator and a tail without it are equal only part by part.
tail_unique :
    (c : ℕ) (x y d e : Text)
    → contains_char c d ≡ false
    → contains_char c e ≡ false
    → x ++ c ∷ d ≡ y ++ c ∷ e
    → (x ≡ y) × (d ≡ e)
tail_unique c [] [] d e h k eq = (refl, ground (arith, eq))
tail_unique c [] (z ∷ y) d e h k eq =
    let inside : d ≡ y ++ c ∷ e = ground (arith, eq) in
    ground (arith, h, ap (contains_char c) inside, contains_char-append c y e)
tail_unique c (z ∷ x) [] d e h k eq =
    let inside : x ++ c ∷ d ≡ e = ground (arith, eq) in
    ground (arith, k, ap (contains_char c) inside, contains_char-append c x d)
tail_unique c (z ∷ x) (w ∷ y) d e h k eq =
    let (p, q) = tail_unique c x y d e h k (ground (arith, eq)) in (ground (arith, eq, p), q)

digits : TaskRunState → Text
unfolding task_state_seq
digits state = decimal (task_state_seq state)

digits-plain : (state : TaskRunState) → contains_char 58 (digits state) ≡ false
unfolding digits task_state_seq contains_char decimal decimal_from
digits-plain TaskRunState.queued = refl
digits-plain TaskRunState.preparing_workspace = refl
digits-plain TaskRunState.starting_runtime = refl
digits-plain TaskRunState.running = refl
digits-plain TaskRunState.checking = refl
digits-plain TaskRunState.collecting_evidence = refl
digits-plain TaskRunState.succeeded = refl
digits-plain TaskRunState.failed = refl
digits-plain TaskRunState.cancelling = refl
digits-plain TaskRunState.cancelled = refl
digits-plain TaskRunState.timed_out = refl

state_at : ℕ → TaskRunState
state_at n =
    if n == 10
    then TaskRunState.queued
    else if n == 20
    then TaskRunState.preparing_workspace
    else if n == 30
    then TaskRunState.starting_runtime
    else if n == 40
    then TaskRunState.running
    else if n == 50
    then TaskRunState.checking
    else if n == 60
    then TaskRunState.collecting_evidence
    else if n == 70
    then TaskRunState.succeeded
    else if n == 80
    then TaskRunState.failed
    else if n == 90
    then TaskRunState.cancelling
    else if n == 100
    then TaskRunState.cancelled
    else TaskRunState.timed_out

-- The state that the decimal digits of a sequence number stand for.
state_of : Text → TaskRunState
unfolding state_at
state_of s = state_at (unwrap_or (parse_u64 s) 0)

state_of-digits : (state : TaskRunState) → state_of (digits state) ≡ state
unfolding state_of state_at digits task_state_seq decimal decimal_from parse_u64
state_of-digits TaskRunState.queued = refl
state_of-digits TaskRunState.preparing_workspace = refl
state_of-digits TaskRunState.starting_runtime = refl
state_of-digits TaskRunState.running = refl
state_of-digits TaskRunState.checking = refl
state_of-digits TaskRunState.collecting_evidence = refl
state_of-digits TaskRunState.succeeded = refl
state_of-digits TaskRunState.failed = refl
state_of-digits TaskRunState.cancelling = refl
state_of-digits TaskRunState.cancelled = refl
state_of-digits TaskRunState.timed_out = refl

-- The events of different task runs, and those of different states of one run, have different
-- identifiers, whatever the identifier of the run contains.
pub task_event_id-injective :
    (id id' : TaskRunId) (state state' : TaskRunState)
    → task_event_id id state ≡ task_event_id id' state'
    → (id ≡ id') × (state ≡ state')
unfolding task_event_id digits
task_event_id-injective id id' state state' eq =
    let (p, q) =
      tail_unique 58 (codes "task-run:" ++ id) (codes "task-run:" ++ id') (digits state)
        (digits state') (digits-plain state) (digits-plain state')
        (sym (append_assoc (codes "task-run:" ++ id) (codes ":") (digits state))
          ∙ eq
          ∙ append_assoc (codes "task-run:" ++ id') (codes ":") (digits state')) in
    (
      append-cancel_left (codes "task-run:") id id' p,
      sym (state_of-digits state) ∙ ap state_of q ∙ state_of-digits state',
    )
