-- ===== src/Server/Control/Owners.antt =====
-- Who owns a runtime or a session, and what the check of the owner of an event rules out.
use uprava.Prelude.{
  false-true, ◌≡◌, refl, sym, ap, ◌∙◌, inl, inr, Bool, true, false, not, Option, none, some, List,
  [], ◌∷◌, map, arith, Text, text_eq, Bool-cases, and_then, option_map, unwrap_or, is_some,
}
use mathlib.Core.Path.{fun_ext}
use uprava.Protocol.Reference.{NodeId, RuntimeSessionId, SessionThreadId}
use uprava.Protocol.Event.{EventEnvelope}
use uprava.Server.Support.{Validated}
use uprava.Server.Tables.{Db, select_one, column_is}
use uprava.Server.Apply.Frame.{runtime_key, session_key, placement_key, Spares}
use uprava.Server.Ownership.{
  allow, placement_owner, session_owner, runtime_session, runtime_owner, validate_runtime_owner,
  check_actor, check_command, check_context, check_runtime, check_session, check_scope,
  ◌then_check◌, validate_event_owner,
}

-- A look-up of one column needs no more than the keys.
option_map-select_one :
    {A : Type 0} (key : A → Text × Text) (id : Text) (rows : List A)
    → option_map (λ r. (key r).1) (select_one (λ r. text_eq (key r).0 id) rows)
      ≡ option_map (λ (k : Text × Text). k.1) (select_one (λ k. text_eq k.0 id) (map key rows))
unfolding select_one
option_map-select_one key id [] = refl
option_map-select_one key id (r ∷ rows) = elim (Bool-cases (text_eq (key r).0 id)) [
  | inl e ↦ rw e refl
  | inr e ↦ rw e (option_map-select_one key id rows)
]

-- The rows of runtimes, sessions and placements name the same aggregates as before.
pub record SameKeys (db db' : Db) : Type 0 where
  pub runtime_keys : map runtime_key db'.runtimes ≡ map runtime_key db.runtimes
  pub session_keys : map session_key db'.sessions ≡ map session_key db.sessions
  pub placement_keys : map placement_key db'.placements ≡ map placement_key db.placements

module _ (db db' : Db) (same : SameKeys db db') where
  runtime_session-SameKeys :
      (id : RuntimeSessionId) → runtime_session id db' ≡ runtime_session id db
  runtime_session-SameKeys id =
      option_map-select_one runtime_key id db'.runtimes
      ∙ ap (λ ks. option_map (λ (k : Text × Text). k.1) (select_one (λ k. text_eq k.0 id) ks))
          same.runtime_keys
      ∙ sym (option_map-select_one runtime_key id db.runtimes)

  placement_owner-SameKeys : (id : Text) → placement_owner id db' ≡ placement_owner id db
  unfolding placement_owner
  placement_owner-SameKeys id =
      option_map-select_one placement_key id db'.placements
      ∙ ap (λ ks. option_map (λ (k : Text × Text). k.1) (select_one (λ k. text_eq k.0 id) ks))
          same.placement_keys
      ∙ sym (option_map-select_one placement_key id db.placements)

  and_then-option_map :
      {A : Type 0} (k : A → Text) (f : Text → Option Text) (o : Option A)
      → and_then o (λ a. f (k a)) ≡ and_then (option_map k o) f
  and_then-option_map k f none = refl
  and_then-option_map k f (some a) = refl

  session_owner-SameKeys : (id : SessionThreadId) → session_owner id db' ≡ session_owner id db
  unfolding session_owner
  session_owner-SameKeys id =
      and_then-option_map (λ s. s.project_placement_id) (λ p. placement_owner p db')
        (select_one (λ s. text_eq s.session_thread_id id) db'.sessions)
      ∙ ap (λ o. and_then o (λ p. placement_owner p db'))
          (option_map-select_one session_key id db'.sessions
            ∙ ap (λ ks. option_map (λ (k : Text × Text). k.1) (select_one (λ k. text_eq k.0 id) ks))
                same.session_keys
            ∙ sym (option_map-select_one session_key id db.sessions))
      ∙ ap
          (λ f.
            and_then
              (option_map (λ s. s.project_placement_id)
                (select_one (λ s. text_eq s.session_thread_id id) db.sessions))
              f)
          (fun_ext placement_owner-SameKeys)
      ∙ sym (
          and_then-option_map (λ s. s.project_placement_id) (λ p. placement_owner p db)
            (select_one (λ s. text_eq s.session_thread_id id) db.sessions))

  runtime_owner-SameKeys : (id : RuntimeSessionId) → runtime_owner id db' ≡ runtime_owner id db
  unfolding runtime_owner
  runtime_owner-SameKeys id =
      ap (λ o. and_then o (λ s. session_owner s db')) (runtime_session-SameKeys id)
      ∙ ap (λ f. and_then (runtime_session id db) f) (fun_ext session_owner-SameKeys)

-- The aggregates that are not the node's.
abbrev pub foreign_runtime : NodeId → Db → RuntimeSessionId → Bool
foreign_runtime node db id = not (column_is (runtime_owner id db) node)

abbrev pub foreign_session : NodeId → Db → SessionThreadId → Bool
foreign_session node db id = not (column_is (session_owner id db) node)

both_ok : (a b : Validated) → (a then_check b) ≡ inr tt → (a ≡ inr tt) × (b ≡ inr tt)
both_ok (inl e) b h = grind (arith, h)
both_ok (inr ok) b h = (refl, h)

allow-ok : (b : Bool) (code message : Text) → allow b code message ≡ inr tt → b ≡ true
allow-ok true code message h = refl
allow-ok false code message h = grind (arith, h)

module _ (node : NodeId) (start : Db) where
  runtime-checked :
      (o : Option RuntimeSessionId) (db : Db)
      → SameKeys start db
      → check_runtime node o db ≡ inr tt
      → (id : RuntimeSessionId) → o ≡ some id
      → foreign_runtime node start id ≡ false
  unfolding validate_runtime_owner
  runtime-checked none db same ok id e = absurd (false-true (ap is_some e))
  runtime-checked (some x) db same ok id e =
      let owned = allow-ok (column_is (runtime_owner x db) node) _ _ ok in
      ap (λ i. foreign_runtime node start i) (sym (ap (λ o. unwrap_or o id) e))
      ∙ ap (λ o. not (column_is o node)) (sym (runtime_owner-SameKeys start db same x))
      ∙ ap not owned

  session-checked :
      (o : Option SessionThreadId) (db : Db)
      → SameKeys start db
      → check_session node o db ≡ inr tt
      → (id : SessionThreadId) → o ≡ some id
      → foreign_session node start id ≡ false
  session-checked none db same ok id e = absurd (false-true (ap is_some e))
  session-checked (some x) db same ok id e =
      let owned = allow-ok (column_is (session_owner x db) node) _ _ ok in
      ap (λ i. foreign_session node start i) (sym (ap (λ o. unwrap_or o id) e))
      ∙ ap (λ o. not (column_is o node)) (sym (session_owner-SameKeys start db same x))
      ∙ ap not owned

  -- An event that passes the check names no runtime and no session of another node.
  pub validate_event_owner-Spares :
      (event : EventEnvelope) (db : Db)
      → SameKeys start db
      → validate_event_owner node event db ≡ inr tt
      → Spares (foreign_runtime node start) (foreign_session node start) event
  unfolding validate_event_owner
  validate_event_owner-Spares event db same ok =
      let on = both_ok (allow (column_is event.node_id node) _ _) _ ok in
      let on = both_ok (check_actor node event.actor_ref) _ on.1 in
      let on = both_ok (check_command node event event.command_id db) _ on.1 in
      let on = both_ok (check_context event.runtime_session_id event.session_thread_id db) _ on.1 in
      let (runtime, rest) = both_ok (check_runtime node event.runtime_session_id db) _ on.1 in
      let session =
        (both_ok (check_session node event.session_thread_id db)
          (check_scope node event event.scope_ref db) rest).0 in
      record {
        runtime_spared = runtime-checked event.runtime_session_id db same runtime;
        session_spared = session-checked event.session_thread_id db same session;
      }
