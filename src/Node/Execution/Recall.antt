-- ===== src/Node/Execution/Recall.antt =====
-- What a command that opens a runtime leaves for the commands that follow it.
use uprava.Prelude.{
  ◌≡◌, ap, inl, inr, Bool, true, Option, none, some, arith, Text, text_eq, text_eq_iff,
  if◌then◌else◌, Bool-cases, Map, get, get-insert,
}
use uprava.Protocol.Reference.{RuntimeSessionId}
use uprava.Protocol.Command.{CommandEnvelope, runtime_session_id}
use uprava.Node.State.{NodeLocalState, Text-discrete}
use uprava.Node.Merge.{same, holds}
use uprava.Node.Metadata.{
  Canonical, insert_if_changed, remember_all_of, payload_provider, payload_workspace_path,
  provider_for_command, workspace_path_for_command, opens_runtime, remember_runtime_metadata,
}

module _ {A : Type 0} (dec : Discrete A) where
  same-eq : (a b : A) → same dec a b ≡ true → a ≡ b
  same-eq a b h = elim (dec a b) [ yes e ↦ e | no e ↦ ground (arith, h) ]

  holds-eq : (o : Option A) (v : A) → holds dec o v ≡ true → o ≡ some v
  holds-eq none v h = ground arith
  holds-eq (some w) v h = ap (λ x. some x) (same-eq w v h)

  get-insert_if_changed :
      (m : Map A) (key j : Text) (v : A)
      → get j (insert_if_changed dec m key v).0 ≡ (if text_eq key j then some v else get j m)
  unfolding insert_if_changed
  get-insert_if_changed m key j v = elim (Bool-cases (holds dec (get key m) v)) [
    | inl h ↦ ground (arith, h, holds-eq (get key m) v h, text_eq_iff key j)
    | inr h ↦ ground (arith, h, get-insert key j v m)
  ]

-- A command that opens a runtime and that names a provider and a workspace which the file system
-- accepts is remembered: a later command to the same runtime that names no provider and no workspace
-- of its own is given that provider and the canonical path. The runtimes of other commands are given
-- what they were given before.
pub remember-recall :
    (canonical : Canonical) (s : NodeLocalState) (c later : CommandEnvelope)
    (id j : RuntimeSessionId) (p w q : Text)
    → opens_runtime c.kind ≡ true
    → runtime_session_id c.target ≡ some id
    → runtime_session_id later.target ≡ some j
    → payload_provider c ≡ some p
    → payload_workspace_path c ≡ some w
    → canonical w ≡ inr q
    → payload_provider later ≡ none
    → payload_workspace_path later ≡ none
    → (s' : NodeLocalState) × (changed : Bool) × (remember_runtime_metadata canonical s c
        ≡ inr (s', changed))
      × (provider_for_command s' later
          ≡ (if text_eq id j then some p else provider_for_command s later))
      × (workspace_path_for_command s' later
          ≡ (if text_eq id j then some q else workspace_path_for_command s later))
unfolding remember_runtime_metadata provider_for_command workspace_path_for_command
    insert_if_changed
remember-recall canonical s c later id j p w q k t t' pc wc cw pl wl =
    let (s', changed) = remember_all_of s c id (some q) in
    (
      s',
      changed,
      ground (arith, k, t, wc, cw),
      rw (pl, t', k, pc) (get-insert_if_changed Text-discrete s.runtime_providers id j p),
      rw (wl, t') (get-insert_if_changed Text-discrete s.runtime_workspace_paths id j q),
    )
