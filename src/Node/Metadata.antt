-- ===== src/Node/Metadata.antt =====
-- What Node remembers about a runtime when a command starts or resumes it, and what later commands
-- read back: `remember_runtime_metadata` and the functions beside it of
-- crates/uprava-node/src/runtime/application/execution.rs, `bounded_text` of provider.rs.
use uprava.Prelude.{
  ℕ, ◌⊎◌, inl, inr, Bool, true, false, ◌&&◌, ◌||◌, not, Option, none, some, ◌++◌, Text, codes, trim,
  ltb, if◌then◌else◌, and_then, option_map, or_else, is_some, option_filter, length, take, is_empty,
  Map, get, insert,
}
use uprava.Protocol.Json.{Json, json_get, as_str}
use uprava.Protocol.Reference.{RuntimeSessionId}
use uprava.Protocol.Domain.{CommandKind}
use uprava.Protocol.Command.{
  CommandEnvelope, provider, workspace_path, display_name, path, provider_resume_ref,
  runtime_session_id,
}
use uprava.Node.State.{NodeLocalState, ProviderResumeRef, Text-discrete, ProviderResumeRef-discrete}
use uprava.Node.Merge.{holds}
use uprava.Node.Events.{WorkspaceInspectError}

unfoldable pub bounded_text : Text → ℕ → Text
bounded_text value max_chars =
    let text = take max_chars value in
    if ltb max_chars (length value) then text ++ codes "..." else text

-- `.map(str::trim).filter(|value| !value.is_empty())`
abbrev pub nonblank : Option Text → Option Text
nonblank o = option_filter (λ v. not (is_empty v)) (option_map trim o)

-- `command_payload_str`, at each of the keys that it knows
unfoldable pub payload_provider : CommandEnvelope → Option Text
payload_provider c = nonblank (provider c.payload)

unfoldable pub payload_workspace_path : CommandEnvelope → Option Text
payload_workspace_path c = nonblank (workspace_path c.payload)

unfoldable pub payload_display_name : CommandEnvelope → Option Text
payload_display_name c = nonblank (display_name c.payload)

unfoldable pub payload_path : CommandEnvelope → Option Text
payload_path c = nonblank (path c.payload)

unfoldable pub provider_resume_ref_from_json : Json → Option ProviderResumeRef
provider_resume_ref_from_json value =
    let session =
      option_map (λ v. bounded_text v 512)
        (nonblank (and_then (json_get (codes "provider_session_id") value) as_str)) in
    let cursor =
      option_map (λ v. bounded_text v 512)
        (nonblank (and_then (json_get (codes "resume_cursor") value) as_str)) in
    if not (is_some session) && not (is_some cursor)
    then none
    else some (record { provider_session_id = session; resume_cursor = cursor })

unfoldable pub command_provider_resume_ref : CommandEnvelope → Option ProviderResumeRef
unfolding provider_resume_ref_from_json
command_provider_resume_ref c =
    and_then (provider_resume_ref c.payload) provider_resume_ref_from_json

module _ {A : Type 0} (dec : Discrete A) where
  -- `insert_if_changed`: the map, and whether it changed
  unfoldable pub insert_if_changed : Map A → Text → A → Map A × Bool
  insert_if_changed m key value =
      if holds dec (get key m) value then (m, false) else (insert key value m, true)

  -- `if let Some(value) = .. { changed |= insert_if_changed(..) }`
  abbrev pub insert_given : Map A → Text → Option A → Map A × Bool
  unfolding insert_if_changed
  insert_given m key none = (m, false)
  insert_given m key (some value) = insert_if_changed m key value

abbrev pub looked_up : Map Text → Option RuntimeSessionId → Option Text
looked_up m none = none
looked_up m (some id) = get id m

unfoldable pub provider_for_command : NodeLocalState → CommandEnvelope → Option Text
provider_for_command s c =
    or_else (payload_provider c) (looked_up s.runtime_providers (runtime_session_id c.target))

unfoldable pub workspace_path_for_command : NodeLocalState → CommandEnvelope → Option Text
workspace_path_for_command s c =
    or_else (payload_workspace_path c)
      (looked_up s.runtime_workspace_paths (runtime_session_id c.target))

-- `matches!(kind, StartRuntime | ResumeRuntime)`
abbrev pub opens_runtime : CommandKind → Bool
opens_runtime CommandKind.start_runtime = true
opens_runtime CommandKind.resume_runtime = true
opens_runtime _ = false

abbrev pub resumes_runtime : CommandKind → Bool
resumes_runtime CommandKind.resume_runtime = true
resumes_runtime _ = false

-- `canonical_workspace_root(config, path)`, which asks the file system
abbrev pub Canonical : Type 0
Canonical = Text → WorkspaceInspectError ⊎ Text

abbrev pub canonical_path : Canonical → Option Text → WorkspaceInspectError ⊎ Option Text
canonical_path canonical none = inr none
canonical_path canonical (some p) = elim (canonical p) [ inl e ↦ inl e | inr q ↦ inr (some q) ]

-- What follows the check of the workspace's path.
abbrev pub remember_all_of :
    NodeLocalState → CommandEnvelope → RuntimeSessionId → Option Text → NodeLocalState × Bool
remember_all_of s c id canonical =
    let given_provider = if opens_runtime c.kind then payload_provider c else none in
    let given_ref = if resumes_runtime c.kind then command_provider_resume_ref c else none in
    let (providers, a) = insert_given Text-discrete s.runtime_providers id given_provider in
    let (refs, b) =
      insert_given ProviderResumeRef-discrete s.runtime_provider_resume_refs id given_ref in
    let (paths, d) = insert_given Text-discrete s.runtime_workspace_paths id canonical in
    (
      record s {
        runtime_providers = providers;
        runtime_provider_resume_refs = refs;
        runtime_workspace_paths = paths;
      },
      a || b || d,
    )

abbrev pub remember_path :
    NodeLocalState
    → CommandEnvelope
    → RuntimeSessionId
    → WorkspaceInspectError ⊎ Option Text
    → WorkspaceInspectError ⊎ (NodeLocalState × Bool)
remember_path s c id (inl e) = inl e
remember_path s c id (inr q) = inr (remember_all_of s c id q)

abbrev pub remember_at :
    Canonical
    → NodeLocalState
    → CommandEnvelope
    → Option RuntimeSessionId
    → WorkspaceInspectError ⊎ (NodeLocalState × Bool)
remember_at canonical s c none = inr (s, false)
remember_at canonical s c (some id) =
    let given = if opens_runtime c.kind then payload_workspace_path c else none in
    remember_path s c id (canonical_path canonical given)

-- The state after the call and whether it changed, or the error, with the state left as it was.
unfoldable pub remember_runtime_metadata :
    Canonical → NodeLocalState → CommandEnvelope → WorkspaceInspectError ⊎ (NodeLocalState × Bool)
remember_runtime_metadata canonical s c = remember_at canonical s c (runtime_session_id c.target)
