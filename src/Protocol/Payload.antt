-- ===== src/Protocol/Payload.antt =====
-- `EventPayload::from_json` of crates/uprava-protocol/src/control.rs: how a JSON payload is read
-- as the payload of an event's kind.
use uprava.Prelude.{
  ◌≡◌, refl, ◌↔◌, Bool, true, false, Option, none, some, List, [], ◌∷◌, Text, codes, contains_text,
  arith, ℤ, pos, negsuc, ltb, if◌then◌else◌, and_then, unwrap_or, ◌^◌,
}
use uprava.Protocol.Json.{Json, JsonFields, json_get, as_str, as_bool, as_i64, empty_object}
use uprava.Protocol.Reference.{UpravaRef}
use uprava.Protocol.Domain.{EventKind, PlacementState, TaskRunState, TaskCleanupState}
use uprava.Protocol.Workspace.{ResourceBadge, GitWorkspaceSnapshot}
use uprava.Protocol.Event.{
  RuntimeStateEventData, ProviderActivityEventData, EventPayloadKind, EventPayload, matches_kind,
}

-- The decoders and the encoder that serde derives: `serde_json::from_value` at each type that
-- `from_json` reads, with `none` for a value that does not have the type's shape.
pub record Serde : Type 0 where
  pub runtime_data : Json → Option RuntimeStateEventData
  pub activity_data : Json → Option ProviderActivityEventData
  pub uprava_refs : Json → Option (List UpravaRef)
  pub uprava_ref : Json → Option UpravaRef
  pub placement_state : Json → Option PlacementState
  pub resource_badges : Json → Option (List ResourceBadge)
  pub git_snapshot : Json → Option GitWorkspaceSnapshot
  pub task_run_state : Json → Option TaskRunState
  pub task_cleanup_state : Json → Option TaskCleanupState
  pub to_value : EventPayloadKind → Json

-- `RuntimeStateEventData::default()`
abbrev pub default_runtime_data : RuntimeStateEventData
default_runtime_data = record {
  provider = none;
  mode = none;
  resume_source = none;
  provider_resume_ref = none;
  transcript_messages = none;
  reason = none;
  code = none;
  message = none;
  expiry_seconds = none;
}

-- `ProviderActivityEventData::default()`
abbrev pub default_activity_data : ProviderActivityEventData
default_activity_data = record {
  provider = none;
  source = none;
  provider_event_type = none;
  provider_item_id = none;
  provider_item_type = none;
  phase = none;
  status = none;
  summary = none;
  raw_event = none;
  raw_event_truncated = none;
  raw_event_original_chars = none;
  raw_event_preview = none;
  dropped_count = none;
  stream = none;
  limit_bytes = none;
  stdout_truncated = none;
  stderr_truncated = none;
  dropped_activity_count = none;
  max_process_output_bytes = none;
  max_activity_events = none;
  extension = none;
}

-- `optional_text`
unfoldable pub optional_text : Json → Text → Option Text
optional_text value key = and_then (json_get key value) as_str

-- the closure `text` of `from_json`
unfoldable pub text_field : Json → Text → Text
text_field value key = unwrap_or (and_then (json_get key value) as_str) []

unfoldable pub bool_field : Json → Text → Bool
bool_field value key = unwrap_or (and_then (json_get key value) as_bool) false

-- `i32::try_from`
unfoldable pub to_i32 : ℤ → Option ℤ
to_i32 (pos n) = if ltb n (2 ^ 31) then some (pos n) else none
to_i32 (negsuc n) = if ltb n (2 ^ 31) then some (negsuc n) else none

unfoldable pub i32_field : Json → Text → Option ℤ
unfolding to_i32
i32_field value key = and_then (and_then (json_get key value) as_i64) to_i32

-- the fields that `ProviderActivityEventData` has a place for
abbrev pub activity_keys : List Text
activity_keys =
    codes "provider"
    ∷ codes "source"
    ∷ codes "provider_event_type"
    ∷ codes "provider_item_id"
    ∷ codes "provider_item_type"
    ∷ codes "phase"
    ∷ codes "status"
    ∷ codes "summary"
    ∷ codes "raw_event"
    ∷ codes "raw_event_truncated"
    ∷ codes "raw_event_original_chars"
    ∷ codes "raw_event_preview"
    ∷ codes "dropped_count"
    ∷ codes "stream"
    ∷ codes "limit_bytes"
    ∷ codes "stdout_truncated"
    ∷ codes "stderr_truncated"
    ∷ codes "dropped_activity_count"
    ∷ codes "max_process_output_bytes"
    ∷ codes "max_activity_events"
    ∷ []

-- `extension.remove(key)` for each of the keys
unfoldable pub without_keys : List Text → JsonFields → JsonFields
without_keys ks JsonFields.end = JsonFields.end
without_keys ks (JsonFields.field j v fs) =
    let rest = without_keys ks fs in if contains_text ks j then rest else JsonFields.field j v rest

unfoldable pub with_extension : JsonFields → ProviderActivityEventData → ProviderActivityEventData
with_extension JsonFields.end d = d
with_extension fs d = record d { extension = some (Json.object fs) }

-- the members of the payload that no field holds are kept together
unfoldable pub activity_extension : Json → ProviderActivityEventData → ProviderActivityEventData
unfolding without_keys with_extension
activity_extension (Json.object fs) d = with_extension (without_keys activity_keys fs) d
activity_extension _ d = d

module _ (serde : Serde) where
  -- the closure `runtime` of `from_json`
  unfoldable pub runtime_field : Json → RuntimeStateEventData
  runtime_field value = unwrap_or (serde.runtime_data value) default_runtime_data

  -- The `match` of `from_json`.
  unfoldable pub payload_kind : EventKind → Json → EventPayloadKind
  unfolding runtime_field
  payload_kind EventKind.runtime_starting v = EventPayloadKind.runtime_starting (runtime_field v)
  payload_kind EventKind.runtime_ready v = EventPayloadKind.runtime_ready (runtime_field v)
  payload_kind EventKind.runtime_running v = EventPayloadKind.runtime_running (runtime_field v)
  payload_kind EventKind.runtime_blocked v = EventPayloadKind.runtime_blocked (runtime_field v)
  payload_kind EventKind.runtime_expired v = EventPayloadKind.runtime_expired (runtime_field v)
  payload_kind EventKind.runtime_resuming v = EventPayloadKind.runtime_resuming (runtime_field v)
  payload_kind EventKind.runtime_stopped v = EventPayloadKind.runtime_stopped (runtime_field v)
  payload_kind EventKind.runtime_error v =
      EventPayloadKind.runtime_error (text_field v (codes "code")) (text_field v (codes "message"))
  payload_kind EventKind.turn_started v = EventPayloadKind.turn_started
  payload_kind EventKind.turn_completed v = EventPayloadKind.turn_completed
  payload_kind EventKind.turn_interrupted v =
      EventPayloadKind.turn_interrupted (optional_text v (codes "provider"))
        (optional_text v (codes "code")) (optional_text v (codes "message"))
  payload_kind EventKind.provider_activity v =
      EventPayloadKind.provider_activity
        (activity_extension v (unwrap_or (serde.activity_data v) default_activity_data))
  payload_kind EventKind.provider_output_delta v =
      EventPayloadKind.provider_output_delta (text_field v (codes "content"))
  payload_kind EventKind.provider_message_completed v =
      EventPayloadKind.provider_message_completed (text_field v (codes "content"))
  payload_kind EventKind.approval_requested v =
      EventPayloadKind.approval_requested (text_field v (codes "approval_id"))
        (text_field v (codes "prompt")) (optional_text v (codes "provider"))
        (optional_text v (codes "provider_event_type")) (optional_text v (codes "source"))
  payload_kind EventKind.approval_resolved v =
      EventPayloadKind.approval_resolved (text_field v (codes "approval_id"))
        (bool_field v (codes "approved")) (text_field v (codes "message"))
  payload_kind EventKind.coordination_warning_acknowledged v =
      EventPayloadKind.coordination_warning_acknowledged (text_field v (codes "warning_kind"))
        (optional_text v (codes "message"))
        (unwrap_or (and_then (json_get (codes "affected_refs") v) serde.uprava_refs) [])
  payload_kind EventKind.workspace_validated v =
      EventPayloadKind.workspace_validated (text_field v (codes "placement_id"))
        (text_field v (codes "display_name")) (text_field v (codes "workspace_path"))
        (unwrap_or (and_then (json_get (codes "state") v) serde.placement_state)
          PlacementState.error)
        (unwrap_or (and_then (json_get (codes "resource_badges") v) serde.resource_badges) [])
        (and_then (json_get (codes "git_snapshot") v) serde.git_snapshot)
  payload_kind EventKind.resource_snapshot_updated v =
      EventPayloadKind.resource_snapshot_updated (text_field v (codes "placement_id"))
        (text_field v (codes "display_name")) (text_field v (codes "workspace_path"))
        (unwrap_or (and_then (json_get (codes "state") v) serde.placement_state)
          PlacementState.error)
        (unwrap_or (and_then (json_get (codes "resource_badges") v) serde.resource_badges) [])
        (and_then (json_get (codes "git_snapshot") v) serde.git_snapshot)
  payload_kind EventKind.workspace_file_written v =
      EventPayloadKind.workspace_file_written (text_field v (codes "placement_id"))
        (text_field v (codes "path")) (text_field v (codes "edit_id"))
  payload_kind EventKind.workspace_command_completed v =
      EventPayloadKind.workspace_command_completed (text_field v (codes "placement_id"))
        (text_field v (codes "terminal_command_id")) (bool_field v (codes "success"))
        (i32_field v (codes "exit_code")) (bool_field v (codes "stdout_truncated"))
        (bool_field v (codes "stderr_truncated"))
  payload_kind EventKind.workspace_check_completed v =
      EventPayloadKind.workspace_check_completed (text_field v (codes "placement_id"))
        (unwrap_or (optional_text v (codes "check_run_id"))
          (text_field v (codes "terminal_command_id")))
        (bool_field v (codes "success")) (i32_field v (codes "exit_code"))
        (bool_field v (codes "stdout_truncated")) (bool_field v (codes "stderr_truncated"))
  payload_kind EventKind.workspace_diff_observed v =
      EventPayloadKind.workspace_diff_observed (text_field v (codes "placement_id"))
        (text_field v (codes "diff_id")) (bool_field v (codes "summary_truncated"))
        (bool_field v (codes "diff_truncated"))
  payload_kind EventKind.deduction_requested v =
      EventPayloadKind.deduction_requested (text_field v (codes "deduction_id"))
        (unwrap_or (and_then (json_get (codes "scope_ref") v) serde.uprava_ref)
          (UpravaRef.unknown (codes "deduction_scope") empty_object))
        (text_field v (codes "question"))
  payload_kind EventKind.deduction_completed v =
      EventPayloadKind.deduction_completed (text_field v (codes "deduction_id"))
  payload_kind EventKind.deduction_invalid v =
      EventPayloadKind.deduction_invalid (text_field v (codes "deduction_id"))
        (text_field v (codes "code")) (text_field v (codes "message"))
  payload_kind EventKind.deduction_failed v =
      EventPayloadKind.deduction_failed (text_field v (codes "deduction_id"))
        (text_field v (codes "code")) (text_field v (codes "message"))
  payload_kind EventKind.deduction_cancelled v =
      EventPayloadKind.deduction_cancelled (text_field v (codes "deduction_id"))
  payload_kind EventKind.task_run_state_changed v =
      EventPayloadKind.task_run_state_changed (text_field v (codes "task_run_id"))
        (unwrap_or (and_then (json_get (codes "state") v) serde.task_run_state) TaskRunState.failed)
        (unwrap_or (and_then (json_get (codes "cleanup_state") v) serde.task_cleanup_state)
          TaskCleanupState.pending)
        (optional_text v (codes "message"))
  payload_kind EventKind.extension v =
      EventPayloadKind.extension (unwrap_or (optional_text v (codes "name")) (codes "unknown"))
        (unwrap_or (json_get (codes "value") v) Json.null)

  -- `From<EventPayloadKind>`
  unfoldable pub payload_of : EventPayloadKind → EventPayload
  payload_of k = record { kind = k; json = serde.to_value k }

  unfoldable pub from_json : EventKind → Json → EventPayload
  unfolding payload_kind payload_of
  from_json kind v = payload_of (payload_kind kind v)

  from_json-matches_kind_only :
      (kind k : EventKind) (v : Json) → matches_kind (from_json kind v).kind k ≡ true → k ≡ kind
  unfolding from_json matches_kind
  from_json-matches_kind_only EventKind.runtime_starting k v h = ground arith
  from_json-matches_kind_only _ k v h = ground arith

  from_json-matches_kind_self :
      (kind : EventKind) (v : Json) → matches_kind (from_json kind v).kind kind ≡ true
  unfolding from_json matches_kind
  from_json-matches_kind_self EventKind.runtime_starting v = refl
  from_json-matches_kind_self _ v = refl

  -- Whatever the JSON document, and however its parts decode, the payload that `from_json` builds
  -- for an event kind is accepted by `matches_kind` for that kind and for no other.
  pub from_json-matches_kind :
      (kind k : EventKind) (v : Json) → (matches_kind (from_json kind v).kind k ≡ true) ↔ (k ≡ kind)
  from_json-matches_kind kind k v =
      (from_json-matches_kind_only kind k v, λ e. rw e (from_json-matches_kind_self kind v))
