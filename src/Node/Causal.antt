-- ===== src/Node/Causal.antt =====
-- The events that record what a workspace command changed or observed: `causal_workspace_events`
-- of crates/uprava-node/src/runtime/application/execution.rs.
use uprava.Prelude.{
  ◌+◌, Bool, true, false, Option, none, some, List, [], ◌∷◌, ◌++◌, Text, codes, if◌then◌else◌,
  option_map, length, Map, ℤ, pos,
}
use uprava.Protocol.Json.{Json}
use uprava.Protocol.Reference.{DateTime, CommandId, UpravaRef, TextRange}
use uprava.Protocol.Domain.{CommandKind, CommandState, EventKind}
use uprava.Protocol.Workspace.{WorkspaceCommandIntent, WorkspaceDiffHunk}
use uprava.Protocol.Response.{
  WorkspaceFileWriteResponse, WorkspaceCommandRunResponse, WorkspaceDiffResponse, modified_at,
}
use uprava.Protocol.Command.{CommandEnvelope}
use uprava.Protocol.Event.{EventEnvelope}
use uprava.Node.Outbox.{Host}
use uprava.Node.Events.{placement_event_for_command}

-- The decoders that serde derives for the responses, and chrono's format of a time.
pub record ResponseSerde : Type 0 where
  pub file_write_response : Json → Option WorkspaceFileWriteResponse
  pub command_run_response : Json → Option WorkspaceCommandRunResponse
  pub diff_response : Json → Option WorkspaceDiffResponse
  pub to_rfc3339 : DateTime → Text

-- `stdout.chars().count().saturating_add(stderr.chars().count()) as i64`: the lengths of two
-- strings in memory, whose sum is below 2 ^ 63
abbrev pub output_end : WorkspaceCommandRunResponse → ℤ
output_end r = pos (length r.stdout + length r.stderr)

abbrev pub is_check : WorkspaceCommandIntent → Bool
is_check WorkspaceCommandIntent.check = true
is_check WorkspaceCommandIntent.command = false

abbrev pub hunk_refs : Text → List WorkspaceDiffHunk → List UpravaRef
hunk_refs diff_id [] = []
hunk_refs diff_id (h ∷ hs) = UpravaRef.diff_hunk diff_id h.hunk_id ∷ hunk_refs diff_id hs

-- `event.cause_refs.push(..)`
unfoldable pub caused_by : CommandId → EventEnvelope → EventEnvelope
caused_by id e = record e { cause_refs = e.cause_refs ++ UpravaRef.command id ∷ [] }

module _ (host : Host) (decode : ResponseSerde) where
  unfoldable pub file_written :
      CommandEnvelope → Map ℤ → Json → WorkspaceFileWriteResponse → Map ℤ × EventEnvelope
  file_written command seqs payload r =
      let (seqs', event) =
        placement_event_for_command host command seqs r.placement_id
          EventKind.workspace_file_written payload in
      (
        seqs',
        record event {
          result_refs =
              UpravaRef.workspace_edit r.edit_id (some r.placement_id) (some r.path)
              ∷ UpravaRef.file r.placement_id r.path
                  (option_map decode.to_rfc3339 (modified_at r.metadata))
              ∷ [];
        },
      )

  unfoldable pub command_completed :
      CommandEnvelope → Map ℤ → Json → WorkspaceCommandRunResponse → Map ℤ × EventEnvelope
  command_completed command seqs payload r =
      let check = is_check r.intent in
      let kind =
        if check
        then EventKind.workspace_check_completed
        else EventKind.workspace_command_completed in
      let (seqs', event) =
        placement_event_for_command host command seqs r.placement_id kind payload in
      let range : TextRange = record {
        start_line = some (pos 1);
        end_line = none;
        start_offset = some (pos 0);
        end_offset = some (output_end r);
      } in
      let run = UpravaRef.terminal_command r.terminal_command_id none in
      let failure : Option Text = if r.success then none else some (codes "command_failed") in
      (
        seqs',
        record event {
          evidence_refs = UpravaRef.terminal_output_range r.terminal_command_id range ∷ [];
          result_refs =
              if check
              then run ∷ UpravaRef.check_result r.terminal_command_id failure ∷ []
              else run ∷ [];
        },
      )

  unfoldable pub diff_observed :
      CommandEnvelope → Map ℤ → Json → WorkspaceDiffResponse → Map ℤ × EventEnvelope
  diff_observed command seqs payload r =
      let (seqs', event) =
        placement_event_for_command host command seqs r.placement_id
          EventKind.workspace_diff_observed payload in
      (
        seqs',
        record event {
          result_refs =
              UpravaRef.workspace_diff r.diff_id r.placement_id ∷ hunk_refs r.diff_id r.hunks;
        },
      )

  -- the event of a response that could be decoded
  abbrev pub recorded :
      {A : Type 0}
      → CommandId
      → Map ℤ
      → (A → Map ℤ × EventEnvelope)
      → Option A
      → Map ℤ × List EventEnvelope
  recorded id seqs f none = (seqs, [])
  recorded id seqs f (some r) = let (seqs', event) = f r in (seqs', caused_by id event ∷ [])

  abbrev pub causal_events_of :
      CommandKind → CommandEnvelope → Json → Map ℤ → Map ℤ × List EventEnvelope
  causal_events_of CommandKind.write_workspace_file command payload seqs =
      recorded command.command_id seqs (file_written command seqs payload)
        (decode.file_write_response payload)
  causal_events_of CommandKind.run_workspace_command command payload seqs =
      recorded command.command_id seqs (command_completed command seqs payload)
        (decode.command_run_response payload)
  causal_events_of CommandKind.read_workspace_diff command payload seqs =
      recorded command.command_id seqs (diff_observed command seqs payload)
        (decode.diff_response payload)
  causal_events_of _ command payload seqs = (seqs, [])

  abbrev pub causal_events_at :
      CommandState → CommandEnvelope → Json → Map ℤ → Map ℤ × List EventEnvelope
  causal_events_at CommandState.completed command payload seqs =
      causal_events_of command.kind command payload seqs
  causal_events_at _ command payload seqs = (seqs, [])

  unfoldable pub causal_workspace_events :
      CommandEnvelope → CommandState → Json → Map ℤ → Map ℤ × List EventEnvelope
  causal_workspace_events command status payload seqs = causal_events_at status command payload seqs
