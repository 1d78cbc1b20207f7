-- ===== src/Examples/Inspecting.antt =====
-- Paths, diffs and the output of tasks.
use uprava.Prelude.{
  ◌≤◌, ℕ, ◌≡◌, refl, inl, inr, true, Option, some, List, [], ◌∷◌, ◌++◌, map, arith, Text, codes,
  contains_text, strip_prefix, trim, byte_len, ltb, if◌then◌else◌, length, retain, split,
}
use uprava.Protocol.Json.{Json, object_of}
use uprava.Protocol.Domain.{TaskRunState}
use uprava.Node.Workspace.{
  starts_with, is_absolute, path_escape, absolute_path, safe_workspace_relative_path,
  diff_hunks_with_limit,
}
use uprava.Node.Workspace.Paths.{names_entry, safe_workspace_relative_path_lem}
use uprava.Node.Workspace.Hunks.{Numbered, diff_hunks_with_limit_lem}
use uprava.Node.Task.{cap_string, shell_quote}
use uprava.Node.Task.Output.{overflows, cap_string_lem, Bounded}
use uprava.Node.Task.Stream.{
  StreamHost, StreamEvent, opened_stream, default_outcome, stream_loop, on_event, on_chunk,
  consume_execd_frames, consume_loop, next_sse_frame, position,
}
use uprava.Node.Task.Chunks.{concat, stream_loop-chunks}
use uprava.Node.Task.Captured.{stream_loop-Bounded}
use uprava.Node.Task.Quoting.{Reading, read_word, shell_quote_lem}
use uprava.Node.Task.States.{task_event_id-injective}

safe_workspace_relative_path_lem_example : safe_workspace_relative_path (codes " src/../../etc") ≡ (
    if is_absolute (trim (codes " src/../../etc"))
    then inl absolute_path
    else if contains_text (split 47 (trim (codes " src/../../etc"))) (codes "..")
    then inl path_escape
    else inr (retain names_entry (split 47 (trim (codes " src/../../etc")))))
safe_workspace_relative_path_lem_example = safe_workspace_relative_path_lem (codes " src/../../etc")

abbrev two_hunks : Text
two_hunks =
    codes "diff --git a/x b/x"
    ++ 10 ∷ codes "@@ -1 +1 @@"
    ++ 10 ∷ codes "-a"
    ++ 10 ∷ codes "@@ -9 +9 @@"
    ++ 10 ∷ codes "+b"

diff_hunks_with_limit_lem_example :
    (length (diff_hunks_with_limit 1 (codes "diff-1") two_hunks) ≤ 1)
    × Numbered (codes "diff-1") 0 (diff_hunks_with_limit 1 (codes "diff-1") two_hunks)
diff_hunks_with_limit_lem_example = diff_hunks_with_limit_lem (codes "diff-1") 1 two_hunks

-- Three bytes do not hold a character of one byte and one of three.
cap_string_lem_example :
    (rest : Text) × (97 ∷ 8364 ∷ [] ≡ (cap_string (97 ∷ 8364 ∷ []) 3).0 ++ rest)
    × (byte_len (cap_string (97 ∷ 8364 ∷ []) 3).0 ≤ 3)
    × ((cap_string (97 ∷ 8364 ∷ []) 3).1 ≡ ltb 3 (byte_len (97 ∷ 8364 ∷ [])))
    × (if (cap_string (97 ∷ 8364 ∷ []) 3).1
        then overflows 3 (cap_string (97 ∷ 8364 ∷ []) 3).0 rest ≡ true
        else rest ≡ [])
cap_string_lem_example = cap_string_lem (97 ∷ 8364 ∷ []) 3

-- A parser of JSON that reads every text as one event of the standard output.
abbrev stdout_event : Text → Option Json
stdout_event s =
    some (
      object_of ((codes "type", Json.string (codes "stdout")) ∷ (codes "text", Json.string s) ∷ []))

abbrev daemon : StreamHost
daemon = record { from_utf8_lossy = λ bytes. bytes; from_str = stdout_event }

opened_stream-Bounded : Bounded default_outcome
unfolding Bounded byte_len
opened_stream-Bounded = (omega arith, omega arith)

-- A frame whose delimiter is cut in two.
abbrev cut_frame : List (List ℕ)
cut_frame = (codes "data: hello" ++ 10 ∷ []) ∷ (10 ∷ codes "data: world") ∷ []

stream_loop-Bounded_example :
    Bounded
      (stream_loop daemon
        (map StreamEvent.chunk cut_frame ++ StreamEvent.end_of_stream ∷ [])
        opened_stream).outcome
stream_loop-Bounded_example =
    stream_loop-Bounded daemon (map StreamEvent.chunk cut_frame ++ StreamEvent.end_of_stream ∷ [])
      opened_stream opened_stream-Bounded

cut_frame-running :
    (stream_loop daemon (map StreamEvent.chunk cut_frame) opened_stream).is_running ≡ true
unfolding stream_loop on_event on_chunk consume_execd_frames consume_loop next_sse_frame position
    starts_with strip_prefix
cut_frame-running = refl

stream_loop-chunks_example :
    (
      (stream_loop daemon (map StreamEvent.chunk cut_frame) opened_stream).buffer,
      (stream_loop daemon (map StreamEvent.chunk cut_frame) opened_stream).outcome,
    )
    ≡ consume_execd_frames daemon (concat cut_frame) default_outcome
stream_loop-chunks_example = stream_loop-chunks daemon cut_frame cut_frame-running

shell_quote_lem_example :
    read_word Reading.outside (shell_quote (codes "it's")) ≡ some (codes "it's")
shell_quote_lem_example = shell_quote_lem (codes "it's")

task_event_id-injective_example :
    (codes "run:1" ≡ codes "run:1") × (TaskRunState.failed ≡ TaskRunState.failed)
task_event_id-injective_example =
    task_event_id-injective (codes "run:1") (codes "run:1") TaskRunState.failed TaskRunState.failed
      refl
