-- ===== src/Node/Task/Stream.antt =====
-- The stream of a command's output: the frames that `consume_execd_frames` takes off the buffer, and
-- the loop of `execute_sandbox_command` over what the daemon sends.
use uprava.Prelude.{
  ◌+◌, ◌*◌, ℕ, zero, suc, Bool, true, false, Option, none, some, List, [], ◌∷◌, ◌++◌, Text, codes,
  ltb, leb, if◌then◌else◌, option_map, map_or, length, take, drop,
}
use uprava.Protocol.Json.{Json}
use uprava.Node.Workspace.{starts_with}
use uprava.Node.Task.{ExecdOutcome, parse_execd_frame}

abbrev pub max_execd_frame_buffer_bytes : ℕ
max_execd_frame_buffer_bytes = 512 * 1024

abbrev pub lf_lf : List ℕ
lf_lf = 10 ∷ 10 ∷ []

abbrev pub crlf_crlf : List ℕ
crlf_crlf = 13 ∷ 10 ∷ 13 ∷ 10 ∷ []

-- `buffer.windows(n).position(|window| window == delimiter)`
unfoldable pub position : List ℕ → List ℕ → Option ℕ
position delimiter [] = none
position delimiter (c ∷ s) =
    let rest = position delimiter s in
    if starts_with delimiter (c ∷ s) then some 0 else option_map (λ i. suc i) rest

abbrev pub earlier : Option (ℕ × ℕ) → Option (ℕ × ℕ) → Option (ℕ × ℕ)
earlier (some left) (some right) = some (if leb left.0 right.0 then left else right)
earlier (some left) none = some left
earlier none right = right

unfoldable pub next_sse_frame : List ℕ → Option (ℕ × ℕ)
unfolding position
next_sse_frame buffer =
    earlier (option_map (λ i. (i, 2)) (position lf_lf buffer))
      (option_map (λ i. (i, 4)) (position crlf_crlf buffer))

-- What the stream takes from elsewhere: `String::from_utf8_lossy` and serde's parser of JSON.
pub record StreamHost : Type 0 where
  pub from_utf8_lossy : List ℕ → Text
  pub from_str : Text → Option Json

-- What the loop of `execute_sandbox_command` selects.
pub data StreamEvent : Type 0 where
  hard_timeout : StreamEvent
  -- whether the task is cancelled
  cancellation : Bool → StreamEvent
  chunk : List ℕ → StreamEvent
  chunk_failed : Text → StreamEvent
  end_of_stream : StreamEvent

-- The variables of the loop; whether it still runs; and the commands that the daemon is asked to
-- cancel, with their identifiers if they are known.
pub record CommandStream : Type 0 where
  pub buffer : List ℕ
  pub outcome : ExecdOutcome
  pub is_running : Bool
  pub cancel_requests : List (Option Text)

abbrev pub default_outcome : ExecdOutcome
default_outcome = record {
  command_id = none;
  exit_code = none;
  stdout = [];
  stderr = [];
  stdout_truncated = false;
  stderr_truncated = false;
  cancelled = false;
  stream_error = none;
}

abbrev pub opened_stream : CommandStream
opened_stream = record {
  buffer = [];
  outcome = default_outcome;
  is_running = true;
  cancel_requests = [];
}

-- `cancel_execd_command`, then `break`
abbrev pub cancel_and_break : ExecdOutcome → CommandStream → CommandStream
cancel_and_break o st = record st {
  outcome = o;
  is_running = false;
  cancel_requests = st.cancel_requests ++ o.command_id ∷ [];
}

module _ (host : StreamHost) where
  abbrev pub parse_frame : List ℕ → ExecdOutcome → ExecdOutcome
  parse_frame frame o = parse_execd_frame host.from_str (host.from_utf8_lossy frame) o

  -- the `while` loop, with the buffer and the outcome; each turn takes at least a delimiter
  unfoldable pub consume_loop : ℕ → List ℕ → ExecdOutcome → List ℕ × ExecdOutcome
  unfolding next_sse_frame
  consume_loop zero buffer o = (buffer, o)
  consume_loop (suc fuel) buffer o =
      map_or (buffer, o)
        (λ p. consume_loop fuel (drop (p.0 + p.1) buffer) (parse_frame (take p.0 buffer) o))
        (next_sse_frame buffer)

  unfoldable pub consume_execd_frames : List ℕ → ExecdOutcome → List ℕ × ExecdOutcome
  unfolding consume_loop
  consume_execd_frames buffer o = consume_loop (length buffer) buffer o

  unfoldable pub consume_final_execd_frame : List ℕ → ExecdOutcome → ExecdOutcome
  consume_final_execd_frame [] o = o
  consume_final_execd_frame (b ∷ buffer) o = parse_frame (b ∷ buffer) o

  unfoldable pub on_chunk : List ℕ → CommandStream → CommandStream
  unfolding consume_execd_frames
  on_chunk bytes st =
      if ltb max_execd_frame_buffer_bytes (length st.buffer + length bytes)
      then cancel_and_break
          (record (st.outcome) {
            stream_error = some (codes "OpenSandbox execd frame buffer exceeded its limit");
          })
          st
      else let (buffer, outcome) = consume_execd_frames (st.buffer ++ bytes) st.outcome in
        record st { buffer = buffer; outcome = outcome }

  unfoldable pub on_event : StreamEvent → CommandStream → CommandStream
  unfolding consume_final_execd_frame on_chunk
  on_event StreamEvent.hard_timeout st =
      cancel_and_break (record (st.outcome) { stream_error = some (codes "timeout") }) st
  on_event (StreamEvent.cancellation cancelled) st =
      if cancelled then cancel_and_break (record (st.outcome) { cancelled = true }) st else st
  on_event (StreamEvent.chunk bytes) st = on_chunk bytes st
  on_event (StreamEvent.chunk_failed failure) st = record st {
    outcome = record (st.outcome) { stream_error = some failure };
    is_running = false;
  }
  on_event StreamEvent.end_of_stream st = record st {
    buffer = [];
    outcome = consume_final_execd_frame st.buffer st.outcome;
    is_running = false;
  }

  -- the loop of `execute_sandbox_command`, which nothing follows after it ends
  unfoldable pub stream_loop : List StreamEvent → CommandStream → CommandStream
  unfolding on_event
  stream_loop [] st = st
  stream_loop (e ∷ es) st =
      let next = stream_loop es (on_event e st) in if st.is_running then next else st
