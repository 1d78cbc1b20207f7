-- ===== src/Node/Terminal.antt =====
-- The output of a workspace's terminal and its replay for a client that attaches later:
-- `run_workspace_terminal`, `record_terminal_replay` and `WorkspaceTerminalManager` of
-- crates/uprava-node/src/runtime/terminal.rs.
pub mod Replay
pub mod History
pub mod Attached
use uprava.Prelude.{
  ◌+◌, ◌-◌, ◌*◌, ◌/◌, ◌%◌, ◌^◌, ◌≤◌, ◌<◌, ℕ, zero, suc, max, min, compare, Ordering, ◌≡◌, refl, sym,
  ap, ◌∙◌, subst, ◌≢◌, ◌↔◌, ◌⊎◌, inl, inr, Bool, true, false, ◌&&◌, ◌||◌, not, Option, none, some,
  List, [], ◌∷◌, ◌++◌, map, arith, Text, codes, text_eq, text_lt, contains_char, contains_text,
  strip_prefix, trim, byte_len, utf8_len, text_eq_iff, text_eq_refl, ltb, leb, ◌==◌, if◌then◌else◌,
  Bool-cases, Option-cases, and_then, option_map, map_or, unwrap_or, or_else, is_some,
  option_filter, length, take, drop, is_empty, retain, any, all, count_if, Map, get, insert, remove,
  contains_key, keys, set_insert, set_remove, get-insert, get-insert_self, get-remove, map_laws,
  split_once, split, splitn, split_whitespace, parse_u64, decimal, splitn-append, splitn-absent,
  contains_text-set_insert, contains_text-set_remove, i64_max, All, get_elem?, length-append,
  length-drop, length-take, length-retain, count_if-le-length, take-append-drop, count_if-append,
  take-append_one, any-append, retain-append, All-append, All-drop, strip_prefix-append,
  append-cancel_left, trim_start, is_whitespace, text_eq-sym, ==_iff, eqℤ-refl, maxℤ, ◌≤ℤ◌, ◌<ℤ◌,
  maxℤ-ge_left, maxℤ-ge_right, ℤ, pos, negsuc, i64_succ, eqℤ, leℤ, ltb→lt, lt→ltb, leb→le,
}
use uprava.Protocol.Reference.{DateTime, TerminalId}
use uprava.Node.State.{saturating_add_u64}

abbrev pub max_workspace_terminal_replay_frames : ℕ
max_workspace_terminal_replay_frames = 256

abbrev pub max_workspace_terminal_replay_bytes : ℕ
max_workspace_terminal_replay_bytes = 256 * 1024

abbrev pub workspace_terminal_read_bytes : ℕ
workspace_terminal_read_bytes = 4 * 1024

pub data WorkspaceTerminalState : Type 0 where
  opening : WorkspaceTerminalState
  running : WorkspaceTerminalState
  detached : WorkspaceTerminalState
  exited : WorkspaceTerminalState
  closed : WorkspaceTerminalState
  error : WorkspaceTerminalState

pub record WorkspaceTerminalOutputFrame : Type 0 where
  pub terminal_id : TerminalId
  pub seq : ℕ
  pub data_text : Text
  pub sent_at : DateTime

-- The two kinds of `ControlFrame` that a terminal sends. The identifier of the frame is the first
-- argument; the version of the protocol, the same in all, is left out.
pub data TerminalFrame : Type 0 where
  workspace_terminal_output : Text → WorkspaceTerminalOutputFrame → TerminalFrame
  workspace_terminal_status :
      Text → DateTime → TerminalId → WorkspaceTerminalState → Option ℤ → Option Text → TerminalFrame

unfoldable pub terminal_replay_bytes : List WorkspaceTerminalOutputFrame → ℕ
terminal_replay_bytes [] = 0
terminal_replay_bytes (f ∷ fs) = byte_len f.data_text + terminal_replay_bytes fs

-- the `while` loop of `record_terminal_replay`
unfoldable pub pop_loop :
    ℕ → ℕ → List WorkspaceTerminalOutputFrame → List WorkspaceTerminalOutputFrame
unfolding terminal_replay_bytes
pop_loop max_frames max_bytes [] = []
pop_loop max_frames max_bytes (f ∷ fs) =
    let rest = pop_loop max_frames max_bytes fs in
    if ltb max_frames (length (f ∷ fs)) || ltb max_bytes (terminal_replay_bytes (f ∷ fs))
    then rest
    else f ∷ fs

unfoldable pub record_terminal_replay :
    List WorkspaceTerminalOutputFrame
    → WorkspaceTerminalOutputFrame
    → List WorkspaceTerminalOutputFrame
unfolding pop_loop
record_terminal_replay replay frame =
    pop_loop max_workspace_terminal_replay_frames max_workspace_terminal_replay_bytes
      (replay ++ frame ∷ [])

-- What a terminal takes from elsewhere: the identifiers and the times of its frames, in the order in
-- which it makes them, `String::from_utf8_lossy`, and the exit code of the child if it has one.
pub record TerminalHost : Type 0 where
  pub new_frame_id : ℕ → Text
  pub utc_now : ℕ → DateTime
  pub from_utf8_lossy : List ℕ → Text
  pub exit_code : Option ℤ

-- What the loop of `run_workspace_terminal` selects, with what the pty answers, and what the manager
-- does to the terminal's route in between.
pub data Selected : Type 0 where
  control_closed : Selected
  -- whether the pty takes the text
  input : Text → Bool → Selected
  -- the text of the error, if the pty refuses the size
  resize : ℕ → ℕ → Option Text → Selected
  close : Selected
  -- the bytes that are read; none is the end of the output
  read : List ℕ → Selected
  read_interrupted : Selected
  read_failed : Selected
  rebind_sender : ℕ → Selected
  detach_sender : Selected

-- A terminal's task and its handle: its variables, the shared replay and route, the frames handed to
-- senders, how many frames it has made, and whether the task still runs.
pub record Terminal : Type 0 where
  pub terminal_id : TerminalId
  pub seq : ℕ
  pub replay : List WorkspaceTerminalOutputFrame
  pub sender_route : Option ℕ
  pub sent : List (ℕ × TerminalFrame)
  pub made : ℕ
  pub is_running : Bool

-- the task and the handle that `open` makes
unfoldable pub opened : TerminalId → ℕ → Terminal
opened terminal_id sender = record {
  terminal_id = terminal_id;
  seq = 0;
  replay = [];
  sender_route = some sender;
  sent = [];
  made = 0;
  is_running = true;
}

module _ (host : TerminalHost) where
  unfoldable pub send_terminal_frame : TerminalFrame → Terminal → Terminal
  send_terminal_frame frame t = record t {
    sent = map_or t.sent (λ sender. t.sent ++ (sender, frame) ∷ []) t.sender_route;
    made = t.made + 1;
  }

  unfoldable pub send_terminal_status_via_route :
      WorkspaceTerminalState → Option ℤ → Option Text → Terminal → Terminal
  unfolding send_terminal_frame
  send_terminal_status_via_route state exit_code message t =
      send_terminal_frame
        (TerminalFrame.workspace_terminal_status (host.new_frame_id t.made) (host.utc_now t.made)
          t.terminal_id state exit_code message)
        t

  -- behind the loop
  abbrev pub after_loop : Terminal → Terminal
  unfolding send_terminal_status_via_route
  after_loop t =
      record (send_terminal_status_via_route WorkspaceTerminalState.exited host.exit_code
        (some (codes "terminal exited")) t) { is_running = false }

  -- The frame that is recorded and sent for the bytes.
  abbrev pub output_frame : List ℕ → Terminal → WorkspaceTerminalOutputFrame
  output_frame bytes t = record {
    terminal_id = t.terminal_id;
    seq = saturating_add_u64 t.seq 1;
    data_text = host.from_utf8_lossy bytes;
    sent_at = host.utc_now t.made;
  }

  abbrev pub on_read : List ℕ → Terminal → Terminal
  unfolding send_terminal_frame record_terminal_replay
  on_read bytes t =
      let frame = output_frame bytes t in
      if is_empty bytes
      then after_loop t
      else send_terminal_frame
          (TerminalFrame.workspace_terminal_output (host.new_frame_id t.made) frame)
          (record t { seq = frame.seq; replay = record_terminal_replay t.replay frame })

  abbrev pub on_resize : Option Text → Terminal → Terminal
  unfolding send_terminal_status_via_route
  on_resize none t = t
  on_resize (some failure) t =
      send_terminal_status_via_route WorkspaceTerminalState.error none
        (some (codes "resize failed: " ++ failure)) t

  abbrev pub select : Selected → Terminal → Terminal
  unfolding send_terminal_status_via_route
  select Selected.control_closed t = after_loop t
  select (Selected.input text written) t = if written then t else after_loop t
  select (Selected.resize cols rows answer) t = on_resize answer t
  select Selected.close t =
      record (send_terminal_status_via_route WorkspaceTerminalState.closed none
        (some (codes "terminal closed")) t) { is_running = false }
  select (Selected.read bytes) t = on_read bytes t
  select Selected.read_interrupted t = t
  select Selected.read_failed t = after_loop t
  select (Selected.rebind_sender sender) t = record t { sender_route = some sender }
  select Selected.detach_sender t = record t { sender_route = none }

  -- One turn of `run_workspace_terminal`, or a change of the route; the handle of a task that has
  -- ended stays in the manager, but nothing is sent through its route any more.
  unfoldable pub on_selected : Selected → Terminal → Terminal
  on_selected e t = if t.is_running then select e t else t

  abbrev pub replayed : ℕ → List WorkspaceTerminalOutputFrame → List TerminalFrame
  replayed n [] = []
  replayed n (f ∷ fs) =
      TerminalFrame.workspace_terminal_output (host.new_frame_id n) f ∷ replayed (n + 1) fs

  abbrev pub attach_error : TerminalId → WorkspaceTerminalState → Text → TerminalFrame
  attach_error terminal_id state message =
      TerminalFrame.workspace_terminal_status (host.new_frame_id 0) (host.utc_now 0) terminal_id
        state none (some message)

  abbrev pub attach_replay : TerminalId → List WorkspaceTerminalOutputFrame → List TerminalFrame
  attach_replay terminal_id [] = []
  attach_replay terminal_id (f ∷ fs) =
      if ltb 1 f.seq
      then attach_error terminal_id WorkspaceTerminalState.detached
          (codes "terminal replay gap; older output is no longer retained")
        ∷ replayed 1 (f ∷ fs)
      else replayed 0 (f ∷ fs)

  -- `attach`: the frames that are sent to the client, given the terminal if the manager has it
  unfoldable pub attach : TerminalId → Option Terminal → List TerminalFrame
  attach terminal_id none =
      attach_error terminal_id WorkspaceTerminalState.error (codes "terminal not found") ∷ []
  attach terminal_id (some t) = attach_replay terminal_id t.replay
