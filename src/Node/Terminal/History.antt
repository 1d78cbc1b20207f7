-- ===== src/Node/Terminal/History.antt =====
-- A terminal's replay against all that it has put out.
use uprava.Prelude.{
  ◌+◌, ◌*◌, ◌≤◌, ℕ, zero, suc, ◌≡◌, refl, sym, subst, Bool, true, false, ◌&&◌, not, Option, none,
  some, List, [], ◌∷◌, ◌++◌, arith, Text, byte_len, if◌then◌else◌, length, drop, is_empty, All,
}
use uprava.Protocol.Reference.{TerminalId}
use uprava.Node.Terminal.{
  WorkspaceTerminalOutputFrame, terminal_replay_bytes, record_terminal_replay, TerminalHost,
  Selected, Terminal, opened, send_terminal_frame, send_terminal_status_via_route, output_frame,
  select, on_resize, on_read, on_selected, workspace_terminal_read_bytes,
  max_workspace_terminal_replay_frames, max_workspace_terminal_replay_bytes,
}
use uprava.Node.Terminal.Replay.{Frames, within}

-- The frames are numbered from the given number on.
unfoldable pub Numbered : ℕ → Frames → Type 0
Numbered n [] = Unit
Numbered n (f ∷ fs) = (f.seq ≡ n) × Numbered (suc n) fs

pub Numbered-append :
    (n : ℕ) (fs : Frames) (f : WorkspaceTerminalOutputFrame)
    → Numbered n fs
    → f.seq ≡ n + length fs
    → Numbered n (fs ++ f ∷ [])
unfolding Numbered
Numbered-append n [] f t e = (omega (arith, e), tt)
Numbered-append n (g ∷ fs) f t e = (t.0, Numbered-append (suc n) fs f t.1 (omega (arith, e)))

pub Numbered-drop : (n k : ℕ) (fs : Frames) → Numbered n fs → Numbered (n + k) (drop k fs)
unfolding Numbered
Numbered-drop n zero fs t = subst (λ m. Numbered m fs) (omega arith) t
Numbered-drop n (suc k) [] t = tt
Numbered-drop n (suc k) (f ∷ fs) t =
    subst (λ m. Numbered m (drop k fs)) (omega arith) (Numbered-drop (suc n) k fs t.1)

-- No frame has more text than one read can give.
unfoldable pub Sized : WorkspaceTerminalOutputFrame → Type 0
Sized f = byte_len f.data_text ≤ 3 * workspace_terminal_read_bytes

pub within-single :
    (fs : Frames)
    → length fs ≡ 1
    → All Sized fs
    → within max_workspace_terminal_replay_frames max_workspace_terminal_replay_bytes fs ≡ true
unfolding within Sized terminal_replay_bytes
within-single [] e s = absurd (omega (arith, e))
within-single (f ∷ []) e s = ground (arith, s)
within-single (f ∷ g ∷ fs) e s = absurd (omega (arith, e))

-- A read fits the buffer.
unfoldable pub Buffered : Selected → Type 0
Buffered (Selected.read bytes) = length bytes ≤ workspace_terminal_read_bytes
Buffered _ = Unit

module _ (host : TerminalHost) where
  -- The frame that a turn puts out.
  unfoldable pub recorded : Selected → Terminal → Option WorkspaceTerminalOutputFrame
  recorded (Selected.read bytes) t =
      if t.is_running && not (is_empty bytes) then some (output_frame host bytes t) else none
  recorded _ t = none

  abbrev pub added : Frames → Option WorkspaceTerminalOutputFrame → Frames
  added h none = h
  added h (some f) = h ++ f ∷ []

  -- A terminal that turns lead to from its opening, with all the frames that it put out on the way.
  pub data Reaches : Terminal → List WorkspaceTerminalOutputFrame → Type 0 where
    opened_at : (id : TerminalId) (sender : ℕ) → Reaches (opened id sender) []
    turn :
        (t : Terminal) (h : List WorkspaceTerminalOutputFrame) (e : Selected)
        → Buffered e
        → Reaches t h
        → Reaches (on_selected host e t) (added h (recorded e t))

  abbrev pub grown : Frames → Option WorkspaceTerminalOutputFrame → Frames
  grown replay none = replay
  grown replay (some f) = record_terminal_replay replay f

  abbrev pub counted : ℕ → Option WorkspaceTerminalOutputFrame → ℕ
  counted n none = n
  counted n (some f) = f.seq

  on_resize-quiet :
      (answer : Option Text) (t : Terminal)
      → ((on_resize host answer t).replay ≡ t.replay) × ((on_resize host answer t).seq ≡ t.seq)
  unfolding send_terminal_status_via_route send_terminal_frame
  on_resize-quiet none t = (refl, refl)
  on_resize-quiet (some failure) t = (refl, refl)

  on_read-grown :
      (bytes : List ℕ) (t : Terminal)
      → let o = if not (is_empty bytes) then some (output_frame host bytes t) else none in
        ((on_read host bytes t).replay ≡ grown t.replay o)
        × ((on_read host bytes t).seq ≡ counted t.seq o)
  unfolding on_read send_terminal_status_via_route send_terminal_frame record_terminal_replay
  on_read-grown [] t = (refl, refl)
  on_read-grown (b ∷ bytes) t = (refl, refl)

  select-grown :
      (e : Selected) (t : Terminal)
      → t.is_running ≡ true
      → ((select host e t).replay ≡ grown t.replay (recorded e t))
        × ((select host e t).seq ≡ counted t.seq (recorded e t))
  unfolding recorded send_terminal_status_via_route send_terminal_frame
  select-grown Selected.control_closed t run = (refl, refl)
  select-grown (Selected.input text true) t run = (refl, refl)
  select-grown (Selected.input text false) t run = (refl, refl)
  select-grown (Selected.resize cols rows answer) t run = on_resize-quiet answer t
  select-grown Selected.close t run = (refl, refl)
  select-grown (Selected.read bytes) t run =
      subst
        (λ r.
          let o = if r && not (is_empty bytes) then some (output_frame host bytes t) else none in
          ((on_read host bytes t).replay ≡ grown t.replay o)
          × ((on_read host bytes t).seq ≡ counted t.seq o))
        (sym run) (on_read-grown bytes t)
  select-grown Selected.read_interrupted t run = (refl, refl)
  select-grown Selected.read_failed t run = (refl, refl)
  select-grown (Selected.rebind_sender sender) t run = (refl, refl)
  select-grown Selected.detach_sender t run = (refl, refl)

  recorded-ended : (e : Selected) (t : Terminal) → t.is_running ≡ false → recorded e t ≡ none
  unfolding recorded
  recorded-ended (Selected.read bytes) t end = rw end refl
  recorded-ended Selected.control_closed t end = refl
  recorded-ended (Selected.input text written) t end = refl
  recorded-ended (Selected.resize cols rows answer) t end = refl
  recorded-ended Selected.close t end = refl
  recorded-ended Selected.read_interrupted t end = refl
  recorded-ended Selected.read_failed t end = refl
  recorded-ended (Selected.rebind_sender sender) t end = refl
  recorded-ended Selected.detach_sender t end = refl

  turn-grown :
      (e : Selected) (t : Terminal) (b : Bool)
      → t.is_running ≡ b
      → let next = if b then select host e t else t in
        (next.replay ≡ grown t.replay (recorded e t)) × (next.seq ≡ counted t.seq (recorded e t))
  turn-grown e t true run = select-grown e t run
  turn-grown e t false end =
      subst (λ o. (t.replay ≡ grown t.replay o) × (t.seq ≡ counted t.seq o))
        (sym (recorded-ended e t end)) (refl, refl)

  pub on_selected-grown :
      (e : Selected) (t : Terminal)
      → ((on_selected host e t).replay ≡ grown t.replay (recorded e t))
        × ((on_selected host e t).seq ≡ counted t.seq (recorded e t))
  unfolding on_selected
  on_selected-grown e t = turn-grown e t t.is_running refl
