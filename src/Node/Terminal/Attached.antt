-- ===== src/Node/Terminal/Attached.antt =====
-- What a client that attaches to a terminal is sent.
use uprava.Prelude.{
  ◌+◌, ◌-◌, ◌*◌, ◌^◌, ◌≤◌, ℕ, ◌≡◌, refl, sym, ap, ◌∙◌, subst, ◌⊎◌, inl, inr, Bool, true, false,
  ◌&&◌, not, Option, none, some, List, [], ◌∷◌, ◌++◌, arith, codes, byte_len, ltb, if◌then◌else◌,
  Bool-cases, length, drop, is_empty, All, length-append, length-drop, All-append, All-drop, ltb→lt,
}
use uprava.Protocol.Reference.{TerminalId}
use uprava.Node.State.{saturating_add_u64}
use uprava.Node.Terminal.{
  WorkspaceTerminalOutputFrame, TerminalFrame, WorkspaceTerminalState, terminal_replay_bytes,
  record_terminal_replay, TerminalHost, Selected, Terminal, opened, output_frame, on_selected,
  replayed, attach_error, attach_replay, attach, workspace_terminal_read_bytes,
  max_workspace_terminal_replay_frames, max_workspace_terminal_replay_bytes,
}
use uprava.Node.Terminal.Replay.{Frames, within, within_limits, Kept, pop_loop-append}
use uprava.Node.Terminal.History.{
  Numbered, Numbered-append, Numbered-drop, Sized, within-single, Buffered, recorded, added,
  Reaches, grown, counted, on_selected-grown,
}

abbrev KeptOf : Frames → Frames → Type 0
KeptOf h replay =
    Kept max_workspace_terminal_replay_frames max_workspace_terminal_replay_bytes h replay

-- The replay, the text sizes and the numbers agree with all that the terminal put out, as long as
-- that is not more than the largest sequence number.
record Sound (t : Terminal) (h : Frames) : Type 0 where
  kept : KeptOf h t.replay
  sized : All Sized h
  numbered : length h ≤ 2 ^ 64 - 1 → (t.seq ≡ length h) × Numbered 1 h

abbrev Fresh : ℕ → Option WorkspaceTerminalOutputFrame → Type 0
Fresh n none = Unit
Fresh n (some f) = (f.seq ≡ saturating_add_u64 n 1) × Sized f

module _ (host : TerminalHost)
    (lossy : (bytes : List ℕ) → byte_len (host.from_utf8_lossy bytes) ≤ 3 * length bytes) where
  Fresh-if :
      (b : Bool) (bytes : List ℕ) (t : Terminal)
      → length bytes ≤ workspace_terminal_read_bytes
      → Fresh t.seq (if b then some (output_frame host bytes t) else none)
  unfolding Sized
  Fresh-if true bytes t h = (refl, omega (arith, h, lossy bytes))
  Fresh-if false bytes t h = tt

  recorded-Fresh : (e : Selected) (t : Terminal) → Buffered e → Fresh t.seq (recorded host e t)
  unfolding recorded Buffered
  recorded-Fresh (Selected.read bytes) t h =
      Fresh-if (t.is_running && not (is_empty bytes)) bytes t h
  recorded-Fresh Selected.control_closed t h = tt
  recorded-Fresh (Selected.input text written) t h = tt
  recorded-Fresh (Selected.resize cols rows answer) t h = tt
  recorded-Fresh Selected.close t h = tt
  recorded-Fresh Selected.read_interrupted t h = tt
  recorded-Fresh Selected.read_failed t h = tt
  recorded-Fresh (Selected.rebind_sender sender) t h = tt
  recorded-Fresh Selected.detach_sender t h = tt

  Sound-added :
      (t next : Terminal) (h : Frames) (o : Option WorkspaceTerminalOutputFrame)
      → Fresh t.seq o
      → next.replay ≡ grown host t.replay o
      → next.seq ≡ counted host t.seq o
      → Sound t h
      → Sound next (added host h o)
  unfolding record_terminal_replay
  Sound-added t next h none fresh e n s = record {
    kept = subst (KeptOf h) (sym e) s.kept;
    sized = s.sized;
    numbered = λ l. (n ∙ (s.numbered l).0, (s.numbered l).1);
  }
  Sound-added t next h (some f) fresh e n s = record {
    kept = subst (KeptOf (h ++ f ∷ [])) (sym e) (
        pop_loop-append max_workspace_terminal_replay_frames max_workspace_terminal_replay_bytes h
          t.replay f s.kept);
    sized = All-append Sized h (f ∷ []) s.sized (fresh.1, tt);
    numbered = λ l.
        let grow = length-append h (f ∷ []) in
        let before = s.numbered (omega (arith, l, grow)) in
        (
          omega (arith, n, fresh.0, before.0, l, grow),
          Numbered-append 1 h f before.1 (omega (arith, fresh.0, before.0, l, grow)),
        );
  }

  Reaches-Sound : (t : Terminal) (h : Frames) → Reaches host t h → Sound t h
  unfolding opened within Numbered terminal_replay_bytes
  Reaches-Sound _ _ (Reaches.opened_at id sender) = record {
    kept = record {
      dropped = 0;
      dropped-le = omega arith;
      kept-drop = refl;
      fits = ground arith;
      least = λ j l. absurd (omega (arith, l));
    };
    sized = tt;
    numbered = λ l. (refl, tt);
  }
  Reaches-Sound _ _ (Reaches.turn t h e fits r) =
      let (replay, seq) = on_selected-grown host e t in
      Sound-added t (on_selected host e t) h (recorded host e t) (recorded-Fresh e t fits) replay
        seq (Reaches-Sound t h r)

-- All that a client is sent when the first frames, as many as the number says, are not retained.
unfoldable pub caught_up : TerminalHost → TerminalId → ℕ → Frames → List TerminalFrame
caught_up host id k fs =
    if ltb 0 k
    then attach_error host id WorkspaceTerminalState.detached
        (codes "terminal replay gap; older output is no longer retained")
      ∷ replayed host 1 fs
    else replayed host 0 fs

attach_replay-caught_up :
    (host : TerminalHost) (id : TerminalId) (k : ℕ) (replay : Frames)
    → Numbered (1 + k) replay
    → (replay ≡ [] → k ≡ 0)
    → attach_replay host id replay ≡ caught_up host id k replay
unfolding caught_up Numbered
attach_replay-caught_up host id k [] t e = rw (e refl) refl
attach_replay-caught_up host id k (f ∷ fs) t e =
    let same : ltb 1 f.seq ≡ ltb 0 k = ground (arith, t.0) in
    ap
      (λ b.
        if b
        then attach_error host id WorkspaceTerminalState.detached
            (codes "terminal replay gap; older output is no longer retained")
          ∷ replayed host 1 (f ∷ fs)
        else replayed host 0 (f ∷ fs))
      same

-- Output was dropped only if some is retained.
retained-some :
    (h : Frames) (k : ℕ)
    → All Sized h
    → k ≤ length h
    → (k ≡ 0) ⊎ (within_limits (drop (k - 1) h) ≡ false)
    → drop k h ≡ []
    → k ≡ 0
retained-some h k s le (inl z) e = z
retained-some h k s le (inr over) e = elim (Bool-cases (ltb 0 k)) [
  | inr z ↦ ground (arith, z)
  | inl p ↦
      let none_left : length (drop k h) ≡ 0 = ap length e in
      let one : length (drop (k - 1) h) ≡ 1 =
        omega (arith, length-drop (k - 1) h, length-drop k h, none_left, le, ltb→lt 0 k p) in
      let ok = within-single (drop (k - 1) h) one (All-drop Sized (k - 1) h s) in
      ground (arith, ok, over)
]

last_dropped :
    (h replay : Frames) (r : KeptOf h replay)
    → (r.dropped ≡ 0) ⊎ (within_limits (drop (r.dropped - 1) h) ≡ false)
last_dropped h replay r = elim (Bool-cases (ltb 0 r.dropped)) [
  | inl p ↦ inr (r.least (r.dropped - 1) (omega (arith, ltb→lt 0 r.dropped p)))
  | inr z ↦ inl (ground (arith, z))
]

-- A client that attaches to a terminal, whatever happened to it since it was opened, is sent the
-- newest output frames that it put out, in order, as many as are within the limits of the replay,
-- and before them a notice of the gap exactly if older output is no longer retained. This takes
-- that a read fits the buffer, that decoding a byte gives at most three bytes of text, and that
-- there were at most 2^64 - 1 output frames.
pub attach-Reaches :
    (host : TerminalHost)
    → ((bytes : List ℕ) → byte_len (host.from_utf8_lossy bytes) ≤ 3 * length bytes)
    → (t : Terminal) (h : Frames) (id : TerminalId) → Reaches host t h
    → length h ≤ 2 ^ 64 - 1
    → (k : ℕ) × (attach host id (some t) ≡ caught_up host id k (drop k h))
      × (within_limits (drop k h) ≡ true)
      × ((k ≡ 0) ⊎ (within_limits (drop (k - 1) h) ≡ false))
unfolding attach
attach-Reaches host lossy t h id r few =
    let s = Reaches-Sound host lossy t h r in
    let k = s.kept.dropped in
    let e = s.kept.kept-drop in
    let edge = last_dropped h t.replay s.kept in
    (
      k,
      ap (attach_replay host id) e
          ∙ attach_replay-caught_up host id k (drop k h) (Numbered-drop 1 k h (s.numbered few).1)
              (retained-some h k s.sized s.kept.dropped-le edge),
      subst (λ fs. within_limits fs ≡ true) e s.kept.fits,
      edge,
    )
