-- ===== src/Node/Terminal/Replay.antt =====
-- What the replay of a terminal keeps of its output.
use uprava.Prelude.{
  ◌+◌, ◌-◌, ◌≤◌, ◌<◌, ℕ, zero, suc, ◌≡◌, refl, sym, ap, ◌∙◌, subst, inl, inr, Bool, true, false,
  ◌&&◌, ◌||◌, List, [], ◌∷◌, ◌++◌, arith, ltb, leb, Bool-cases, length, drop, all, length-append,
  length-drop, ltb→lt,
}
use uprava.Node.Terminal.{
  WorkspaceTerminalOutputFrame, terminal_replay_bytes, pop_loop,
  max_workspace_terminal_replay_frames, max_workspace_terminal_replay_bytes,
}

abbrev pub Frames : Type 0
Frames = List WorkspaceTerminalOutputFrame

drop-append_short :
    (k : ℕ) (xs : Frames) (x : WorkspaceTerminalOutputFrame)
    → k ≤ length xs
    → drop k (xs ++ x ∷ []) ≡ drop k xs ++ x ∷ []
drop-append_short zero xs x h = refl
drop-append_short (suc k) [] x h = absurd (omega (arith, h))
drop-append_short (suc k) (y ∷ xs) x h = drop-append_short k xs x (omega (arith, h))

drop-drop : (k m : ℕ) (xs : Frames) → drop (k + m) xs ≡ drop m (drop k xs)
drop-drop zero m xs = let e : zero + m ≡ m = omega arith in ap (λ n. drop n xs) e
drop-drop (suc k) zero [] =
    let e : suc k + zero ≡ suc k = omega arith in
    ap (λ n. drop {A = WorkspaceTerminalOutputFrame} n []) e
drop-drop (suc k) (suc m) [] =
    let e : suc k + suc m ≡ suc (k + suc m) = omega arith in
    ap (λ n. drop {A = WorkspaceTerminalOutputFrame} n []) e
drop-drop (suc k) m (x ∷ xs) =
    let e : suc k + m ≡ suc (k + m) = omega arith in ap (λ n. drop n (x ∷ xs)) e ∙ drop-drop k m xs

terminal_replay_bytes-append :
    (xs ys : Frames)
    → terminal_replay_bytes (xs ++ ys) ≡ terminal_replay_bytes xs + terminal_replay_bytes ys
unfolding terminal_replay_bytes
terminal_replay_bytes-append [] ys = omega arith
terminal_replay_bytes-append (x ∷ xs) ys = omega (arith, terminal_replay_bytes-append xs ys)

-- A replay that is within both limits.
unfoldable pub within : ℕ → ℕ → List WorkspaceTerminalOutputFrame → Bool
within max_frames max_bytes fs =
    leb (length fs) max_frames && leb (terminal_replay_bytes fs) max_bytes

-- A replay that is within the limits of a terminal's replay.
abbrev pub within_limits : List WorkspaceTerminalOutputFrame → Bool
within_limits fs =
    within max_workspace_terminal_replay_frames max_workspace_terminal_replay_bytes fs

within-append : (a b : ℕ) (xs ys : Frames) → within a b xs ≡ false → within a b (xs ++ ys) ≡ false
unfolding within
within-append a b xs ys h =
    ground (arith, h, length-append xs ys, terminal_replay_bytes-append xs ys)

-- What is kept of a list is the list without its first frames, within the limits, and without fewer
-- frames it would not be within them.
pub record Kept (a b : ℕ) (all kept : List WorkspaceTerminalOutputFrame) : Type 0 where
  pub dropped : ℕ
  pub dropped-le : dropped ≤ length all
  pub kept-drop : kept ≡ drop dropped all
  pub fits : within a b kept ≡ true
  pub least : (j : ℕ) → j < dropped → within a b (drop j all) ≡ false

least-cons :
    (a b k : ℕ) (f : WorkspaceTerminalOutputFrame) (fs : Frames)
    → within a b (f ∷ fs) ≡ false
    → ((j : ℕ) → j < k → within a b (drop j fs) ≡ false)
    → (j : ℕ) → j < suc k
    → within a b (drop j (f ∷ fs)) ≡ false
least-cons a b k f fs over h zero l = over
least-cons a b k f fs over h (suc j) l = h j (omega (arith, l))

pop_loop-Kept : (a b : ℕ) (fs : Frames) → Kept a b fs (pop_loop a b fs)
unfolding pop_loop within
pop_loop-Kept a b [] = record {
  dropped = 0;
  dropped-le = omega arith;
  kept-drop = refl;
  fits = ground arith;
  least = λ j h. absurd (omega (arith, h));
}
pop_loop-Kept a b (f ∷ fs) = elim (Bool-cases (within a b (f ∷ fs))) [
  | inl ok ↦
      let stop : (ltb a (length (f ∷ fs)) || ltb b (terminal_replay_bytes (f ∷ fs))) ≡ false =
        ground (arith, ok) in
      rw stop (record {
        dropped = 0;
        dropped-le = omega arith;
        kept-drop = refl;
        fits = ok;
        least = λ j h. absurd (omega (arith, h));
      })
  | inr over ↦
      let pop : (ltb a (length (f ∷ fs)) || ltb b (terminal_replay_bytes (f ∷ fs))) ≡ true =
        ground (arith, over) in
      let r = pop_loop-Kept a b fs in
      rw pop (record {
        dropped = suc r.dropped;
        dropped-le = omega (arith, r.dropped-le);
        kept-drop = r.kept-drop;
        fits = r.fits;
        least = least-cons a b r.dropped f fs over r.least;
      })
]

-- Recording one more frame in what is kept keeps what would be kept of all frames.
least-more :
    (a b k m : ℕ) (all : Frames) (f : WorkspaceTerminalOutputFrame)
    → k ≤ length all
    → ((j : ℕ) → j < k → within a b (drop j all) ≡ false)
    → ((j : ℕ) → j < m → within a b (drop j (drop k all ++ f ∷ [])) ≡ false)
    → (j : ℕ) → j < k + m
    → within a b (drop j (all ++ f ∷ [])) ≡ false
least-more a b k m all f le before behind j l = elim (Bool-cases (ltb j k)) [
  | inl e ↦
      let short = ltb→lt j k e in
      rw (drop-append_short j all f (omega (arith, short, le)))
        (within-append a b (drop j all) (f ∷ []) (before j short))
  | inr e ↦
      let ge : k ≤ j = ground (arith, e) in
      let again : k + (j - k) ≡ j = omega (arith, ge) in
      subst (λ i. within a b (drop i (all ++ f ∷ [])) ≡ false) again
        (subst (λ fs. within a b fs ≡ false)
          (sym (
            drop-drop k (j - k) (all ++ f ∷ []) ∙ ap (drop (j - k)) (drop-append_short k all f le)))
          (behind (j - k) (omega (arith, ge, l))))
]

pub pop_loop-append :
    (a b : ℕ) (all kept : Frames) (f : WorkspaceTerminalOutputFrame)
    → Kept a b all kept
    → Kept a b (all ++ f ∷ []) (pop_loop a b (kept ++ f ∷ []))
pop_loop-append a b all kept f r =
    let q = pop_loop-Kept a b (kept ++ f ∷ []) in
    let e : kept ++ f ∷ [] ≡ drop r.dropped (all ++ f ∷ []) =
      ap (λ fs. fs ++ f ∷ []) r.kept-drop ∙ sym (drop-append_short r.dropped all f r.dropped-le) in
    record {
      dropped = r.dropped + q.dropped;
      dropped-le = omega (
        arith,
        r.dropped-le,
        q.dropped-le,
        ap length e,
        length-append all (f ∷ []),
        length-drop r.dropped (all ++ f ∷ []),
      );
      kept-drop =
          q.kept-drop ∙ ap (drop q.dropped) e ∙ sym (drop-drop r.dropped q.dropped (all ++ f ∷ []));
      fits = q.fits;
      least = least-more a b r.dropped q.dropped all f r.dropped-le r.least (
          subst (λ fs. (j : ℕ) → j < q.dropped → within a b (drop j (fs ++ f ∷ [])) ≡ false)
            r.kept-drop q.least);
    }
