-- ===== src/Node/Workspace/Hunks.antt =====
-- The hunks of a diff: how many there are and how they are numbered.
use uprava.Prelude.{
  ◌+◌, ◌≤◌, ◌<◌, ℕ, suc, ◌≡◌, refl, subst, inl, inr, true, Option, none, some, List, [], ◌∷◌, ◌++◌,
  arith, Text, codes, strip_prefix, ltb, leb, Bool-cases, map_or, is_some, length, length-append,
  strip_prefix-append, ltb→lt,
}
use uprava.Protocol.Workspace.{WorkspaceDiffHunk}
use uprava.Node.Workspace.{
  HunkParser, hunk_id_at, push_hunk, close_hunk, push_line, parse_diff_line, parse_diff_lines,
  diff_hunks_with_limit, starts_with, lines,
}

module _ (diff_id : Text) where
  -- The hunks are numbered from the given number on, and the patch of each begins with its header.
  unfoldable pub Numbered : ℕ → List WorkspaceDiffHunk → Type 0
  Numbered n [] = Unit
  Numbered n (h ∷ hs) =
      (h.hunk_id ≡ hunk_id_at diff_id n)
      × (starts_with h.header h.patch ≡ true)
      × Numbered (suc n) hs

  Numbered-append :
      (n k : ℕ) (hs : List WorkspaceDiffHunk) (h : WorkspaceDiffHunk)
      → Numbered n hs
      → k ≡ n + length hs
      → h.hunk_id ≡ hunk_id_at diff_id k
      → starts_with h.header h.patch ≡ true
      → Numbered n (hs ++ h ∷ [])
  unfolding Numbered
  Numbered-append n k [] h t e a b =
      (subst (λ m. h.hunk_id ≡ hunk_id_at diff_id m) (omega arith) a, b, tt)
  Numbered-append n k (x ∷ hs) h t e a b =
      (t.0, t.1, Numbered-append (suc n) k hs h t.2 (omega arith) a b)

  abbrev Begun : Option Text → Text → Type 0
  Begun none patch = Unit
  Begun (some header) patch = starts_with header patch ≡ true

  record Parsing (max_hunks : ℕ) (p : HunkParser) : Type 0 where
    bounded : length p.hunks ≤ max_hunks
    numbered : Numbered 0 p.hunks
    current : Begun p.header p.patch

  strip_prefix-grow :
      (s t u : Text) → is_some (strip_prefix s t) ≡ true → is_some (strip_prefix s (t ++ u)) ≡ true
  unfolding strip_prefix
  strip_prefix-grow [] t u h = refl
  strip_prefix-grow (c ∷ s) [] u h = ground (arith, h)
  strip_prefix-grow (c ∷ s) (d ∷ t) u h = ground (arith, h, strip_prefix-grow s t u)

  push_hunk-Parsing :
      (max_hunks : ℕ) (p : HunkParser) (header : Text)
      → Parsing max_hunks p
      → starts_with header p.patch ≡ true
      → length p.hunks < max_hunks
      → Parsing max_hunks (push_hunk diff_id header p)
  push_hunk-Parsing max_hunks p header t s room = record {
    bounded = omega (arith, length-append p.hunks (_ ∷ []));
    numbered = Numbered-append 0 (length p.hunks) p.hunks _ t.numbered (omega arith) refl s;
    current = tt;
  }

  close_at-Parsing :
      (max_hunks : ℕ) (p : HunkParser) (o : Option Text)
      → p.header ≡ o
      → Parsing max_hunks p
      → length p.hunks < max_hunks
      → Parsing max_hunks (map_or p (λ header. push_hunk diff_id header p) o)
  close_at-Parsing max_hunks p none e t room = t
  close_at-Parsing max_hunks p (some header) e t room =
      push_hunk-Parsing max_hunks p header t (subst (λ o. Begun o p.patch) e t.current) room

  close_hunk-Parsing :
      (max_hunks : ℕ) (p : HunkParser)
      → Parsing max_hunks p
      → length p.hunks < max_hunks
      → Parsing max_hunks (close_hunk diff_id p)
  unfolding close_hunk
  close_hunk-Parsing max_hunks p t room = close_at-Parsing max_hunks p p.header refl t room

  -- Closing leaves no patch behind.
  close_at-patch :
      (p : HunkParser) (o : Option Text)
      → p.header ≡ o
      → (o ≡ none → p.patch ≡ [])
      → (map_or p (λ header. push_hunk diff_id header p) o).patch ≡ []
  close_at-patch p none e h = h refl
  close_at-patch p (some header) e h = refl

  starts_with-line : (line : Text) → starts_with line ([] ++ line ++ 10 ∷ []) ≡ true
  unfolding starts_with
  starts_with-line line = rw (strip_prefix-append line (10 ∷ [])) refl

  Begun-push : (o : Option Text) (patch more : Text) → Begun o patch → Begun o (patch ++ more)
  unfolding starts_with
  Begun-push none patch more h = tt
  Begun-push (some header) patch more h = strip_prefix-grow header patch more h

  push_line-Parsing :
      (max_hunks : ℕ) (p : HunkParser) (line : Text)
      → Parsing max_hunks p
      → Parsing max_hunks (push_line line p)
  push_line-Parsing max_hunks p line t = record {
    bounded = t.bounded;
    numbered = t.numbered;
    current =
        Begun-push p.header (p.patch ++ line) (10 ∷ [])
          (Begun-push p.header p.patch line t.current);
  }

  -- Between the lines: the hunks and the patch agree, and without a header there is no patch.
  pub Ready : ℕ → HunkParser → Type 0
  Ready max_hunks p = Parsing max_hunks p × (p.header ≡ none → p.patch ≡ [])

  open_hunk-Parsing :
      (max_hunks : ℕ) (p : HunkParser) (line : Text)
      → Parsing max_hunks p
      → p.patch ≡ []
      → Parsing max_hunks (push_line line (record p { header = some line }))
  open_hunk-Parsing max_hunks p line t e = record {
    bounded = t.bounded;
    numbered = t.numbered;
    current = rw e (starts_with-line line);
  }

  parse_diff_line-Ready :
      (max_hunks : ℕ) (line : Text) (p : HunkParser)
      → Ready max_hunks p
      → length p.hunks < max_hunks
      → Ready max_hunks (parse_diff_line diff_id line p)
  unfolding parse_diff_line Ready close_hunk
  parse_diff_line-Ready max_hunks line p (t, empty) room =
      let closed = close_hunk diff_id p in
      let parsing = close_hunk-Parsing max_hunks p t room in
      let no_patch = close_at-patch p p.header refl empty in
      elim (Bool-cases (starts_with (codes "@@ ") line)) [
        | inl e ↦
            rw e (open_hunk-Parsing max_hunks closed line parsing no_patch, λ h. ground (arith, h))
        | inr e ↦ elim (Bool-cases (is_some p.header)) [
          | inr n ↦ rw (e, n) (t, empty)
          | inl s ↦ elim (Bool-cases (starts_with (codes "diff --git ") line)) [
            | inl d ↦ rw (e, s, d) (parsing, λ h. no_patch)
            | inr d ↦ rw (e, s, d) (push_line-Parsing max_hunks p line t, λ h. ground (arith, h, s))
          ]
        ]
      ]

  parse_diff_lines-Ready :
      (max_hunks : ℕ) (rest : List Text) (p : HunkParser)
      → Ready max_hunks p
      → Ready max_hunks (parse_diff_lines max_hunks diff_id rest p)
  unfolding parse_diff_lines
  parse_diff_lines-Ready max_hunks [] p r = r
  parse_diff_lines-Ready max_hunks (line ∷ rest) p r =
      elim (Bool-cases (leb max_hunks (length p.hunks))) [
        | inl full ↦ rw full r
        | inr room ↦ rw room (
            parse_diff_lines-Ready max_hunks rest (parse_diff_line diff_id line p)
              (parse_diff_line-Ready max_hunks line p r (ground (arith, room))))
      ]

  -- However long the diff, there are no more hunks than the limit. They are numbered from 1 on in
  -- their order, and the patch of each begins with its header.
  pub diff_hunks_with_limit_lem :
      (max_hunks : ℕ) (diff : Text)
      → let hunks = diff_hunks_with_limit max_hunks diff_id diff in
        (length hunks ≤ max_hunks) × Numbered 0 hunks
  unfolding diff_hunks_with_limit Ready Numbered
  diff_hunks_with_limit_lem max_hunks diff =
      let start : HunkParser = record { hunks = []; header = none; patch = [] } in
      let p = parse_diff_lines max_hunks diff_id (lines diff) start in
      let begin : Parsing max_hunks start = record {
        bounded = omega arith;
        numbered = tt;
        current = tt;
      } in
      let r = parse_diff_lines-Ready max_hunks (lines diff) start (begin, λ h. refl) in
      elim (Bool-cases (ltb (length p.hunks) max_hunks)) [
        | inl room ↦
            let closed = close_hunk-Parsing max_hunks p r.0 (ltb→lt _ _ room) in
            rw room (closed.bounded, closed.numbered)
        | inr full ↦ rw full (r.0.bounded, r.0.numbered)
      ]
