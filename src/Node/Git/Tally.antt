-- ===== src/Node/Git/Tally.antt =====
-- When the counts and the list of a snapshot agree with a list of changes.
use uprava.Prelude.{
  ◌+◌, ◌%◌, ◌^◌, ℕ, ◌≡◌, refl, sym, ap, ◌∙◌, subst, inl, inr, Bool, true, false, Option, none, some,
  List, [], ◌∷◌, ◌++◌, arith, Text, ltb, ◌==◌, if◌then◌else◌, Bool-cases, map_or, unwrap_or,
  is_some, length, take, drop, count_if, parse_u64, get_elem?, length-append, length-take,
  count_if-append, take-append_one,
}
use uprava.Protocol.Workspace.{GitChangedFile, GitWorkspaceSnapshot}
use uprava.Node.Git.Records.{given}
use uprava.Node.Git.{is_untracked, push_git_change, ahead_behind, push_given}

-- The snapshot agrees with a list of changes: it lists the first thousand of them, says whether
-- there are more, and counts all of them, each count a `u64`.
pub record Tally (cs : List GitChangedFile) (s : GitWorkspaceSnapshot) : Type 0 where
  pub files : s.changed_files ≡ take 1_000 cs
  pub cut : s.truncated ≡ ltb 1_000 (length cs)
  pub staged : s.staged_count ≡ count_if (λ c. is_some c.index_status) cs % 2 ^ 64
  pub unstaged : s.unstaged_count ≡ count_if (λ c. is_some c.worktree_status) cs % 2 ^ 64
  pub untracked : s.untracked_count ≡ count_if (λ c. is_untracked c.worktree_status) cs % 2 ^ 64
  pub conflicts : s.conflicted_count ≡ count_if (λ c. c.conflicted) cs % 2 ^ 64

count_up-append :
    (p : GitChangedFile → Bool) (cs : List GitChangedFile) (c : GitChangedFile) (n : ℕ)
    → n ≡ count_if p cs % 2 ^ 64
    → (if p c then (n + 1) % 2 ^ 64 else n) ≡ count_if p (cs ++ c ∷ []) % 2 ^ 64
count_up-append p cs c n h = elim (Bool-cases (p c)) [
  | inl e ↦ rw e (ground (arith, h, e, count_if-append p cs (c ∷ [])))
  | inr e ↦ rw e (ground (arith, h, e, count_if-append p cs (c ∷ [])))
]

files-append :
    (n : ℕ) (cs : List GitChangedFile) (c : GitChangedFile) (fs : List GitChangedFile)
    → fs ≡ take n cs
    → (if ltb (length fs) n then fs ++ c ∷ [] else fs) ≡ take n (cs ++ c ∷ [])
files-append n cs c fs h = rw h (sym (take-append_one n cs c))

cut-append :
    (n : ℕ) (cs : List GitChangedFile) (c : GitChangedFile) (fs : List GitChangedFile) (b : Bool)
    → fs ≡ take n cs
    → b ≡ ltb n (length cs)
    → (if ltb (length fs) n then b else true) ≡ ltb n (length (cs ++ c ∷ []))
cut-append n cs c fs b h e =
    ground (arith, e, ap (λ t. length t) h, length-take n cs, length-append cs (c ∷ []))

pub push-Tally :
    (cs : List GitChangedFile) (c : GitChangedFile) (s : GitWorkspaceSnapshot)
    → Tally cs s
    → Tally (cs ++ c ∷ []) (push_git_change c s)
unfolding push_git_change
push-Tally cs c s t =
    let files = files-append 1_000 cs c s.changed_files t.files in
    let cut = cut-append 1_000 cs c s.changed_files s.truncated t.files t.cut in
    let staged = count_up-append (λ c. is_some c.index_status) cs c s.staged_count t.staged in
    let unstaged =
      count_up-append (λ c. is_some c.worktree_status) cs c s.unstaged_count t.unstaged in
    let untracked =
      count_up-append (λ c. is_untracked c.worktree_status) cs c s.untracked_count t.untracked in
    let conflicts = count_up-append (λ c. c.conflicted) cs c s.conflicted_count t.conflicts in
    elim (Bool-cases (ltb (length s.changed_files) 1_000)) [
      | inl h ↦ rw h (record {
        files = rw h at files;
        cut = rw h at cut;
        staged = staged;
        unstaged = unstaged;
        untracked = untracked;
        conflicts = conflicts;
      })
      | inr h ↦ rw h (record {
        files = rw h at files;
        cut = rw h at cut;
        staged = staged;
        unstaged = unstaged;
        untracked = untracked;
        conflicts = conflicts;
      })
    ]

abbrev pub counts : GitWorkspaceSnapshot → List GitChangedFile × Bool × ℕ × ℕ × ℕ × ℕ
counts s = (
  s.changed_files, s.truncated, s.staged_count, s.unstaged_count, s.untracked_count,
  s.conflicted_count,
)

pub counts-Tally :
    (cs : List GitChangedFile) (s s' : GitWorkspaceSnapshot)
    → counts s' ≡ counts s
    → Tally cs s
    → Tally cs s'
counts-Tally cs s s' e t = record {
  files = ap (λ c. c.0) e ∙ t.files;
  cut = ap (λ c. c.1) e ∙ t.cut;
  staged = ap (λ c. c.2) e ∙ t.staged;
  unstaged = ap (λ c. c.3) e ∙ t.unstaged;
  untracked = ap (λ c. c.4) e ∙ t.untracked;
  conflicts = ap (λ c. c.5) e ∙ t.conflicts;
}

append_nil : (cs : List GitChangedFile) → cs ++ [] ≡ cs
append_nil [] = refl
append_nil (c ∷ cs) = ap (λ t. c ∷ t) (append_nil cs)

pub Tally-nil :
    (cs : List GitChangedFile) (s : GitWorkspaceSnapshot) → Tally cs s → Tally (cs ++ []) s
Tally-nil cs s t = subst (λ l. Tally l s) (sym (append_nil cs)) t

pub push_given-Tally :
    (cs : List GitChangedFile) (o : Option GitChangedFile) (s : GitWorkspaceSnapshot)
    → Tally cs s
    → Tally (cs ++ given o) (push_given o s)
unfolding push_given
push_given-Tally cs none s t = Tally-nil cs s t
push_given-Tally cs (some c) s t = push-Tally cs c s t

pub counts-if :
    (b : Bool) (s t e : GitWorkspaceSnapshot)
    → counts t ≡ counts s
    → counts e ≡ counts s
    → counts (if b then t else e) ≡ counts s
counts-if true s t e h k = h
counts-if false s t e h k = k

pub counts-ahead_behind :
    (parts : List Text) (s : GitWorkspaceSnapshot) → counts (ahead_behind parts s) ≡ counts s
unfolding ahead_behind
counts-ahead_behind [] s = refl
counts-ahead_behind (part ∷ parts) s =
    let value = unwrap_or (parse_u64 (drop 1 part)) 0 in
    counts-ahead_behind parts _
    ∙ counts-if (map_or false (λ c. c == 43) (get_elem? part 0)) s (record s { ahead = value }) _
        refl
        (counts-if (map_or false (λ c. c == 45) (get_elem? part 0)) s (record s { behind = value })
          s refl refl)
