-- ===== src/Node/Git/Paths.antt =====
-- Which path the records of Git give.
use uprava.Prelude.{
  ℕ, suc, ◌≡◌, refl, ap, ◌∙◌, inl, inr, false, none, some, List, [], ◌∷◌, ◌++◌, Text, contains_char,
  Option-cases, map_or, split_once, splitn, splitn-append, All, get_elem?,
}
use uprava.Protocol.Workspace.{GitWorkspaceSnapshot}
use uprava.Node.Git.{
  git_changed_file, parse_ordinary_git_change, parse_renamed_git_change, on_unmerged,
  push_git_change, push_given, unmerged_file,
}

-- Fields, each followed by one space, and a rest.
abbrev pub spaced : List Text → Text → Text
spaced [] rest = rest
spaced (f ∷ fs) rest = f ++ 32 ∷ spaced fs rest

-- No field contains a space.
abbrev pub Words : List Text → Type 0
Words = All (λ f. contains_char 32 f ≡ false)

-- As many more as there are fields.
abbrev more : List Text → ℕ → ℕ
more [] n = n
more (f ∷ fs) n = suc (more fs n)

splitn-spaced :
    (n : ℕ) (fs : List Text) (rest : Text)
    → Words fs
    → splitn (suc (more fs n)) 32 (spaced fs rest) ≡ fs ++ splitn (suc n) 32 rest
splitn-spaced n [] rest h = refl
splitn-spaced n (f ∷ fs) rest h =
    splitn-append (more fs n) 32 f (spaced fs rest) h.0
    ∙ ap (λ t. f ∷ t) (splitn-spaced n fs rest h.1)

-- The text up to its first space.
pub first_word : Text → Text
first_word s = map_or s (λ r. r.0) (split_once 32 s)

head-splitn : (s : Text) → get_elem? (splitn 2 32 s) 0 ≡ some (first_word s)
unfolding splitn first_word
head-splitn s = elim (Option-cases (split_once 32 s)) [ inl e ↦ rw e refl | inr (r, e) ↦ rw e refl ]

-- The record of a changed file, as Git prints it behind `1 `: seven fields and the path. The file is
-- read with the status of the first field and with the path up to its first space, so with the whole
-- path if and only if that has no space.
pub parse_ordinary_git_change_lem :
    (xy sub mh mi mw hh hi path : Text)
    → Words (xy ∷ sub ∷ mh ∷ mi ∷ mw ∷ hh ∷ hi ∷ [])
    → parse_ordinary_git_change (spaced (xy ∷ sub ∷ mh ∷ mi ∷ mw ∷ hh ∷ hi ∷ []) path)
      ≡ some (git_changed_file (first_word path) none xy)
unfolding parse_ordinary_git_change
parse_ordinary_git_change_lem xy sub mh mi mw hh hi path h =
    rw (splitn-spaced 1 (xy ∷ sub ∷ mh ∷ mi ∷ mw ∷ hh ∷ hi ∷ []) path h, head-splitn path) refl

-- The record of a renamed file, as Git prints it behind `2 `: eight fields and the path, of which
-- the part up to the first space is read.
pub parse_renamed_git_change_lem :
    (xy sub mh mi mw hh hi score path : Text)
    → Words (xy ∷ sub ∷ mh ∷ mi ∷ mw ∷ hh ∷ hi ∷ score ∷ [])
    → parse_renamed_git_change (spaced (xy ∷ sub ∷ mh ∷ mi ∷ mw ∷ hh ∷ hi ∷ score ∷ []) path)
      ≡ some (git_changed_file (first_word path) none xy)
unfolding parse_renamed_git_change
parse_renamed_git_change_lem xy sub mh mi mw hh hi score path h =
    rw (splitn-spaced 1 (xy ∷ sub ∷ mh ∷ mi ∷ mw ∷ hh ∷ hi ∷ score ∷ []) path h, head-splitn path)
      refl

-- The record of an unmerged file, as Git prints it behind `u `: nine fields and the path. A path
-- without a space is not read at all: the conflict is not in the snapshot. Of a path with a space
-- only what follows the first one is read.
pub on_unmerged_lem :
    (xy sub m1 m2 m3 mw h1 h2 h3 path : Text) (s : GitWorkspaceSnapshot)
    → Words (xy ∷ sub ∷ m1 ∷ m2 ∷ m3 ∷ mw ∷ h1 ∷ h2 ∷ h3 ∷ [])
    → on_unmerged (spaced (xy ∷ sub ∷ m1 ∷ m2 ∷ m3 ∷ mw ∷ h1 ∷ h2 ∷ h3 ∷ []) path) s
      ≡ (map_or s (λ r. push_git_change (unmerged_file r.1) s) (split_once 32 path), none)
unfolding on_unmerged push_given splitn
on_unmerged_lem xy sub m1 m2 m3 mw h1 h2 h3 path s h =
    let fs = xy ∷ sub ∷ m1 ∷ m2 ∷ m3 ∷ mw ∷ h1 ∷ h2 ∷ h3 ∷ [] in
    rw (splitn-spaced 1 fs path h)
      (elim (Option-cases (split_once 32 path)) [ inl e ↦ rw e refl | inr (r, e) ↦ rw e refl ])
