-- ===== src/Examples/Reading.antt =====
-- What Git prints of a work tree.
use uprava.Prelude.{
  ◌≡◌, refl, none, some, [], ◌∷◌, ◌++◌, strip_prefix, split, splitn, Text, codes, contains_char,
  map_or, split_once,
}
use uprava.Protocol.Workspace.{GitRepositoryState}
use uprava.Node.Git.{
  empty_git_snapshot, git_changed_file, parse_ordinary_git_change, on_unmerged, push_git_change,
  unmerged_file, untracked_file, parse_renamed_git_change, git_change_kind,
}
use uprava.Node.Git.Tally.{Tally}
use uprava.Node.Git.Records.{record_change, renamed_change, changes_of}
use uprava.Node.Git.Paths.{
  spaced, Words, first_word, parse_ordinary_git_change_lem, on_unmerged_lem,
}

abbrev status : Text
status =
    codes "# branch.head main"
    ++ 0 ∷ codes "1 .M N... 100644 100644 100644 1af3 1af3 lib.rs"
    ++ 0 ∷ codes "2 R. N... 100644 100644 100644 1af3 1af3 R100 new.rs"
    ++ 0 ∷ codes "1 old.rs"
    ++ 0 ∷ codes "? notes.txt"
    ++ 0 ∷ []

status_changes : changes_of none (split 0 status) ≡ (
    git_changed_file (codes "lib.rs") none (codes ".M")
    ∷ git_changed_file (codes "new.rs") (some (codes "1 old.rs")) (codes "R.")
    ∷ untracked_file (codes "notes.txt")
    ∷ [])
unfolding changes_of record_change renamed_change parse_ordinary_git_change parse_renamed_git_change
    git_changed_file git_change_kind unmerged_file untracked_file strip_prefix split splitn
status_changes = refl

abbrev mode : Text
mode = codes "100644"

abbrev hash : Text
hash = codes "1af3"

ordinary-Words : Words (codes ".M" ∷ codes "N..." ∷ mode ∷ mode ∷ mode ∷ hash ∷ hash ∷ [])
unfolding contains_char
ordinary-Words = (refl, (refl, (refl, (refl, (refl, (refl, (refl, tt)))))))

renamed-Words :
    Words (codes "R." ∷ codes "N..." ∷ mode ∷ mode ∷ mode ∷ hash ∷ hash ∷ codes "R100" ∷ [])
unfolding contains_char
renamed-Words = (refl, (refl, (refl, (refl, (refl, (refl, (refl, (refl, tt))))))))

unmerged-Words :
    Words (codes "UU" ∷ codes "N..." ∷ mode ∷ mode ∷ mode ∷ mode ∷ hash ∷ hash ∷ hash ∷ [])
unfolding contains_char
unmerged-Words = (refl, (refl, (refl, (refl, (refl, (refl, (refl, (refl, (refl, tt)))))))))

on_unmerged_lem_example :
    let s = empty_git_snapshot GitRepositoryState.ready 900 in
    on_unmerged
      (spaced
        (codes "UU" ∷ codes "N..." ∷ mode ∷ mode ∷ mode ∷ mode ∷ hash ∷ hash ∷ hash ∷ [])
        (codes "src/main.rs"))
      s
    ≡ (
      map_or s (λ r. push_git_change (unmerged_file r.1) s) (split_once 32 (codes "src/main.rs")),
      none,
    )
on_unmerged_lem_example =
    on_unmerged_lem (codes "UU") (codes "N...") mode mode mode mode hash hash hash
      (codes "src/main.rs") (empty_git_snapshot GitRepositoryState.ready 900) unmerged-Words

parse_ordinary_git_change_lem_example :
    parse_ordinary_git_change
      (spaced (codes ".M" ∷ codes "N..." ∷ mode ∷ mode ∷ mode ∷ hash ∷ hash ∷ []) (codes "a b.txt"))
    ≡ some (git_changed_file (first_word (codes "a b.txt")) none (codes ".M"))
parse_ordinary_git_change_lem_example =
    parse_ordinary_git_change_lem (codes ".M") (codes "N...") mode mode mode hash hash
      (codes "a b.txt") ordinary-Words
