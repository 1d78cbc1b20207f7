-- ===== src/Node/Git/Records.antt =====
-- The changes that the records of a text tell, read record by record.
use uprava.Prelude.{
  ℕ, ◌≡◌, refl, inl, inr, false, Option, none, some, List, [], ◌∷◌, ◌++◌, arith, Text, codes,
  strip_prefix, ◌==◌, Bool-cases, map_or, and_then, option_map, splitn, get_elem?,
}
use uprava.Protocol.Workspace.{GitChangedFile}
use uprava.Node.Git.{
  parse_ordinary_git_change, parse_renamed_git_change, unmerged_file, untracked_file,
}

abbrev pub given : Option GitChangedFile → List GitChangedFile
given none = []
given (some c) = c ∷ []

-- The change of a record that stands alone: an ordinary, an unmerged or an untracked file.
unfoldable pub record_change : Text → List GitChangedFile
unfolding parse_ordinary_git_change unmerged_file untracked_file
record_change line =
    map_or
      (map_or (map_or [] (λ path. untracked_file path ∷ []) (strip_prefix (codes "? ") line))
        (λ rest. given (option_map unmerged_file (get_elem? (splitn 11 32 rest) 10)))
        (strip_prefix (codes "u ") line))
      (λ rest. given (parse_ordinary_git_change rest)) (strip_prefix (codes "1 ") line)

-- The change of a record that is followed by the previous path.
unfoldable pub renamed_change : Text → Option GitChangedFile
unfolding parse_renamed_git_change
renamed_change line = and_then (strip_prefix (codes "2 ") line) parse_renamed_git_change

-- The changes in the order of the records. The record behind a renamed file is its previous path,
-- whatever it looks like; other records tell no change.
unfoldable pub changes_of : Option GitChangedFile → List Text → List GitChangedFile
unfolding record_change renamed_change
changes_of none [] = []
changes_of (some c) [] = c ∷ []
changes_of (some c) (line ∷ lines) = record c { previous_path = some line } ∷ changes_of none lines
changes_of none (line ∷ lines) = record_change line ++ changes_of (renamed_change line) lines

-- A text that begins with one character has no prefix that begins with another.
other-prefix :
    (p q : ℕ) (ps qs line rest : Text)
    → (p == q) ≡ false
    → strip_prefix (p ∷ ps) line ≡ some rest
    → strip_prefix (q ∷ qs) line ≡ none
unfolding strip_prefix
other-prefix p q ps qs [] rest h e = refl
other-prefix p q ps qs (c ∷ line) rest h e = elim (Bool-cases (q == c)) [
  | inr n ↦ rw n refl
  | inl m ↦ ground (arith, h, m, e)
]

-- What a record tells, by the prefix that it has.
pub change_of_header :
    (ps line rest : Text)
    → strip_prefix (35 ∷ ps) line ≡ some rest
    → (record_change line ≡ []) × (renamed_change line ≡ none)
unfolding record_change renamed_change
change_of_header ps line rest e = (
  rw
      (
        other-prefix 35 49 ps (32 ∷ []) line rest refl e,
        other-prefix 35 117 ps (32 ∷ []) line rest refl e,
        other-prefix 35 63 ps (32 ∷ []) line rest refl e,
      )
      refl,
  rw (other-prefix 35 50 ps (32 ∷ []) line rest refl e) refl,
)

pub change_of_ordinary :
    (line rest : Text)
    → strip_prefix (codes "1 ") line ≡ some rest
    → (record_change line ≡ given (parse_ordinary_git_change rest)) × (renamed_change line ≡ none)
unfolding record_change renamed_change
change_of_ordinary line rest e =
    (rw e refl, rw (other-prefix 49 50 (32 ∷ []) (32 ∷ []) line rest refl e) refl)

pub change_of_renamed :
    (line rest : Text)
    → strip_prefix (codes "2 ") line ≡ some rest
    → (record_change line ≡ []) × (renamed_change line ≡ parse_renamed_git_change rest)
unfolding record_change renamed_change
change_of_renamed line rest e = (
  rw
      (
        other-prefix 50 49 (32 ∷ []) (32 ∷ []) line rest refl e,
        other-prefix 50 117 (32 ∷ []) (32 ∷ []) line rest refl e,
        other-prefix 50 63 (32 ∷ []) (32 ∷ []) line rest refl e,
      )
      refl,
  rw e refl,
)

pub change_of_unmerged :
    (line rest : Text)
    → strip_prefix (codes "u ") line ≡ some rest
    → (record_change line ≡ given (option_map unmerged_file (get_elem? (splitn 11 32 rest) 10)))
      × (renamed_change line ≡ none)
unfolding record_change renamed_change
change_of_unmerged line rest e = (
  rw (other-prefix 117 49 (32 ∷ []) (32 ∷ []) line rest refl e, e) refl,
  rw (other-prefix 117 50 (32 ∷ []) (32 ∷ []) line rest refl e) refl,
)

pub change_of_untracked :
    (line path : Text)
    → strip_prefix (codes "? ") line ≡ some path
    → (record_change line ≡ untracked_file path ∷ []) × (renamed_change line ≡ none)
unfolding record_change renamed_change
change_of_untracked line path e = (
  rw
      (
        other-prefix 63 49 (32 ∷ []) (32 ∷ []) line path refl e,
        other-prefix 63 117 (32 ∷ []) (32 ∷ []) line path refl e,
        e,
      )
      refl,
  rw (other-prefix 63 50 (32 ∷ []) (32 ∷ []) line path refl e) refl,
)

pub change_of_none :
    (line : Text)
    → strip_prefix (codes "1 ") line ≡ none
    → strip_prefix (codes "2 ") line ≡ none
    → strip_prefix (codes "u ") line ≡ none
    → strip_prefix (codes "? ") line ≡ none
    → (record_change line ≡ []) × (renamed_change line ≡ none)
unfolding record_change renamed_change
change_of_none line one two u other = (rw (one, u, other) refl, rw two refl)
