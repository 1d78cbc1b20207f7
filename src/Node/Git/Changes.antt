-- ===== src/Node/Git/Changes.antt =====
-- The counts and the list of the changes in a snapshot.
use uprava.Prelude.{◌≡◌, none, some, List, ◌++◌, Text, strip_prefix, All}
use uprava.Protocol.Workspace.{GitChangedFile, GitWorkspaceSnapshot}
use uprava.Node.Git.{Parsed}
use uprava.Node.Git.Records.{record_change, renamed_change}
use uprava.Node.Git.Tally.{Tally}

-- What a record does to the snapshot is what it tells.
abbrev Step : Text → GitWorkspaceSnapshot → Parsed → Type 0
Step line s r =
    ((cs : List GitChangedFile) → Tally cs s → Tally (cs ++ record_change line) r.0)
    × (r.1 ≡ renamed_change line)

abbrev Branch : Text × (Text → GitWorkspaceSnapshot → Parsed) → Type 0
Branch b =
    (line rest : Text) (s : GitWorkspaceSnapshot)
    → strip_prefix b.0 line ≡ some rest
    → Step line s (b.1 rest s)

abbrev Missing : Text → List (Text × (Text → GitWorkspaceSnapshot → Parsed)) → Type 0
Missing line branches = All (λ b. strip_prefix b.0 line ≡ none) branches
