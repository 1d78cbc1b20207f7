-- ===== src/Node/Warnings.antt =====
-- What Node warns of in a work tree: `resource_warnings_for_snapshot`, `dirty_workspace_label` and
-- `redact_git_credentials` of crates/uprava-node/src/runtime/support.rs.
use uprava.Prelude.{
  ℕ, ◌≡◌, refl, Bool, true, false, ◌&&◌, ◌||◌, Option, none, some, List, [], ◌∷◌, ◌++◌, arith, Text,
  codes, ltb, ◌==◌, if◌then◌else◌, option_map, map_or, length, any, decimal, any-append,
}
use uprava.Protocol.Domain.{WarningSeverity}
use uprava.Protocol.Workspace.{
  ResourceBadge, GitRepositoryState, GitOperation, GitWorkspaceSnapshot,
}
use uprava.Node.Git.{is_detached}

unfoldable pub dirty_workspace_label : ℕ → ℕ → Text
dirty_workspace_label dirty_count untracked_count =
    let start = codes "Git workspace has " ++ decimal dirty_count ++ codes " changed path(s)" in
    if untracked_count == 0
    then start
    else start ++ codes ", including " ++ decimal untracked_count ++ codes " untracked"

abbrev badge : Text → WarningSeverity → Text → ResourceBadge
badge kind severity label = record { kind = kind; severity = severity; label = label }

-- `{operation:?}`
operation_name : GitOperation → Text
operation_name GitOperation.merge = codes "Merge"
operation_name GitOperation.rebase = codes "Rebase"
operation_name GitOperation.cherry_pick = codes "CherryPick"
operation_name GitOperation.revert = codes "Revert"
operation_name GitOperation.bisect = codes "Bisect"

unavailable_badges : List ResourceBadge
unavailable_badges =
    badge (codes "git_snapshot_unavailable") WarningSeverity.warning
      (codes "Git snapshot unavailable")
    ∷ []

-- `badges.push(..)` under a condition
abbrev pub push_if : Bool → ResourceBadge → List ResourceBadge → List ResourceBadge
push_if b x badges = if b then badges ++ x ∷ [] else badges

abbrev pub push_some : Option ResourceBadge → List ResourceBadge → List ResourceBadge
push_some none badges = badges
push_some (some x) badges = badges ++ x ∷ []

branch_badge : Text → ResourceBadge
branch_badge name = badge (codes "git_branch") WarningSeverity.info (codes "Git branch: " ++ name)

unfoldable pub conflict_badge : ℕ → ResourceBadge
conflict_badge n =
    badge (codes "git_conflicts") WarningSeverity.hard_block
      (decimal n ++ codes " conflicted path(s)")

operation_badge : GitOperation → ResourceBadge
unfolding operation_name
operation_badge operation =
    badge (codes "git_operation_in_progress") WarningSeverity.warning
      (codes "Git " ++ operation_name operation ++ codes " is in progress")

unfoldable pub ready_badges : GitWorkspaceSnapshot → List ResourceBadge
unfolding branch_badge conflict_badge operation_badge dirty_workspace_label
ready_badges s =
    let dirty_count = length s.changed_files in
    let b0 = badge (codes "git_workspace") WarningSeverity.info (codes "Git workspace") ∷ [] in
    let b1 = push_some (option_map branch_badge s.branch) b0 in
    let b2 =
      push_if (ltb 0 dirty_count)
        (badge (codes "dirty_workspace") WarningSeverity.warning
          (dirty_workspace_label dirty_count s.untracked_count))
        b1 in
    let b3 = push_if (ltb 0 s.conflicted_count) (conflict_badge s.conflicted_count) b2 in
    let b4 =
      push_if (is_detached s.head_state)
        (badge (codes "detached_head") WarningSeverity.warning (codes "Git HEAD is detached")) b3 in
    let b5 = push_some (option_map operation_badge s.operation) b4 in
    let b6 =
      push_if (ltb 0 s.behind)
        (badge (codes "branch_behind") WarningSeverity.warning
          (codes "Branch is behind upstream by " ++ decimal s.behind ++ codes " commit(s)"))
        b5 in
    push_if (ltb 0 s.ahead)
      (badge (codes "branch_ahead") WarningSeverity.info
        (codes "Branch is ahead of upstream by " ++ decimal s.ahead ++ codes " commit(s)"))
      b6

abbrev warnings_in : GitRepositoryState → GitWorkspaceSnapshot → List ResourceBadge
unfolding unavailable_badges ready_badges
warnings_in GitRepositoryState.not_repository s = []
warnings_in GitRepositoryState.unavailable s = unavailable_badges
warnings_in GitRepositoryState.ready s = ready_badges s

unfoldable pub resource_warnings_for_snapshot : Option GitWorkspaceSnapshot → List ResourceBadge
unfolding unavailable_badges warnings_in
resource_warnings_for_snapshot none = unavailable_badges
resource_warnings_for_snapshot (some s) = warnings_in s.state s

abbrev pub is_hard_block : ResourceBadge → Bool
is_hard_block b = elim b.severity [ WarningSeverity.hard_block ↦ true | _ ↦ false ]

abbrev pub in_ready : GitRepositoryState → Bool
in_ready GitRepositoryState.ready = true
in_ready _ = false

any-push_if :
    (p : ResourceBadge → Bool) (b : Bool) (x : ResourceBadge) (bs : List ResourceBadge)
    → any p (push_if b x bs) ≡ (any p bs || b && p x)
any-push_if p b x bs = ground (arith, any-append p bs (x ∷ []))

any-push_some :
    (p : ResourceBadge → Bool) (o : Option ResourceBadge) (bs : List ResourceBadge)
    → any p (push_some o bs) ≡ (any p bs || map_or false p o)
any-push_some p none bs = ground arith
any-push_some p (some x) bs = ground (arith, any-append p bs (x ∷ []))

option_map-not_hard :
    {A : Type 0} (f : A → ResourceBadge) (o : Option A)
    → ((a : A) → is_hard_block (f a) ≡ false)
    → map_or false is_hard_block (option_map f o) ≡ false
option_map-not_hard f none h = refl
option_map-not_hard f (some a) h = h a

ready_badges-hard_block :
    (s : GitWorkspaceSnapshot) → any is_hard_block (ready_badges s) ≡ ltb 0 s.conflicted_count
unfolding ready_badges branch_badge conflict_badge operation_badge
ready_badges-hard_block s =
    simp
      (
        any-push_if,
        any-push_some,
        option_map-not_hard branch_badge s.branch (λ a. refl),
        option_map-not_hard operation_badge s.operation (λ a. refl),
      )
      (ground arith)

hard_block_of :
    (s : GitWorkspaceSnapshot) (state : GitRepositoryState)
    → any is_hard_block (warnings_in state s) ≡ (in_ready state && ltb 0 s.conflicted_count)
unfolding warnings_in unavailable_badges
hard_block_of s GitRepositoryState.ready = ready_badges-hard_block s
hard_block_of s GitRepositoryState.not_repository = refl
hard_block_of s GitRepositoryState.unavailable = refl

-- A snapshot gives rise to a hard block exactly if it is of a ready repository and counts a
-- conflict.
pub resource_warnings_for_snapshot-hard_block :
    (snapshot : Option GitWorkspaceSnapshot)
    → any is_hard_block (resource_warnings_for_snapshot snapshot)
      ≡ map_or false (λ s. in_ready s.state && ltb 0 s.conflicted_count) snapshot
unfolding resource_warnings_for_snapshot warnings_in unavailable_badges
resource_warnings_for_snapshot-hard_block none = refl
resource_warnings_for_snapshot-hard_block (some s) = hard_block_of s s.state
