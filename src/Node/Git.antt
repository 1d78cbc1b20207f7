-- ===== src/Node/Git.antt =====
-- The state of a Git work tree: `parse_git_porcelain_v2` and its helpers,
-- `resource_warnings_for_snapshot`, `dirty_workspace_label` and `redact_git_credentials` of
-- crates/uprava-node/src/runtime/support.rs.
pub mod Tally
pub mod Records
pub mod Changes
pub mod Paths
use uprava.Prelude.{
  ◌+◌, ◌-◌, ◌*◌, ◌/◌, ◌%◌, ◌^◌, ◌≤◌, ◌<◌, ℕ, zero, suc, max, min, compare, Ordering, ◌≡◌, refl, sym,
  ap, ◌∙◌, subst, ◌≢◌, ◌↔◌, ◌⊎◌, inl, inr, Bool, true, false, ◌&&◌, ◌||◌, not, Option, none, some,
  List, [], ◌∷◌, ◌++◌, map, arith, Text, codes, text_eq, text_lt, contains_char, contains_text,
  strip_prefix, trim, byte_len, utf8_len, text_eq_iff, text_eq_refl, ltb, leb, ◌==◌, if◌then◌else◌,
  Bool-cases, Option-cases, and_then, option_map, map_or, unwrap_or, or_else, is_some,
  option_filter, length, take, drop, is_empty, retain, any, all, count_if, Map, get, insert, remove,
  contains_key, keys, set_insert, set_remove, get-insert, get-insert_self, get-remove, map_laws,
  split_once, split, splitn, split_whitespace, parse_u64, decimal, splitn-append, splitn-absent,
  contains_text-set_insert, contains_text-set_remove, i64_max, All, get_elem?, length-append,
  length-drop, length-take, length-retain, count_if-le-length, take-append-drop, any-append,
  retain-append, All-append, All-drop, strip_prefix-append, append-cancel_left, trim_start,
  is_whitespace, text_eq-sym, ==_iff, eqℤ-refl, maxℤ, ◌≤ℤ◌, ◌<ℤ◌, maxℤ-ge_left, maxℤ-ge_right, ℤ,
  pos, negsuc, i64_succ, eqℤ, leℤ, ltb→lt, lt→ltb, leb→le,
}
use uprava.Protocol.Reference.{DateTime}
use uprava.Protocol.Domain.{WarningSeverity}
use uprava.Protocol.Workspace.{
  ResourceBadge, GitRepositoryState, GitHeadState, GitWorktreeKind, GitOperation, GitChangeKind,
  GitChangedFile, GitWorkspaceSnapshot,
}

abbrev pub max_git_changed_files : ℕ
max_git_changed_files = 1_000

unfoldable pub empty_git_snapshot : GitRepositoryState → DateTime → GitWorkspaceSnapshot
empty_git_snapshot state generated_at = record {
  state = state;
  repo_id = none;
  head_state = none;
  branch = none;
  commit = none;
  upstream = none;
  ahead = 0;
  behind = 0;
  worktree_kind = none;
  operation = none;
  changed_files = [];
  staged_count = 0;
  unstaged_count = 0;
  untracked_count = 0;
  conflicted_count = 0;
  truncated = false;
  generated_at = generated_at;
}

unfoldable pub git_change_kind : ℕ → Option GitChangeKind
git_change_kind status =
    if status == 0x2e
    then none
    else if status == 0x41
    then some GitChangeKind.added
    else if status == 0x4d
    then some GitChangeKind.modified
    else if status == 0x44
    then some GitChangeKind.deleted
    else if status == 0x52
    then some GitChangeKind.renamed
    else if status == 0x43
    then some GitChangeKind.copied
    else if status == 0x54
    then some GitChangeKind.type_changed
    else if status == 0x55
    then some GitChangeKind.unmerged
    else if status == 0x3f
    then some GitChangeKind.untracked
    else some GitChangeKind.unknown

abbrev pub is_unmerged : Option GitChangeKind → Bool
is_unmerged (some GitChangeKind.unmerged) = true
is_unmerged _ = false

abbrev pub is_untracked : Option GitChangeKind → Bool
is_untracked (some GitChangeKind.untracked) = true
is_untracked _ = false

unfoldable pub git_changed_file : Text → Option Text → Text → GitChangedFile
unfolding git_change_kind
git_changed_file path previous_path xy =
    let index_status = and_then (get_elem? xy 0) git_change_kind in
    let worktree_status = and_then (get_elem? xy 1) git_change_kind in
    record {
      path = path;
      previous_path = previous_path;
      index_status = index_status;
      worktree_status = worktree_status;
      conflicted = is_unmerged index_status || is_unmerged worktree_status;
      binary = false;
    }

-- `record.splitn(9, ' ')`: the first field, and after six more the path
unfoldable pub parse_ordinary_git_change : Text → Option GitChangedFile
unfolding git_changed_file
parse_ordinary_git_change line =
    let fields = splitn 9 32 line in
    and_then (get_elem? fields 0)
      (λ xy. option_map (λ path. git_changed_file path none xy) (get_elem? fields 7))

-- `record.splitn(10, ' ')`: the first field, and after seven more the path
unfoldable pub parse_renamed_git_change : Text → Option GitChangedFile
unfolding git_changed_file
parse_renamed_git_change line =
    let fields = splitn 10 32 line in
    and_then (get_elem? fields 0)
      (λ xy. option_map (λ path. git_changed_file path none xy) (get_elem? fields 8))

-- `+= 1` on a `u64`
abbrev count_up : Bool → ℕ → ℕ
count_up b n = if b then (n + 1) % 2 ^ 64 else n

unfoldable pub push_git_change : GitChangedFile → GitWorkspaceSnapshot → GitWorkspaceSnapshot
push_git_change change s =
    let counted = record s {
      staged_count = count_up (is_some change.index_status) s.staged_count;
      unstaged_count = count_up (is_some change.worktree_status) s.unstaged_count;
      untracked_count = count_up (is_untracked change.worktree_status) s.untracked_count;
      conflicted_count = count_up change.conflicted s.conflicted_count;
    } in
    if ltb (length s.changed_files) max_git_changed_files
    then record counted { changed_files = s.changed_files ++ change ∷ [] }
    else record counted { truncated = true }

-- the body of the loop over the parts of `# branch.ab`
unfoldable pub ahead_behind : List Text → GitWorkspaceSnapshot → GitWorkspaceSnapshot
ahead_behind [] s = s
ahead_behind (part ∷ parts) s =
    let value = unwrap_or (parse_u64 (drop 1 part)) 0 in
    let first = get_elem? part 0 in
    ahead_behind parts (
      if map_or false (λ c. c == 43) first
      then record s { ahead = value }
      else if map_or false (λ c. c == 45) first
      then record s { behind = value }
      else s)

unfoldable pub unmerged_file : Text → GitChangedFile
unmerged_file path = record {
  path = path;
  previous_path = none;
  index_status = some GitChangeKind.unmerged;
  worktree_status = some GitChangeKind.unmerged;
  conflicted = true;
  binary = false;
}

unfoldable pub untracked_file : Text → GitChangedFile
untracked_file path = record {
  path = path;
  previous_path = none;
  index_status = none;
  worktree_status = some GitChangeKind.untracked;
  conflicted = false;
  binary = false;
}

abbrev pub push_given : Option GitChangedFile → GitWorkspaceSnapshot → GitWorkspaceSnapshot
unfolding push_git_change
push_given none s = s
push_given (some change) s = push_git_change change s

-- A renamed file waits for the next record, which is its previous path.
abbrev pub Parsed : Type 0
Parsed = GitWorkspaceSnapshot × Option GitChangedFile

-- The branches of the loop, each at the rest of the record behind its prefix.
unfoldable pub on_oid : Text → GitWorkspaceSnapshot → Parsed
on_oid value s =
    (if text_eq value (codes "(initial)") then s else record s { commit = some value }, none)

unfoldable pub on_head : Text → GitWorkspaceSnapshot → Parsed
on_head value s = (
  if text_eq value (codes "(detached)")
      then record s { head_state = some GitHeadState.detached }
      else record s { head_state = some GitHeadState.branch; branch = some value },
  none,
)

unfoldable pub on_unmerged : Text → GitWorkspaceSnapshot → Parsed
unfolding push_given unmerged_file
on_unmerged rest s =
    (push_given (option_map unmerged_file (get_elem? (splitn 11 32 rest) 10)) s, none)

abbrev pub first_of :
    List (Text × (Text → GitWorkspaceSnapshot → Parsed)) → Text → GitWorkspaceSnapshot → Parsed
first_of [] line s = (s, none)
first_of ((prefix, f) ∷ branches) line s =
    let otherwise = first_of branches line s in
    map_or otherwise (λ rest. f rest s) (strip_prefix prefix line)

unfoldable pub git_branches : List (Text × (Text → GitWorkspaceSnapshot → Parsed))
unfolding on_oid on_head on_unmerged push_given ahead_behind untracked_file
    parse_ordinary_git_change parse_renamed_git_change
git_branches =
    (codes "# branch.oid ", on_oid)
    ∷ (codes "# branch.head ", on_head)
    ∷ (codes "# branch.upstream ", λ value s. (record s { upstream = some value }, none))
    ∷ (codes "# branch.ab ", λ value s. (ahead_behind (split_whitespace value) s, none))
    ∷ (codes "1 ", λ rest s. (push_given (parse_ordinary_git_change rest) s, none))
    ∷ (codes "2 ", λ rest s. (s, parse_renamed_git_change rest))
    ∷ (codes "u ", on_unmerged)
    ∷ (codes "? ", λ path s. (push_given (some (untracked_file path)) s, none))
    ∷ []

-- The chain of `if let Some(..) = record.strip_prefix(..)`.
unfoldable pub parse_git_record : Text → GitWorkspaceSnapshot → Parsed
unfolding git_branches
parse_git_record line s = first_of git_branches line s

-- The `while` over the records. A renamed file takes the record that follows it, if there is one.
unfoldable pub parse_git_records :
    Option GitChangedFile → List Text → GitWorkspaceSnapshot → GitWorkspaceSnapshot
unfolding push_git_change parse_git_record
parse_git_records none [] s = s
parse_git_records (some change) [] s = push_git_change change s
parse_git_records (some change) (line ∷ lines) s =
    parse_git_records none lines (push_git_change (record change { previous_path = some line }) s)
parse_git_records none (line ∷ lines) s =
    let (s', waiting) = parse_git_record line s in parse_git_records waiting lines s'

abbrev pub is_branch : Option GitHeadState → Bool
is_branch (some GitHeadState.branch) = true
is_branch _ = false

abbrev pub is_detached : Option GitHeadState → Bool
is_detached (some GitHeadState.detached) = true
is_detached _ = false

unfoldable pub parse_git_porcelain_v2 : Text → DateTime → GitWorkspaceSnapshot
unfolding parse_git_records empty_git_snapshot
parse_git_porcelain_v2 status generated_at =
    let s =
      parse_git_records none (split 0 status)
        (empty_git_snapshot GitRepositoryState.ready generated_at) in
    if is_branch s.head_state && not (is_some s.commit)
    then record s { head_state = some GitHeadState.unborn }
    else s
