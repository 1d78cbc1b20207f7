-- ===== src/Node/Workspace.antt =====
-- Paths and diffs of a workspace: `safe_workspace_relative_path`, `generated_or_ignored_status`,
-- `parse_workspace_diff_hunks`, `workspace_diff_args` and `diff_change_matches_scope` of
-- crates/uprava-node/src/runtime/workspace.rs.
pub mod Paths
pub mod Hunks
use uprava.Prelude.{
  ◌+◌, ◌-◌, ◌*◌, ◌/◌, ◌%◌, ◌^◌, ◌≤◌, ◌<◌, ℕ, zero, suc, max, min, compare, Ordering, ◌≡◌, refl, sym,
  ap, ◌∙◌, subst, ◌≢◌, ◌↔◌, ◌⊎◌, inl, inr, Bool, true, false, ◌&&◌, ◌||◌, not, Option, none, some,
  List, [], ◌∷◌, ◌++◌, map, arith, Text, codes, text_eq, text_lt, contains_char, contains_text,
  strip_prefix, trim, byte_len, utf8_len, text_eq_iff, text_eq_refl, ltb, leb, ◌==◌, if◌then◌else◌,
  Bool-cases, Option-cases, and_then, option_map, map_or, unwrap_or, or_else, is_some,
  option_filter, length, take, drop, is_empty, retain, any, all, count_if, Map, get, insert, remove,
  contains_key, keys, set_insert, set_remove, get-insert, get-insert_self, get-remove, map_laws,
  split_once, split, splitn, split_whitespace, parse_u64, decimal, splitn-append, splitn-absent,
  contains_text-set_insert, contains_text-set_remove, i64_max, All, get_elem?, length-append,
  length-drop, length-take, length-retain, count_if-le-length, take-append-drop, count_if-append,
  take-append_one, any-append, retain-append, All-append, All-drop, strip_prefix-append,
  append-cancel_left, trim_start, is_whitespace, text_eq-sym, ==_iff, eqℤ-refl, maxℤ, ◌≤ℤ◌, ◌<ℤ◌,
  maxℤ-ge_left, maxℤ-ge_right, ℤ, pos, negsuc, i64_succ, eqℤ, leℤ, ltb→lt, lt→ltb, leb→le,
}
use uprava.Protocol.Workspace.{GitChangedFile, WorkspaceDiffScope, WorkspaceDiffHunk}
use uprava.Protocol.Response.{WorkspaceEntryStatus}
use uprava.Node.Events.{WorkspaceInspectError}

abbrev pub max_workspace_diff_hunks : ℕ
max_workspace_diff_hunks = 256

-- `std::path::Component` on Unix
pub data Component : Type 0 where
  root_dir : Component
  cur_dir : Component
  parent_dir : Component
  normal : Text → Component

-- `Path::components` on Unix: the pieces between slashes, without the empty ones and, but for a
-- first one, without `.`; a leading slash is the root.
abbrev pub component_of : Text → List Component
component_of piece =
    if is_empty piece || text_eq piece (codes ".")
    then []
    else if text_eq piece (codes "..")
    then Component.parent_dir ∷ []
    else Component.normal piece ∷ []

unfoldable pub inner_components : List Text → List Component
inner_components [] = []
inner_components (piece ∷ pieces) = component_of piece ++ inner_components pieces

abbrev pub first_component : List Text → List Component
first_component [] = []
first_component (piece ∷ pieces) = if text_eq piece (codes ".") then Component.cur_dir ∷ [] else []

-- `Path::is_absolute` on Unix
abbrev pub is_absolute : Text → Bool
is_absolute path = map_or false (λ c. c == 47) (get_elem? path 0)

unfoldable pub components : Text → List Component
unfolding inner_components
components path =
    let pieces = split 47 path in
    (if is_absolute path then Component.root_dir ∷ [] else first_component pieces)
    ++ inner_components pieces

unfoldable pub path_escape : WorkspaceInspectError
path_escape = record {
  code = codes "workspace.path_escape";
  message = codes "Workspace inspector paths cannot leave the workspace";
}

unfoldable pub absolute_path : WorkspaceInspectError
absolute_path = record {
  code = codes "workspace.absolute_path";
  message = codes "Workspace inspector paths must be relative";
}

-- The loop over the components. A relative path is the list of the names in it.
unfoldable pub push_components : List Text → List Component → WorkspaceInspectError ⊎ List Text
unfolding path_escape
push_components normalized [] = inr normalized
push_components normalized (Component.normal value ∷ cs) =
    push_components (normalized ++ value ∷ []) cs
push_components normalized (Component.cur_dir ∷ cs) = push_components normalized cs
push_components normalized (Component.parent_dir ∷ cs) = inl path_escape
push_components normalized (Component.root_dir ∷ cs) = inl path_escape

unfoldable pub safe_workspace_relative_path : Text → WorkspaceInspectError ⊎ List Text
unfolding components push_components absolute_path
safe_workspace_relative_path path =
    let trimmed = trim path in
    if is_empty trimmed || text_eq trimmed (codes ".")
    then inr []
    else if is_absolute trimmed
    then inl absolute_path
    else push_components [] (components trimmed)

abbrev pub ignored_names : List Text
ignored_names = codes ".git" ∷ codes ".hg" ∷ codes ".svn" ∷ codes ".DS_Store" ∷ []

abbrev pub generated_names : List Text
generated_names =
    codes ".local"
    ∷ codes "node_modules"
    ∷ codes "target"
    ∷ codes "dist"
    ∷ codes "build"
    ∷ codes "coverage"
    ∷ codes ".next"
    ∷ codes ".turbo"
    ∷ codes ".vite"
    ∷ []

-- The loop of `generated_or_ignored_status` over the names of a relative path.
unfoldable pub status_from : Option WorkspaceEntryStatus → List Text → Option WorkspaceEntryStatus
status_from generated [] = generated
status_from generated (name ∷ names) =
    let generated' =
      if contains_text generated_names name
      then some WorkspaceEntryStatus.generated
      else generated in
    let rest = status_from generated' names in
    if contains_text ignored_names name then some WorkspaceEntryStatus.ignored else rest

unfoldable pub generated_or_ignored_status : List Text → Option WorkspaceEntryStatus
unfolding status_from
generated_or_ignored_status names = status_from none names

-- `str::lines`: the pieces that line feeds end, without a carriage return before the line feed
abbrev pub without_cr : Text → Text
without_cr [] = []
without_cr (c ∷ []) = if c == 13 then [] else c ∷ []
without_cr (c ∷ d ∷ s) = c ∷ without_cr (d ∷ s)

abbrev pub ended_lines : List Text → List Text
ended_lines [] = []
ended_lines (line ∷ []) = if is_empty line then [] else line ∷ []
ended_lines (line ∷ next ∷ rest) = without_cr line ∷ ended_lines (next ∷ rest)

unfoldable pub lines : Text → List Text
lines s = ended_lines (split 10 s)

unfoldable pub starts_with : Text → Text → Bool
starts_with prefix s = is_some (strip_prefix prefix s)

-- The variables of `parse_workspace_diff_hunks`.
pub record HunkParser : Type 0 where
  pub hunks : List WorkspaceDiffHunk
  pub header : Option Text
  pub patch : Text

-- `format!("{diff_id}:hunk-{}", hunks.len() + 1)`
unfoldable pub hunk_id_at : Text → ℕ → Text
hunk_id_at diff_id n = diff_id ++ codes ":hunk-" ++ decimal (n + 1)

abbrev pub push_hunk : Text → Text → HunkParser → HunkParser
push_hunk diff_id header p = record {
  hunks =
      p.hunks
      ++ record { hunk_id = hunk_id_at diff_id (length p.hunks); header = header; patch = p.patch }
        ∷ [];
  header = none;
  patch = [];
}

-- `if let Some(header) = header.take() { hunks.push(..) }`
unfoldable pub close_hunk : Text → HunkParser → HunkParser
close_hunk diff_id p = map_or p (λ header. push_hunk diff_id header p) p.header

-- `patch.push_str(line); patch.push('\n')`
abbrev pub push_line : Text → HunkParser → HunkParser
push_line line p = record p { patch = p.patch ++ line ++ 10 ∷ [] }

-- the body of the loop
unfoldable pub parse_diff_line : Text → Text → HunkParser → HunkParser
unfolding close_hunk starts_with
parse_diff_line diff_id line p =
    if starts_with (codes "@@ ") line
    then push_line line (record (close_hunk diff_id p) { header = some line })
    else if is_some p.header
    then if starts_with (codes "diff --git ") line then close_hunk diff_id p else push_line line p
    else p

-- the loop, which stops at the limit
unfoldable pub parse_diff_lines : ℕ → Text → List Text → HunkParser → HunkParser
unfolding parse_diff_line
parse_diff_lines max_hunks diff_id [] p = p
parse_diff_lines max_hunks diff_id (line ∷ rest) p =
    let p' = parse_diff_lines max_hunks diff_id rest (parse_diff_line diff_id line p) in
    if leb max_hunks (length p.hunks) then p else p'

unfoldable pub diff_hunks_with_limit : ℕ → Text → Text → List WorkspaceDiffHunk
unfolding lines parse_diff_lines close_hunk
diff_hunks_with_limit max_hunks diff_id diff =
    let p =
      parse_diff_lines max_hunks diff_id (lines diff)
        (record { hunks = []; header = none; patch = [] }) in
    if ltb (length p.hunks) max_hunks then (close_hunk diff_id p).hunks else p.hunks

unfoldable pub parse_workspace_diff_hunks : Text → Text → List WorkspaceDiffHunk
unfolding diff_hunks_with_limit
parse_workspace_diff_hunks diff_id diff =
    diff_hunks_with_limit max_workspace_diff_hunks diff_id diff

unfoldable pub diff_change_matches_scope : GitChangedFile → WorkspaceDiffScope → Bool
diff_change_matches_scope change WorkspaceDiffScope.all = true
diff_change_matches_scope change WorkspaceDiffScope.staged = is_some change.index_status
diff_change_matches_scope change WorkspaceDiffScope.unstaged = is_some change.worktree_status

abbrev scope_args : WorkspaceDiffScope → Bool → List Text
scope_args WorkspaceDiffScope.all true = codes "HEAD" ∷ []
scope_args WorkspaceDiffScope.all false = []
scope_args WorkspaceDiffScope.unstaged has_head = []
scope_args WorkspaceDiffScope.staged has_head = codes "--cached" ∷ []

abbrev path_args : Option Text → List Text
path_args none = []
path_args (some path) = path ∷ []

unfoldable pub workspace_diff_args : WorkspaceDiffScope → Option Text → Bool → List Text
workspace_diff_args scope path has_head =
    (codes "diff" ∷ codes "--no-ext-diff" ∷ codes "--no-color" ∷ codes "--find-renames" ∷ [])
    ++ scope_args scope has_head
    ++ codes "--" ∷ []
    ++ path_args path
