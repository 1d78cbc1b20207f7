-- ===== src/Server/Task.antt =====
-- What Core checks of a task before it sends it to a node: `validate_task_request` and its helpers of
-- crates/uprava-server/src/runtime/application/task.rs.
pub mod Paths
pub mod Requests
use uprava.Prelude.{
  ◌+◌, ◌-◌, ◌*◌, ◌/◌, ◌%◌, ◌^◌, ◌≤◌, ◌<◌, ℕ, zero, suc, max, min, compare, Ordering, ◌≡◌, refl, sym,
  ap, ◌∙◌, subst, ◌≢◌, ◌↔◌, ◌⊎◌, inl, inr, Bool, true, false, ◌&&◌, ◌||◌, not, Option, none, some,
  List, [], ◌∷◌, ◌++◌, map, arith, Text, codes, text_eq, text_lt, contains_char, contains_text,
  strip_prefix, trim, byte_len, utf8_len, text_eq_iff, text_eq_refl, ltb, leb, ◌==◌, if◌then◌else◌,
  Bool-cases, Option-cases, and_then, option_map, map_or, unwrap_or, or_else, is_some,
  option_filter, length, take, drop, is_empty, retain, any, all, count_if, Map, get, insert, remove,
  contains_key, keys, set_insert, set_remove, get-insert, get-insert_self, get-remove, map_laws,
  split_once, split, splitn, split_whitespace, parse_u64, decimal, splitn-append, splitn-absent,
  contains_text-set_insert, contains_text-set_remove, i64_max, All, get_elem?, length-append,
  length-drop, length-take, length-retain, count_if-le-length, take-append-drop, count_if-append,
  take-append_one, any-append, retain-append, All-append, All-drop, strip_prefix-append,
  append-cancel_left, trim_start, is_whitespace, text_eq-sym, ==_iff, eqℤ-refl, maxℤ, ◌≤ℤ◌, ◌<ℤ◌,
  maxℤ-ge_left, maxℤ-ge_right, ℤ, pos, negsuc, i64_succ, eqℤ, leℤ, ltb→lt, lt→ltb, leb→le,
}
use Prim.Native.String.{String}
use uprava.Protocol.Task.{TaskCheckSpec, CreateTaskRunRequest}
use uprava.Server.Support.{AppError, Validated}
use uprava.Node.Workspace.{Component, components, is_absolute}

abbrev pub max_task_prompt_chars : ℕ
max_task_prompt_chars = 65536

abbrev pub max_task_checks : ℕ
max_task_checks = 32

abbrev pub max_task_artifacts : ℕ
max_task_artifacts = 64

abbrev pub max_task_path_chars : ℕ
max_task_path_chars = 1024

abbrev pub max_task_check_label_chars : ℕ
max_task_check_label_chars = 256

abbrev pub max_task_check_args : ℕ
max_task_check_args = 64

abbrev pub max_task_check_arg_chars : ℕ
max_task_check_arg_chars = 4096

abbrev pub max_task_check_command_chars : ℕ
max_task_check_command_chars = 16384

abbrev pub min_task_timeout_seconds : ℕ
min_task_timeout_seconds = 60

abbrev pub max_task_timeout_seconds : ℕ
max_task_timeout_seconds = 24 * 60 * 60

abbrev pub allowed_task_cpus : List Text
allowed_task_cpus = codes "0.5" ∷ codes "1" ∷ codes "2" ∷ codes "4" ∷ codes "8" ∷ []

abbrev pub allowed_task_memory : List Text
allowed_task_memory =
    codes "512Mi" ∷ codes "1Gi" ∷ codes "2Gi" ∷ codes "4Gi" ∷ codes "8Gi" ∷ codes "16Gi" ∷ []

-- `args.iter().map(|arg| arg.chars().count()).sum()`; texts of a request are in memory, so the sum
-- is below 2^64
unfoldable pub total_chars : List Text → ℕ
total_chars [] = 0
total_chars (arg ∷ args) = length arg + total_chars args

unfoldable pub invalid_check : ℕ → TaskCheckSpec → Bool
unfolding total_chars
invalid_check timeout_seconds check =
    let command_chars = length check.command + total_chars check.args in
    is_empty (trim check.label)
    || ltb max_task_check_label_chars (length check.label)
    || is_empty (trim check.command)
    || ltb max_task_check_args (length check.args)
    || any (λ arg. ltb max_task_check_arg_chars (length arg)) check.args
    || ltb max_task_check_command_chars command_chars
    || check.timeout_seconds == 0
    || ltb timeout_seconds check.timeout_seconds

abbrev pub escaping_component : Component → Bool
escaping_component Component.parent_dir = true
escaping_component Component.root_dir = true
escaping_component Component.cur_dir = false
escaping_component (Component.normal name) = false

-- `path.contains(['*', '?', '[', ']'])`
abbrev pub has_glob : Text → Bool
has_glob path = any (λ c. c == 42 || c == 63 || c == 91 || c == 93) path

abbrev pub invalid_artifact_path : AppError
invalid_artifact_path =
    AppError.bad_request (codes "task_run.invalid_artifact_path")
      (codes "Task artifact paths must be explicit relative paths without traversal or globs")

abbrev pub refused_path : Text → Bool
refused_path path =
    is_empty (trim path)
    || ltb max_task_path_chars (length path)
    || is_absolute path
    || any escaping_component (components path)
    || has_glob path

unfoldable pub validate_relative_evidence_path : Text → Validated
unfolding components
validate_relative_evidence_path path =
    if refused_path path then inl invalid_artifact_path else inr tt

-- the loop over the paths, up to the first that is refused
unfoldable pub validate_paths : List Text → Validated
unfolding validate_relative_evidence_path
validate_paths [] = inr tt
validate_paths (path ∷ paths) =
    let rest = validate_paths paths in
    elim (validate_relative_evidence_path path) [ inl e ↦ inl e | inr ok ↦ rest ]

abbrev pub refused : String → String → Validated
refused code message = inl (AppError.bad_request (codes code) (codes message))

abbrev pub invalid_prompt : CreateTaskRunRequest → Bool
invalid_prompt r = is_empty (trim r.prompt) || ltb max_task_prompt_chars (length r.prompt)

abbrev pub invalid_timeout : CreateTaskRunRequest → Bool
invalid_timeout r =
    not (
      leb min_task_timeout_seconds r.timeout_seconds
      && leb r.timeout_seconds max_task_timeout_seconds)
    || ltb r.ttl_seconds r.timeout_seconds
    || ltb max_task_timeout_seconds r.ttl_seconds

abbrev pub too_many_evidence_items : CreateTaskRunRequest → Bool
too_many_evidence_items r =
    ltb max_task_checks (length r.checks) || ltb max_task_artifacts (length r.artifact_paths)

abbrev pub invalid_resource_limits : CreateTaskRunRequest → Bool
invalid_resource_limits r =
    not (contains_text allowed_task_cpus (trim r.resource_limits.cpu))
    || not (contains_text allowed_task_memory (trim r.resource_limits.memory))

unfoldable pub validate_task_request : CreateTaskRunRequest → Validated
unfolding invalid_check validate_paths
validate_task_request request =
    if invalid_prompt request
    then refused "task_run.invalid_prompt"
        "Task prompt must be non-empty and within the supported limit"
    else if invalid_timeout request
    then refused "task_run.invalid_timeout"
        "Task timeout must be 60-86400 seconds and TTL must be at least the timeout"
    else if too_many_evidence_items request
    then refused "task_run.too_many_evidence_items"
        "Task Run declares too many checks or artifact paths"
    else if any (invalid_check request.timeout_seconds) request.checks
    then refused "task_run.invalid_check"
        "Each task check requires a label, command and bounded timeout"
    else elim (validate_paths request.artifact_paths) [
      | inl e ↦ inl e
      | inr ok ↦
          if invalid_resource_limits request
          then refused "task_run.invalid_resource_limits"
              "Task limits must use an allowed CPU (0.5-8) and memory (512Mi-16Gi) value"
          else inr tt
    ]

unfoldable pub is_ascii_hexdigit : ℕ → Bool
is_ascii_hexdigit c = leb 48 c && leb c 57 || leb 65 c && leb c 70 || leb 97 c && leb c 102

-- `revision.len()` and `revision.bytes()`: a character that is no ASCII has no byte that is a digit
unfoldable pub validate_immutable_revision : Text → Validated
unfolding is_ascii_hexdigit
validate_immutable_revision revision =
    if leb 40 (byte_len revision) && leb (byte_len revision) 64 && all is_ascii_hexdigit revision
    then inr tt
    else refused "task_run.mutable_base_revision"
        "Task base_revision must be a full immutable Git commit hash"
