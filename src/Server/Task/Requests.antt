-- ===== src/Server/Task/Requests.antt =====
-- Which task requests Core accepts.
use uprava.Prelude.{
  ◌+◌, ◌≤◌, ◌<◌, ℕ, ◌≡◌, refl, ◌∙◌, ◌↔◌, inr, true, false, List, [], ◌∷◌, arith, Text,
  contains_text, trim, ltb, length, is_empty, retain, any, split, All,
}
use uprava.Protocol.Task.{TaskCheckSpec, CreateTaskRunRequest}
use uprava.Node.Workspace.{safe_workspace_relative_path}
use uprava.Node.Workspace.Paths.{names_entry, safe_workspace_relative_path_lem}
use uprava.Server.Task.{
  invalid_prompt, invalid_timeout, too_many_evidence_items, invalid_resource_limits, total_chars,
  invalid_check, validate_paths, validate_task_request, max_task_prompt_chars, max_task_checks,
  max_task_artifacts, max_task_check_label_chars, max_task_check_args, max_task_check_arg_chars,
  max_task_check_command_chars, min_task_timeout_seconds, max_task_timeout_seconds,
  allowed_task_cpus, allowed_task_memory,
}
use uprava.Server.Task.Paths.{
  Contained, passed, passed_first, validate_paths-Contained, paths-accepted,
}

-- A check that can be run within the time of the task.
pub record RunnableCheck (timeout_seconds : ℕ) (check : TaskCheckSpec) : Type 0 where
  pub labelled : is_empty (trim check.label) ≡ false
  pub label_bounded : length check.label ≤ max_task_check_label_chars
  pub commanded : is_empty (trim check.command) ≡ false
  pub args_counted : length check.args ≤ max_task_check_args
  pub args_bounded : All (λ arg. length arg ≤ max_task_check_arg_chars) check.args
  pub bounded : length check.command + total_chars check.args ≤ max_task_check_command_chars
  pub timed : 0 < check.timeout_seconds
  pub in_time : check.timeout_seconds ≤ timeout_seconds

args-bounded :
    (args : List Text)
    → any (λ arg. ltb max_task_check_arg_chars (length arg)) args ≡ false
    → All (λ arg. length arg ≤ max_task_check_arg_chars) args
args-bounded [] h = tt
args-bounded (arg ∷ args) h = (ground (arith, h), args-bounded args (ground (arith, h)))

invalid_check-RunnableCheck :
    (timeout_seconds : ℕ) (check : TaskCheckSpec)
    → invalid_check timeout_seconds check ≡ false
    → RunnableCheck timeout_seconds check
unfolding invalid_check
invalid_check-RunnableCheck timeout_seconds check h = record {
  labelled = ground (arith, h);
  label_bounded = ground (arith, h);
  commanded = ground (arith, h);
  args_counted = ground (arith, h);
  args_bounded = args-bounded check.args (ground (arith, h));
  bounded = ground (arith, h);
  timed = ground (arith, h);
  in_time = ground (arith, h);
}

checks-RunnableCheck :
    (timeout_seconds : ℕ) (checks : List TaskCheckSpec)
    → any (invalid_check timeout_seconds) checks ≡ false
    → All (RunnableCheck timeout_seconds) checks
checks-RunnableCheck timeout_seconds [] h = tt
checks-RunnableCheck timeout_seconds (check ∷ checks) h = (
  invalid_check-RunnableCheck timeout_seconds check (ground (arith, h)),
  checks-RunnableCheck timeout_seconds checks (ground (arith, h)),
)

-- A task that a node can carry out within bounds.
pub record Acceptable (r : CreateTaskRunRequest) : Type 0 where
  pub prompted : is_empty (trim r.prompt) ≡ false
  pub prompt_bounded : length r.prompt ≤ max_task_prompt_chars
  pub long_enough : min_task_timeout_seconds ≤ r.timeout_seconds
  pub lasting : r.timeout_seconds ≤ r.ttl_seconds
  pub ttl_bounded : r.ttl_seconds ≤ max_task_timeout_seconds
  pub checks_counted : length r.checks ≤ max_task_checks
  pub artifacts_counted : length r.artifact_paths ≤ max_task_artifacts
  pub runnable : All (RunnableCheck r.timeout_seconds) r.checks
  pub contained : All Contained r.artifact_paths
  pub cpu_allowed : contains_text allowed_task_cpus (trim r.resource_limits.cpu) ≡ true
  pub memory_allowed : contains_text allowed_task_memory (trim r.resource_limits.memory) ≡ true

accepted-Acceptable :
    (request : CreateTaskRunRequest) → validate_task_request request ≡ inr tt → Acceptable request
unfolding validate_task_request
accepted-Acceptable request h =
    let (prompt, h1) = passed (invalid_prompt request) _ _ h in
    let (times, h2) = passed (invalid_timeout request) _ _ h1 in
    let (counts, h3) = passed (too_many_evidence_items request) _ _ h2 in
    let (checks, h4) = passed (any (invalid_check request.timeout_seconds) request.checks) _ _ h3 in
    let (paths, h5) = passed_first (validate_paths request.artifact_paths) _ h4 in
    let (limits, done) = passed (invalid_resource_limits request) _ _ h5 in
    record {
      prompted = ground (arith, prompt);
      prompt_bounded = ground (arith, prompt);
      long_enough = ground (arith, times);
      lasting = ground (arith, times);
      ttl_bounded = ground (arith, times);
      checks_counted = ground (arith, counts);
      artifacts_counted = ground (arith, counts);
      runnable = checks-RunnableCheck request.timeout_seconds request.checks checks;
      contained = validate_paths-Contained request.artifact_paths paths;
      cpu_allowed = ground (arith, limits);
      memory_allowed = ground (arith, limits);
    }

bounded-args :
    (args : List Text)
    → All (λ arg. length arg ≤ max_task_check_arg_chars) args
    → any (λ arg. ltb max_task_check_arg_chars (length arg)) args ≡ false
bounded-args [] h = refl
bounded-args (arg ∷ args) h = ground (arith, h.0, bounded-args args h.1)

RunnableCheck-valid :
    (timeout_seconds : ℕ) (check : TaskCheckSpec)
    → RunnableCheck timeout_seconds check
    → invalid_check timeout_seconds check ≡ false
unfolding invalid_check
RunnableCheck-valid timeout_seconds check c = ground (
  arith,
  c.labelled,
  c.label_bounded,
  c.commanded,
  c.args_counted,
  bounded-args check.args c.args_bounded,
  c.bounded,
  c.timed,
  c.in_time,
)

runnable-valid :
    (timeout_seconds : ℕ) (checks : List TaskCheckSpec)
    → All (RunnableCheck timeout_seconds) checks
    → any (invalid_check timeout_seconds) checks ≡ false
runnable-valid timeout_seconds [] h = refl
runnable-valid timeout_seconds (check ∷ checks) h = ground (
  arith,
  RunnableCheck-valid timeout_seconds check h.0,
  runnable-valid timeout_seconds checks h.1,
)

Acceptable-accepted :
    (request : CreateTaskRunRequest) → Acceptable request → validate_task_request request ≡ inr tt
unfolding validate_task_request
Acceptable-accepted request a =
    let prompt : invalid_prompt request ≡ false = ground (arith, a.prompted, a.prompt_bounded) in
    let times : invalid_timeout request ≡ false =
      ground (arith, a.long_enough, a.lasting, a.ttl_bounded) in
    let counts : too_many_evidence_items request ≡ false =
      ground (arith, a.checks_counted, a.artifacts_counted) in
    let checks = runnable-valid request.timeout_seconds request.checks a.runnable in
    let paths = paths-accepted request.artifact_paths a.contained in
    let limits : invalid_resource_limits request ≡ false =
      ground (arith, a.cpu_allowed, a.memory_allowed) in
    rw (prompt, times, counts, checks, paths, limits) refl

-- Core accepts a task request exactly if it has a prompt and bounded times, checks that are bounded
-- and that can run within the time of the task, artifact paths that stay inside the work tree, and
-- allowed resource limits.
pub validate_task_request-Acceptable :
    (request : CreateTaskRunRequest) → (validate_task_request request ≡ inr tt) ↔ Acceptable request
validate_task_request-Acceptable request =
    (accepted-Acceptable request, Acceptable-accepted request)

unfoldable pub Trimmed : Text → Type 0
Trimmed path = trim path ≡ path

-- What the node makes of the path is its names.
unfoldable pub NodeAccepts : Text → Type 0
NodeAccepts path = safe_workspace_relative_path path ≡ inr (retain names_entry (split 47 path))

Contained-NodeAccepts : (path : Text) → Contained path → Trimmed path → NodeAccepts path
unfolding Trimmed NodeAccepts
Contained-NodeAccepts path c t =
    safe_workspace_relative_path_lem path ∙ rw (t, c.relative, c.inside) refl

paths-NodeAccepts :
    (paths : List Text) → All Contained paths → All Trimmed paths → All NodeAccepts paths
paths-NodeAccepts [] c t = tt
paths-NodeAccepts (path ∷ paths) c t =
    (Contained-NodeAccepts path c.0 t.0, paths-NodeAccepts paths c.1 t.1)

-- If Core accepts a task request and no artifact path has white space around it, the node accepts
-- each of the artifact paths too, and reads it as the list of its names, without empty ones and `.`.
pub validate_task_request-NodeAccepts :
    (request : CreateTaskRunRequest)
    → validate_task_request request ≡ inr tt
    → All Trimmed request.artifact_paths
    → All NodeAccepts request.artifact_paths
validate_task_request-NodeAccepts request h t =
    paths-NodeAccepts request.artifact_paths (accepted-Acceptable request h).contained t
