-- ===== src/Examples/Requesting.antt =====
-- A task request that Core accepts.
use uprava.Prelude.{
  ◌≡◌, refl, ◌↔◌, inr, none, [], ◌∷◌, codes, text_eq, contains_text, trim, split, All, trim_start,
  is_whitespace,
}
use uprava.Protocol.Task.{TaskCheckSpec, CreateTaskRunRequest}
use uprava.Node.Workspace.{components, inner_components}
use uprava.Server.Task.{
  total_chars, invalid_check, validate_relative_evidence_path, validate_paths,
  validate_task_request,
}
use uprava.Server.Task.Requests.{
  Acceptable, validate_task_request-Acceptable, Trimmed, NodeAccepts,
  validate_task_request-NodeAccepts,
}

abbrev tests_pass : TaskCheckSpec
tests_pass = record {
  label = codes "tests";
  command = codes "cargo";
  args = codes "test" ∷ [];
  timeout_seconds = 60;
}

abbrev request : CreateTaskRunRequest
request = record {
  project_placement_id = codes "placement-1";
  prompt = codes "fix";
  base_revision = none;
  checks = tests_pass ∷ [];
  artifact_paths = codes "./out//log" ∷ [];
  timeout_seconds = 60;
  ttl_seconds = 90;
  resource_limits = record { cpu = codes "1"; memory = codes "1Gi" };
  runtime_image = none;
}

request-accepted : validate_task_request request ≡ inr tt
unfolding validate_task_request validate_paths validate_relative_evidence_path invalid_check
    total_chars components inner_components trim trim_start is_whitespace split text_eq
    contains_text
request-accepted = refl

validate_task_request-Acceptable_example :
    (validate_task_request request ≡ inr tt) ↔ Acceptable request
validate_task_request-Acceptable_example = validate_task_request-Acceptable request

request-Trimmed : All Trimmed (codes "./out//log" ∷ [])
unfolding Trimmed trim trim_start is_whitespace
request-Trimmed = (refl, tt)

validate_task_request-NodeAccepts_example : All NodeAccepts (codes "./out//log" ∷ [])
validate_task_request-NodeAccepts_example =
    validate_task_request-NodeAccepts request request-accepted request-Trimmed
