-- ===== src/Tests/Handoffs.antt =====
-- src/pipeline.js: a handoff with a command, its task and its route.
use durable_supervisor.Lifecycle.Requirements.{Matrix, Requirement}
use durable_supervisor.Base.{
  List, Option, String, [], each, false, find, includes, insert, lookup, none, ok, refl, some,
  split_at, true, ◌==◌, ◌∷◌, ◌≡◌, ◌≢◌, string_eq, nat_eq,
}
use durable_supervisor.Lifecycle.State.{Supervisor}
use durable_supervisor.Handoff.Task.{
  Handoff, TaskHandoff, create_task, has_nul, known_requirement, starts_at_root, validate_argv,
  validate_handoff, validate_relative_path, validate_task_commands,
}
use durable_supervisor.Handoff.Gearbox.{
  Discovery, GearboxDecision, Policy, authorize_attempt, deterministic_route, gearbox_schema,
  route_task, select_route,
}
use durable_supervisor.Handoff.Laws.{create_task_stored, route_task-authorized}
use durable_supervisor.Tests.Lifecycles.{objective}

abbrev command : Option (List String)
command = some ("make" ∷ "test" ∷ [])

abbrev handoff : Handoff
handoff = record {
  task_id = none;
  parent_decision_id = none;
  title = some "Test";
  objective = some "Run the tests";
  scope = some ("tests" ∷ []);
  may_modify = some ("tests/a.js" ∷ []);
  may_not = some [];
  expected_deliverable = some "A report";
  expected_evidence = some [];
  acceptance_criteria = some ("All pass" ∷ []);
  prohibited_actions = some [];
  requirement_ids = some [];
  route_hint = none;
  deterministic_command = command;
  verification_command = none;
  timeout_seconds = none;
  expects_changes = some false;
}

abbrev supervisor : Supervisor
supervisor = record {
  repository = "/repo";
  supervisor_id = "supervisor-1";
  generation = 1;
  authority_status = "AUTHORITATIVE";
  recovered_at = none;
}

abbrev pub task : TaskHandoff
task = record {
  schema = "opsle.durable-supervisor.task-handoff/v1";
  task_id = "task-1";
  parent_objective_id = "objective-1";
  parent_objective_revision = 1;
  parent_decision_id = none;
  title = "Test";
  objective = "Run the tests";
  scope = "tests" ∷ [];
  may_modify = "tests/a.js" ∷ [];
  may_not = [];
  expected_deliverable = "A report";
  expected_evidence = [];
  acceptance_criteria = "All pass" ∷ [];
  prohibited_actions = [];
  requirement_ids = [];
  route_hint = none;
  deterministic_command = command;
  verification_command = none;
  timeout_seconds = 1800;
  expects_changes = false;
  supervisor_id = "supervisor-1";
  supervisor_generation = 1;
  state = "READY";
  attempts = [];
  created_at = "09:00";
}

abbrev matrix : Matrix
matrix = record {
  schema = "opsle.durable-supervisor.requirements/v1";
  specification = ".opsle/specification.md";
  specification_sha256 = "";
  allowed_states = "OPEN" ∷ [];
  requirements =
      record { id = "R0"; state = "OPEN"; evidence = []; justification = none; updated_at = none }
      ∷ record { id = "R1"; state = "OPEN"; evidence = []; justification = none; updated_at = none }
      ∷ [];
}

abbrev claiming : Handoff
claiming = record handoff { requirement_ids = some ("R1" ∷ []) }

abbrev claiming_task : TaskHandoff
claiming_task = record task { requirement_ids = "R1" ∷ [] }

created_run :
    create_task objective (some matrix) supervisor "task-1" "09:00" [] claiming
    ≡ ok (claiming_task, ("task-1", claiming_task) ∷ [])
unfolding create_task validate_handoff each validate_relative_path starts_at_root has_nul split_at
    includes validate_task_commands validate_argv known_requirement lookup insert
created_run = refl

listed : includes claiming_task.requirement_ids "R1" ≡ true
unfolding includes
listed = refl

create_task_stored_example :
    (lookup {V = TaskHandoff} "task-1" [] ≡ none)
    × (lookup "task-1" (("task-1", claiming_task) ∷ []) ≡ some claiming_task)
    × (claiming_task.state ≡ "READY")
    × (claiming.requirement_ids ≡ some claiming_task.requirement_ids)
    × ((m : Matrix) × (some matrix ≡ some m)
        × (item : Requirement) × (find (λ (x : Requirement). x.id == "R1") m.requirements
            ≡ some item))
    × (create_task objective none supervisor "task-2" "10:00"
          (("task-1", claiming_task) ∷ [])
          (record handoff { task_id = some "task-1" })
        ≢ ok (task, []))
create_task_stored_example =
    create_task_stored objective objective (some matrix) none supervisor supervisor "task-1" "09:00"
      "task-2" "10:00" "R1" [] (("task-1", claiming_task) ∷ []) claiming
      (record handoff { task_id = some "task-1" }) claiming_task (task, []) created_run listed refl

abbrev pub policy : Policy
policy = record {
  version = 1;
  codex_enabled = true;
  codex_model = some "model";
  codex_reasoning_effort = some "high";
  sha256 = "policy";
}

abbrev machine : Discovery
machine = record { command_available = λ c. true; codex_available = false }

abbrev pub decision : GearboxDecision
decision = record {
  schema = gearbox_schema;
  decision_id = "gearbox-1";
  task_id = "task-1";
  classified_work = "bounded_command_or_implementation";
  selected_route = "deterministic";
  selected_capability = "make";
  selected_route_config = deterministic_route "make" ("make" ∷ "test" ∷ []);
  route_hint = none;
  rationale = "A predeclared deterministic command is adequate and authorized.";
  operator_policy_version = 1;
  operator_policy_sha256 = "policy";
  created_at = "09:01";
}

routed_run : route_task policy machine "gearbox-1" "09:01" task ≡ ok decision
unfolding route_task validate_task_commands validate_argv select_route
routed_run = refl

route_task-authorized_example : authorize_attempt policy task decision ≡ ok tt
route_task-authorized_example =
    route_task-authorized policy machine "gearbox-1" "09:01" task decision routed_run refl
