-- ===== src/Handoff/Task.antt =====
-- src/pipeline.js: `validateRelativePath`, `validateArgv`, `validateTaskCommands`, `validateHandoff`
-- and `createTask`. A field that JavaScript tests for its type has that type, or is absent.
use durable_supervisor.Base.{
  Bool, List, Option, Result, String, [], each, err, false, includes, insert, is_empty, is_none,
  lookup, map, nat_beq, negb, none, ok, or_throw, some, split_at, throw_if, true, ℕ, ◌&&◌, ◌==◌,
  ◌>>=◌, ◌>>◌, ◌||◌, ◌∷◌, string_eq, nat_eq,
}
use Prim.Native.Char.{code}
use durable_supervisor.Lifecycle.State.{Objective, Supervisor}
use durable_supervisor.Lifecycle.Requirements.{Matrix, Requirement}

unfoldable pub starts_at_root : String → Bool
starts_at_root String.[] = false
starts_at_root (String.◌∷◌ c s) = nat_beq (code c) b'/'

-- `includes('\0')`
unfoldable pub has_nul : String → Bool
has_nul String.[] = false
has_nul (String.◌∷◌ c s) = nat_beq (code c) 0 || has_nul s

unfoldable pub validate_relative_path : String → Result (Unit {0})
validate_relative_path value =
    throw_if (value == "" || starts_at_root value || has_nul value) "invalid authorized path"
    >> throw_if (includes (split_at b'/' value) "..") "invalid authorized path"

unfoldable pub validate_argv : Option (List String) → Result (Unit {0})
validate_argv none = ok tt
validate_argv (some []) = err "must be a nonempty argv array"
validate_argv (some (command ∷ arguments)) =
    throw_if (command == "") "[0] must be a nonempty command string"

pub record Handoff : Type 0 where
  pub task_id : Option String
  pub parent_decision_id : Option String
  pub title : Option String
  pub objective : Option String
  pub scope : Option (List String)
  pub may_modify : Option (List String)
  pub may_not : Option (List String)
  pub expected_deliverable : Option String
  pub expected_evidence : Option (List String)
  pub acceptance_criteria : Option (List String)
  pub prohibited_actions : Option (List String)
  pub requirement_ids : Option (List String)
  pub route_hint : Option String
  pub deterministic_command : Option (List String)
  pub verification_command : Option (List String)
  pub timeout_seconds : Option ℕ
  pub expects_changes : Option Bool

-- `validateTaskCommands`, on the two commands of a task.
unfoldable pub validate_task_commands :
    Option (List String) → Option (List String) → Result (Unit {0})
validate_task_commands deterministic verification =
    validate_argv deterministic >> validate_argv verification

pub record TaskHandoff : Type 0 where
  pub schema : String
  pub task_id : String
  pub parent_objective_id : String
  pub parent_objective_revision : ℕ
  pub parent_decision_id : Option String
  pub title : String
  pub objective : String
  pub scope : List String
  pub may_modify : List String
  pub may_not : List String
  pub expected_deliverable : String
  pub expected_evidence : List String
  pub acceptance_criteria : List String
  pub prohibited_actions : List String
  pub requirement_ids : List String
  pub route_hint : Option String
  pub deterministic_command : Option (List String)
  pub verification_command : Option (List String)
  pub timeout_seconds : ℕ
  pub expects_changes : Bool
  pub supervisor_id : String
  pub supervisor_generation : ℕ
  pub state : String
  pub attempts : List String
  pub created_at : String

abbrev pub or_default {ℓ} : {A : Type ℓ} → Option A → A → A
or_default none fallback = fallback
or_default (some value) fallback = value

-- The task that `createTask` writes for a handoff, from the values that the handoff has.
abbrev pub Draft : Type 0
Draft = Objective → Supervisor → String → String → TaskHandoff

-- `validateHandoff`: what is returned is the draft of the task, all required fields being there.
unfoldable pub validate_handoff : Handoff → Result Draft
validate_handoff input = do
  title ← or_throw input.title "handoff missing title"
  objective ← or_throw input.objective "handoff missing objective"
  scope ← or_throw input.scope "handoff missing scope"
  deliverable ← or_throw input.expected_deliverable "handoff missing expected_deliverable"
  evidence ← or_throw input.expected_evidence "handoff missing expected_evidence"
  criteria ← or_throw input.acceptance_criteria "handoff missing acceptance_criteria"
  prohibited ← or_throw input.prohibited_actions "handoff missing prohibited_actions"
  requirement_ids ← or_throw input.requirement_ids "handoff missing requirement_ids"
  throw_if (is_empty scope) "scope must be nonempty"
  may_modify ← or_throw input.may_modify "authorization.may_modify required"
  each validate_relative_path may_modify
  may_not ← or_throw input.may_not "authorization.may_not required"
  throw_if (is_empty criteria) "acceptance criteria must be nonempty"
  validate_task_commands input.deterministic_command input.verification_command
  ok (λ o s id time. record {
    schema = "opsle.durable-supervisor.task-handoff/v1";
    task_id = id;
    parent_objective_id = o.objective_id;
    parent_objective_revision = o.current_revision;
    parent_decision_id = input.parent_decision_id;
    title = title;
    objective = objective;
    scope = scope;
    may_modify = may_modify;
    may_not = may_not;
    expected_deliverable = deliverable;
    expected_evidence = evidence;
    acceptance_criteria = criteria;
    prohibited_actions = prohibited;
    requirement_ids = requirement_ids;
    route_hint = input.route_hint;
    deterministic_command = input.deterministic_command;
    verification_command = input.verification_command;
    timeout_seconds = or_default input.timeout_seconds 1800;
    expects_changes = or_default input.expects_changes true;
    supervisor_id = s.supervisor_id;
    supervisor_generation = s.generation;
    state = "READY";
    attempts = [];
    created_at = time;
  })

abbrev pub effective_ids : Option Matrix → List String
effective_ids none = []
effective_ids (some matrix) = map (λ (item : Requirement). item.id) matrix.requirements

unfoldable pub known_requirement : Option Matrix → String → Result (Unit {0})
known_requirement matrix id =
    throw_if (negb (includes (effective_ids matrix) id)) "unknown effective requirement"

-- `createTask`: the task and the directory of tasks with its file. `fresh` is `id('task')`.
unfoldable pub create_task :
    Objective
    → Option Matrix
    → Supervisor
    → String
    → String
    → List (String × TaskHandoff)
    → Handoff
    → Result (TaskHandoff × List (String × TaskHandoff))
create_task objective matrix supervisor fresh time tasks input = do
  draft ← validate_handoff input
  throw_if (objective.current_revision == 0) "set the repository objective before creating work"
  let task = draft objective supervisor (or_default input.task_id fresh) time
  throw_if (is_none matrix && negb (is_empty task.requirement_ids))
      "objective-driven repository task cannot claim requirement IDs without a matrix"
  each (known_requirement matrix) task.requirement_ids
  throw_if (negb (is_none (lookup task.task_id tasks))) "task already exists"
  ok (task, insert task.task_id task tasks)
