-- ===== src/Handoff/Gearbox.antt =====
-- src/pipeline.js: `routeTask`, which decides the route of a task, and the guards by which
-- `createAttempt` accepts a decision.
use durable_supervisor.Base.{
  Bool, List, Option, Result, String, [], err, false, if◌then◌else◌, is_empty, is_none, negb, none,
  ok, or_throw, some, throw_if, ℕ, ◌!=◌, ◌&&◌, ◌==◌, ◌>>=◌, ◌>>◌, ◌||◌, ◌∷◌, string_eq,
  option_string_eq, texts_eq,
}
use durable_supervisor.Handoff.Task.{TaskHandoff, validate_task_commands}

abbrev pub gearbox_schema : String
gearbox_schema = "opsle.durable-supervisor.gearbox-decision/v3"

abbrev pub child_route_schema : String
child_route_schema = "opsle.durable-supervisor.exact-child-route/v2"

-- What the two functions read of the policy, and the digest of its file.
pub record Policy : Type 0 where
  pub version : ℕ
  pub codex_enabled : Bool
  pub codex_model : Option String
  pub codex_reasoning_effort : Option String
  pub sha256 : String

-- What `discoverCapabilities` and `executable` find on the machine: whether a command can be run, and
-- whether Codex can.
pub record Discovery : Type 0 where
  pub command_available : String → Bool
  pub codex_available : Bool

pub record Provider : Type 0 where
  pub name : String
  pub model : Option String
  pub reasoning_effort : Option String

pub record Tool : Type 0 where
  pub tool : String
  pub command : String
  pub argv : List String

pub record ChildRoute : Type 0 where
  pub schema : String
  pub provider : Option Provider
  pub execution_class : String
  pub selected_tool : String
  pub tool_allowlist : List Tool
  pub skill_allowlist : List String
  pub web_enabled : Bool
  pub mcp_enabled : Bool
  pub plugins_enabled : Bool
  pub subagents_enabled : Bool
  pub review_enabled : Bool
  pub fallback_enabled : Bool

pub record GearboxDecision : Type 0 where
  pub schema : String
  pub decision_id : String
  pub task_id : String
  pub classified_work : String
  pub selected_route : String
  pub selected_capability : String
  pub selected_route_config : ChildRoute
  pub route_hint : Option String
  pub rationale : String
  pub operator_policy_version : ℕ
  pub operator_policy_sha256 : String
  pub created_at : String

unfoldable pub deterministic_route : String → List String → ChildRoute
deterministic_route command argv = record {
  schema = child_route_schema;
  provider = none;
  execution_class = "deterministic_command";
  selected_tool = "deterministic-command";
  tool_allowlist = record { tool = "deterministic-command"; command = command; argv = argv } ∷ [];
  skill_allowlist = [];
  web_enabled = false;
  mcp_enabled = false;
  plugins_enabled = false;
  subagents_enabled = false;
  review_enabled = false;
  fallback_enabled = false;
}

unfoldable pub codex_route : Policy → ChildRoute
codex_route policy = record (deterministic_route "" []) {
  provider = some (record {
    name = "codex";
    model = policy.codex_model;
    reasoning_effort = policy.codex_reasoning_effort;
  });
  execution_class = "bounded_implementation";
  selected_tool = "none";
  tool_allowlist = [];
}

-- The selected route, its capability and its configuration. A command that is not available leaves
-- none, whether Codex is there or not.
unfoldable pub select_route :
    Policy → Discovery → Option (List String) → Option (String × String × ChildRoute)
select_route policy discovery none =
    if policy.codex_enabled && discovery.codex_available
    then some ("codex", "codex", codex_route policy)
    else none
select_route policy discovery (some []) = none
select_route policy discovery (some (command ∷ arguments)) =
    if discovery.command_available command
    then some ("deterministic", command, deterministic_route command (command ∷ arguments))
    else none

-- `routeTask`
unfoldable pub route_task :
    Policy → Discovery → String → String → TaskHandoff → Result GearboxDecision
route_task policy discovery decision_id time task = do
  validate_task_commands task.deterministic_command task.verification_command
  selected ←
      or_throw (select_route policy discovery task.deterministic_command)
        "no authorized, available, policy-permitted Gearbox route"
  let command = negb (is_none task.deterministic_command)
  ok (record {
    schema = gearbox_schema;
    decision_id = decision_id;
    task_id = task.task_id;
    classified_work =
        if command then "bounded_command_or_implementation" else "bounded_implementation";
    selected_route = selected.0;
    selected_capability = selected.1;
    selected_route_config = selected.2;
    route_hint = task.route_hint;
    rationale =
        if selected.0 == "deterministic"
        then "A predeclared deterministic command is adequate and authorized."
        else "The task requires bounded repository implementation judgment; Codex is available and enabled.";
    operator_policy_version = policy.version;
    operator_policy_sha256 = policy.sha256;
    created_at = time;
  })

-- The provider of the route is the Codex of the policy.
unfoldable pub is_codex_provider : Policy → Option Provider → Bool
is_codex_provider policy none = false
is_codex_provider policy (some p) =
    p.name == "codex"
    && p.model == policy.codex_model
    && p.reasoning_effort == policy.codex_reasoning_effort

unfoldable pub codex_refused : Policy → ChildRoute → Bool
codex_refused policy route =
    negb policy.codex_enabled
    || negb (is_codex_provider policy route.provider)
    || route.execution_class != "bounded_implementation"
    || route.selected_tool != "none"
    || negb (is_empty route.tool_allowlist)

-- The one tool of the route runs the task's command.
unfoldable pub is_command_tool : Option (List String) → String → List Tool → Bool
is_command_tool command selected [] = false
is_command_tool none selected (tool ∷ []) = false
is_command_tool (some argv) selected (tool ∷ []) = selected == tool.tool && tool.argv == argv
is_command_tool command selected (tool ∷ more ∷ rest) = false

unfoldable pub deterministic_refused : TaskHandoff → ChildRoute → Bool
deterministic_refused task route =
    negb (is_none route.provider)
    || route.execution_class != "deterministic_command"
    || negb (is_command_tool task.deterministic_command route.selected_tool route.tool_allowlist)

-- The guards on the selected route.
unfoldable pub authorize_route : Policy → TaskHandoff → GearboxDecision → Result (Unit {0})
authorize_route policy task gearbox =
    if gearbox.selected_route == "codex"
    then throw_if (codex_refused policy gearbox.selected_route_config)
        "Gearbox Codex route is not permitted by current operator policy"
    else if gearbox.selected_route == "deterministic"
    then throw_if (deterministic_refused task gearbox.selected_route_config)
        "Gearbox deterministic route does not exactly match the task command"
    else err "unsupported Gearbox selected route"

-- The guards of `createAttempt`, before it acquires the claim.
unfoldable pub authorize_attempt : Policy → TaskHandoff → GearboxDecision → Result (Unit {0})
authorize_attempt policy task gearbox = do
  validate_task_commands task.deterministic_command task.verification_command
  throw_if (task.state == "REJECTED") "rejected task cannot be relaunched"
  throw_if
      (gearbox.schema != gearbox_schema
        || gearbox.selected_route_config.schema != child_route_schema
        || gearbox.operator_policy_sha256 != policy.sha256)
      "Gearbox decision lacks a current exact selected route"
  authorize_route policy task gearbox
