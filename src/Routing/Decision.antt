-- ===== src/Routing/Decision.antt =====
-- src/supervisor-routing.js: the routes, `selectSupervisorRoute`, the validation of a decision, and
-- the two readers of a decision, `requireSelectedSupervisorCapability` and
-- `loadSelectedSupervisorSkillInstructions`.
use durable_supervisor.Routing.Discovery.{
  Advertisement, Capability, Stat, Evidence, Availability, capability_id, nonempty_text,
  discover_supervisor_capabilities, optional_kinds, probe_instruction_path, probed,
}
use durable_supervisor.Lifecycle.State.{Objective}
use durable_supervisor.Base.{
  Bool, List, Option, Result, String, [], all_of, any, any_of, false, find, if◌then◌else◌, includes,
  is_empty, last, lookup, negb, none, nonempty, ok, or_throw, some, throw_if, trim, true, truthy, ℕ,
  ◌!=◌, ◌&&◌, ◌==◌, ◌>>=◌, ◌>>◌, ◌||◌, ◌∷◌, bool_eq, string_eq, option_string_eq, texts_eq, nat_eq,
}

abbrev pub decision_schema : String
decision_schema = "opsle.durable-supervisor.supervisor-gearbox-decision/v1"

abbrev pub discovery_schema : String
discovery_schema = "opsle.durable-supervisor.supervisor-capability-discovery/v1"

abbrev pub route_schema : String
route_schema = "opsle.durable-supervisor.exact-supervisor-route/v1"

abbrev pub direct_source_route : String
direct_source_route = "direct_deterministic_source_inspection"

abbrev pub external_documentation_route : String
external_documentation_route = "current_external_documentation"

abbrev pub explicit_optional_route : String
explicit_optional_route = "explicit_optional_capability"

abbrev pub routes : List String
routes = direct_source_route ∷ external_documentation_route ∷ explicit_optional_route ∷ []

abbrev pub external_documentation_capabilities : List String
external_documentation_capabilities = "openai-docs" ∷ "web" ∷ []

pub record Route : Type 0 where
  pub schema : String
  pub execution_route : String
  pub selected_capability : Option String
  pub selected_tool : String
  pub selected_skill : Option String
  pub tool_allowlist : List String
  pub skill_allowlist : List String
  pub web_enabled : Bool
  pub web_mode : String
  pub mcp_enabled : Bool
  pub mcp_allowlist : List String
  pub plugins_enabled : Bool
  pub plugin_allowlist : List String
  pub subagents_enabled : Bool

abbrev pub disabled_route : Route
disabled_route = record {
  schema = route_schema;
  execution_route = direct_source_route;
  selected_capability = none;
  selected_tool = "direct-source-inspection";
  selected_skill = none;
  tool_allowlist = "direct-source-inspection" ∷ [];
  skill_allowlist = [];
  web_enabled = false;
  web_mode = "disabled";
  mcp_enabled = false;
  mcp_allowlist = [];
  plugins_enabled = false;
  plugin_allowlist = [];
  subagents_enabled = false;
}

unfoldable pub optional_route : String → Capability → Route
optional_route execution_route c =
    let id = c.capability_id in
    let skill = c.kind == "skill" in
    record disabled_route {
      execution_route = execution_route;
      selected_capability = some id;
      selected_tool = if skill then "skill-instruction-loader" else id;
      selected_skill = if skill then some id else none;
      tool_allowlist = (if skill then "skill-instruction-loader" else id) ∷ [];
      skill_allowlist = if skill then id ∷ [] else [];
      web_enabled = c.kind == "web";
      web_mode = if c.kind == "web" then "selected-current-external-documentation" else "disabled";
      mcp_enabled = c.kind == "mcp";
      mcp_allowlist = if c.kind == "mcp" then id ∷ [] else [];
      plugins_enabled = c.kind == "plugin";
      plugin_allowlist = if c.kind == "plugin" then id ∷ [] else [];
      subagents_enabled = c.kind == "subagent";
    }

-- `canonicalJson(left) === canonicalJson(right)` on routes.
abbrev pub route_tests : Route → Route → List Bool
route_tests a b =
    (a.schema == b.schema)
    ∷ (a.execution_route == b.execution_route)
    ∷ (a.selected_capability == b.selected_capability)
    ∷ (a.selected_tool == b.selected_tool)
    ∷ (a.selected_skill == b.selected_skill)
    ∷ (a.tool_allowlist == b.tool_allowlist)
    ∷ (a.skill_allowlist == b.skill_allowlist)
    ∷ (a.web_enabled == b.web_enabled)
    ∷ (a.web_mode == b.web_mode)
    ∷ (a.mcp_enabled == b.mcp_enabled)
    ∷ (a.mcp_allowlist == b.mcp_allowlist)
    ∷ (a.plugins_enabled == b.plugins_enabled)
    ∷ (a.plugin_allowlist == b.plugin_allowlist)
    ∷ (a.subagents_enabled == b.subagents_enabled)
    ∷ []

unfoldable pub route_beq : Route → Route → Bool
route_beq a b = all_of (route_tests a b)

pub record Subject : Type 0 where
  pub task_id : Option String
  pub task_objective : Option String
  pub objective_id : String
  pub objective_revision : ℕ
  pub objective : String
  pub work_description : String

pub record Decision : Type 0 where
  pub schema : String
  pub decision_id : String
  pub subject : Subject
  pub discovery_schema : String
  pub capabilities : List Capability
  pub instruction_files_read : List String
  pub static_category_match_authority : String
  pub selected_route : Route
  pub selected_execution_route : String
  pub selected_tool : String
  pub selected_skill : Option String
  pub intelligence_or_tooling_rationale : String
  pub direct_inspection_insufficiency_rationale : String
  pub policy_sha256 : String

-- `errors.push` of the tests on the exact route.
unfoldable pub route_wrong : Decision → Bool
route_wrong d =
    let route = d.selected_route in
    if route.execution_route == direct_source_route
    then negb (route_beq route disabled_route)
    else elim route.selected_capability [
      | none ↦ true
      | some id ↦ elim (find (λ item. item.capability_id == id) d.capabilities) [
        | none ↦ true
        | some c ↦
            negb (c.available && route_beq route (optional_route route.execution_route c))
            || includes external_documentation_capabilities id
              != (route.execution_route == external_documentation_route)
      ]
    ]

unfoldable pub capability_wrong : Capability → Bool
capability_wrong c = c.instruction_file_read || negb (includes optional_kinds c.kind)

-- `supervisorRoutingDecisionErrors`: each test on which an error is listed, against the objective and
-- the policy of the moment, and whether there is an error.
abbrev pub decision_tests : Decision → Objective → String → List Bool
decision_tests d objective policy_sha256 =
    (d.schema != decision_schema)
    ∷ (d.discovery_schema != discovery_schema)
    ∷ (negb (is_empty d.instruction_files_read))
    ∷ (d.static_category_match_authority != "non_authoritative")
    ∷ (negb (nonempty (trim d.intelligence_or_tooling_rationale)))
    ∷ (negb (nonempty (trim d.direct_inspection_insufficiency_rationale)))
    ∷ (d.selected_route.schema != route_schema)
    ∷ (negb (includes routes d.selected_route.execution_route))
    ∷ (any capability_wrong d.capabilities)
    ∷ (d.selected_execution_route != d.selected_route.execution_route)
    ∷ (d.selected_tool != d.selected_route.selected_tool)
    ∷ (d.selected_skill != d.selected_route.selected_skill)
    ∷ (route_wrong d)
    ∷ (negb (nonempty d.subject.objective_id))
    ∷ (negb (nonempty d.subject.objective))
    ∷ (negb (nonempty d.subject.work_description))
    ∷ (d.subject.objective_id != objective.objective_id)
    ∷ (d.subject.objective_revision != objective.current_revision)
    ∷ (d.policy_sha256 != policy_sha256)
    ∷ []

unfoldable pub decision_wrong : Decision → Objective → String → Bool
decision_wrong d objective policy_sha256 = any_of (decision_tests d objective policy_sha256)

-- `requireSelectedSupervisorCapability`
unfoldable pub require_selected_capability :
    Decision → Objective → String → Option String → Option String → Result Capability
require_selected_capability d objective policy_sha256 requested kind = do
  throw_if (decision_wrong d objective policy_sha256)
      "supervisor routing decision is not current and valid"
  id ← capability_id requested
  c ←
      or_throw (find (λ item. item.capability_id == id) d.capabilities)
        "optional capability was not selected durably"
  throw_if (d.selected_route.selected_capability != some id)
      "optional capability was not selected durably"
  throw_if (truthy kind && kind != some c.kind) "optional capability kind mismatch"
  ok c

unfoldable pub evidence_beq : Evidence → Evidence → Bool
evidence_beq a b =
    a.path_type == b.path_type
    && a.device == b.device
    && a.inode == b.inode
    && a.size == b.size
    && a.modified_ms == b.modified_ms

-- The evidence of now is that of the discovery.
unfoldable pub same_evidence : Option Evidence → Availability → Bool
same_evidence (some now) (probed (some before)) = evidence_beq now before
same_evidence none (probed none) = true
same_evidence now recorded = false

-- `loadSelectedSupervisorSkillInstructions`: the path whose text is read.
unfoldable pub load_skill_path :
    (String → Stat) → Decision → Objective → String → Option String → Result String
load_skill_path lstat d objective policy_sha256 skill = do
  c ← require_selected_capability d objective policy_sha256 skill (some "skill")
  throw_if (negb (truthy c.instruction_path)) "selected skill has no instruction path"
  path ← or_throw c.instruction_path "selected skill has no instruction path"
  let current = probe_instruction_path lstat (some path)
  throw_if (negb (current.0 && same_evidence current.1 c.availability_evidence))
      "selected skill instruction path changed after discovery"
  ok path

pub record Input : Type 0 where
  pub task_id : Option String
  pub task_objective : Option String
  pub work_description : Option String
  pub requested_route : Option String
  pub requested_capability : Option String
  pub intelligence_or_tooling_rationale : Option String
  pub direct_inspection_insufficiency_rationale : Option String
  pub advertised_capabilities : List Advertisement

-- The records that the selection reads: `gearbox.required` of the policy, the digest of the policy's
-- file, the objective, and the objectives of the tasks by identity.
pub record Authority : Type 0 where
  pub gearbox_required : Bool
  pub policy_sha256 : String
  pub objective : Objective
  pub task_objectives : List (String × String)

-- `decisionSubject`. The check of the task's identity as a file name is not modelled.
unfoldable pub decision_subject : Authority → Input → Result Subject
decision_subject a input = do
  revision ← or_throw (last a.objective.history) "the objective has no revision"
  work ← nonempty_text input.work_description
  let stored : Option String = elim input.task_id [
    | none ↦ none
    | some id ↦ lookup id a.task_objectives
  ]
  ok (record {
    task_id = input.task_id;
    task_objective = elim stored [ none ↦ input.task_objective | some text ↦ some text ];
    objective_id = a.objective.objective_id;
    objective_revision = a.objective.current_revision;
    objective = revision.objective;
    work_description = work;
  })

-- The route of the input: the direct one, or the optional one of an available capability.
unfoldable pub choose_route : String → Option String → List Capability → Result Route
choose_route requested wanted capabilities =
    if requested == direct_source_route then ok disabled_route else (do
      id ← capability_id wanted
      c ←
          or_throw (find (λ item. item.capability_id == id) capabilities)
            "optional capability is not advertised and available"
      throw_if (negb c.available) "optional capability is not advertised and available"
      throw_if
          (includes external_documentation_capabilities id
            && requested != external_documentation_route)
          "capability requires exact current external documentation selection"
      throw_if
          (requested == external_documentation_route
            && negb (includes external_documentation_capabilities id))
          "capability is not a current external documentation capability"
      ok (optional_route requested c))

-- A rationale: a direct route has a text by default.
unfoldable pub rationale : String → Option String → String → Result String
rationale requested given direct_default =
    if requested == direct_source_route
    then nonempty_text (some (elim given [ none ↦ direct_default | some text ↦ text ]))
    else nonempty_text given

-- `selectSupervisorRoute`: the decision that is written. `decision_id` is the new identity.
unfoldable pub select_supervisor_route :
    (String → Stat) → String → Authority → Input → Result Decision
select_supervisor_route lstat decision_id a input = do
  throw_if (negb a.gearbox_required) "operator policy does not require Gearbox"
  capabilities ← discover_supervisor_capabilities lstat input.advertised_capabilities
  let requested : String = elim input.requested_route [
    | none ↦ direct_source_route
    | some route ↦ route
  ]
  throw_if (negb (includes routes requested)) "unsupported supervisor execution route"
  route ← choose_route requested input.requested_capability capabilities
  intelligence ←
      rationale requested input.intelligence_or_tooling_rationale
        "Direct deterministic/source inspection is adequate; no optional intelligence or tooling is required."
  insufficiency ←
      rationale requested input.direct_inspection_insufficiency_rationale
        "Direct inspection is sufficient for this work, so no insufficiency justifies an optional route."
  subject ← decision_subject a input
  let decision : Decision = record {
    schema = decision_schema;
    decision_id = decision_id;
    subject = subject;
    discovery_schema = discovery_schema;
    capabilities = capabilities;
    instruction_files_read = [];
    static_category_match_authority = "non_authoritative";
    selected_route = route;
    selected_execution_route = route.execution_route;
    selected_tool = route.selected_tool;
    selected_skill = route.selected_skill;
    intelligence_or_tooling_rationale = intelligence;
    direct_inspection_insufficiency_rationale = insufficiency;
    policy_sha256 = a.policy_sha256;
  }
  throw_if (decision_wrong decision a.objective a.policy_sha256)
      "invalid supervisor Gearbox decision"
  ok decision
