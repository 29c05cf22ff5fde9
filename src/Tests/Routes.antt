-- ===== src/Tests/Routes.antt =====
-- src/supervisor-routing.js: a decision that selects one capability.
use durable_supervisor.Base.{
  Option, String, [], all_of, any, any_of, end_at, false, find, includes, is_space, none, ok, refl,
  some, texts_beq, trim, trim_end, trim_start, true, ◌∷◌, ◌≡◌, ◌⊎◌, string_eq,
}
use durable_supervisor.Routing.Discovery.{
  Capability, advertised_available, capability_id, nonempty_text, lower_case, lower_in,
  is_capability_id, is_alphanumeric, all_id_chars, optional_kinds,
}
use durable_supervisor.Routing.Decision.{
  Decision, Route, capability_wrong, decision_schema, decision_wrong, discovery_schema,
  external_documentation_route, optional_route, require_selected_capability, route_beq, route_wrong,
}
use durable_supervisor.Routing.Laws.{Grants, require_selected_capability_exact}
use durable_supervisor.Tests.Lifecycles.{objective}

abbrev documents : Capability
documents = record {
  capability_id = "openai-docs";
  kind = "skill";
  advertised = true;
  available = true;
  instruction_path = none;
  availability_evidence = advertised_available true;
  instruction_file_read = false;
}

abbrev route : Route
route = record {
  schema = "opsle.durable-supervisor.exact-supervisor-route/v1";
  execution_route = external_documentation_route;
  selected_capability = some "openai-docs";
  selected_tool = "skill-instruction-loader";
  selected_skill = some "openai-docs";
  tool_allowlist = "skill-instruction-loader" ∷ [];
  skill_allowlist = "openai-docs" ∷ [];
  web_enabled = false;
  web_mode = "disabled";
  mcp_enabled = false;
  mcp_allowlist = [];
  plugins_enabled = false;
  plugin_allowlist = [];
  subagents_enabled = false;
}

abbrev decision : Decision
decision = record {
  schema = decision_schema;
  decision_id = "decision-1";
  subject = record {
    task_id = none;
    task_objective = none;
    objective_id = "objective-1";
    objective_revision = 1;
    objective = "Ship it";
    work_description = "Read the docs";
  };
  discovery_schema = discovery_schema;
  capabilities = documents ∷ [];
  instruction_files_read = [];
  static_category_match_authority = "non_authoritative";
  selected_route = route;
  selected_execution_route = external_documentation_route;
  selected_tool = "skill-instruction-loader";
  selected_skill = some "openai-docs";
  intelligence_or_tooling_rationale = "The API is new";
  direct_inspection_insufficiency_rationale = "Not in the source";
  policy_sha256 = "policy";
}

required_run :
    require_selected_capability decision objective "policy" (some " OpenAI-docs ") (some "skill")
    ≡ ok documents
unfolding require_selected_capability decision_wrong any_of any all_of find includes route_wrong
    route_beq optional_route texts_beq capability_wrong capability_id nonempty_text lower_case
    lower_in is_capability_id is_alphanumeric all_id_chars trim trim_start trim_end end_at is_space
required_run = refl

abbrev named_kind : Option String
named_kind = some "skill"

require_selected_capability_exact_example :
    (documents.available ≡ true)
    × (capability_id (some " OpenAI-docs ") ≡ ok "openai-docs")
    × (includes optional_kinds documents.kind ≡ true)
    × ((named_kind ≡ none) ⊎ (named_kind ≡ some "") ⊎ (named_kind ≡ some documents.kind))
    × Grants route documents
    × (decision.subject.objective_revision ≡ objective.current_revision)
    × (decision.policy_sha256 ≡ "policy")
require_selected_capability_exact_example =
    require_selected_capability_exact decision objective "policy" (some " OpenAI-docs ") named_kind
      documents required_run
