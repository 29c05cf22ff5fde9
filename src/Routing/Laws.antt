-- ===== src/Routing/Laws.antt =====
-- src/supervisor-routing.js: what a decision grants when it is read, whoever wrote its file.
use mathlib.Core.Path.{subst, subst⁻¹}
use durable_supervisor.Routing.Discovery.{Capability, capability_id, optional_kinds}
use durable_supervisor.Routing.Decision.{
  Decision, Route, disabled_route, optional_route, route_beq, route_wrong, decision_wrong,
  require_selected_capability, direct_source_route, route_tests, decision_tests, capability_wrong,
}
use durable_supervisor.Lifecycle.State.{Objective}
use durable_supervisor.Base.{
  >>=-eq-ok, Bool, Bool-cases, List, Option, String, [], all_of-AllHold, any, any_of-NoneHold, ap,
  arith, bool_eq, false, find, find_holds, if◌then◌else◌, includes, inl, inr, nat_eq, negb-false,
  none, nonempty, ok, ok_inj, option_string_eq, or_throw-ok, refl, some, some_inj, string_eq,
  texts_eq, throw_if-ok, true, truthy, ◌!=◌, ◌&&◌, ◌==◌, ◌∷◌, ◌≡◌, ◌⊎◌,
}

pub route_beq-eq : (a b : Route) → route_beq a b ≡ true → a ≡ b
unfolding route_beq
route_beq-eq a b h =
    let t = all_of-AllHold (route_tests a b) h in
    λ i. record {
      schema = (string_eq.agrees a.schema b.schema).0 t.0 i;
      execution_route = (string_eq.agrees a.execution_route b.execution_route).0 t.1.0 i;
      selected_capability =
          (option_string_eq.agrees a.selected_capability b.selected_capability).0 t.1.1.0 i;
      selected_tool = (string_eq.agrees a.selected_tool b.selected_tool).0 t.1.1.1.0 i;
      selected_skill = (option_string_eq.agrees a.selected_skill b.selected_skill).0 t.1.1.1.1.0 i;
      tool_allowlist = (texts_eq.agrees a.tool_allowlist b.tool_allowlist).0 t.1.1.1.1.1.0 i;
      skill_allowlist = (texts_eq.agrees a.skill_allowlist b.skill_allowlist).0 t.1.1.1.1.1.1.0 i;
      web_enabled = (bool_eq.agrees a.web_enabled b.web_enabled).0 t.1.1.1.1.1.1.1.0 i;
      web_mode = (string_eq.agrees a.web_mode b.web_mode).0 t.1.1.1.1.1.1.1.1.0 i;
      mcp_enabled = (bool_eq.agrees a.mcp_enabled b.mcp_enabled).0 t.1.1.1.1.1.1.1.1.1.0 i;
      mcp_allowlist = (texts_eq.agrees a.mcp_allowlist b.mcp_allowlist).0 t.1.1.1.1.1.1.1.1.1.1.0 i;
      plugins_enabled =
          (bool_eq.agrees a.plugins_enabled b.plugins_enabled).0 t.1.1.1.1.1.1.1.1.1.1.1.0 i;
      plugin_allowlist =
          (texts_eq.agrees a.plugin_allowlist b.plugin_allowlist).0 t.1.1.1.1.1.1.1.1.1.1.1.1.0 i;
      subagents_enabled =
          (bool_eq.agrees a.subagents_enabled b.subagents_enabled).0 t.1.1.1.1.1.1.1.1.1.1.1.1.1.0
            i;
    }

-- Only this capability, and nothing else that is optional: a kind of access is on exactly where it is
-- the capability's own.
pub record Grants (route : Route) (c : Capability) : Type 0 where
  pub selected : route.selected_capability ≡ some c.capability_id
  pub skills : route.skill_allowlist ≡ (if c.kind == "skill" then c.capability_id ∷ [] else [])
  pub tool :
      route.selected_tool
      ≡ (if c.kind == "skill" then "skill-instruction-loader" else c.capability_id)
  pub tools :
      route.tool_allowlist
      ≡ (if c.kind == "skill" then "skill-instruction-loader" else c.capability_id) ∷ []
  pub skill : route.selected_skill ≡ (if c.kind == "skill" then some c.capability_id else none)
  pub web : route.web_enabled ≡ (c.kind == "web")
  pub web_mode :
      route.web_mode
      ≡ (if c.kind == "web" then "selected-current-external-documentation" else "disabled")
  pub mcp_enabled : route.mcp_enabled ≡ (c.kind == "mcp")
  pub plugins_enabled : route.plugins_enabled ≡ (c.kind == "plugin")
  pub mcp : route.mcp_allowlist ≡ (if c.kind == "mcp" then c.capability_id ∷ [] else [])
  pub plugins : route.plugin_allowlist ≡ (if c.kind == "plugin" then c.capability_id ∷ [] else [])
  pub subagents : route.subagents_enabled ≡ (c.kind == "subagent")

optional_route-Grants : (e : String) (c : Capability) → Grants (optional_route e c) c
unfolding optional_route
optional_route-Grants e c = record {
  selected = refl;
  skills = refl;
  tool = refl;
  tools = refl;
  skill = refl;
  web = refl;
  web_mode = refl;
  mcp_enabled = refl;
  plugins_enabled = refl;
  mcp = refl;
  plugins = refl;
  subagents = refl;
}

named : String → Capability → Bool
named id item = item.capability_id == id

-- An optional route that the validation passes is the exact one of its available capability.
route_wrong-optional :
    (d : Decision) (id : String) (c : Capability)
    → route_wrong d ≡ false
    → d.selected_route.selected_capability ≡ some id
    → find (named id) d.capabilities ≡ some c
    → (c.available ≡ true) × (d.selected_route ≡ optional_route d.selected_route.execution_route c)
unfolding route_wrong named
route_wrong-optional d id c h selected listed =
    elim (Bool-cases (d.selected_route.execution_route == direct_source_route)) [
      | inl direct ↦
          let equal = negb-false _ (rw (direct, route_wrong) at h) in
          let none_selected =
            ap (λ (r : Route). r.selected_capability)
              (route_beq-eq d.selected_route disabled_route equal) in
          cc
      | inr optional ↦
          let h' = rw (optional, route_wrong) at h in
          let h'' = rw (selected, listed) at h' in
          let fine : (c.available
                && route_beq d.selected_route (optional_route d.selected_route.execution_route c))
              ≡ true =
            ground arith in
          (ground arith, route_beq-eq d.selected_route _ (ground arith))
    ]

any-find :
    (wrong test : Capability → Bool) (cs : List Capability) (c : Capability)
    → any wrong cs ≡ false
    → find test cs ≡ some c
    → wrong c ≡ false
unfolding any find
any-find wrong test [] c h found = cc
any-find wrong test (x ∷ xs) c h found = elim (Bool-cases (test x)) [
  | inl here ↦ let same : x ≡ c = some_inj (rw here at found) in rw (← same) (ground arith)
  | inr later ↦ any-find wrong test xs c (ground arith) (rw later at found)
]

-- A kind that was named, if any was, is the capability's.
kind-named :
    (kind : Option String) (k : String)
    → (truthy kind && kind != some k) ≡ false
    → (kind ≡ none) ⊎ (kind ≡ some "") ⊎ (kind ≡ some k)
kind-named none k h = inl refl
kind-named (some x) k h = elim (Bool-cases (nonempty x)) [
  | inl given ↦ inr (inr ((option_string_eq.agrees _ _).0 (negb-false _ (rw given at h))))
  | inr blank ↦ inr (inl (ap some ((string_eq.agrees x "").0 (negb-false _ blank))))
]

capability_wrong-known :
    (c : Capability) → capability_wrong c ≡ false → includes optional_kinds c.kind ≡ true
unfolding capability_wrong
capability_wrong-known c h = negb-false _ (ground arith)

-- A reader that is given a capability, of whatever decision it finds in the file, is given one that
-- the decision's discovery lists under the requested identity as available and of a known kind, of
-- the requested kind if one was named; the decision is the current one for the objective and the
-- policy; and its route grants that capability, with its one tool, and nothing else: each kind of
-- access is on exactly where it is the capability's own.
pub require_selected_capability_exact :
    (d : Decision) (o : Objective) (p : String) (requested kind : Option String) (c : Capability)
    → require_selected_capability d o p requested kind ≡ ok c
    → (c.available ≡ true)
      × (capability_id requested ≡ ok c.capability_id)
      × (includes optional_kinds c.kind ≡ true)
      × ((kind ≡ none) ⊎ (kind ≡ some "") ⊎ (kind ≡ some c.kind))
      × Grants d.selected_route c
      × (d.subject.objective_revision ≡ o.current_revision)
      × (d.policy_sha256 ≡ p)
unfolding require_selected_capability decision_wrong named
require_selected_capability_exact d o p requested kind c h =
    let (valid, h₁) = throw_if-ok (decision_wrong d o p) _ _ h in
    let (id, exact, h₂) = >>=-eq-ok (capability_id requested) _ h₁ in
    let (c', listed, h₃) = or_throw-ok (find (named id) d.capabilities) _ _ h₂ in
    let (chosen, h₄) = throw_if-ok (d.selected_route.selected_capability != some id) _ _ h₃ in
    let (kind_fits, h₅) = throw_if-ok (truthy kind && kind != some c'.kind) _ _ h₄ in
    let same : c' ≡ c = ok_inj h₅ in
    let selected : d.selected_route.selected_capability ≡ some id =
      (option_string_eq.agrees _ _).0 (negb-false _ chosen) in
    let t = any_of-NoneHold (decision_tests d o p) valid in
    let kinds : any capability_wrong d.capabilities ≡ false = t.1.1.1.1.1.1.1.1.0 in
    let known =
      capability_wrong-known c'
        (any-find capability_wrong (named id) d.capabilities c' kinds listed) in
    let wrong : route_wrong d ≡ false = (t.1.1.1.1.1.1.1.1.1.1.1.1.0) in
    let revision : (d.subject.objective_revision != o.current_revision) ≡ false =
      t.1.1.1.1.1.1.1.1.1.1.1.1.1.1.1.1.1.0 in
    let policy : (d.policy_sha256 != p) ≡ false = t.1.1.1.1.1.1.1.1.1.1.1.1.1.1.1.1.1.1.0 in
    let (available, route) = route_wrong-optional d id c' wrong selected listed in
    let identity : c'.capability_id ≡ id =
      (string_eq.agrees _ _).0 (find_holds (named id) d.capabilities c' listed) in
    (
      cc,
      cc,
      rw (← same) known,
      rw (← same) (kind-named kind c'.kind kind_fits),
      subst (Grants d.selected_route) same (
          subst⁻¹ (λ r. Grants r c') route
            (optional_route-Grants d.selected_route.execution_route c')),
      (nat_eq.agrees _ _).0 (negb-false _ revision),
      (string_eq.agrees _ _).0 (negb-false _ policy),
    )
