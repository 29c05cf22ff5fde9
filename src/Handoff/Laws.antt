-- ===== src/Handoff/Laws.antt =====
-- src/pipeline.js: the decisions of `routeTask` are ones that `createAttempt` accepts, and the tasks
-- of `createTask` are ones that the objective and its requirements allow.
use durable_supervisor.Base.{
  >>=-eq-ok, Bool-cases, List, Option, Result, String, [], ap, arith, beq_refl, each, false, find,
  includes, inl, inr, is_empty, is_none, is_none-none, lookup, lookup-insert_self, map, negb,
  negb-false, none, ok, ok_inj, or_throw-ok, refl, some, some_inj, string_eq, sym, texts_beq,
  texts_eq, throw_if-false, throw_if-ok, true, ◌&&◌, ◌==◌, ◌∙◌, ◌∷◌, ◌≡◌, ◌≢◌, nat_eq,
}
use mathlib.Core.Path.{subst₂}
use durable_supervisor.Lifecycle.State.{Objective, Supervisor}
use durable_supervisor.Lifecycle.Requirements.{Matrix, Requirement}
use durable_supervisor.Handoff.Task.{
  Handoff, TaskHandoff, create_task, known_requirement, validate_handoff, validate_task_commands,
  or_default, Draft, effective_ids, validate_relative_path,
}
use durable_supervisor.Handoff.Gearbox.{
  ChildRoute, Discovery, GearboxDecision, Policy, authorize_attempt, authorize_route, codex_refused,
  codex_route, child_route_schema, gearbox_schema, deterministic_refused, deterministic_route,
  is_codex_provider, is_command_tool, route_task, select_route,
}

codex_route-accepted :
    (policy : Policy)
    → policy.codex_enabled ≡ true
    → codex_refused policy (codex_route policy) ≡ false
unfolding codex_refused codex_route is_codex_provider
codex_route-accepted policy on =
    rw (on, beq_refl policy.codex_model, beq_refl policy.codex_reasoning_effort) refl

deterministic_route-accepted :
    (task : TaskHandoff) (x : String) (xs : List String)
    → task.deterministic_command ≡ some (x ∷ xs)
    → deterministic_refused task (deterministic_route x (x ∷ xs)) ≡ false
unfolding deterministic_refused deterministic_route is_command_tool texts_beq
deterministic_route-accepted task x xs e =
    let same : texts_beq xs xs ≡ true = (texts_eq.agrees xs xs).1 refl in
    rw (e, beq_refl x, same) refl

-- A decision with one of the two routes, and its configuration, passes the guards on routes.
authorize_codex :
    (policy : Policy) (task : TaskHandoff) (g : GearboxDecision)
    → g.selected_route ≡ "codex"
    → codex_refused policy g.selected_route_config ≡ false
    → authorize_route policy task g ≡ ok tt
unfolding authorize_route
authorize_codex policy task g r c = rw (r, c) refl

authorize_deterministic :
    (policy : Policy) (task : TaskHandoff) (g : GearboxDecision)
    → g.selected_route ≡ "deterministic"
    → deterministic_refused task g.selected_route_config ≡ false
    → authorize_route policy task g ≡ ok tt
unfolding authorize_route
authorize_deterministic policy task g r c = rw (r, c) refl

select_route-authorized :
    (policy : Policy) (discovery : Discovery) (task : TaskHandoff) (command : Option (List String))
    (selected : String × String × ChildRoute) (g : GearboxDecision)
    → task.deterministic_command ≡ command
    → select_route policy discovery command ≡ some selected
    → g.selected_route ≡ selected.0
    → g.selected_route_config ≡ selected.2
    → (authorize_route policy task g ≡ ok tt)
      × (g.selected_route_config.schema ≡ child_route_schema)
unfolding select_route codex_route deterministic_route
select_route-authorized policy discovery task none selected g e h r c =
    elim (Bool-cases (policy.codex_enabled && discovery.codex_available)) [
      | inr off ↦ cc (rw off at h)
      | inl on ↦
          let same = some_inj (rw on at h) in
          let enabled : policy.codex_enabled ≡ true = ground arith in
          let config : g.selected_route_config ≡ codex_route policy =
            c ∙ sym (ap (λ s. s.2) same) in
          (
            authorize_codex policy task g (r ∙ sym (ap (λ s. s.0) same))
                (ap (codex_refused policy) config ∙ codex_route-accepted policy enabled),
            ap (λ (x : ChildRoute). x.schema) config,
          )
    ]
select_route-authorized policy discovery task (some []) selected g e h r c = cc
select_route-authorized policy discovery task (some (x ∷ xs)) selected g e h r c =
    elim (Bool-cases (discovery.command_available x)) [
      | inr off ↦ cc (rw off at h)
      | inl on ↦
          let same = some_inj (rw on at h) in
          let config : g.selected_route_config ≡ deterministic_route x (x ∷ xs) =
            c ∙ sym (ap (λ s. s.2) same) in
          (
            authorize_deterministic policy task g (r ∙ sym (ap (λ s. s.0) same))
                (ap (deterministic_refused task) config ∙ deterministic_route-accepted task x xs e),
            ap (λ (y : ChildRoute). y.schema) config,
          )
    ]

authorize_attempt-ok :
    (policy : Policy) (task : TaskHandoff) (g : GearboxDecision) (done : Unit {0})
    → validate_task_commands task.deterministic_command task.verification_command ≡ ok done
    → (task.state == "REJECTED") ≡ false
    → g.schema ≡ gearbox_schema
    → g.selected_route_config.schema ≡ child_route_schema
    → g.operator_policy_sha256 ≡ policy.sha256
    → authorize_route policy task g ≡ ok tt
    → authorize_attempt policy task g ≡ ok tt
unfolding authorize_attempt authorize_route codex_refused deterministic_refused
authorize_attempt-ok policy task g done valid live schema config digest route =
    rw (valid, live, schema, config, digest, beq_refl policy.sha256) route

-- A decision that `routeTask` makes for a task passes every guard of `createAttempt` on the same
-- task, unless the task is rejected, as long as the policy is the one that it was made under,
-- whatever the machine offers by then.
pub route_task-authorized :
    (policy : Policy) (discovery : Discovery) (decision_id time : String) (task : TaskHandoff)
    (g : GearboxDecision)
    → route_task policy discovery decision_id time task ≡ ok g
    → (task.state == "REJECTED") ≡ false
    → authorize_attempt policy task g ≡ ok tt
unfolding route_task
route_task-authorized policy discovery decision_id time task g h live =
    let (_, valid, h₁) =
      >>=-eq-ok (validate_task_commands task.deterministic_command task.verification_command) _ h in
    let (selected, is_selected, h₂) =
      or_throw-ok (select_route policy discovery task.deterministic_command) _ _ h₁ in
    let made = ok_inj h₂ in
    let (route, config) =
      select_route-authorized policy discovery task task.deterministic_command selected g refl
        is_selected (sym (ap (λ (d : GearboxDecision). d.selected_route) made))
        (sym (ap (λ (d : GearboxDecision). d.selected_route_config) made)) in
    authorize_attempt-ok policy task g _ valid live
      (sym (ap (λ (d : GearboxDecision). d.schema) made)) config
      (sym (ap (λ (d : GearboxDecision). d.operator_policy_sha256) made)) route

-- A value that a check over a list passed.
each-includes :
    (check : String → Result (Unit {0})) (xs : List String) (a : String)
    → each check xs ≡ ok tt
    → includes xs a ≡ true
    → check a ≡ ok tt
unfolding each includes
each-includes check [] a h i = cc
each-includes check (x ∷ xs) a h i =
    let (_, first, rest) = >>=-eq-ok (check x) _ h in
    elim (Bool-cases (x == a)) [
      | inl same ↦ rw (← (string_eq.agrees x a).0 same) first
      | inr other ↦ each-includes check xs a rest (rw other at i)
    ]

includes-find :
    (rs : List Requirement) (id : String)
    → includes (map (λ (item : Requirement). item.id) rs) id ≡ true
    → (item : Requirement) × (find (λ (x : Requirement). x.id == id) rs ≡ some item)
unfolding includes find
includes-find [] id h = cc
includes-find (r ∷ rs) id h = elim (Bool-cases (r.id == id)) [
  | inl same ↦ (r, rw same refl)
  | inr other ↦ let (item, found) = includes-find rs id (rw other at h) in (item, rw other found)
]

-- A requirement that passes the test is one of the matrix in effect.
known_requirement-find :
    (matrix : Option Matrix) (id : String)
    → known_requirement matrix id ≡ ok tt
    → (m : Matrix) × (matrix ≡ some m)
      × (item : Requirement) × (find (λ (x : Requirement). x.id == id) m.requirements ≡ some item)
unfolding known_requirement includes
known_requirement-find none id h = cc
known_requirement-find (some m) id h =
    let unlisted = throw_if-false (negb (includes (effective_ids (some m)) id)) _ h in
    let (item, found) = includes-find m.requirements id (negb-false _ unlisted) in
    (m, refl, item, found)

-- The identity of a draft is the one that it is given, and its requirements are the handoff's.
validate_handoff-draft :
    (input : Handoff) (draft : Draft) (o : Objective) (s : Supervisor) (id time : String)
    → validate_handoff input ≡ ok draft
    → ((draft o s id time).task_id ≡ id)
      × (input.requirement_ids ≡ some (draft o s id time).requirement_ids)
      × ((draft o s id time).state ≡ "READY")
unfolding validate_handoff
validate_handoff-draft input draft o s id time h =
    let (title, _, h₁) = or_throw-ok input.title _ _ h in
    let (objective, _, h₂) = or_throw-ok input.objective _ _ h₁ in
    let (scope, _, h₃) = or_throw-ok input.scope _ _ h₂ in
    let (deliverable, _, h₄) = or_throw-ok input.expected_deliverable _ _ h₃ in
    let (evidence, _, h₅) = or_throw-ok input.expected_evidence _ _ h₄ in
    let (criteria, _, h₆) = or_throw-ok input.acceptance_criteria _ _ h₅ in
    let (prohibited, _, h₇) = or_throw-ok input.prohibited_actions _ _ h₆ in
    let (ids, claimed, h₈) = or_throw-ok input.requirement_ids _ _ h₇ in
    let (_, h₉) = throw_if-ok (is_empty scope) _ _ h₈ in
    let (may_modify, _, g₁) = or_throw-ok input.may_modify _ _ h₉ in
    let (_, _, g₂) = >>=-eq-ok (each validate_relative_path may_modify) _ g₁ in
    let (may_not, _, g₃) = or_throw-ok input.may_not _ _ g₂ in
    let (_, g₄) = throw_if-ok (is_empty criteria) _ _ g₃ in
    let (_, _, g₅) =
      >>=-eq-ok (validate_task_commands input.deterministic_command input.verification_command) _
        g₄ in
    let made = ok_inj g₅ in
    (
      ap (λ (f : Draft). (f o s id time).task_id) (sym made),
      claimed ∙ ap (λ (f : Draft). some (f o s id time).requirement_ids) made,
      ap (λ (f : Draft). (f o s id time).state) (sym made),
    )

-- What the creation of a task establishes.
CreatedFacts :
    Handoff
    → Option Matrix
    → String
    → List (String × TaskHandoff)
    → TaskHandoff
    → List (String × TaskHandoff)
    → Type 0
CreatedFacts input matrix fresh tasks task after =
    (lookup task.task_id tasks ≡ none)
    × (lookup task.task_id after ≡ some task)
    × (task.task_id ≡ or_default input.task_id fresh)
    × (input.requirement_ids ≡ some task.requirement_ids)
    × (task.state ≡ "READY")
    × (each (known_requirement matrix) task.requirement_ids ≡ ok tt)

create_task-Facts :
    (objective : Objective) (matrix : Option Matrix) (supervisor : Supervisor) (fresh time : String)
    (tasks after : List (String × TaskHandoff)) (input : Handoff) (task : TaskHandoff)
    → create_task objective matrix supervisor fresh time tasks input ≡ ok (task, after)
    → CreatedFacts input matrix fresh tasks task after
unfolding create_task CreatedFacts
create_task-Facts objective matrix supervisor fresh time tasks after input task h =
    let (draft, valid, h₁) = >>=-eq-ok (validate_handoff input) _ h in
    let id = or_default input.task_id fresh in
    let made = draft objective supervisor id time in
    let (named, claimed, ready) =
      validate_handoff-draft input draft objective supervisor id time valid in
    let (revision, h₂) = throw_if-ok (objective.current_revision == 0) _ _ h₁ in
    let (_, h₃) = throw_if-ok (is_none matrix && negb (is_empty made.requirement_ids)) _ _ h₂ in
    let (_, known, h₄) = >>=-eq-ok (each (known_requirement matrix) made.requirement_ids) _ h₃ in
    let (free, h₅) = throw_if-ok (negb (is_none (lookup made.task_id tasks))) _ _ h₄ in
    let same = ok_inj h₅ in
    subst₂ (CreatedFacts input matrix fresh tasks) (ap (λ p. p.0) same) (ap (λ p. p.1) same) (
      is_none-none (lookup made.task_id tasks) (negb-false _ free),
      lookup-insert_self made.task_id made tasks,
      named,
      claimed,
      ready,
      known,
    )

pub create_task_stored :
    (objective later : Objective) (matrix later_matrix : Option Matrix)
    (supervisor later_supervisor : Supervisor) (fresh time later_fresh later_time id : String)
    (tasks after : List (String × TaskHandoff)) (input again : Handoff) (task : TaskHandoff)
    (other : TaskHandoff × List (String × TaskHandoff))
    → create_task objective matrix supervisor fresh time tasks input ≡ ok (task, after)
    → includes task.requirement_ids id ≡ true
    → again.task_id ≡ some task.task_id
    → (lookup task.task_id tasks ≡ none)
      × (lookup task.task_id after ≡ some task)
      × (task.state ≡ "READY")
      × (input.requirement_ids ≡ some task.requirement_ids)
      × ((m : Matrix) × (matrix ≡ some m)
          × (item : Requirement) × (find (λ (x : Requirement). x.id == id) m.requirements
              ≡ some item))
      × (create_task later later_matrix later_supervisor later_fresh later_time after again
          ≢ ok other)
unfolding CreatedFacts
create_task_stored objective later matrix later_matrix supervisor later_supervisor fresh time
      later_fresh later_time id tasks after input again task other h claimed same =
    let (free, there, named, ids, ready, known) =
      create_task-Facts objective matrix supervisor fresh time tasks after input task h in
    (
      free,
      there,
      ready,
      ids,
      known_requirement-find matrix id
          (each-includes (known_requirement matrix) task.requirement_ids id known claimed),
      λ second.
          let (free', _, named', _, _, _) =
            create_task-Facts later later_matrix later_supervisor later_fresh later_time after
              other.1 again other.0 second in
          let same' : other.0.task_id ≡ task.task_id =
            named' ∙ ap (λ o. or_default o later_fresh) same in
          let gone : lookup task.task_id after ≡ none =
            ap (λ k. lookup k after) (sym same') ∙ free' in
          cc,
    )
