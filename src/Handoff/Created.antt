-- ===== src/Handoff/Created.antt =====
-- src/pipeline.js: what an attempt that `createAttempt` returns stands for.
use durable_supervisor.Claims.Laws.{KeepsProtocol, Committed, acquire_claim-Committed}
use durable_supervisor.Base.{
  >>=-eq-ok, Bool-cases, List, Option, Result, String, [], ap, arith, err, false, includes, inl,
  inr, is_empty, lookup, lookup-insert_self, negb, negb-false, none, ok, ok_inj, refl, some,
  string_eq, subst, sym, texts_eq, throw_if-false, throw_if-ok, true, ◌!=◌, ◌++◌, ◌==◌, ◌||◌, ◌∷◌,
  ◌≡◌, ◌⊎◌,
}
use durable_supervisor.Store.{Hash}
use durable_supervisor.Claims.{Claims, World, acquire_claim}
use durable_supervisor.Claims.Index.{Claim, IndexContent, ClaimIndex, index_of}
use durable_supervisor.Lifecycle.State.{State, update_state, valid_supervisor_states}
use durable_supervisor.Handoff.Task.{TaskHandoff, validate_task_commands}
use durable_supervisor.Handoff.Gearbox.{
  GearboxDecision, authorize_attempt, Policy, ChildRoute, Tool, authorize_route, codex_refused,
  deterministic_refused, is_command_tool, gearbox_schema, child_route_schema,
}
use durable_supervisor.Handoff.Attempt.{
  AttemptRecords, ChildAttempt, activate_attempt, policy_snapshot, claim_task, claims_of,
  create_attempt, create_authorized, new_attempt, new_attempt_id, queued_task, record_attempt,
  if_codex,
}

is_empty-empty {ℓ} : {A : Type ℓ} (xs : List A) → is_empty xs ≡ true → xs ≡ []
is_empty-empty [] h = refl
is_empty-empty (x ∷ xs) h = cc

codex_refused-accepted :
    (policy : Policy) (route : ChildRoute)
    → codex_refused policy route ≡ false
    → (policy.codex_enabled ≡ true) × (route.tool_allowlist ≡ [])
unfolding codex_refused
codex_refused-accepted policy route h =
    (ground arith, is_empty-empty route.tool_allowlist (ground arith))

is_command_tool-only :
    (command : Option (List String)) (selected : String) (tools : List Tool)
    → is_command_tool command selected tools ≡ true
    → (argv : List String) × (tool : Tool) × (command ≡ some argv)
      × (tools ≡ tool ∷ [])
      × (tool.argv ≡ argv)
unfolding is_command_tool
is_command_tool-only command selected [] h = cc
is_command_tool-only none selected (tool ∷ []) h = cc
is_command_tool-only (some argv) selected (tool ∷ []) h =
    (argv, tool, refl, refl, (texts_eq.agrees _ _).0 (ground arith))
is_command_tool-only command selected (tool ∷ more ∷ rest) h = cc

deterministic_refused-accepted :
    (task : TaskHandoff) (route : ChildRoute)
    → deterministic_refused task route ≡ false
    → (argv : List String) × (tool : Tool) × (task.deterministic_command ≡ some argv)
      × (route.tool_allowlist ≡ tool ∷ [])
      × (tool.argv ≡ argv)
unfolding deterministic_refused
deterministic_refused-accepted task route h =
    is_command_tool-only task.deterministic_command route.selected_tool route.tool_allowlist
      (ground arith)

-- The route that was authorised, of the policy and the task: Codex enabled, with the model and effort
-- of the policy, no tool and this provider for the attempt; or the command of the task as the one tool
-- and no provider.
IsAuthorized : Policy → TaskHandoff → GearboxDecision → Option String → Type 0
IsAuthorized policy task gearbox provider =
    ((gearbox.selected_route ≡ "codex")
      × (policy.codex_enabled ≡ true)
      × (provider ≡ some "codex")
      × (gearbox.selected_route_config.tool_allowlist ≡ []))
    ⊎ ((gearbox.selected_route ≡ "deterministic")
        × (provider ≡ none)
        × (argv : List String) × (tool : Tool) × (task.deterministic_command ≡ some argv)
        × (gearbox.selected_route_config.tool_allowlist ≡ tool ∷ [])
        × (tool.argv ≡ argv))

authorize_route-IsAuthorized :
    (policy : Policy) (task : TaskHandoff) (gearbox : GearboxDecision)
    → authorize_route policy task gearbox ≡ ok tt
    → IsAuthorized policy task gearbox (if_codex gearbox (some "codex"))
unfolding authorize_route IsAuthorized
authorize_route-IsAuthorized policy task gearbox e =
    elim (Bool-cases (gearbox.selected_route == "codex")) [
      | inl codex ↦
          let accepted = throw_if-false _ _ (rw codex at e) in
          let (on, empty) = codex_refused-accepted policy gearbox.selected_route_config accepted in
          rw codex (inl ((string_eq.agrees _ _).0 codex, on, refl, empty))
      | inr other ↦ elim (Bool-cases (gearbox.selected_route == "deterministic")) [
        | inl fixed ↦
            let accepted = throw_if-false _ _ (rw (other, fixed) at e) in
            let (argv, tool, command, only, same) =
              deterministic_refused-accepted task gearbox.selected_route_config accepted in
            rw other (inr ((string_eq.agrees _ _).0 fixed, refl, argv, tool, command, only, same))
        | inr unknown ↦ absurd (cc (rw (other, unknown) at e))
      ]
    ]

-- What an attempt that is returned stands for: its decision is of the current policy and of an
-- authorised route; no active claim was on the task at the instant when its claim was entered in the
-- index, with that index's fence; the attempt is recorded, queued and without a process, with that
-- claim and fence; and the task is queued, with the attempt at the end of its attempts, and active
-- with it.
pub record IsCreated (h : Hash IndexContent) (world : World) (canonical : TaskHandoff → String)
    (start : ClaimIndex) (task : TaskHandoff) (gearbox : GearboxDecision) (r s : AttemptRecords)
    (attempt : ChildAttempt) (claim : Claim) : Type 0 where
  queued_task : TaskHandoff
  not_rejected : (task.state == "REJECTED") ≡ false
  current : gearbox.operator_policy_sha256 ≡ r.policy.sha256
  authorized : IsAuthorized r.policy task gearbox attempt.provider
  committed :
      Committed h start
        (claim_task h world canonical task)
        attempt.attempt_id
        claim
        s.claims.index.content
  recorded : lookup attempt.attempt_id s.attempts ≡ some attempt
  child_state : attempt.child_state ≡ "QUEUED"
  no_process : attempt.pid ≡ none
  claim_id : attempt.claim_id ≡ claim.claim_id
  fence : attempt.fence_generation ≡ claim.fence_generation
  snapshot_fence : attempt.policy_snapshot.fence_generation ≡ claim.fence_generation
  policy : attempt.policy_snapshot.policy_sha256 ≡ r.policy.sha256
  written : lookup task.task_id s.tasks ≡ some queued_task
  state : queued_task.state ≡ "QUEUED"
  listed : queued_task.attempts ≡ task.attempts ++ attempt.attempt_id ∷ []
  active_task : s.state.active_task_id ≡ some task.task_id
  active_attempt : s.state.active_attempt_id ≡ some attempt.attempt_id

authorize_attempt-route :
    (policy : Policy) (task : TaskHandoff) (gearbox : GearboxDecision)
    → authorize_attempt policy task gearbox ≡ ok tt
    → ((task.state == "REJECTED") ≡ false)
      × (gearbox.operator_policy_sha256 ≡ policy.sha256)
      × (authorize_route policy task gearbox ≡ ok tt)
unfolding authorize_attempt
authorize_attempt-route policy task gearbox e =
    let (_, _, e₁) =
      >>=-eq-ok (validate_task_commands task.deterministic_command task.verification_command) _ e in
    let (live, e₂) = throw_if-ok (task.state == "REJECTED") _ _ e₁ in
    let (fits, e₃) =
      throw_if-ok
        (gearbox.schema != gearbox_schema
          || gearbox.selected_route_config.schema != child_route_schema
          || gearbox.operator_policy_sha256 != policy.sha256)
        _ _ e₂ in
    (live, (string_eq.agrees _ _).0 (negb-false _ (ground arith)), e₃)

module _ (h : Hash IndexContent) (world : World) (follow : KeepsProtocol world)
    (canonical : TaskHandoff → String) where
  update_state-ok :
      (patch : State → State) (clock : String) (before after : State)
      → update_state patch clock before ≡ ok after
      → record (patch before) { updated_at = clock } ≡ after
  unfolding update_state
  update_state-ok patch clock before after e =
      let (_, written) =
        throw_if-ok (negb (includes valid_supervisor_states (patch before).supervisor_state)) _ _
          e in
      ok_inj written

  activate_attempt-IsCreated :
      (start : ClaimIndex) (task : TaskHandoff) (gearbox : GearboxDecision)
      (launch_time clock : String) (r before s : AttemptRecords) (held claim : Claim)
      (attempt : ChildAttempt) (updated : Result State)
      → let made = new_attempt r task gearbox launch_time held in
        ((state : State)
          → updated ≡ ok state
          → IsCreated h world canonical start task gearbox r
              (record before {
                state = state;
                created_log = before.created_log ++ (made.attempt_id, held.claim_id) ∷ [];
              })
              made
              held)
        → activate_attempt task made held before updated ≡ (ok (attempt, claim), s)
        → IsCreated h world canonical start task gearbox r s attempt claim
  unfolding activate_attempt
  activate_attempt-IsCreated start task gearbox launch_time clock r before s held claim attempt
        (err m) x e =
      let bad = ap (λ o. o.0) e in cc
  activate_attempt-IsCreated start task gearbox launch_time clock r before s held claim attempt
        (ok state) x e =
      let made = new_attempt r task gearbox launch_time held in
      let after = activate_attempt task made held before (ok state) in
      let pair : (made, held) ≡ (attempt, claim) = ok_inj (ap (λ o. o.0) e) in
      subst (λ z. IsCreated h world canonical start task gearbox r z attempt claim)
        (ap (λ o. o.1) e)
        (subst (λ z. IsCreated h world canonical start task gearbox r (after.1) z.0 z.1) pair
          (x state refl))

  record_attempt-IsCreated :
      (start : ClaimIndex) (task : TaskHandoff) (gearbox : GearboxDecision)
      (launch_time clock : String) (r s : AttemptRecords) (attempt : ChildAttempt) (claim : Claim)
      (outcome : Result Claim × Claims)
      → authorize_attempt r.policy task gearbox ≡ ok tt
      → index_of r.claims.index.content ≡ some start
      → acquire_claim h world
          (claims_of h world canonical r)
          (claim_task h world canonical task)
          (new_attempt_id task)
        ≡ outcome
      → record_attempt task gearbox launch_time clock r outcome ≡ (ok (attempt, claim), s)
      → IsCreated h world canonical start task gearbox r s attempt claim
  unfolding record_attempt new_attempt policy_snapshot queued_task claims_of
  record_attempt-IsCreated start task gearbox launch_time clock r s attempt claim (err m, claims)
        authorized held acquired e =
      let bad = ap (λ o. o.0) e in cc
  record_attempt-IsCreated start task gearbox launch_time clock r s attempt claim (ok made, claims)
        authorized held acquired e =
      activate_attempt-IsCreated start task gearbox launch_time clock r _ s made claim attempt _
        (λ state updated.
          let written = update_state-ok _ clock r.state state updated in
          let (live, policy, route) = authorize_attempt-route r.policy task gearbox authorized in
          record {
            queued_task = queued_task task;
            not_rejected = live;
            current = policy;
            authorized = authorize_route-IsAuthorized r.policy task gearbox route;
            committed =
                acquire_claim-Committed h world follow (claims_of h world canonical r) claims
                  (claim_task h world canonical task) (new_attempt_id task) made start held
                  acquired;
            recorded = lookup-insert_self _ _ r.attempts;
            child_state = refl;
            no_process = refl;
            claim_id = refl;
            fence = refl;
            snapshot_fence = refl;
            policy = refl;
            written = lookup-insert_self _ _ r.tasks;
            state = refl;
            listed = refl;
            active_task = ap (λ u. u.active_task_id) (sym written);
            active_attempt = ap (λ u. u.active_attempt_id) (sym written);
          })
        e

  pub create_attempt-IsCreated :
      (start : ClaimIndex) (task : TaskHandoff) (gearbox : GearboxDecision)
      (launch_time clock : String) (r s : AttemptRecords) (attempt : ChildAttempt) (claim : Claim)
      → index_of r.claims.index.content ≡ some start
      → create_attempt h world canonical task gearbox launch_time clock r ≡ (ok (attempt, claim), s)
      → IsCreated h world canonical start task gearbox r s attempt claim
  unfolding create_attempt create_authorized
  create_attempt-IsCreated start task gearbox launch_time clock r s attempt claim held e =
      checked (authorize_attempt r.policy task gearbox) refl e
    where
      checked :
          (check : Result (Unit {0}))
          → authorize_attempt r.policy task gearbox ≡ check
          → create_authorized h world canonical task gearbox launch_time clock r check
            ≡ (ok (attempt, claim), s)
          → IsCreated h world canonical start task gearbox r s attempt claim
      checked (err m) authorized e = let bad = ap (λ o. o.0) e in cc
      checked (ok _) authorized e =
          record_attempt-IsCreated start task gearbox launch_time clock r s attempt claim _
            authorized held refl e
