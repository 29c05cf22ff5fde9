-- ===== src/Handoff/Attempt.antt =====
-- src/pipeline.js: `createAttempt`, which takes the claim of a task for a new attempt and records
-- the attempt. Of the policy, the snapshot holds what `Policy` has.
use durable_supervisor.Base.{
  List, Option, Result, String, [], err, if◌then◌else◌, insert, ltb, map, none, ok, some, suc, zero,
  ℕ, ◌%◌, ◌++◌, ◌+◌, ◌/◌, ◌==◌, ◌∷◌, string_eq,
}
use durable_supervisor.Store.{Hash}
use durable_supervisor.Claims.{Claims, World, acquire_claim, Task}
use durable_supervisor.Claims.Index.{Claim, IndexContent}
use durable_supervisor.Lifecycle.State.{State, update_state}
use durable_supervisor.Handoff.Task.{TaskHandoff}
use durable_supervisor.Handoff.Gearbox.{ChildRoute, GearboxDecision, Policy, authorize_attempt}

pub record PolicySnapshot : Type 0 where
  pub schema : String
  pub task_id : String
  pub attempt_id : String
  pub parent_objective_id : String
  pub parent_decision_id : Option String
  pub supervisor_id : String
  pub supervisor_generation : ℕ
  pub provider : Option String
  pub model : Option String
  pub reasoning_effort : Option String
  pub gearbox_decision : GearboxDecision
  pub selected_route : ChildRoute
  pub may_modify : List String
  pub may_not : List String
  pub policy_version : ℕ
  pub policy_sha256 : String
  pub claim_id : String
  pub fence_generation : ℕ
  pub expected_evidence : List String
  pub acceptance_criteria : List String
  pub launch_time : String

pub record ChildAttempt : Type 0 where
  pub schema : String
  pub task_id : String
  pub attempt_id : String
  pub attempt_number : ℕ
  pub child_state : String
  pub provider : Option String
  pub model : Option String
  pub gearbox_route : String
  pub claim_id : String
  pub fence_generation : ℕ
  pub pid : Option ℕ
  pub provider_run_id : Option String
  pub started_at : Option String
  pub heartbeat_at : Option String
  pub completed_at : Option String
  pub exit_code : Option ℕ
  pub raw_evidence : List String
  pub compact_packet : Option String
  pub completion_handoff : Option String
  pub acceptance : Option String
  pub supervisor_evaluation : Option String
  pub policy_snapshot : PolicySnapshot

unfoldable pub join : String → String → String
join String.[] right = right
join (String.◌∷◌ c left) right = String.◌∷◌ c (join left right)

unfoldable pub digit : List String → ℕ → String
digit [] n = ""
digit (d ∷ ds) zero = d
digit (d ∷ ds) (suc n) = digit ds n

abbrev pub digits : List String
digits = "0" ∷ "1" ∷ "2" ∷ "3" ∷ "4" ∷ "5" ∷ "6" ∷ "7" ∷ "8" ∷ "9" ∷ []

-- `String(n)` before a text; one more than `n` rounds are enough.
unfoldable pub decimal : ℕ → ℕ → String → String
decimal zero n rest = rest
decimal (suc rounds) n rest =
    let text = join (digit digits (n % 10)) rest in
    let more = decimal rounds (n / 10) text in if ltb n 10 then text else more

-- `String(n).padStart(3, '0')`
unfoldable pub padded : ℕ → String
padded n =
    let text = decimal (suc n) n "" in
    if ltb n 10 then join "00" text else if ltb n 100 then join "0" text else text

unfoldable pub attempts_length : List String → ℕ
attempts_length [] = 0
attempts_length (attempt ∷ attempts) = suc (attempts_length attempts)

unfoldable pub new_attempt_id : TaskHandoff → String
new_attempt_id task =
    join task.task_id (join "-attempt-" (padded (attempts_length task.attempts + 1)))

-- The files that `createAttempt` reads and writes. The claims' own view of the tasks is made from
-- `tasks` when the claim is acquired.
pub record AttemptRecords : Type 0 where
  pub policy : Policy
  pub claims : Claims
  pub tasks : List (String × TaskHandoff)
  pub attempts : List (String × ChildAttempt)
  pub state : State
  pub created_log : List (String × String)

abbrev pub if_codex {ℓ} : {A : Type ℓ} → GearboxDecision → Option A → Option A
if_codex gearbox value = if gearbox.selected_route == "codex" then value else none

unfoldable pub policy_snapshot :
    AttemptRecords → TaskHandoff → GearboxDecision → String → Claim → PolicySnapshot
policy_snapshot r task gearbox launch_time claim = record {
  schema = "opsle.durable-supervisor.delegation-policy-snapshot/v3";
  task_id = task.task_id;
  attempt_id = new_attempt_id task;
  parent_objective_id = task.parent_objective_id;
  parent_decision_id = task.parent_decision_id;
  supervisor_id = r.claims.supervisor.supervisor_id;
  supervisor_generation = r.claims.supervisor.generation;
  provider = if_codex gearbox (some "codex");
  model = if_codex gearbox r.policy.codex_model;
  reasoning_effort = if_codex gearbox r.policy.codex_reasoning_effort;
  gearbox_decision = gearbox;
  selected_route = gearbox.selected_route_config;
  may_modify = task.may_modify;
  may_not = task.may_not;
  policy_version = r.policy.version;
  policy_sha256 = r.policy.sha256;
  claim_id = claim.claim_id;
  fence_generation = claim.fence_generation;
  expected_evidence = task.expected_evidence;
  acceptance_criteria = task.acceptance_criteria;
  launch_time = launch_time;
}

unfoldable pub new_attempt :
    AttemptRecords → TaskHandoff → GearboxDecision → String → Claim → ChildAttempt
new_attempt r task gearbox launch_time claim = record {
  schema = "opsle.durable-supervisor.child-attempt/v1";
  task_id = task.task_id;
  attempt_id = new_attempt_id task;
  attempt_number = attempts_length task.attempts + 1;
  child_state = "QUEUED";
  provider = if_codex gearbox (some "codex");
  model = if_codex gearbox r.policy.codex_model;
  gearbox_route = gearbox.selected_route;
  claim_id = claim.claim_id;
  fence_generation = claim.fence_generation;
  pid = none;
  provider_run_id = none;
  started_at = none;
  heartbeat_at = none;
  completed_at = none;
  exit_code = none;
  raw_evidence = [];
  compact_packet = none;
  completion_handoff = none;
  acceptance = none;
  supervisor_evaluation = none;
  policy_snapshot = policy_snapshot r task gearbox launch_time claim;
}

unfoldable pub queued_task : TaskHandoff → TaskHandoff
queued_task task = record task {
  attempts = task.attempts ++ new_attempt_id task ∷ [];
  state = "QUEUED";
}

-- The end of `updateState` and the event of the attempt.
unfoldable pub activate_attempt :
    TaskHandoff
    → ChildAttempt
    → Claim
    → AttemptRecords
    → Result State
    → Result (ChildAttempt × Claim) × AttemptRecords
activate_attempt task attempt claim r (err e) = (err e, r)
activate_attempt task attempt claim r (ok state) = (
  ok (attempt, claim),
  record r {
    state = state;
    created_log = r.created_log ++ (attempt.attempt_id, claim.claim_id) ∷ [];
  },
)

-- The writes, after the claim has been acquired or refused.
unfoldable pub record_attempt :
    TaskHandoff
    → GearboxDecision
    → String
    → String
    → AttemptRecords
    → Result Claim × Claims
    → Result (ChildAttempt × Claim) × AttemptRecords
record_attempt task gearbox launch_time clock r (err e, claims) =
    (err e, record r { claims = claims })
record_attempt task gearbox launch_time clock r (ok claim, claims) =
    let attempt = new_attempt r task gearbox launch_time claim in
    activate_attempt task attempt claim
      (record r {
        claims = claims;
        attempts = insert attempt.attempt_id attempt r.attempts;
        tasks = insert task.task_id (queued_task task) r.tasks;
      })
      (update_state
        (λ s. record s {
          active_task_id = some task.task_id;
          active_attempt_id = some attempt.attempt_id;
        })
        clock r.state)

module _ (h : Hash IndexContent) (world : World) (canonical : TaskHandoff → String) where
  unfoldable pub claim_task : TaskHandoff → Task
  claim_task task = record {
    task_id = task.task_id;
    supervisor_id = task.supervisor_id;
    canonical_json = canonical task;
  }

  -- The claims, with the files of the tasks.
  unfoldable pub claims_of : AttemptRecords → Claims
  claims_of r = record (r.claims) { tasks = map (λ entry. (entry.0, claim_task entry.1)) r.tasks }

  unfoldable pub create_authorized :
      TaskHandoff
      → GearboxDecision
      → String
      → String
      → AttemptRecords
      → Result (Unit {0})
      → Result (ChildAttempt × Claim) × AttemptRecords
  create_authorized task gearbox launch_time clock r (err e) = (err e, r)
  create_authorized task gearbox launch_time clock r (ok _) =
      record_attempt task gearbox launch_time clock r
        (acquire_claim h world (claims_of r) (claim_task task) (new_attempt_id task))

  -- `createAttempt`, by `acquireClaim`.
  unfoldable pub create_attempt :
      TaskHandoff
      → GearboxDecision
      → String
      → String
      → AttemptRecords
      → Result (ChildAttempt × Claim) × AttemptRecords
  create_attempt task gearbox launch_time clock r =
      create_authorized task gearbox launch_time clock r (authorize_attempt r.policy task gearbox)
