-- ===== src/Failure.antt =====
-- src/cli.js, `reconcileRunnerFailure`: the record that a detached Runner has failed while the outcome
-- of its child stays unknown, and the release of the claim that follows it.
pub mod Resumed
use durable_supervisor.Base.{
  Bool, List, Option, Result, String, [], all_of, any, count, err, false, if◌then◌else◌, includes,
  insert, is_none, leb, lookup, negb, none, nonempty, ok, or_throw, some, throw_if, truthy, ℕ, ◌!=◌,
  ◌&&◌, ◌==◌, ◌>>=◌, ◌>>◌, ◌||◌, ◌∷◌, option_nat_eq, string_eq, nat_eq,
}
use durable_supervisor.Store.{Hash}
use durable_supervisor.Claims.Index.{
  Claim, IndexContent, active, claim_schema, index_of, max_safe_integer,
}
use durable_supervisor.Claims.{Claims, World, release_claim}

abbrev pub reconciliation_schema : String
reconciliation_schema = "opsle.durable-supervisor.runner-failure-reconciliation/v1"

pub record FailureTask : Type 0 where
  pub task_id : String
  pub state : String
  pub attempts : List String

pub record RunnerReconciliation : Type 0 where
  pub schema : String
  pub status : String
  pub runner_outcome : String
  pub child_outcome : String
  pub claim_release_intent : String
  pub claim_id : String
  pub fence_generation : ℕ
  pub worker_record_sha256 : String
  pub worker_terminal_at : Option String
  pub worker_failure : Option String
  pub reconciled_by_supervisor_id : String
  pub reconciled_at_generation : ℕ
  pub committed_at : String

pub record FailureAttempt : Type 0 where
  pub schema : String
  pub task_id : String
  pub attempt_id : String
  pub claim_id : String
  pub fence_generation : ℕ
  -- `policy_snapshot?.supervisor_generation`
  pub policy_generation : Option ℕ
  pub child_state : String
  pub exit_code : Option ℕ
  pub compact_packet : Option String
  pub completion_handoff : Option String
  pub acceptance_state : Option String
  pub pid : Option ℕ
  pub runner_reconciliation : Option RunnerReconciliation

-- The record of the detached Runner in `workers`.
pub record Worker : Type 0 where
  pub schema : String
  pub status : String
  pub task_id : String
  pub attempt_id : String
  pub claim_id : String
  pub fence_generation : ℕ
  pub supervisor_id : String
  pub supervisor_generation : ℕ
  pub worker_pid : Option ℕ
  pub failure : Option String
  pub terminal_at : Option String

-- What a line of the event log says, for the search for a completion.
pub record LoggedEvent : Type 0 where
  pub type : String
  pub attempt_id : String

pub record FailureRecords : Type 0 where
  pub claims : Claims
  pub tasks : List (String × FailureTask)
  pub attempts : List (String × FailureAttempt)
  pub workers : List (String × Worker)
  pub events_log : List LoggedEvent
  -- The attempts that have an `execution.json`.
  pub executions : List String

pub record FailureCall : Type 0 where
  pub task_id : String
  pub attempt_id : String
  pub claim_id : String
  pub fence_generation : ℕ
  pub supervisor_generation : ℕ
  pub now : String

pub record Outcome : Type 0 where
  pub reconciliation : String
  pub task_id : String
  pub attempt_id : String
  pub runner_outcome : String
  pub child_outcome : String
  pub claim_id : String
  pub fence_generation : ℕ
  pub claim_status : String
  pub relaunched : Bool

abbrev positive_integer : ℕ → Bool
positive_integer n = leb 1 n && leb n max_safe_integer

-- `indexedClaim?.task_id === taskId` and the like.
abbrev pub indexed_exactly : FailureCall → Option Claim → Bool
indexed_exactly call none = false
indexed_exactly call (some indexed) =
    indexed.task_id == call.task_id
    && indexed.attempt_id == call.attempt_id
    && indexed.claim_id == call.claim_id
    && indexed.fence_generation == call.fence_generation

abbrev is_active : Option Claim → Bool
is_active none = false
is_active (some indexed) = indexed.status == active

unfoldable pub exact_identity :
    FailureCall → String → FailureTask → FailureAttempt → Worker → Claim → Option Claim → Bool
exact_identity call supervisor_id task attempt worker claim indexed = all_of (
    (task.task_id == call.task_id)
    ∷ (task.state == "REJECTED")
    ∷ (count call.attempt_id task.attempts == 1)
    ∷ (attempt.schema == "opsle.durable-supervisor.child-attempt/v1")
    ∷ (attempt.task_id == call.task_id)
    ∷ (attempt.attempt_id == call.attempt_id)
    ∷ (attempt.claim_id == call.claim_id)
    ∷ (attempt.fence_generation == call.fence_generation)
    ∷ (worker.schema == "opsle.durable-supervisor.detached-runner/v1")
    ∷ (worker.status == "FAILED")
    ∷ (worker.task_id == call.task_id)
    ∷ (worker.attempt_id == call.attempt_id)
    ∷ (worker.claim_id == call.claim_id)
    ∷ (worker.fence_generation == call.fence_generation)
    ∷ (worker.supervisor_id == supervisor_id)
    ∷ (some worker.supervisor_generation == attempt.policy_generation)
    ∷ (claim.schema == claim_schema)
    ∷ (includes (active ∷ "FAILED" ∷ []) claim.status)
    ∷ (claim.task_id == call.task_id)
    ∷ (claim.attempt_id == call.attempt_id)
    ∷ (claim.claim_id == call.claim_id)
    ∷ (claim.fence_generation == call.fence_generation)
    ∷ (claim.owner_supervisor_id == supervisor_id)
    ∷ (claim.owner_generation == worker.supervisor_generation)
    ∷ (indexed_exactly call indexed)
    ∷ [])

unfoldable pub has_evidence : FailureCall → FailureRecords → FailureAttempt → Bool
has_evidence call r attempt =
    attempt.child_state != "UNKNOWN"
    || negb (is_none attempt.exit_code)
    || negb (is_none attempt.compact_packet)
    || negb (is_none attempt.completion_handoff)
    || negb (is_none attempt.acceptance_state)
    || includes r.executions call.attempt_id
    || any (λ e. e.type == "CHILD_COMPLETION" && e.attempt_id == call.attempt_id) r.events_log

abbrev pub dead_process : (ℕ → Bool) → Option ℕ → Bool
dead_process alive none = false
dead_process alive (some pid) = leb pid max_safe_integer && negb (alive pid)

unfoldable pub other_reconciliation :
    FailureCall → String → String → Option RunnerReconciliation → Bool
other_reconciliation call supervisor_id worker_sha256 none = false
other_reconciliation call supervisor_id worker_sha256 (some existing) =
    existing.schema != reconciliation_schema
    || existing.status != "COMMITTED"
    || existing.runner_outcome != "FAILED"
    || existing.child_outcome != "UNKNOWN"
    || existing.claim_release_intent != "FAILED"
    || existing.claim_id != call.claim_id
    || existing.worker_record_sha256 != worker_sha256
    || existing.fence_generation != call.fence_generation
    || existing.reconciled_by_supervisor_id != supervisor_id

unfoldable pub new_reconciliation : FailureCall → String → Worker → String → RunnerReconciliation
new_reconciliation call supervisor_id worker worker_sha256 = record {
  schema = reconciliation_schema;
  status = "COMMITTED";
  runner_outcome = "FAILED";
  child_outcome = "UNKNOWN";
  claim_release_intent = "FAILED";
  claim_id = call.claim_id;
  fence_generation = call.fence_generation;
  worker_record_sha256 = worker_sha256;
  worker_terminal_at = worker.terminal_at;
  worker_failure = worker.failure;
  reconciled_by_supervisor_id = supervisor_id;
  reconciled_at_generation = call.supervisor_generation;
  committed_at = call.now;
}

-- The entry of the task in the index file, which must be a JSON object.
unfoldable pub indexed_claim : FailureCall → Claims → Result (Option Claim)
indexed_claim call claims = elim claims.index.content [
  | none ↦ err "ENOENT"
  | some content ↦ elim (index_of (some content)) [
    | none ↦ err "invalid durable JSON"
    | some index ↦ ok (lookup call.task_id index.entries)
  ]
]

-- `if (test) throw new Error(message)`, one after the other.
unfoldable pub throw_first : List (Bool × String) → Result (Unit {0})
throw_first [] = ok tt
throw_first ((test, message) ∷ rest) = throw_if test message >> throw_first rest

-- What the process table says, and the digest of the worker's file.
pub record Host : Type 0 where
  pub is_process_alive : ℕ → Bool
  pub worker_file : Worker → String

module _ (host : Host) where
  unfoldable pub call_checks : FailureCall → FailureRecords → List (Bool × String)
  call_checks call r =
      (
        negb (nonempty call.task_id)
            || negb (nonempty call.attempt_id)
            || negb (nonempty call.claim_id),
        "runner failure reconciliation requires exact task, attempt, and claim IDs",
      )
      ∷ (negb (positive_integer call.fence_generation), "fence generation")
      ∷ (negb (positive_integer call.supervisor_generation), "supervisor generation")
      ∷ (
        r.claims.supervisor.generation != call.supervisor_generation,
        "stale supervisor generation",
      )
      ∷ []

  abbrev pub record_checks :
      FailureCall
      → FailureRecords
      → FailureTask
      → FailureAttempt
      → Worker
      → Claim
      → Option Claim
      → List (Bool × String)
  record_checks call r task attempt worker claim indexed =
      (
        negb (
            exact_identity call r.claims.supervisor.supervisor_id task attempt worker claim
              indexed),
        "runner failure reconciliation identity or fence is ambiguous",
      )
      ∷ (has_evidence call r attempt, "child outcome is not exactly unknown and evidence-free")
      ∷ (
        negb (dead_process host.is_process_alive worker.worker_pid)
            || negb (dead_process host.is_process_alive attempt.pid),
        "exact detached Runner and child process death is not proven",
      )
      ∷ (
        negb (truthy worker.failure) || negb (truthy worker.terminal_at),
        "worker record is not exact terminal FAILED evidence",
      )
      ∷ (
        other_reconciliation call r.claims.supervisor.supervisor_id (host.worker_file worker)
            attempt.runner_reconciliation,
        "existing runner reconciliation is ambiguous",
      )
      ∷ (
        is_none attempt.runner_reconciliation
            && (claim.status != active || negb (is_active indexed)),
        "exact active claim is required before reconciliation commit",
      )
      ∷ []

  -- All that is read and tested before the reconciliation is committed.
  unfoldable pub check_failure :
      FailureCall → FailureRecords → Result (FailureAttempt × (Worker × Claim))
  check_failure call r = do
    throw_first (call_checks call r)
    task ← or_throw (lookup call.task_id r.tasks) "missing exact task record"
    attempt ← or_throw (lookup call.attempt_id r.attempts) "missing exact attempt record"
    worker ← or_throw (lookup call.attempt_id r.workers) "missing exact worker record"
    claim ← or_throw (lookup call.claim_id r.claims.claims) "missing exact claim record"
    indexed ← indexed_claim call r.claims
    throw_first (record_checks call r task attempt worker claim indexed)
    ok (attempt, (worker, claim))

  -- The attempt with the reconciliation, which is written unless it was there.
  unfoldable pub commit_failure :
      FailureCall → FailureRecords → FailureAttempt → Worker → FailureRecords
  commit_failure call r attempt worker = elim attempt.runner_reconciliation [
    | some existing ↦ r
    | none ↦
        let committed = record attempt {
          runner_reconciliation = some (
              new_reconciliation call r.claims.supervisor.supervisor_id worker
                (host.worker_file worker));
        } in
        record r { attempts = insert call.attempt_id committed r.attempts }
  ]

  unfoldable pub failure_outcome : FailureCall → FailureAttempt → Claim → Outcome
  failure_outcome call attempt released = record {
    reconciliation =
        if is_none attempt.runner_reconciliation then "COMMITTED" else "ALREADY_COMMITTED";
    task_id = call.task_id;
    attempt_id = call.attempt_id;
    runner_outcome = "FAILED";
    child_outcome = "UNKNOWN";
    claim_id = call.claim_id;
    fence_generation = call.fence_generation;
    claim_status = released.status;
    relaunched = false;
  }

  -- After the commit: the claim is released.
  unfoldable pub release_failed :
      FailureCall
      → FailureAttempt
      → FailureRecords
      → Result Claim × Claims
      → Result Outcome × FailureRecords
  release_failed call attempt r (err e, claims) = (err e, record r { claims = claims })
  release_failed call attempt r (ok released, claims) =
      (ok (failure_outcome call attempt released), record r { claims = claims })

  module _ (h : Hash IndexContent) (world : World) where
    unfoldable pub reconcile_checked :
        FailureCall
        → FailureRecords
        → Result (FailureAttempt × (Worker × Claim))
        → Result Outcome × FailureRecords
    reconcile_checked call r (err e) = (err e, r)
    reconcile_checked call r (ok (attempt, (worker, claim))) =
        release_failed call attempt (commit_failure call r attempt worker)
          (release_claim h world r.claims claim "FAILED")

    -- `reconcileRunnerFailure`: the outcome or the error, and the records after it.
    unfoldable pub reconcile_runner_failure :
        FailureCall → FailureRecords → Result Outcome × FailureRecords
    unfolding reconcile_checked
    reconcile_runner_failure call r = reconcile_checked call r (check_failure call r)
