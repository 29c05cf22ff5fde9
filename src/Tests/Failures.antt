-- ===== src/Tests/Failures.antt =====
-- src/cli.js: a Runner that has failed while its child's outcome is unknown.
use durable_supervisor.Base.{
  [], all_of, any, count, false, includes, insert, lookup, none, ok, refl, some, ◌∷◌, ◌≡◌,
}
use durable_supervisor.Store.{compare_and_swap}
use durable_supervisor.Claims.Index.{
  Claim, IndexContent, snapshot, read_index, valid_index, exact_claim_identity, exact_indexed_claim,
}
use durable_supervisor.Claims.{
  Claims, release_claim, release_rounds, release_round, release_index, release_swap, released,
  index_check,
}
use durable_supervisor.Failure.{
  FailureAttempt, FailureCall, FailureRecords, FailureTask, Host, Outcome, Worker, check_failure,
  commit_failure, reconcile_runner_failure, reconcile_checked, release_failed, failure_outcome,
  throw_first, call_checks, indexed_claim, exact_identity, has_evidence, other_reconciliation,
}
use durable_supervisor.Failure.Resumed.{
  IsProved, already_committed, reconcile_runner_failure_resumed, reconcile_runner_failure-IsProved,
}
use durable_supervisor.Tests.Shared.{alone, hash, first_claim, first_index, once_claimed}

abbrev failed_task : FailureTask
failed_task = record { task_id = "task-1"; state = "REJECTED"; attempts = "attempt-1" ∷ [] }

abbrev lost_attempt : FailureAttempt
lost_attempt = record {
  schema = "opsle.durable-supervisor.child-attempt/v1";
  task_id = "task-1";
  attempt_id = "attempt-1";
  claim_id = "claim";
  fence_generation = 1;
  policy_generation = some 1;
  child_state = "UNKNOWN";
  exit_code = none;
  compact_packet = none;
  completion_handoff = none;
  acceptance_state = none;
  pid = some 4711;
  runner_reconciliation = none;
}

abbrev worker : Worker
worker = record {
  schema = "opsle.durable-supervisor.detached-runner/v1";
  status = "FAILED";
  task_id = "task-1";
  attempt_id = "attempt-1";
  claim_id = "claim";
  fence_generation = 1;
  supervisor_id = "supervisor-1";
  supervisor_generation = 1;
  worker_pid = some 4710;
  failure = some "spawn failed";
  terminal_at = some "09:40";
}

abbrev records : FailureRecords
records = record {
  claims = once_claimed;
  tasks = ("task-1", failed_task) ∷ [];
  attempts = ("attempt-1", lost_attempt) ∷ [];
  workers = ("attempt-1", worker) ∷ [];
  events_log = record { type = "TASK_CREATED"; attempt_id = "" } ∷ [];
  executions = [];
}

abbrev call : FailureCall
call = record {
  task_id = "task-1";
  attempt_id = "attempt-1";
  claim_id = "claim";
  fence_generation = 1;
  supervisor_generation = 1;
  now = "10:00";
}

abbrev host : Host
host = record { is_process_alive = λ pid. false; worker_file = λ w. w.attempt_id }

checked : check_failure host call records ≡ ok (lost_attempt, (worker, first_claim))
unfolding check_failure throw_first call_checks indexed_claim exact_identity all_of has_evidence
    other_reconciliation lookup count includes any insert
checked = refl

reconcile_runner_failure_resumed_example :
    reconcile_runner_failure host hash alone call
      (commit_failure host call records lost_attempt worker)
    ≡ (
      already_committed (reconcile_runner_failure host hash alone call records).0,
      (reconcile_runner_failure host hash alone call records).1,
    )
reconcile_runner_failure_resumed_example =
    reconcile_runner_failure_resumed host hash alone call records lost_attempt worker first_claim
      checked

abbrev failed_claim : Claim
failed_claim = record first_claim { status = "FAILED"; completed_at = some "09:00" }

abbrev failed_claims : Claims
failed_claims = record once_claimed {
  index = record {
    content =
        some (IndexContent.json (record first_index { entries = ("task-1", failed_claim) ∷ [] }));
    lock_held = false;
  };
  claims = ("claim", failed_claim) ∷ [];
}

failed_run :
    release_claim hash alone once_claimed first_claim "FAILED" ≡ (ok failed_claim, failed_claims)
unfolding release_claim release_rounds release_round release_index release_swap released index_check
    exact_claim_identity exact_indexed_claim snapshot read_index valid_index lookup insert
    compare_and_swap
failed_run = rw (hash.same_refl (hash.sha256 (IndexContent.json first_index))) refl

abbrev after : FailureRecords
after = record (commit_failure host call records lost_attempt worker) { claims = failed_claims }

abbrev outcome : Outcome
outcome = record {
  reconciliation = "COMMITTED";
  task_id = "task-1";
  attempt_id = "attempt-1";
  runner_outcome = "FAILED";
  child_outcome = "UNKNOWN";
  claim_id = "claim";
  fence_generation = 1;
  claim_status = "FAILED";
  relaunched = false;
}

whole_run : reconcile_runner_failure host hash alone call records ≡ (ok outcome, after)
unfolding reconcile_runner_failure reconcile_checked release_failed failure_outcome
whole_run = rw (checked, failed_run) refl

reconcile_runner_failure-IsProved_example : IsProved host call records after
reconcile_runner_failure-IsProved_example =
    reconcile_runner_failure-IsProved host hash alone call records after outcome whole_run
